-- ===== src/Sarif.antt =====
-- crates/cockpitctl-sarif/src/lib.rs: the export of a cockpit report as a SARIF log.
pub mod Rules
use cockpitctl.Base.{
  ℕ, String, Bool, true, false, ◌||◌, Option, none, some, List, [], ◌∷◌, map, concat,
  string_compare, is_some, if◌then◌else◌,
}
use cockpitctl.Base.Map
use cockpitctl.Base.Map.{BTreeMap}
use cockpitctl.Types.Enums.{Severity}
use cockpitctl.Types.Findings.{Location, Highlight}
use cockpitctl.Types.Reports.{CockpitReport}
use cockpitctl.Ingest.Result.{Result, ok, err, ◌>>=◌}
use Prim.Native.String.{◌++◌ as append}

pub record SarifMessage : Type 0 where
  pub text : String

pub record SarifRule : Type 0 where
  pub id : String
  pub short_description : Option SarifMessage

pub record SarifToolComponent : Type 0 where
  pub name : String
  pub version : String
  pub rules : List SarifRule

pub record SarifTool : Type 0 where
  pub driver : SarifToolComponent

pub record SarifArtifactLocation : Type 0 where
  pub uri : String

pub record SarifRegion : Type 0 where
  pub start_line : Option ℕ
  pub start_column : Option ℕ

pub record SarifPhysicalLocation : Type 0 where
  pub artifact_location : SarifArtifactLocation
  pub region : Option SarifRegion

pub record SarifLocation : Type 0 where
  pub physical_location : SarifPhysicalLocation

pub record SarifResult : Type 0 where
  pub rule_id : String
  pub level : String
  pub message : SarifMessage
  pub locations : List SarifLocation
  pub fingerprints : BTreeMap String String

pub record SarifRun : Type 0 where
  pub tool : SarifTool
  pub results : List SarifResult

pub record SarifLog : Type 0 where
  pub schema : String
  pub version : String
  pub runs : List SarifRun

unfoldable pub severity_to_sarif_level : Severity → String
severity_to_sarif_level Severity.error = "error"
severity_to_sarif_level Severity.warn = "warning"
severity_to_sarif_level Severity.info = "note"

region_of : Location → Option SarifRegion
region_of loc =
    if is_some loc.line || is_some loc.col
    then some (record { start_line = loc.line; start_column = loc.col })
    else none

-- A location without a path is left out.
unfoldable pub sarif_locations : Option Location → List SarifLocation
unfolding region_of
sarif_locations none = []
sarif_locations (some loc) = elim loc.path [
  | none ↦ []
  | some path ↦
      record {
        physical_location = record {
          artifact_location = record { uri = path };
          region = region_of loc;
        };
      }
      ∷ []
]

unfoldable pub sarif_fingerprints : Option String → BTreeMap String String
unfolding Map.insert
sarif_fingerprints none = []
sarif_fingerprints (some fp) = Map.insert string_compare "cockpitctl/v1" fp []

module _ {V : Type 0} where
  unfoldable pub highlight_to_sarif_result : Highlight V → SarifResult
  unfolding severity_to_sarif_level sarif_locations sarif_fingerprints
  highlight_to_sarif_result h = record {
    rule_id = h.finding.code;
    level = severity_to_sarif_level h.finding.severity;
    message = record { text = h.finding.message };
    locations = sarif_locations h.finding.location;
    fingerprints = sarif_fingerprints h.finding.fingerprint;
  }

  unfoldable pub rule_of : Highlight V → SarifRule
  unfolding concat
  rule_of h = record {
    id = h.finding.code;
    short_description =
        some (record { text = concat ("[" ∷ h.sensor_id ∷ "] " ∷ h.finding.code ∷ []) });
  }

  unfoldable pub rules_map :
      BTreeMap String SarifRule → List (Highlight V) → BTreeMap String SarifRule
  unfolding rule_of Map.or_insert
  rules_map m [] = m
  rules_map m (h ∷ rest) =
      rules_map (Map.or_insert string_compare h.finding.code (rule_of h) m) rest

unfoldable pub cockpit_report_to_sarif : {V : Type 0} → CockpitReport V → SarifLog
unfolding rules_map highlight_to_sarif_result
cockpit_report_to_sarif report = record {
  schema =
      "https://raw.githubusercontent.com/oasis-tcs/sarif-spec/main/sarif-2.1/schema/sarif-schema-2.1.0.json";
  version = "2.1.0";
  runs =
      record {
        tool = record {
          driver = record {
            name = report.tool.name;
            version = report.tool.version;
            rules = map (λ e. e.1) (rules_map [] report.highlights);
          };
        };
        results = map highlight_to_sarif_result report.highlights;
      }
      ∷ [];
}

-- `to_string_pretty` is `serde_json::to_string_pretty`.
unfoldable pub cockpit_report_to_sarif_json :
    {V : Type 0} → (to_string_pretty : SarifLog → Result String) → CockpitReport V → Result String
unfolding cockpit_report_to_sarif
cockpit_report_to_sarif_json to_string_pretty report =
    to_string_pretty (cockpit_report_to_sarif report) >>= λ json. ok (append json "\n")
