-- ===== src/Conform/Single.antt =====
-- crates/cockpitctl-conform/src/single.rs. `J` is a JSON value.
pub mod Pass
use cockpitctl.Base.{
  String, Bool, true, false, ◌&&◌, ◌||◌, not, List, [], ◌∷◌, ◌++◌, map, if◌then◌else◌,
}
use cockpitctl.Types.Enums.{VerdictStatus}
use cockpitctl.Types.Ranks.{status_eq}
use cockpitctl.Types.Findings.{SensorReport}
use cockpitctl.Types.Reports.{CockpitReport}
use cockpitctl.Render.Sections.{no_items}
use cockpitctl.Ingest.Result.{Result, ok, err, ◌>>=◌, context}
use cockpitctl.Conform.Checks.{
  when, check_path_hygiene, check_ordering, check_reason_tokens, check_tool_error_identity,
  check_sensor_id_format, check_artifact_pointers, check_cockpit_reason_tokens,
  check_presence_semantics,
}

pub record ConformChecks : Type 0 where
  pub path_hygiene : Bool
  pub ordering : Bool
  pub reason_lint : Bool
  pub survivability : Bool
  pub tool_error_identity : Bool
  pub sensor_id_format : Bool
  pub artifact_pointers : Bool

pub record Violation : Type 0 where
  pub check : String
  pub message : String

pub record ConformResult : Type 0 where
  pub violations : List Violation

unfoldable pub is_pass : ConformResult → Bool
is_pass result = no_items result.violations

-- The messages of one check, if it is enabled.
unfoldable pub labelled : Bool → String → List String → List Violation
labelled enabled check messages =
    if enabled then map (λ msg. record { check = check; message = msg }) messages else []

-- What is used of `serde_json` and `jsonschema`: the parsers, the compilation of a schema, the errors
-- that it finds, printed, and the two embedded schemas.
pub record Json (V J C : Type 0) : Type 0 where
  pub from_str : String → Result J
  pub validator_for : J → Result C
  pub iter_errors : C → J → List String
  pub to_sensor_report : J → Result (SensorReport V)
  pub parse_cockpit_report : String → Result (CockpitReport V)
  pub debug : String → String
  pub sensor_report_schema : String
  pub cockpit_report_schema : String

module _ {V J C : Type 0} (json : Json V J C) where
  unfoldable pub survivability_violations : SensorReport V → List String
  survivability_violations parsed =
      when
        (status_eq parsed.verdict.status VerdictStatus.fail
          && not (not (no_items parsed.findings) || not (no_items parsed.verdict.reasons)))
        "status=fail but no findings or reasons"

  unfoldable pub extended_violations : SensorReport V → String → ConformChecks → List Violation
  unfolding labelled survivability_violations check_path_hygiene check_ordering check_reason_tokens
      check_tool_error_identity check_sensor_id_format check_artifact_pointers
  extended_violations parsed sensor_id cfg =
      labelled cfg.survivability "survivability" (survivability_violations parsed)
      ++ labelled cfg.path_hygiene "path_hygiene" (check_path_hygiene parsed)
      ++ labelled cfg.ordering "ordering" (check_ordering parsed sensor_id)
      ++ labelled cfg.reason_lint "reason_lint" (check_reason_tokens json.debug parsed)
      ++ labelled cfg.tool_error_identity "tool_error_identity" (check_tool_error_identity parsed)
      ++ labelled cfg.sensor_id_format "sensor_id_format"
          (check_sensor_id_format json.debug sensor_id)
      ++ labelled cfg.artifact_pointers "artifact_pointers" (check_artifact_pointers parsed)

  -- What follows the validation against the schema.
  unfoldable pub after_schema : J → String → ConformChecks → List String → Result ConformResult
  unfolding labelled extended_violations
  after_schema value sensor_id cfg [] =
      context "parse as SensorReport" (json.to_sensor_report value) >>= λ parsed.
      ok (record { violations = extended_violations parsed sensor_id cfg })
  after_schema value sensor_id cfg (e ∷ errors) =
      ok (record { violations = labelled true "schema" (e ∷ errors) })

  unfoldable pub conform_single : String → String → ConformChecks → Result ConformResult
  unfolding after_schema
  conform_single content sensor_id cfg = context "parse JSON" (json.from_str content) >>= λ value.
      context "parse embedded sensor.report.v1 schema" (json.from_str json.sensor_report_schema)
      >>= λ schema.
          context "compile sensor.report.v1 schema" (json.validator_for schema) >>= λ validator.
          after_schema value sensor_id cfg (json.iter_errors validator value)

  unfoldable pub validate_cockpit_schema : String → Result (List Violation)
  unfolding labelled
  validate_cockpit_schema content = context "parse JSON" (json.from_str content) >>= λ value.
      context "parse embedded cockpit.report.v1 schema" (json.from_str json.cockpit_report_schema)
      >>= λ schema.
          context "compile cockpit.report.v1 schema" (json.validator_for schema) >>= λ validator.
          ok (labelled true "schema" (json.iter_errors validator value))

  unfoldable pub check_cockpit_extended : String → Bool → Bool → Result (List Violation)
  unfolding labelled check_cockpit_reason_tokens check_presence_semantics
  check_cockpit_extended content reason_lint presence_semantics =
      context "parse cockpit report for extended checks" (json.parse_cockpit_report content)
      >>= λ parsed. ok (
          labelled reason_lint "reason_lint" (check_cockpit_reason_tokens json.debug parsed)
          ++ labelled presence_semantics "presence_semantics" (check_presence_semantics parsed))
