-- ===== src/Ingest/Ports.antt =====
-- The ports of the use case (traits in crates/cockpitctl-ingest/src/lib.rs), and what it takes from
-- other crates. A port's answer does not change during a run.
use cockpitctl.Base.{ℕ, String, Bool, Option, List}
use cockpitctl.Types.Enums.{SchemaValidation}
use cockpitctl.Types.Run.{ToolInfo, RunInfo}
use cockpitctl.Types.Findings.{SensorReport}
use cockpitctl.Types.Config.{CockpitConfig}
use cockpitctl.Types.Reports.{CockpitReport}
use cockpitctl.Types.Fixes.{BuildfixPlan, BuildfixSummary}
use cockpitctl.Ingest.Result.{Result}

-- `Vec<u8>`
abbrev pub Bytes : Type 0
Bytes = List ℕ

pub record DiscoveredSensors : Type 0 where
  pub sensors : List String
  pub truncated : Bool
  pub total_found : ℕ
  pub invalid_sensor_ids : List String

pub data ReportRead : Type 0 where
  missing : ReportRead
  bytes : Bytes → ReportRead
  oversized : (size cap : ℕ) → ReportRead
  unsafe_path : ReportRead

pub data CommentRead : Type 0 where
  missing : CommentRead
  present : String → CommentRead
  unsafe_path : CommentRead

pub data PlanRead : Type 0 where
  missing : PlanRead
  bytes : Bytes → PlanRead
  oversized : (size cap : ℕ) → PlanRead

pub data SchemaValidationResult : Type 0 where
  valid : SchemaValidationResult
  invalid : List String → SchemaValidationResult

-- `serde_json::from_slice`: the value, or the message of the error.
pub data Parsed (A : Type 0) : Type 0 where
  parsed : A → Parsed A
  malformed : String → Parsed A

-- `ReceiptSource`, `PolicySource`, `SchemaValidator` and the render function.
pub record Ports (V : Type 0) : Type 0 where
  pub discovered_sensors : Result DiscoveredSensors
  pub read_report_bytes : String → Result ReportRead
  pub report_path : String → String
  pub comment_path_if_present : String → Result CommentRead
  pub read_plan_bytes : String → Result PlanRead
  pub load_config : Result (Option CockpitConfig)
  pub validate_receipt : Bytes → Result SchemaValidationResult
  pub render : CockpitReport V → CockpitConfig → String

-- What is used of `serde_json`, `sha2` and `hex`. `insert_entry` is `Map::insert` on a value that is
-- an object, and leaves any other value as it is.
pub record Codec (V : Type 0) : Type 0 where
  pub parse_report : Bytes → Parsed (SensorReport V)
  pub parse_plan : Bytes → Parsed (BuildfixPlan V)
  pub to_string_pretty : CockpitReport V → Result String
  pub buildfix_to_value : BuildfixSummary → Option V
  pub empty_object : V
  pub insert_entry : String → V → V → V
  pub sha256_hex : String → String

-- `OutputSink`, over the state `W` of what it writes to.
pub record OutputSink (W : Type 0) : Type 0 where
  pub write_cockpit_report : String → W → Result (Unit {0}) × W
  pub write_cockpit_comment : String → W → Result (Unit {0}) × W

pub record IngestRequest : Type 0 where
  pub labels : List String
  pub tool : ToolInfo
  pub run : RunInfo
  pub schema_validation_override : Option SchemaValidation

pub record IngestResult (V : Type 0) : Type 0 where
  pub report : CockpitReport V
  pub comment_md : String
  pub exit_code : ℕ
  pub buildfix : Option BuildfixSummary

-- `NoOpSchemaValidator`
unfoldable pub no_op_validate_receipt : Bytes → Result SchemaValidationResult
no_op_validate_receipt receipt = Result.ok SchemaValidationResult.valid
