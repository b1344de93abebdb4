-- ===== src/Types/Reports.antt =====
-- crates/cockpitctl-types/src/lib.rs: the cockpit report.
-- `V` is `serde_json::Value`, an opaque payload here; it fills the field `data` of the source.
use Prim.Native.Nat.{ℕ}
use Prim.Native.String.{String}
use mathlib.Core.Bool.{Bool}
use mathlib.Core.Option.{Option}
use mathlib.Core.List.{List}
use cockpitctl.Types.Enums.{MissingPolicy, Presence, PolicyOutcome}
use cockpitctl.Types.Run.{ToolInfo, RunInfo}
use cockpitctl.Types.Findings.{Highlight, Verdict}

pub record SensorSummary : Type 0 where
  pub id : String
  pub blocking : Bool
  pub missing : MissingPolicy
  pub presence : Presence
  pub report_path : String
  pub comment_path : Option String
  pub verdict : Verdict
  pub truncated : Bool
  pub errors : List String
  pub missing_policy_applied : Option MissingPolicy
  pub policy_outcome : Option PolicyOutcome

pub record PolicySensorSnapshot : Type 0 where
  pub id : String
  pub blocking : Bool
  pub missing : MissingPolicy
  pub section : Option String
  pub require_label : Option String
  pub repro : Option String

pub record PolicySnapshot : Type 0 where
  pub warn_is_fail : Bool
  pub max_highlights : ℕ
  pub max_per_sensor_findings : ℕ
  pub max_annotations : ℕ
  pub section_order : List String
  pub sensors : List PolicySensorSnapshot

pub record CockpitReport (V : Type 0) : Type 0 where
  pub schema : String
  pub tool : ToolInfo
  pub run : RunInfo
  pub verdict : Verdict
  pub sensors : List SensorSummary
  pub highlights : List (Highlight V)
  pub policy : PolicySnapshot
  pub payload : Option V
