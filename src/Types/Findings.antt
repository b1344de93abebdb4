-- ===== src/Types/Findings.antt =====
-- crates/cockpitctl-types/src/lib.rs: findings, verdicts and the receipt of a sensor.
-- `V` is `serde_json::Value`, an opaque payload here; it fills the field `data` of the source.
use Prim.Native.Nat.{ℕ}
use Prim.Native.String.{String}
use mathlib.Core.Option.{Option}
use mathlib.Core.List.{List}
use cockpitctl.Types.Enums.{VerdictStatus, Severity}
use cockpitctl.Types.Run.{ToolInfo, RunInfo}

pub record Location : Type 0 where
  pub path : Option String
  pub line : Option ℕ
  pub col : Option ℕ

pub record Finding (V : Type 0) : Type 0 where
  pub severity : Severity
  pub check_id : Option String
  pub code : String
  pub message : String
  pub location : Option Location
  pub help : Option String
  pub url : Option String
  pub fingerprint : Option String
  pub payload : Option V

pub record Highlight (V : Type 0) : Type 0 where
  pub sensor_id : String
  pub finding : Finding V

pub record VerdictCounts : Type 0 where
  pub info : ℕ
  pub warn : ℕ
  pub error : ℕ
  pub suppressed : ℕ

pub record Verdict : Type 0 where
  pub status : VerdictStatus
  pub counts : VerdictCounts
  pub reasons : List String

pub record ArtifactPointer : Type 0 where
  pub id : String
  pub path : String
  pub mime : String
  pub schema : Option String

pub record SensorReport (V : Type 0) : Type 0 where
  pub schema : String
  pub tool : ToolInfo
  pub run : RunInfo
  pub verdict : Verdict
  pub findings : List (Finding V)
  pub artifacts : List ArtifactPointer
  pub payload : Option V
