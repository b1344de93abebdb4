-- ===== src/Types/Deltas.antt =====
-- crates/cockpitctl-types/src/lib.rs: the difference of two cockpit reports.
use Prim.Native.Nat.{ℕ}
use Prim.Native.String.{String}
use mathlib.Core.Option.{Option}
use mathlib.Core.List.{List}
use cockpitctl.Base.Int.{ℤ}
use cockpitctl.Types.Enums.{VerdictStatus, Severity}

pub record VerdictChange : Type 0 where
  pub before : VerdictStatus
  pub after : VerdictStatus

pub record CountDeltas : Type 0 where
  pub info_delta : ℤ
  pub warn_delta : ℤ
  pub error_delta : ℤ

pub record TrendFinding : Type 0 where
  pub sensor_id : String
  pub code : String
  pub message : String
  pub path : Option String
  pub line : Option ℕ
  pub fingerprint : Option String
  pub severity : Severity

pub record TrendDelta : Type 0 where
  pub verdict_change : Option VerdictChange
  pub count_deltas : CountDeltas
  pub new_findings : List TrendFinding
  pub fixed_findings : List TrendFinding
  pub sensors_added : List String
  pub sensors_removed : List String
