-- ===== src/Types/Fixes.antt =====
-- crates/cockpitctl-types/src/lib.rs: the buildfix plan and what comes of it.
-- `V` is `serde_json::Value`, an opaque payload here; it fills the field `data` of the source.
use Prim.Native.Nat.{ℕ}
use Prim.Native.String.{String}
use mathlib.Core.Bool.{Bool}
use mathlib.Core.Option.{Option}
use mathlib.Core.List.{List}
use cockpitctl.Types.Enums.{SafetyLevel, BuildfixApplyStatus}
use cockpitctl.Types.Run.{ToolInfo}

pub record FindingRef : Type 0 where
  pub sensor_id : String
  pub fingerprint : Option String
  pub code : Option String
  pub tool : Option String
  pub check_id : Option String

pub record Preconditions : Type 0 where
  pub repo_head : String
  pub receipt_digests : List String

pub record Fix (V : Type 0) : Type 0 where
  pub id : String
  pub safety : SafetyLevel
  pub description : String
  pub finding_refs : List FindingRef
  pub preconditions : Option Preconditions
  pub payload : Option V

pub record BuildfixPlan (V : Type 0) : Type 0 where
  pub schema : String
  pub tool : ToolInfo
  pub fixes : List (Fix V)

pub record MatchedFinding : Type 0 where
  pub sensor_id : String
  pub code : String
  pub fingerprint : Option String

pub record FixSummary : Type 0 where
  pub fix_id : String
  pub sensor_id : String
  pub safety : SafetyLevel
  pub description : String
  pub matched_findings : List MatchedFinding
  pub unmatched : Bool

pub record BuildfixSummary : Type 0 where
  pub fixes : List FixSummary
  pub total_fixes : ℕ
  pub matched_count : ℕ
  pub unmatched_count : ℕ

pub record BuildfixApplyRequest : Type 0 where
  pub schema : String
  pub max_auto_apply_safety : SafetyLevel
  pub require_matched_finding : Bool
  pub fixes : List FixSummary

pub record BuildfixActuatorResult : Type 0 where
  pub applied_fix_ids : List String
  pub skipped_fix_ids : List String
  pub errors : List String

pub record BuildfixApplySummary : Type 0 where
  pub status : BuildfixApplyStatus
  pub auto_apply_enabled : Bool
  pub max_auto_apply_safety : SafetyLevel
  pub require_matched_finding : Bool
  pub candidate_fix_ids : List String
  pub selected_fix_ids : List String
  pub applied_fix_ids : List String
  pub skipped_fix_ids : List String
  pub errors : List String
  pub reason : Option String
  pub actuator_command : Option String
