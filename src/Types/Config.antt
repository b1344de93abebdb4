-- ===== src/Types/Config.antt =====
-- crates/cockpitctl-types/src/lib.rs: the composition policy, `cockpit.toml`.
use Prim.Native.Nat.{ℕ}
use Prim.Native.String.{String}
use mathlib.Core.Bool.{Bool}
use mathlib.Core.Option.{Option}
use mathlib.Core.List.{List}
use cockpitctl.Base.Map.{BTreeMap}
use cockpitctl.Types.Enums.{
  MissingPolicy, SchemaValidation, SafetyLevel, PolicySignatureAlgorithm, HookWhen,
}

pub record SensorPolicy : Type 0 where
  pub blocking : Bool
  pub missing : MissingPolicy
  pub section : Option String
  pub require_label : Option String
  pub repro : Option String

pub record BuildfixActuatorConfig : Type 0 where
  pub command : String
  pub timeout_ms : ℕ

pub record BuildfixPolicy : Type 0 where
  pub auto_apply : Bool
  pub max_auto_apply_safety : SafetyLevel
  pub require_matched_finding : Bool
  pub actuator : Option BuildfixActuatorConfig

pub record Policy : Type 0 where
  pub warn_is_fail : Bool
  pub max_highlights : ℕ
  pub max_per_sensor_findings : ℕ
  pub max_annotations : ℕ
  pub section_order : List String
  pub schema_validation : SchemaValidation
  pub max_receipt_size_bytes : ℕ

pub record PolicySigningConfig : Type 0 where
  pub enabled : Bool
  pub algorithm : PolicySignatureAlgorithm
  pub key_path : Option String
  pub key_env : Option String
  pub key_id : Option String

pub record HookConfig : Type 0 where
  pub name : String
  pub command : String
  pub when : HookWhen
  pub timeout_ms : ℕ

pub record CockpitConfig : Type 0 where
  pub policy : Policy
  pub buildfix : BuildfixPolicy
  pub policy_signing : PolicySigningConfig
  pub sensors : BTreeMap String SensorPolicy
  pub hooks : List HookConfig
