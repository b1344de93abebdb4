-- ===== src/Cli/Options.antt =====
-- The effective configuration of `cmd_ingest` in crates/cockpitctl-cli/src/main.rs.
use mathlib.Core.Option.{get_or}
use cockpitctl.Base.{
  ℕ, String, Bool, true, false, ◌||◌, is_some, Option, none, some, [], ◌∷◌, trim, is_empty,
  if◌then◌else◌,
}
use cockpitctl.Types.Enums.{SafetyLevel}
use cockpitctl.Types.Config.{BuildfixActuatorConfig, BuildfixPolicy, PolicySigningConfig}
use cockpitctl.Ingest.Result.{Result, ok, err, ◌>>=◌}

-- The options of `ingest` that change the configuration.
pub record IngestOptions : Type 0 where
  pub buildfix_auto_apply : Bool
  pub buildfix_max_auto_apply_safety : Option SafetyLevel
  pub buildfix_actuator : Option String
  pub buildfix_actuator_timeout_ms : Option ℕ
  pub policy_sign : Bool
  pub policy_sign_key_path : Option String
  pub policy_sign_key_env : Option String
  pub policy_sign_key_id : Option String

-- The actuator of the configuration, or one without a command, with the options' command and
-- timeout.
unfoldable pub overridden_actuator :
    IngestOptions → Option BuildfixActuatorConfig → BuildfixActuatorConfig
overridden_actuator opts configured =
    let base = get_or configured (record { command = ""; timeout_ms = 30000 }) in
    record {
      command = get_or opts.buildfix_actuator base.command;
      timeout_ms = get_or opts.buildfix_actuator_timeout_ms base.timeout_ms;
    }

unfoldable pub effective_actuator :
    IngestOptions → Option BuildfixActuatorConfig → Result (Option BuildfixActuatorConfig)
unfolding overridden_actuator trim is_empty
effective_actuator opts configured =
    let actuator = overridden_actuator opts configured in
    if is_some opts.buildfix_actuator || is_some opts.buildfix_actuator_timeout_ms
    then (if is_empty (trim actuator.command)
        then err (
            "buildfix actuator command is empty; set [buildfix.actuator].command or pass --buildfix-actuator"
            ∷ [])
        else ok (some actuator))
    else ok configured

unfoldable pub effective_buildfix : IngestOptions → BuildfixPolicy → Result BuildfixPolicy
unfolding effective_actuator
effective_buildfix opts cfg = effective_actuator opts cfg.actuator >>= λ actuator. ok (record {
  auto_apply = if opts.buildfix_auto_apply then true else cfg.auto_apply;
  max_auto_apply_safety = get_or opts.buildfix_max_auto_apply_safety cfg.max_auto_apply_safety;
  require_matched_finding = cfg.require_matched_finding;
  actuator = actuator;
})

unfoldable pub sign_switch : Bool → PolicySigningConfig → PolicySigningConfig
sign_switch true cfg = record cfg { enabled = true }
sign_switch false cfg = cfg

unfoldable pub sign_key_path : Option String → PolicySigningConfig → PolicySigningConfig
sign_key_path none cfg = cfg
sign_key_path (some path) cfg = record cfg { enabled = true; key_path = some path; key_env = none }

unfoldable pub sign_key_env : Option String → PolicySigningConfig → PolicySigningConfig
sign_key_env none cfg = cfg
sign_key_env (some env_name) cfg = record cfg {
  enabled = true;
  key_env = some env_name;
  key_path = none;
}

unfoldable pub sign_key_id : Option String → PolicySigningConfig → PolicySigningConfig
sign_key_id none cfg = cfg
sign_key_id (some key_id) cfg = record cfg { enabled = true; key_id = some key_id }

unfoldable pub effective_policy_signing : IngestOptions → PolicySigningConfig → PolicySigningConfig
unfolding sign_switch sign_key_path sign_key_env sign_key_id
effective_policy_signing opts cfg = sign_key_id opts.policy_sign_key_id (
    sign_key_env opts.policy_sign_key_env
      (sign_key_path opts.policy_sign_key_path (sign_switch opts.policy_sign cfg)))

unfoldable pub buildfix_apply_requested : IngestOptions → BuildfixPolicy → Bool
buildfix_apply_requested opts effective =
    effective.auto_apply
    || opts.buildfix_auto_apply
    || is_some opts.buildfix_max_auto_apply_safety
    || is_some opts.buildfix_actuator
    || is_some opts.buildfix_actuator_timeout_ms
