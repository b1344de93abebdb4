-- ===== src/Cli/Signing.antt =====
-- The key that `cmd_ingest` of crates/cockpitctl-cli/src/main.rs signs with.
use cockpitctl.Base.{◌≡◌, true, ◌||◌, is_some, none, arith, if◌then◌else◌}
use cockpitctl.Types.Config.{PolicySigningConfig}
use cockpitctl.Cli.Options.{
  IngestOptions, sign_switch, sign_key_path, sign_key_env, sign_key_id, effective_policy_signing,
}

-- Where the options name a file or a variable for the key, signing is on, the key has one source only,
-- and it is the variable if there is one and else the file, whatever the configuration says.
pub effective_policy_signing-source :
    (opts : IngestOptions) (cfg : PolicySigningConfig)
    → is_some opts.policy_sign_key_path || is_some opts.policy_sign_key_env ≡ true
    → let effective = effective_policy_signing opts cfg in
      (effective.enabled ≡ true)
      × (effective.key_env ≡ opts.policy_sign_key_env)
      × (effective.key_path
          ≡ (if is_some opts.policy_sign_key_env then none else opts.policy_sign_key_path))
unfolding effective_policy_signing sign_switch sign_key_path sign_key_env sign_key_id
effective_policy_signing-source opts cfg h = ground arith
