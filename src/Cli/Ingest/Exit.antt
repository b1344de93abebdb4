-- ===== src/Cli/Ingest/Exit.antt =====
-- The exit code of a run of `cmd_ingest` in crates/cockpitctl-cli/src/main.rs.
use cockpitctl.Base.{◌≡◌, ◌∙◌, ℕ, any, if◌then◌else◌}
use cockpitctl.Types.Config.{BuildfixPolicy, CockpitConfig}
use cockpitctl.Domain.Verdict.Worst.{blocks}
use cockpitctl.Ingest.Ports.{Bytes, SchemaValidationResult, IngestResult}
use cockpitctl.Ingest.Result.{Result, ok}
use cockpitctl.Ingest.Execute.{execute}
use cockpitctl.Ingest.Execute.Exit.{execute-exit_code}
use cockpitctl.Io.Sink.{and_then-pure, and_then-ok, within-ok, fs_output_sink}
use cockpitctl.Cli.Options.{effective_buildfix, effective_policy_signing}
use cockpitctl.Cli.Stages.Exit.{after_ingest-exit_code}
use cockpitctl.Cli.Ingest.{
  IngestInputs, Environment, pre_config, layout_of, request, validator, ports_of, run_use_case,
  annotate, sarif_stage, trend_stage, buildfix_switch, signing_switch, hooks_switch, finish,
  cmd_ingest,
}

module _ {V P W J C : Type 0} (env : Environment V P W J C) (inputs : IngestInputs P) where
  -- The use case has run on the configured layout and has given this result.
  abbrev pub HasIngested : W → CockpitConfig → IngestResult V → Type 0
  HasIngested w cfg result =
      (validate : Bytes → Result SchemaValidationResult) × (w' : W) × (pre_config env inputs
        ≡ ok cfg)
      × (validator env inputs ≡ ok validate)
      × (execute (ports_of env inputs (layout_of env inputs cfg) validate) env.codec
            (fs_output_sink env.adapters.fs env.adapters.disk (layout_of env inputs cfg))
            (request env inputs) w
          ≡ (ok result, w'))

  finish-exit_code :
      (cfg : CockpitConfig) (buildfix : BuildfixPolicy) (result : IngestResult V) (w : W) {code : ℕ}
      {w' : W}
      → finish env inputs cfg buildfix result w ≡ (ok code, w')
      → code ≡ result.exit_code
  unfolding finish
  finish-exit_code cfg buildfix result w h =
      let (_, w1, _, h1) =
        and_then-ok (sarif_stage env inputs inputs.format result (annotate env inputs cfg result w))
          _ h in
      let (_, w2, _, h2) = and_then-ok (trend_stage env inputs inputs.baseline result w1) _ h1 in
      after_ingest-exit_code env.adapters (layout_of env inputs cfg) cfg
        (buildfix_switch env inputs) (signing_switch env inputs) (hooks_switch env inputs)
        inputs.options buildfix (effective_policy_signing inputs.options cfg.policy_signing) result
        w2 h2

  pub cmd_ingest-HasIngested :
      (w : W) {code : ℕ} {w' : W}
      → cmd_ingest env inputs w ≡ (ok code, w')
      → (cfg : CockpitConfig) × (result : IngestResult V) × HasIngested w cfg result
        × (code ≡ result.exit_code)
  unfolding cmd_ingest run_use_case
  cmd_ingest-HasIngested w h =
      let (cfg, e, h1) = and_then-pure (pre_config env inputs) w _ h in
      let (buildfix, _, h2) =
        and_then-pure (effective_buildfix inputs.options cfg.buildfix) w _ h1 in
      let (result, w3, u, h3) =
        and_then-ok (run_use_case env inputs (layout_of env inputs cfg) w) _ h2 in
      let (validate, k, x) = and_then-pure (validator env inputs) w _ u in
      (
        cfg,
        result,
        (validate, w3, e, k, within-ok "ingest" _ x),
        finish-exit_code cfg buildfix result w3 h3,
      )

  -- The exit code of a run of `ingest` that succeeds is 2 if some blocking sensor of the report that the
  -- use case computed fails, or warns where the policy counts warnings as failures, and it is 0
  -- otherwise, whatever the SARIF export, the baseline, the fixes, the signature and the hooks do.
  pub cmd_ingest-exit_code :
      (w : W) {code : ℕ} {w' : W}
      → cmd_ingest env inputs w ≡ (ok code, w')
      → (cfg : CockpitConfig) × (result : IngestResult V) × HasIngested w cfg result
        × (code ≡ (
            if any (blocks result.report.policy.warn_is_fail) result.report.sensors then 2 else 0))
  cmd_ingest-exit_code w h =
      let (cfg, result, ran, e) = cmd_ingest-HasIngested w h in
      let (validate, w', _, _, x) = ran in
      (
        cfg,
        result,
        ran,
        e
            ∙ execute-exit_code (ports_of env inputs (layout_of env inputs cfg) validate) env.codec
                (request env inputs)
                (fs_output_sink env.adapters.fs env.adapters.disk (layout_of env inputs cfg)) w
                result w' x,
      )
