-- ===== src/Tests/Cli.antt =====
-- Options and the application of one fix.
use mathlib.Core.List.{Mem}
use cockpitctl.Base.{
  List, ◌⊎◌, String, Bool, ◌≤◌, sort_by, begins_with, any, ◌↔◌, ℕ, if◌then◌else◌, ◌≡◌, refl, true,
  false, none, some, [], ◌∷◌,
}
use mathlib.Core.List.{mem-cons_self}
use cockpitctl.Domain.Verdict.Worst.{blocks}
use cockpitctl.Types.Config.{CockpitConfig}
use cockpitctl.Types.Enums.{BuildfixApplyStatus}
use cockpitctl.Types.Config.{BuildfixActuatorConfig}
use cockpitctl.Types.Fixes.{FixSummary, BuildfixSummary, BuildfixApplyRequest}
use cockpitctl.Types.Ranks.{safety_level_rank}
use cockpitctl.Buildfix.Select.{eligible}
use cockpitctl.Ingest.Result.{ok, err}
use cockpitctl.Types.Defaults.{default_config}
use cockpitctl.Domain.Report.{build_cockpit_report}
use cockpitctl.Domain.Samples.{V₀}
use cockpitctl.Ingest.Ports.{IngestResult}
use cockpitctl.Io.Samples.{layout}
use cockpitctl.Cli.Commands.{schema_candidates, validate_strict}
use cockpitctl.Cli.Commands.Validate.{validate_strict-some_valid}
use cockpitctl.Cli.Stages.{after_ingest}
use cockpitctl.Base.Map
use cockpitctl.Types.SensorId
use cockpitctl.Ingest.Examine
use cockpitctl.Ingest.Execute
use cockpitctl.Types.Ranks.{verdict_status_rank, severity_rank}
use cockpitctl.Domain.Report.{build_cockpit_report}
use cockpitctl.Domain.Sensors.{sort_sensor_summaries}
use cockpitctl.Domain.Synthesize.{synthesize_path_traversal_sensor}
use cockpitctl.Domain.Highlights.{select_highlights, fingerprint_of, normalize}
use cockpitctl.Io.Layout.{report_file}
use cockpitctl.Io.Source.{is_safe_path, new_receipt_source}
use cockpitctl.Io.Samples.{lint_dir}
use cockpitctl.Io.Schema.{validate_receipt}
use cockpitctl.Domain.Samples.{strict_config}
use cockpitctl.Cli.Options.{effective_buildfix}
use cockpitctl.Cli.Ingest.Total.{cmd_ingest-Ends}
use cockpitctl.Cli.Ingest.{pre_config, validator, IngestInputs, layout_of, cmd_ingest}
use cockpitctl.Cli.Ingest.Kept.{Reach, cmd_ingest_reaches}
use cockpitctl.Cli.Ingest.Exit.{HasIngested, cmd_ingest-exit_code}
use cockpitctl.Cli.Ingest.Rejected.{cmd_ingest-escaped}
use cockpitctl.Cli.Samples.{
  sparse_environment, options, policy, plan, actuate, signing, adapters, on, ingested, schemas,
  environment, inputs, extras,
}
use cockpitctl.Cli.Entry.{ingest, run, main}
use cockpitctl.Cli.Entry.Bounds.{main-exit_code}
use cockpitctl.Cli.Apply.{apply_summary}
use cockpitctl.Cli.Apply.Gate.{IsClean, apply_summary-gated}

applied_run : (apply_summary actuate policy (some plan)).status ≡ BuildfixApplyStatus.applied
unfolding apply_summary safety_level_rank
applied_run = refl

apply_summary-gated_example :
    (policy.auto_apply ≡ true)
    × ((bf : BuildfixSummary) × (actuator : BuildfixActuatorConfig)
        × (request : BuildfixApplyRequest) × (some plan ≡ some bf)
        × (policy.actuator ≡ some actuator)
        × IsClean (actuate actuator request)
        × ((fix : FixSummary)
            → Mem fix request.fixes
            → Mem fix bf.fixes
              × (eligible policy.max_auto_apply_safety policy.require_matched_finding fix ≡ true)))
apply_summary-gated_example = apply_summary-gated actuate policy (some plan) applied_run

stages_run :
    after_ingest adapters layout default_config on on on options policy signing ingested false
    ≡ (ok 2, false)
unfolding after_ingest
stages_run = refl

cmd_ingest_run : cmd_ingest environment inputs false ≡ (ok 2, false)
unfolding cmd_ingest Execute.gather Execute.expected_sensors Examine.examine
    SensorId.is_valid_sensor_id Examine.label_gated Examine.policy_of Map.get Map.contains_key
    Examine.is_strict Execute.all_fixes Execute.conclude Execute.exit_code_of Execute.with_buildfix
    Execute.report_of Execute.buildfix_summary_of Execute.discovery_notes sort_by
    build_cockpit_report sort_sensor_summaries synthesize_path_traversal_sensor select_highlights
    fingerprint_of normalize verdict_status_rank severity_rank
cmd_ingest_run = refl

cmd_ingest_reaches_example :
    Reach environment "artifacts/cockpit" false (cmd_ingest environment inputs false).1
cmd_ingest_reaches_example = cmd_ingest_reaches environment inputs false

cmd_ingest-exit_code_example :
    (cfg : CockpitConfig) × (result : IngestResult V₀) × HasIngested environment inputs false cfg
      result
    × (◌≡◌ {A = ℕ} 2
        (if any (blocks result.report.policy.warn_is_fail) result.report.sensors then 2 else 0))
cmd_ingest-exit_code_example = cmd_ingest-exit_code environment inputs false cmd_ingest_run

cmd_ingest-escaped_example : ◌≡◌ {A = ℕ} 2 2
unfolding Examine.policy_of Examine.label_gated Map.get is_safe_path new_receipt_source report_file
    layout_of begins_with
cmd_ingest-escaped_example =
    cmd_ingest-escaped environment inputs false "lint" refl refl refl mem-cons_self refl refl refl
      refl cmd_ingest_run

candidates_run :
    schema_candidates schemas (λ b. false) (λ b. true) (λ value. none) none
    ≡ ok (("sensor.report.v1", 1) ∷ ("cockpit.report.v1", 2) ∷ [])
unfolding schema_candidates
candidates_run = refl

validate_strict-some_valid_example :
    (validate_strict schemas (λ b. false) (λ b. true) (λ value. none) true [] ≡ ok 0)
    ↔ (true ≡ true)
validate_strict-some_valid_example =
    validate_strict-some_valid schemas (λ b. false) (λ b. true) (λ value. none) [] refl
      candidates_run

main-exit_code_example :
    ((code : ℕ) × (w : Bool) × (run environment extras (ingest inputs) false ≡ (ok code, w))
      × (main environment extras (ingest inputs) false ≡ (code, w))
      × (code ≤ 2))
    ⊎ ((e : List String) × (w : Bool) × (run environment extras (ingest inputs) false ≡ (err e, w))
        × (main environment extras (ingest inputs) false ≡ (1, w)))
main-exit_code_example = main-exit_code environment extras (ingest inputs) false

-- Without the signature and the hooks.
abbrev bare_inputs : IngestInputs String
bare_inputs = record inputs { disable_hooks = true; disable_policy_signing = true }

cmd_ingest-Ends_example :
    (code : ℕ) × (w : Bool) × (cmd_ingest sparse_environment bare_inputs false ≡ (ok code, w))
    × (w ≡ true)
unfolding pre_config validator effective_buildfix validate_receipt layout_of
cmd_ingest-Ends_example =
    cmd_ingest-Ends sparse_environment bare_inputs strict_config (λ w. Unit {0}) (λ w. w ≡ true)
      (
        λ x. (lint_dir ∷ [], refl),
        λ id v x. rw x ((_, refl), (_, refl)),
        λ id v x. rw x ((_, refl), (_, refl)),
      )
      (
        (λ w u. (tt, true, refl, refl), λ name b w m r. (tt, w, rw r refl, r), λ w r. tt),
        λ name w m r. r,
        λ r. (_, refl),
        λ s. (_, refl),
        λ s. (_, refl),
      )
      (λ line w r. r) (λ r. (_, refl)) (λ log. (_, refl)) (validate_receipt schemas 1) false refl
      (_, refl) refl refl refl refl tt
