-- ===== src/Cli/Apply.antt =====
-- The application of fixes in `cmd_ingest` of crates/cockpitctl-cli/src/main.rs.
pub mod Gate
use cockpitctl.Base.{ℕ, String, Bool, true, false, Option, none, some, List, [], ◌∷◌, map, join}
use cockpitctl.Types.Enums.{BuildfixApplyStatus}
use cockpitctl.Types.Config.{BuildfixActuatorConfig, BuildfixPolicy}
use cockpitctl.Types.Fixes.{
  FixSummary, BuildfixSummary, BuildfixApplyRequest, BuildfixActuatorResult, BuildfixApplySummary,
}
use cockpitctl.Buildfix.{select_auto_apply_fixes}
use cockpitctl.Ingest.Result.{Result, ok, err}

abbrev pub buildfix_apply_request_schema_id : String
buildfix_apply_request_schema_id = "buildfix.apply.request.v1"

abbrev pub fix_ids : List FixSummary → List String
fix_ids l = map (λ (f : FixSummary). f.fix_id) l

unfoldable pub candidates : Option BuildfixSummary → List String
candidates none = []
candidates (some bf) = fix_ids bf.fixes

unfoldable pub selected_fixes : BuildfixPolicy → Option BuildfixSummary → List FixSummary
unfolding select_auto_apply_fixes
selected_fixes effective none = []
selected_fixes effective (some bf) =
    select_auto_apply_fixes bf effective.max_auto_apply_safety effective.require_matched_finding

unfoldable pub start_summary : BuildfixPolicy → Option BuildfixSummary → BuildfixApplySummary
unfolding candidates selected_fixes
start_summary effective buildfix = record {
  status = BuildfixApplyStatus.skipped;
  auto_apply_enabled = effective.auto_apply;
  max_auto_apply_safety = effective.max_auto_apply_safety;
  require_matched_finding = effective.require_matched_finding;
  candidate_fix_ids = candidates buildfix;
  selected_fix_ids = fix_ids (selected_fixes effective buildfix);
  applied_fix_ids = [];
  skipped_fix_ids = [];
  errors = [];
  reason = none;
  actuator_command = elim effective.actuator [ none ↦ none | some a ↦ some a.command ];
}

abbrev pub because : String → BuildfixApplySummary → BuildfixApplySummary
because why summary = record summary { reason = some why }

unfoldable pub reported : BuildfixActuatorResult → BuildfixApplySummary → BuildfixApplySummary
reported out summary =
    let filled = record summary {
      applied_fix_ids = out.applied_fix_ids;
      skipped_fix_ids = out.skipped_fix_ids;
      errors = out.errors;
    } in
    elim out.errors [
      | [] ↦ record filled { status = BuildfixApplyStatus.applied }
      | e ∷ rest ↦ record filled {
        status = BuildfixApplyStatus.failed;
        reason = some "actuator_reported_errors";
      }
    ]

-- `{:#}` of an error is its chain of messages, joined by colons.
unfoldable pub after_actuator :
    Result BuildfixActuatorResult → BuildfixApplySummary → BuildfixApplySummary
unfolding reported join
after_actuator (ok out) summary = reported out summary
after_actuator (err e) summary = record summary {
  status = BuildfixApplyStatus.failed;
  reason = some "actuator_error";
  errors = join ": " e ∷ [];
}

unfoldable pub apply_request : BuildfixPolicy → List FixSummary → BuildfixApplyRequest
apply_request effective fixes = record {
  schema = buildfix_apply_request_schema_id;
  max_auto_apply_safety = effective.max_auto_apply_safety;
  require_matched_finding = effective.require_matched_finding;
  fixes = fixes;
}

-- `run` is `run_buildfix_actuator`.
module _ (run : BuildfixActuatorConfig → BuildfixApplyRequest → Result BuildfixActuatorResult) where
  apply_with :
      Option BuildfixActuatorConfig
      → BuildfixPolicy
      → List FixSummary
      → BuildfixApplySummary
      → BuildfixApplySummary
  unfolding after_actuator apply_request
  apply_with none effective selected summary = because "no_actuator_configured" summary
  apply_with (some actuator) effective selected summary =
      after_actuator (run actuator (apply_request effective selected)) summary

  apply_selected : BuildfixPolicy → List FixSummary → BuildfixApplySummary → BuildfixApplySummary
  unfolding apply_with
  apply_selected effective [] summary = because "no_eligible_fixes" summary
  apply_selected effective (f ∷ rest) summary =
      apply_with effective.actuator effective (f ∷ rest) summary

  apply_enabled :
      Bool → BuildfixPolicy → List FixSummary → BuildfixApplySummary → BuildfixApplySummary
  unfolding apply_selected
  apply_enabled false effective selected summary = because "auto_apply_disabled" summary
  apply_enabled true effective selected summary = apply_selected effective selected summary

  unfoldable pub apply_summary : BuildfixPolicy → Option BuildfixSummary → BuildfixApplySummary
  unfolding apply_enabled start_summary selected_fixes
  apply_summary effective none = because "no_buildfix_plans" (start_summary effective none)
  apply_summary effective (some bf) =
      apply_enabled effective.auto_apply effective (selected_fixes effective (some bf))
        (start_summary effective (some bf))
