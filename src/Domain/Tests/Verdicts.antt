-- ===== src/Domain/Tests/Verdicts.antt =====
-- Overall verdicts of two sensors, and their order.

use cockpitctl.Base.{
  ◌≡◌, ◌≤◌, ◌⊎◌, refl, min, true, List, [], ◌∷◌, any, Mem, u64_max, if◌then◌else◌,
}
use cockpitctl.Types.Enums.{VerdictStatus}
use cockpitctl.Types.Reports.{SensorSummary}
use cockpitctl.Types.Ranks.{verdict_status_rank}
use cockpitctl.Domain.Verdict.{effective_status, overall_verdict}
use cockpitctl.Domain.Verdict.Worst.{has_status, overall_verdict-worst}
use cockpitctl.Domain.Verdict.Totals.{total, promotes, overall_verdict-totals}
use cockpitctl.Domain.Samples.{lint, tests, strict_config}

abbrev both : List SensorSummary
both = lint ∷ tests ∷ []

warn_fails : (overall_verdict both strict_config).status ≡ VerdictStatus.fail
unfolding overall_verdict verdict_status_rank
warn_fails = refl

overall_verdict-worst_example :
    (verdict_status_rank (overall_verdict both strict_config).status ≤ 2)
    × ((s : SensorSummary)
        → Mem s both
        → s.blocking ≡ true
        → verdict_status_rank (overall_verdict both strict_config).status
          ≤ verdict_status_rank (effective_status true s.verdict.status))
    × (((overall_verdict both strict_config).status ≡ VerdictStatus.pass)
        ⊎ (any (has_status true (overall_verdict both strict_config).status) both ≡ true))
overall_verdict-worst_example = overall_verdict-worst both strict_config

overall_verdict-totals_example :
    ((overall_verdict both strict_config).counts ≡ record {
      info = min (total (λ x. x.info) both) u64_max;
      warn = min (total (λ x. x.warn) both) u64_max;
      error = min (total (λ x. x.error) both) u64_max;
      suppressed = 0;
    })
    × ((overall_verdict both strict_config).reasons
        ≡ (if any (promotes true) both then "warn_is_fail" ∷ [] else []))
overall_verdict-totals_example = overall_verdict-totals both strict_config
