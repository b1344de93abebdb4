-- ===== src/Domain/Tests/Receipts.antt =====
-- Summaries of a receipt with two findings where one is surfaced.
use cockpitctl.Base.{◌≡◌, false, none, some, List, [], ◌∷◌, if◌then◌else◌}
use cockpitctl.Types.Enums.{VerdictStatus}
use cockpitctl.Types.Findings.{Finding, Highlight, SensorReport}
use cockpitctl.Types.Reports.{SensorSummary}
use cockpitctl.Types.Defaults.{default_sensor_policy}
use cockpitctl.Domain.Counts.{compute_counts}
use cockpitctl.Domain.Findings.{cap_findings, sort_findings}
use cockpitctl.Domain.Outcome.{compute_policy_outcome}
use cockpitctl.Types.Ranks.{counts_eq}
use cockpitctl.Domain.Summarize.{summarize_sensor_report}
use cockpitctl.Domain.Summarize.Reconcile.{summarize_sensor_report-verdict}
use cockpitctl.Domain.Samples.{V₀, two_findings, exact_receipt}

abbrev of_receipt : SensorReport V₀ → SensorSummary × List (Highlight V₀)
of_receipt r = summarize_sensor_report "lint" "p" none default_sensor_policy r 1

abbrev kept : List (Finding V₀)
kept = (cap_findings (sort_findings "lint" two_findings) 1).0

summarize_sensor_report-verdict_example :
    ((of_receipt exact_receipt).0.verdict.status ≡ VerdictStatus.fail)
    × ((of_receipt exact_receipt).0.verdict.counts ≡ compute_counts kept)
    × ((of_receipt exact_receipt).0.verdict.reasons ≡ (
        if counts_eq exact_receipt.verdict.counts (compute_counts kept)
        then []
        else "receipt_inconsistent" ∷ []))
    × ((of_receipt exact_receipt).0.policy_outcome
        ≡ some (compute_policy_outcome false VerdictStatus.fail))
summarize_sensor_report-verdict_example =
    summarize_sensor_report-verdict "lint" "p" none default_sensor_policy exact_receipt 1
