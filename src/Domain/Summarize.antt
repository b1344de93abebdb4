-- ===== src/Domain/Summarize.antt =====
-- `summarize_sensor_report` of crates/cockpitctl-domain/src/lib.rs: sort and cap the findings, count
-- what is surfaced, and note where the receipt's own counts differ.
pub mod Reconcile
use cockpitctl.Base.{ℕ, String, not, Option, none, some, List, [], ◌∷◌, ◌++◌, map, if◌then◌else◌}
use cockpitctl.Types.Enums.{Presence}
use cockpitctl.Types.Findings.{Finding, Highlight, Verdict, VerdictCounts, SensorReport}
use cockpitctl.Types.Config.{SensorPolicy}
use cockpitctl.Types.Reports.{SensorSummary}
use cockpitctl.Types.Ranks.{counts_eq}
use cockpitctl.Domain.Counts.{compute_counts}
use cockpitctl.Domain.Findings.{sort_findings, cap_findings}
use cockpitctl.Domain.Outcome.{compute_policy_outcome}
use cockpitctl.Domain.Synthesize.{synthesize_receipt_inconsistent}

module _ {V : Type 0} where
  -- The verdict that is surfaced, and the highlight when the counts differ.
  reconcile : String → Verdict → VerdictCounts → Verdict × List (Highlight V)
  unfolding synthesize_receipt_inconsistent
  reconcile sensor_id verdict computed =
      if not (counts_eq verdict.counts computed)
      then (
        record verdict {
          reasons = verdict.reasons ++ "receipt_inconsistent" ∷ [];
          counts = computed;
        },
        synthesize_receipt_inconsistent sensor_id verdict.counts computed ∷ [],
      )
      else (verdict, [])

  abbrev pub highlight_of : String → Finding V → Highlight V
  highlight_of sensor_id f = record { sensor_id = sensor_id; finding = f }

  unfoldable pub summarize_sensor_report :
      String
      → String
      → Option String
      → SensorPolicy
      → SensorReport V
      → ℕ
      → SensorSummary × List (Highlight V)
  unfolding sort_findings cap_findings compute_counts reconcile compute_policy_outcome
  summarize_sensor_report sensor_id report_path comment_path policy report max_findings =
      let (surfaced, truncated) =
        cap_findings (sort_findings sensor_id report.findings) max_findings in
      let (verdict, notes) = reconcile sensor_id report.verdict (compute_counts surfaced) in
      (
        record {
          id = sensor_id;
          blocking = policy.blocking;
          missing = policy.missing;
          presence = Presence.present;
          report_path = report_path;
          comment_path = comment_path;
          verdict = verdict;
          truncated = truncated;
          errors = [];
          missing_policy_applied = none;
          policy_outcome = some (compute_policy_outcome policy.blocking verdict.status);
        },
        notes ++ map (highlight_of sensor_id) surfaced,
      )
