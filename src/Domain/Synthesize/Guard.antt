-- ===== src/Domain/Synthesize/Guard.antt =====
-- Summaries for a receipt that the safety guards rejected: `synthesize_path_traversal_sensor` and
-- `synthesize_receipt_oversized_sensor`.
use cockpitctl.Base.{ℕ, String, false, Option, none, some, [], ◌∷◌, concat, to_string}
use cockpitctl.Types.Enums.{VerdictStatus, Severity, Presence, PolicyOutcome}
use cockpitctl.Types.Findings.{Finding, Highlight}
use cockpitctl.Types.Config.{SensorPolicy}
use cockpitctl.Types.Reports.{SensorSummary}
use cockpitctl.Domain.Codes.{receipt_oversized}
use cockpitctl.Domain.Counts.{compute_counts}
use cockpitctl.Domain.Outcome.{compute_policy_outcome}
use cockpitctl.Domain.Synthesize.Highlight.{synthesize_path_traversal_highlight}

module _ {V : Type 0} where
  unfoldable pub synthesize_path_traversal_sensor :
      String → SensorPolicy → String → Option String → Option String → SensorSummary × Highlight V
  unfolding synthesize_path_traversal_highlight compute_counts
  synthesize_path_traversal_sensor sensor_id policy report_path comment_path context =
      let highlight : Highlight V =
        synthesize_path_traversal_highlight sensor_id report_path context in
      (
        record {
          id = sensor_id;
          blocking = policy.blocking;
          missing = policy.missing;
          presence = Presence.missing;
          report_path = report_path;
          comment_path = comment_path;
          verdict = record {
            status = VerdictStatus.fail;
            counts = compute_counts (highlight.finding ∷ []);
            reasons = "path_traversal" ∷ [];
          };
          truncated = false;
          errors = concat ("unsafe path rejected: " ∷ report_path ∷ []) ∷ [];
          missing_policy_applied = none;
          policy_outcome = some PolicyOutcome.blocked;
        },
        highlight,
      )

  oversized_finding : String → String → ℕ → ℕ → Finding V
  oversized_finding sensor_id report_path size cap = record {
    severity = Severity.error;
    check_id = some "cockpit.receipt_oversized";
    code = receipt_oversized;
    message = concat (
        "Receipt for sensor `"
        ∷ sensor_id
        ∷ "` exceeds size limit ("
        ∷ to_string size
        ∷ " bytes > "
        ∷ to_string cap
        ∷ " bytes) at `"
        ∷ report_path
        ∷ "`."
        ∷ []);
    location = none;
    help = some "Reduce receipt size or increase the max receipt size limit.";
    url = none;
    fingerprint =
        some (concat ("cockpit.receipt_oversized:" ∷ sensor_id ∷ ":" ∷ to_string size ∷ []));
    payload = none;
  }

  unfoldable pub synthesize_receipt_oversized_sensor :
      String → SensorPolicy → String → Option String → ℕ → ℕ → SensorSummary × Highlight V
  unfolding oversized_finding compute_counts compute_policy_outcome
  synthesize_receipt_oversized_sensor sensor_id policy report_path comment_path size cap =
      let finding : Finding V = oversized_finding sensor_id report_path size cap in
      (
        record {
          id = sensor_id;
          blocking = policy.blocking;
          missing = policy.missing;
          presence = Presence.invalid;
          report_path = report_path;
          comment_path = comment_path;
          verdict = record {
            status = VerdictStatus.fail;
            counts = compute_counts (finding ∷ []);
            reasons = "receipt_oversized" ∷ [];
          };
          truncated = false;
          errors =
              concat
                ("receipt too large: " ∷ to_string size ∷ " bytes (cap " ∷ to_string cap ∷ ")" ∷ [])
              ∷ [];
          missing_policy_applied = none;
          policy_outcome = some (compute_policy_outcome policy.blocking VerdictStatus.fail);
        },
        record { sensor_id = "_cockpit"; finding = finding },
      )
