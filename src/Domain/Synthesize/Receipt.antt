-- ===== src/Domain/Synthesize/Receipt.antt =====
-- Summaries for a receipt that did not arrive or cannot be read: `synthesize_missing_sensor`,
-- `synthesize_invalid_sensor` and `synthesize_schema_violation_sensor`.
use mathlib.Core.Option
use cockpitctl.Base.{
  String, Bool, true, false, Option, none, some, List, [], ◌∷◌, concat, join, to_string, length,
  if◌then◌else◌,
}
use cockpitctl.Types.Enums.{VerdictStatus, Severity, MissingPolicy, Presence}
use cockpitctl.Types.Findings.{Finding, Highlight, VerdictCounts}
use cockpitctl.Types.Config.{SensorPolicy}
use cockpitctl.Types.Reports.{SensorSummary}
use cockpitctl.Domain.Codes.{missing_receipt, invalid_receipt, schema_violation}
use cockpitctl.Domain.Counts.{no_counts, compute_counts}
use cockpitctl.Domain.Outcome.{compute_policy_outcome}

-- What the policy makes of a missing receipt: the verdict, the severity, and whether it is a finding.
pub missing_response : MissingPolicy → VerdictStatus × Severity × Bool
missing_response MissingPolicy.skip = (VerdictStatus.skip, Severity.info, false)
missing_response MissingPolicy.warn = (VerdictStatus.warn, Severity.warn, true)
missing_response MissingPolicy.fail = (VerdictStatus.fail, Severity.error, true)

error_summary : List String → String
error_summary (e ∷ []) = e
error_summary errors =
    concat (to_string (length errors) ∷ " schema violations: " ∷ join "; " errors ∷ [])

module _ {V : Type 0} where
  missing_finding : String → String → Severity → Finding V
  missing_finding sensor_id report_path severity = record {
    severity = severity;
    check_id = some "cockpit.missing_receipt";
    code = missing_receipt;
    message = concat (
        "Expected receipt for sensor `" ∷ sensor_id ∷ "` but it was not found at `" ∷ report_path
        ∷ "`." ∷ []);
    location = none;
    help = some "Ensure the sensor ran and wrote artifacts/<sensor>/report.json.";
    url = none;
    fingerprint = none;
    payload = none;
  }

  -- `finding.as_ref().map(|f| compute_counts(from_ref(f))).unwrap_or_default()`
  counts_of : Option (Finding V) → VerdictCounts
  unfolding compute_counts
  counts_of none = no_counts
  counts_of (some f) = compute_counts (f ∷ [])

  unfoldable pub synthesize_missing_sensor :
      String → SensorPolicy → String → Option String → SensorSummary × Option (Highlight V)
  unfolding missing_response missing_finding counts_of compute_policy_outcome
  synthesize_missing_sensor sensor_id policy report_path comment_path =
      let (status, severity, emit_finding) = missing_response policy.missing in
      let finding : Option (Finding V) =
        if emit_finding then some (missing_finding sensor_id report_path severity) else none in
      (
        record {
          id = sensor_id;
          blocking = policy.blocking;
          missing = policy.missing;
          presence = Presence.missing;
          report_path = report_path;
          comment_path = comment_path;
          verdict = record {
            status = status;
            counts = counts_of finding;
            reasons = if emit_finding then "missing_receipt" ∷ [] else [];
          };
          truncated = false;
          errors = [];
          missing_policy_applied = some policy.missing;
          policy_outcome = some (compute_policy_outcome policy.blocking status);
        },
        Option.map (λ f. record { sensor_id = sensor_id; finding = f }) finding,
      )

  -- The summary of a receipt that is present and unusable, and its highlight.
  unusable :
      String
      → SensorPolicy
      → String
      → Option String
      → String
      → List String
      → Finding V
      → SensorSummary × Option (Highlight V)
  unfolding compute_counts compute_policy_outcome
  unusable sensor_id policy report_path comment_path reason errors finding = (
    record {
      id = sensor_id;
      blocking = policy.blocking;
      missing = policy.missing;
      presence = Presence.invalid;
      report_path = report_path;
      comment_path = comment_path;
      verdict = record {
        status = VerdictStatus.fail;
        counts = compute_counts (finding ∷ []);
        reasons = reason ∷ [];
      };
      truncated = false;
      errors = errors;
      missing_policy_applied = none;
      policy_outcome = some (compute_policy_outcome policy.blocking VerdictStatus.fail);
    },
    some (record { sensor_id = sensor_id; finding = finding }),
  )

  unfoldable pub synthesize_invalid_sensor :
      String → SensorPolicy → String → Option String → String → SensorSummary × Option (Highlight V)
  unfolding unusable
  synthesize_invalid_sensor sensor_id policy report_path comment_path error =
      unusable sensor_id policy report_path comment_path "invalid_receipt" (error ∷ []) (record {
        severity = Severity.error;
        check_id = some "cockpit.invalid_receipt";
        code = invalid_receipt;
        message = concat (
            "Invalid receipt for sensor `" ∷ sensor_id ∷ "` at `" ∷ report_path ∷ "`: " ∷ error
            ∷ []);
        location = none;
        help = some "Validate that the sensor wrote JSON matching sensor.report.v1.";
        url = none;
        fingerprint = none;
        payload = none;
      })

  unfoldable pub synthesize_schema_violation_sensor :
      String
      → SensorPolicy
      → String
      → Option String
      → List String
      → SensorSummary × Option (Highlight V)
  unfolding unusable error_summary
  synthesize_schema_violation_sensor sensor_id policy report_path comment_path validation_errors =
      unusable sensor_id policy report_path comment_path "schema_violation" validation_errors
        (record {
          severity = Severity.error;
          check_id = some "cockpit.schema_violation";
          code = schema_violation;
          message = concat (
              "Receipt for sensor `"
              ∷ sensor_id
              ∷ "` at `"
              ∷ report_path
              ∷ "` does not conform to sensor.report.v1 schema: "
              ∷ error_summary validation_errors
              ∷ []);
          location = none;
          help =
              some
                "Ensure the sensor output matches the JSON schema at contracts/schemas/sensor.report.v1.json.";
          url = none;
          fingerprint = none;
          payload = none;
        })
