-- ===== src/Domain/Samples.antt =====
-- Test data for the modules of crates/cockpitctl-domain/src/lib.rs.
use cockpitctl.Base.{ℕ, String, Bool, true, false, none, some, List, [], ◌∷◌}
use cockpitctl.Types.Enums.{VerdictStatus, Severity, MissingPolicy, Presence, PolicyOutcome}
use cockpitctl.Types.Findings.{Finding, Highlight, VerdictCounts, Verdict, SensorReport}
use cockpitctl.Types.Run.{ToolInfo, RunInfo}
use cockpitctl.Types.Config.{CockpitConfig}
use cockpitctl.Types.Reports.{SensorSummary}
use cockpitctl.Types.Defaults.{default_config, default_policy, default_sensor_policy}

-- The payloads are of no interest.
abbrev pub V₀ : Type 0
V₀ = Unit

abbrev pub verdict_of : VerdictStatus → ℕ → Verdict
verdict_of status errors = record {
  status = status;
  counts = record { info = 0; warn = 0; error = errors; suppressed = 0 };
  reasons = [];
}

abbrev pub summary_of : String → Bool → VerdictStatus → ℕ → SensorSummary
summary_of id blocking status errors = record {
  id = id;
  blocking = blocking;
  missing = MissingPolicy.warn;
  presence = Presence.present;
  report_path = "artifacts/x/report.json";
  comment_path = none;
  verdict = verdict_of status errors;
  truncated = false;
  errors = [];
  missing_policy_applied = none;
  policy_outcome = some PolicyOutcome.allowed;
}

abbrev pub lint : SensorSummary
lint = summary_of "lint" true VerdictStatus.warn 0

abbrev pub tests : SensorSummary
tests = summary_of "tests" false VerdictStatus.fail 2

abbrev pub strict_config : CockpitConfig
strict_config = record default_config {
  policy = record default_policy {
    warn_is_fail = true;
    max_highlights = 1;
    max_per_sensor_findings = 1;
  };
  sensors = ("lint", record default_sensor_policy { blocking = true }) ∷ [];
}

abbrev pub finding_of : Severity → String → Finding V₀
finding_of severity code = record {
  severity = severity;
  check_id = none;
  code = code;
  message = "a message";
  location = none;
  help = none;
  url = none;
  fingerprint = some code;
  payload = none;
}

abbrev pub finding_a : Finding V₀
finding_a = finding_of Severity.warn "a"

abbrev pub finding_b : Finding V₀
finding_b = finding_of Severity.error "b"

abbrev pub two_findings : List (Finding V₀)
two_findings = finding_a ∷ finding_b ∷ []

abbrev pub highlight_a : Highlight V₀
highlight_a = record { sensor_id = "lint"; finding = finding_a }

abbrev pub highlight_b : Highlight V₀
highlight_b = record { sensor_id = "lint"; finding = finding_b }

abbrev pub two_highlights : List (Highlight V₀)
two_highlights = highlight_a ∷ highlight_b ∷ []

abbrev pub tool : ToolInfo
tool = record { name = "lint"; version = "1"; commit = none }

abbrev pub run : RunInfo
run = record {
  started_at = "2024-01-01T00:00:00Z";
  ended_at = none;
  duration_ms = none;
  host = none;
  git = none;
  ci = none;
  capabilities = [];
}

-- A receipt with a warning and an error, and the counts that it reports.
abbrev pub receipt_of : VerdictCounts → SensorReport V₀
receipt_of counts = record {
  schema = "sensor.report.v1";
  tool = tool;
  run = run;
  verdict = record { status = VerdictStatus.fail; counts = counts; reasons = [] };
  findings = two_findings;
  artifacts = [];
  payload = none;
}

abbrev pub exact_receipt : SensorReport V₀
exact_receipt = receipt_of (record { info = 0; warn = 1; error = 1; suppressed = 0 })

abbrev pub suppressing_receipt : SensorReport V₀
suppressing_receipt = receipt_of (record { info = 0; warn = 1; error = 1; suppressed = 3 })
