-- ===== src/Domain/Synthesize/Highlight.antt =====
-- Findings at the level of the cockpit: `synthesize_path_traversal_highlight`,
-- `synthesize_receipt_inconsistent` and `synthesize_sensors_truncated`.
use cockpitctl.Base.{ℕ, String, Option, none, some, [], ◌∷◌, concat, to_string}
use cockpitctl.Domain.Codes.{path_traversal, receipt_inconsistent, sensors_truncated}
use cockpitctl.Types.Enums.{Severity}
use cockpitctl.Types.Findings.{Highlight, VerdictCounts}

-- `context.map(|c| format!(" (unsafe {})", c)).unwrap_or_default()`
unsafe_detail : Option String → String
unsafe_detail none = ""
unsafe_detail (some c) = concat (" (unsafe " ∷ c ∷ ")" ∷ [])

module _ {V : Type 0} where
  unfoldable pub synthesize_path_traversal_highlight : String → String → Option String → Highlight V
  unfolding unsafe_detail
  synthesize_path_traversal_highlight sensor_id path context = record {
    sensor_id = "_cockpit";
    finding = record {
      severity = Severity.error;
      check_id = some "cockpit.path_traversal";
      code = path_traversal;
      message = concat (
          "Rejected unsafe path for sensor `"
          ∷ sensor_id
          ∷ "` at `"
          ∷ path
          ∷ "`"
          ∷ unsafe_detail context
          ∷ "."
          ∷ []);
      location = none;
      help =
          some
            "Ensure sensor IDs and artifact paths do not contain path traversal or escape the artifacts root.";
      url = none;
      fingerprint = some (concat ("cockpit.path_traversal:" ∷ sensor_id ∷ ":" ∷ path ∷ []));
      payload = none;
    };
  }

  unfoldable pub synthesize_receipt_inconsistent :
      String → VerdictCounts → VerdictCounts → Highlight V
  synthesize_receipt_inconsistent sensor_id reported computed = record {
    sensor_id = sensor_id;
    finding = record {
      severity = Severity.info;
      check_id = some "cockpit.receipt_inconsistent";
      code = receipt_inconsistent;
      message = concat (
          "Receipt counts for sensor `"
          ∷ sensor_id
          ∷ "` did not match findings: reported info="
          ∷ to_string reported.info
          ∷ ", warn="
          ∷ to_string reported.warn
          ∷ ", error="
          ∷ to_string reported.error
          ∷ ", computed info="
          ∷ to_string computed.info
          ∷ ", warn="
          ∷ to_string computed.warn
          ∷ ", error="
          ∷ to_string computed.error
          ∷ "."
          ∷ []);
      location = none;
      help = some "Ensure receipt verdict counts match the findings array.";
      url = none;
      fingerprint = some (
          concat (
            "cockpit.receipt_inconsistent:"
            ∷ sensor_id
            ∷ ":"
            ∷ to_string reported.info
            ∷ ":"
            ∷ to_string reported.warn
            ∷ ":"
            ∷ to_string reported.error
            ∷ ":"
            ∷ to_string computed.info
            ∷ ":"
            ∷ to_string computed.warn
            ∷ ":"
            ∷ to_string computed.error
            ∷ []));
      payload = none;
    };
  }

  unfoldable pub synthesize_sensors_truncated : ℕ → ℕ → Highlight V
  synthesize_sensors_truncated processed total_found = record {
    sensor_id = "_cockpit";
    finding = record {
      severity = Severity.warn;
      check_id = some "cockpit.sensors_truncated";
      code = sensors_truncated;
      message = concat (
          "Sensor discovery was truncated: processed "
          ∷ to_string processed
          ∷ " of "
          ∷ to_string total_found
          ∷ " sensors found. Increase max_receipts limit if needed."
          ∷ []);
      location = none;
      help =
          some
            "This is a safety limit to prevent DoS. Consider reviewing why so many sensors exist.";
      url = none;
      fingerprint = some (
          concat (
            "cockpit.sensors_truncated:" ∷ to_string processed ∷ ":" ∷ to_string total_found ∷ []));
      payload = none;
    };
  }
