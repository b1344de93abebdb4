-- ===== src/Domain/Codes.antt =====
-- The codes of synthesized findings, in crates/cockpitctl-domain/src/lib.rs (`cockpit_codes`), and
-- their explanations, which `cockpitctl explain` looks up.
pub mod Explain
use cockpitctl.Base.{String, Option, none, some, List, [], ◌∷◌, str_eq, if◌then◌else◌}

abbrev pub missing_receipt : String
missing_receipt = "cockpit.missing_receipt"

abbrev pub invalid_receipt : String
invalid_receipt = "cockpit.invalid_receipt"

abbrev pub schema_violation : String
schema_violation = "cockpit.schema_violation"

abbrev pub receipt_inconsistent : String
receipt_inconsistent = "cockpit.receipt_inconsistent"

abbrev pub sensors_truncated : String
sensors_truncated = "cockpit.sensors_truncated"

abbrev pub path_traversal : String
path_traversal = "cockpit.path_traversal"

abbrev pub receipt_oversized : String
receipt_oversized = "cockpit.receipt_oversized"

pub record CodeExplanation : Type 0 where
  pub code : String
  pub title : String
  pub description : String
  pub cause : String
  pub fix : String

unfoldable pub all_codes : List CodeExplanation
all_codes =
    record {
      code = missing_receipt;
      title = "Missing Receipt";
      description = "A sensor declared in cockpit.toml did not produce a receipt file.";
      cause =
          "The sensor either did not run, failed before writing output, or wrote to the wrong path.";
      fix =
          "Ensure the sensor ran and wrote artifacts/<sensor>/report.json. Check the sensor's logs for errors.";
    }
    ∷ record {
      code = invalid_receipt;
      title = "Invalid Receipt";
      description = "A sensor receipt file exists but could not be parsed as valid JSON.";
      cause = "The sensor wrote malformed JSON (syntax error, truncated output, or binary data).";
      fix =
          "Validate the receipt file with `cockpitctl validate --input <path>`. Fix the sensor's output format.";
    }
    ∷ record {
      code = schema_violation;
      title = "Schema Violation";
      description =
          "A sensor receipt is valid JSON but does not conform to the sensor.report.v1 schema.";
      cause =
          "The receipt is missing required fields, has wrong types, or includes disallowed properties.";
      fix =
          "Run `cockpitctl validate --input <path> --strict` to see specific violations. Update the sensor to match the schema.";
    }
    ∷ record {
      code = receipt_inconsistent;
      title = "Receipt Inconsistent";
      description = "The verdict counts in a receipt do not match the actual findings array.";
      cause =
          "The sensor reported different counts (info/warn/error) than what the findings array contains.";
      fix =
          "Update the sensor to compute verdict counts from the findings array, or fix the findings array.";
    }
    ∷ record {
      code = sensors_truncated;
      title = "Sensors Truncated";
      description = "More sensor directories were found than the safety limit allows.";
      cause =
          "The artifacts directory contains more sensor directories than max_receipts (default 100).";
      fix =
          "Review why so many sensors exist. Increase max_receipts if legitimate, or clean up stale sensor directories.";
    }
    ∷ record {
      code = path_traversal;
      title = "Path Traversal Rejected";
      description =
          "A sensor ID or artifact path attempted to escape the artifacts root directory.";
      cause = "A sensor ID contains `..`, `/`, `\\`, or other unsafe path characters.";
      fix = "Ensure sensor IDs contain only alphanumeric characters, hyphens, and underscores.";
    }
    ∷ record {
      code = receipt_oversized;
      title = "Receipt Oversized";
      description = "A sensor receipt exceeds the maximum allowed file size.";
      cause = "The receipt file is larger than max_receipt_size_bytes (default 2MB).";
      fix =
          "Reduce the receipt size (fewer findings, smaller payloads) or increase max_receipt_size_bytes in cockpit.toml.";
    }
    ∷ []

-- `into_iter().find(|e| e.code == code)`
pub find_code : String → List CodeExplanation → Option CodeExplanation
find_code code [] = none
find_code code (e ∷ rest) = if str_eq e.code code then some e else find_code code rest

unfoldable pub explain_code : String → Option CodeExplanation
unfolding find_code all_codes
explain_code code = find_code code all_codes
