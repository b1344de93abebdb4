-- ===== src/Ingest/Samples.antt =====
-- Test data for the modules of crates/cockpitctl-ingest/src/lib.rs: a codec that can parse nothing.
use cockpitctl.Base.{none}
use cockpitctl.Domain.Samples.{V₀}
use cockpitctl.Ingest.Ports.{Parsed, Codec}
use cockpitctl.Ingest.Result.{ok}

abbrev pub codec : Codec V₀
codec = record {
  parse_report = λ b. Parsed.malformed "expected value at line 1 column 1";
  parse_plan = λ b. Parsed.malformed "expected value at line 1 column 1";
  to_string_pretty = λ r. ok "{}";
  buildfix_to_value = λ b. none;
  empty_object = tt;
  insert_entry = λ k v o. o;
  sha256_hex = λ s. s;
}
