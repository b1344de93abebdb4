-- ===== src/Render/Samples.antt =====
-- Test data for the modules of crates/cockpitctl-render/src/lib.rs: payloads without an entry.
use cockpitctl.Base.{none}
use cockpitctl.Domain.Samples.{V₀}
use cockpitctl.Render.Comment.{Payloads}

abbrev pub no_payloads : Payloads V₀
no_payloads = record {
  get = λ v key. none;
  buildfix_summary = λ v. none;
  apply_summary = λ v. none;
  policy_signature = λ v. none;
}
