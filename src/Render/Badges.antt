-- ===== src/Render/Badges.antt =====
-- The labels of crates/cockpitctl-render/src/lib.rs.
use cockpitctl.Base.{String}
use cockpitctl.Types.Enums.{
  VerdictStatus, Severity, SafetyLevel, BuildfixApplyStatus, PolicySignatureAlgorithm,
}

unfoldable pub status_badge : VerdictStatus → String
status_badge VerdictStatus.pass = "✅ pass"
status_badge VerdictStatus.warn = "⚠\u{fe0f} warn"
status_badge VerdictStatus.fail = "❌ fail"
status_badge VerdictStatus.skip = "⏭ skip"

unfoldable pub severity_badge : Severity → String
severity_badge Severity.error = "❌"
severity_badge Severity.warn = "⚠\u{fe0f}"
severity_badge Severity.info = "ℹ\u{fe0f}"

unfoldable pub safety_badge : SafetyLevel → String
safety_badge SafetyLevel.safe = "🟢 safe"
safety_badge SafetyLevel.guarded = "🟡 guarded"
safety_badge SafetyLevel.unsafe = "🔴 unsafe"

unfoldable pub safety_name : SafetyLevel → String
safety_name SafetyLevel.safe = "safe"
safety_name SafetyLevel.guarded = "guarded"
safety_name SafetyLevel.unsafe = "unsafe"

unfoldable pub apply_status_badge : BuildfixApplyStatus → String
apply_status_badge BuildfixApplyStatus.skipped = "⏭ skipped"
apply_status_badge BuildfixApplyStatus.applied = "✅ applied"
apply_status_badge BuildfixApplyStatus.failed = "❌ failed"

unfoldable pub policy_signature_algorithm_label : PolicySignatureAlgorithm → String
policy_signature_algorithm_label PolicySignatureAlgorithm.hmac_sha256 = "hmac_sha256"

unfoldable pub gh_level : Severity → String
gh_level Severity.error = "error"
gh_level Severity.warn = "warning"
gh_level Severity.info = "notice"
