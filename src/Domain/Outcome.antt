-- ===== src/Domain/Outcome.antt =====
-- `compute_policy_outcome` of crates/cockpitctl-domain/src/lib.rs.
pub mod Synthesized
use cockpitctl.Base.{Bool, true, false, not, if◌then◌else◌}
use cockpitctl.Types.Enums.{VerdictStatus, PolicyOutcome}

-- `matches!(status, VerdictStatus::Fail)`
abbrev pub is_fail : VerdictStatus → Bool
is_fail VerdictStatus.fail = true
is_fail _ = false

unfoldable pub compute_policy_outcome : Bool → VerdictStatus → PolicyOutcome
compute_policy_outcome blocking status =
    if not blocking
    then PolicyOutcome.informational
    else if is_fail status
    then PolicyOutcome.blocked
    else PolicyOutcome.allowed
