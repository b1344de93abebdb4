-- ===== src/Domain/Verdict.antt =====
-- `overall_verdict` of crates/cockpitctl-domain/src/lib.rs.
pub mod Worst
pub mod Totals
use cockpitctl.Base.{
  String, Bool, true, false, ◌&&◌, not, List, [], ◌∷◌, ◌++◌, ltb, any, str_eq, saturating_add,
  if◌then◌else◌,
}
use cockpitctl.Types.Enums.{VerdictStatus}
use cockpitctl.Types.Findings.{VerdictCounts, Verdict}
use cockpitctl.Types.Config.{CockpitConfig}
use cockpitctl.Types.Reports.{SensorSummary}
use cockpitctl.Types.Ranks.{verdict_status_rank}
use cockpitctl.Domain.Counts.{no_counts}

-- `matches!(status, VerdictStatus::Warn)`
abbrev pub is_warn : VerdictStatus → Bool
is_warn VerdictStatus.warn = true
is_warn _ = false

abbrev add_counts : VerdictCounts → VerdictCounts → VerdictCounts
add_counts c d = record c {
  info = saturating_add c.info d.info;
  warn = saturating_add c.warn d.warn;
  error = saturating_add c.error d.error;
}

abbrev warn_is_fail_reason : String
warn_is_fail_reason = "warn_is_fail"

-- A warning that the policy promotes to a failure.
abbrev pub promoted : Bool → VerdictStatus → Bool
promoted warn_is_fail status = warn_is_fail && is_warn status

abbrev pub effective_status : Bool → VerdictStatus → VerdictStatus
effective_status warn_is_fail status =
    if promoted warn_is_fail status then VerdictStatus.fail else status

abbrev worse : VerdictStatus → VerdictStatus → VerdictStatus
worse worst status =
    if ltb (verdict_status_rank status) (verdict_status_rank worst) then status else worst

abbrev add_reason : List String → List String
add_reason reasons =
    if any (λ r. str_eq r warn_is_fail_reason) reasons
    then reasons
    else reasons ++ warn_is_fail_reason ∷ []

-- The body of the loop. The counts are those of every sensor, the rest is for blocking ones.
unfoldable pub visit : Bool → Verdict → SensorSummary → Verdict
visit warn_is_fail v s =
    let counts = add_counts v.counts s.verdict.counts in
    if not s.blocking then record v { counts = counts } else record {
      status = worse v.status (effective_status warn_is_fail s.verdict.status);
      counts = counts;
      reasons = if promoted warn_is_fail s.verdict.status then add_reason v.reasons else v.reasons;
    }

unfoldable pub visit_all : Bool → Verdict → List SensorSummary → Verdict
unfolding visit
visit_all warn_is_fail v [] = v
visit_all warn_is_fail v (s ∷ rest) = visit_all warn_is_fail (visit warn_is_fail v s) rest

abbrev pub start_verdict : Verdict
start_verdict = record { status = VerdictStatus.pass; counts = no_counts; reasons = [] }

unfoldable pub overall_verdict : List SensorSummary → CockpitConfig → Verdict
unfolding visit_all
overall_verdict sensor_summaries cfg =
    visit_all cfg.policy.warn_is_fail start_verdict sensor_summaries
