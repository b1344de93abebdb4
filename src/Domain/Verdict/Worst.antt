-- ===== src/Domain/Verdict/Worst.antt =====
-- The status of the overall verdict of crates/cockpitctl-domain/src/lib.rs.
use mathlib.Core.List.{mem-cons, not-mem-nil}
use mathlib.Core.Logic.Or
use native.Mathlib.Bridge.{le_prop}
use cockpitctl.Base.{
  ◌≤◌, ◌≡◌, refl, ◌⊎◌, inl, Bool, true, ◌&&◌, ◌||◌, List, [], ◌∷◌, Mem, arith, any,
}
use cockpitctl.Types.Enums.{VerdictStatus}
use cockpitctl.Types.Findings.{Verdict}
use cockpitctl.Types.Config.{CockpitConfig}
use cockpitctl.Types.Reports.{SensorSummary}
use cockpitctl.Types.Ranks.{verdict_status_rank, status_eq}
use cockpitctl.Domain.Outcome.{is_fail}
use cockpitctl.Domain.Verdict.{effective_status, visit, visit_all, start_verdict, overall_verdict}

-- A blocking sensor has the effective status.
abbrev pub has_status : Bool → VerdictStatus → SensorSummary → Bool
has_status warn_is_fail status s =
    s.blocking && status_eq (effective_status warn_is_fail s.verdict.status) status

-- A blocking sensor that fails, or that warns where warnings count as failures.
abbrev pub blocks : Bool → SensorSummary → Bool
blocks warn_is_fail s = s.blocking && is_fail (effective_status warn_is_fail s.verdict.status)

module _ (w : Bool) where
  visit-le :
      (v : Verdict) (s : SensorSummary)
      → verdict_status_rank (visit w v s).status ≤ verdict_status_rank v.status
  unfolding visit verdict_status_rank
  visit-le v s = ground arith

  visit-le_own :
      (v : Verdict) (s : SensorSummary)
      → s.blocking ≡ true
      → verdict_status_rank (visit w v s).status
        ≤ verdict_status_rank (effective_status w s.verdict.status)
  unfolding visit verdict_status_rank
  visit-le_own v s h = ground arith

  visit_all-le :
      (v : Verdict) (l : List SensorSummary)
      → verdict_status_rank (visit_all w v l).status ≤ verdict_status_rank v.status
  unfolding visit_all
  visit_all-le v [] = omega arith
  visit_all-le v (s ∷ l) = omega (arith, visit-le v s, visit_all-le (visit w v s) l)

  visit_all-least :
      (v : Verdict) (l : List SensorSummary) {s : SensorSummary}
      → Mem s l
      → s.blocking ≡ true
      → verdict_status_rank (visit_all w v l).status
        ≤ verdict_status_rank (effective_status w s.verdict.status)
  unfolding visit_all
  visit_all-least v [] m h = absurd (not-mem-nil m)
  visit_all-least v (x ∷ l) {s} m h =
      Or.elim le_prop (mem-cons.0 m)
        (λ e. rw e (omega (arith, visit-le_own v x (rw e at h), visit_all-le (visit w v x) l)))
        (λ r. visit_all-least (visit w v x) l r h)

  visit-attained :
      (v : Verdict) (s : SensorSummary)
      → ((visit w v s).status ≡ v.status) ⊎ (has_status w (visit w v s).status s ≡ true)
  unfolding visit verdict_status_rank
  visit-attained v s = ground arith

  visit_all-attained :
      (v : Verdict) (l : List SensorSummary)
      → ((visit_all w v l).status ≡ v.status)
        ⊎ (any (has_status w (visit_all w v l).status) l ≡ true)
  unfolding visit_all
  visit_all-attained v [] = inl refl
  visit_all-attained v (s ∷ l) =
      ground (arith, visit-attained v s, visit_all-attained (visit w v s) l)

  -- Nothing ranks above a failure.
  fail_least :
      (v : Verdict) (s : SensorSummary)
      → is_fail (visit w v s).status ≡ (is_fail v.status || blocks w s)
  unfolding visit verdict_status_rank
  fail_least v s = ground arith

  visit_all-fail :
      (v : Verdict) (l : List SensorSummary)
      → is_fail (visit_all w v l).status ≡ (is_fail v.status || any (blocks w) l)
  unfolding visit_all
  visit_all-fail v [] = ground arith
  visit_all-fail v (s ∷ l) = ground (arith, fail_least v s, visit_all-fail (visit w v s) l)

module _ (summaries : List SensorSummary) (cfg : CockpitConfig) where
  -- The overall status is at most as good as a pass and as the effective status of each blocking
  -- sensor, and it is a pass or the effective status of some blocking sensor.
  pub overall_verdict-worst :
      (verdict_status_rank (overall_verdict summaries cfg).status ≤ 2)
      × ((s : SensorSummary)
          → Mem s summaries
          → s.blocking ≡ true
          → verdict_status_rank (overall_verdict summaries cfg).status
            ≤ verdict_status_rank (effective_status cfg.policy.warn_is_fail s.verdict.status))
      × (((overall_verdict summaries cfg).status ≡ VerdictStatus.pass)
          ⊎ (any
                (has_status cfg.policy.warn_is_fail (overall_verdict summaries cfg).status)
                summaries
              ≡ true))
  unfolding overall_verdict verdict_status_rank
  overall_verdict-worst = (
    visit_all-le cfg.policy.warn_is_fail start_verdict summaries,
    λ s m h. visit_all-least cfg.policy.warn_is_fail start_verdict summaries m h,
    visit_all-attained cfg.policy.warn_is_fail start_verdict summaries,
  )

  -- The overall verdict is a failure exactly if some blocking sensor fails, or warns where the
  -- policy counts warnings as failures.
  pub overall_verdict-fail :
      is_fail (overall_verdict summaries cfg).status
      ≡ any (blocks cfg.policy.warn_is_fail) summaries
  unfolding overall_verdict
  overall_verdict-fail = visit_all-fail cfg.policy.warn_is_fail start_verdict summaries
