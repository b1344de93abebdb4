-- ===== src/Domain/Verdict/Totals.antt =====
-- The counts and reasons of the overall verdict.
use cockpitctl.Base.{
  ℕ, ◌+◌, ◌≤◌, min, ◌≡◌, refl, Bool, ◌&&◌, List, [], ◌∷◌, arith, any, u64_max, Bool-cases, inl, inr,
  if◌then◌else◌,
}
use cockpitctl.Types.Findings.{VerdictCounts, Verdict}
use cockpitctl.Types.Config.{CockpitConfig}
use cockpitctl.Types.Reports.{SensorSummary}
use cockpitctl.Domain.Verdict.{promoted, visit, visit_all, start_verdict, overall_verdict}

-- The sum of one count over the summaries.
abbrev pub total : (VerdictCounts → ℕ) → List SensorSummary → ℕ
total field [] = 0
total field (s ∷ l) = field s.verdict.counts + total field l

abbrev totals : VerdictCounts → List SensorSummary → VerdictCounts
totals c l = record {
  info = min (c.info + total (λ x. x.info) l) u64_max;
  warn = min (c.warn + total (λ x. x.warn) l) u64_max;
  error = min (c.error + total (λ x. x.error) l) u64_max;
  suppressed = c.suppressed;
}

-- A blocking sensor whose warning is promoted to a failure.
abbrev pub promotes : Bool → SensorSummary → Bool
promotes w s = s.blocking && promoted w s.verdict.status

module _ (w : Bool) where
  visit_all-counts :
      (v : Verdict) (l : List SensorSummary)
      → v.counts.info ≤ u64_max
      → v.counts.warn ≤ u64_max
      → v.counts.error ≤ u64_max
      → (visit_all w v l).counts ≡ totals v.counts l
  unfolding visit_all
  visit_all-counts v [] i a e = ground arith
  visit_all-counts v (s ∷ l) i a e = ground (arith, visit_all-counts (visit w v s) l)

  visit-reasons_none :
      (v : Verdict) (s : SensorSummary)
      → v.reasons ≡ []
      → (visit w v s).reasons ≡ (if promotes w s then "warn_is_fail" ∷ [] else [])
  unfolding visit
  visit-reasons_none v s h = ground arith

  visit-reasons_some :
      (v : Verdict) (s : SensorSummary)
      → v.reasons ≡ "warn_is_fail" ∷ []
      → (visit w v s).reasons ≡ "warn_is_fail" ∷ []
  unfolding visit
  visit-reasons_some v s h = ground arith

  visit_all-reasons_some :
      (v : Verdict) (l : List SensorSummary)
      → v.reasons ≡ "warn_is_fail" ∷ []
      → (visit_all w v l).reasons ≡ "warn_is_fail" ∷ []
  unfolding visit_all
  visit_all-reasons_some v [] h = h
  visit_all-reasons_some v (s ∷ l) h =
      visit_all-reasons_some (visit w v s) l (visit-reasons_some v s h)

  visit_all-reasons_none :
      (v : Verdict) (l : List SensorSummary)
      → v.reasons ≡ []
      → (visit_all w v l).reasons ≡ (if any (promotes w) l then "warn_is_fail" ∷ [] else [])
  unfolding visit_all
  visit_all-reasons_none v [] h = h
  visit_all-reasons_none v (s ∷ l) h = elim (Bool-cases (promotes w s)) [
    | inl p ↦ rw p (visit_all-reasons_some (visit w v s) l (rw p at (visit-reasons_none v s h)))
    | inr p ↦ rw p (visit_all-reasons_none (visit w v s) l (rw p at (visit-reasons_none v s h)))
  ]

-- The counts of the overall verdict are the sums over all sensors, blocking or not, capped at the
-- largest `u64`; and its only reason, once, is `warn_is_fail`, exactly if a blocking sensor's
-- warning was promoted.
pub overall_verdict-totals :
    (summaries : List SensorSummary) (cfg : CockpitConfig)
    → ((overall_verdict summaries cfg).counts ≡ record {
      info = min (total (λ x. x.info) summaries) u64_max;
      warn = min (total (λ x. x.warn) summaries) u64_max;
      error = min (total (λ x. x.error) summaries) u64_max;
      suppressed = 0;
    })
      × ((overall_verdict summaries cfg).reasons
          ≡ (if any (promotes cfg.policy.warn_is_fail) summaries then "warn_is_fail" ∷ [] else []))
unfolding overall_verdict
overall_verdict-totals summaries cfg = (
  ground (
    arith,
    visit_all-counts cfg.policy.warn_is_fail start_verdict summaries (omega arith) (omega arith)
        (omega arith),
  ),
  visit_all-reasons_none cfg.policy.warn_is_fail start_verdict summaries refl,
)
