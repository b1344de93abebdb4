-- ===== src/Trend/Same.antt =====
-- `compute_trend` of crates/cockpitctl-domain-trend/src/lib.rs where the two reports are the same, and
-- what it says of two.
use mathlib.Core.List.{mem-cons, mem-cons_self, mem-cons_of_mem, not-mem-nil}
use mathlib.Core.Logic.Or
use mathlib.Core.Bool.{Bool-set}
use cockpitctl.Base.{
  ◌≡◌, refl, sym, ap, ◌∙◌, ◌<◌, ℕ, Bool, true, false, not, none, List, [], ◌∷◌, map, filter, Mem,
  any, arith, is_eq, string_compare-IsOrder, Option-cases, cmp_self, inl, inr,
}
use cockpitctl.Base.Int.{pos, ◌-ℤ◌, eq_of_parts, -ℤ_parts}
use cockpitctl.Types.Enums.{VerdictStatus}
use cockpitctl.Types.Findings.{Highlight, VerdictCounts}
use cockpitctl.Types.Reports.{CockpitReport, SensorSummary}
use cockpitctl.Types.Deltas.{TrendDelta}
use cockpitctl.Types.Ranks.{status_eq}
use cockpitctl.Trend.{
  finding_to_key, key_cmp, key_cmp-IsOrder, key_of, unmatched_findings, compute_trend, delta, wrap,
  as_i64, two_63, difference, highlight_to_trend_finding, verdict_change, count_deltas, sensor_ids,
}
use cockpitctl.Trend.Changes.{mem-difference}
use cockpitctl.Trend.Match.{fp_is, appears, unmatched_findings-appears}

any_self : {A : Type 0} (p : A → Bool) (l : List A) {a : A} → Mem a l → p a ≡ true → any p l ≡ true
any_self p [] m h = absurd (not-mem-nil m)
any_self p (x ∷ l) m h =
    Or.elim (Bool-set _ _) (mem-cons.0 m) (λ e. rw (sym e, h) refl)
      (λ r. ground (arith, any_self p l r h))

filter_none :
    {A : Type 0} (p : A → Bool) (l : List A) → ((a : A) → Mem a l → p a ≡ false) → filter p l ≡ []
filter_none p [] f = refl
filter_none p (x ∷ l) f =
    rw (f x mem-cons_self) (filter_none p l (λ a m. f a (mem-cons_of_mem x m)))

module _ {V : Type 0} where
  -- A finding is in its own list.
  appears_self : (hs : List (Highlight V)) (h : Highlight V) → Mem h hs → appears hs h ≡ true
  unfolding finding_to_key
  appears_self hs h m = elim (Option-cases h.finding.fingerprint) [
    | inl e ↦ rw e (
        any_self (λ g. is_eq (key_cmp (key_of h) (key_of g))) hs m
          (rw (cmp_self key_cmp-IsOrder (key_of h)) refl))
    | inr (fp, e) ↦ rw e (
        any_self (λ g. fp_is fp g.finding.fingerprint) hs m
          (rw (e, cmp_self string_compare-IsOrder fp) refl))
  ]

  unmatched_self : (hs : List (Highlight V)) → unmatched_findings hs hs ≡ []
  unmatched_self hs =
      unmatched_findings-appears hs hs
      ∙ ap (map highlight_to_trend_finding)
          (filter_none (λ h. not (appears hs h)) hs (λ h m. ap not (appears_self hs h m)))

delta_self : (n : ℕ) → delta n n ≡ pos 0
unfolding delta wrap
delta_self n =
    let e : as_i64 n -ℤ as_i64 n ≡ pos 0 =
      eq_of_parts (as_i64 n -ℤ as_i64 n) (pos 0) (omega (arith, -ℤ_parts (as_i64 n) (as_i64 n))) in
    rw e refl

delta_exact : (a b : ℕ) → a < two_63 → b < two_63 → delta a b ≡ pos a -ℤ pos b
unfolding delta wrap as_i64 ◌-ℤ◌
delta_exact a b h k = ground arith

none_mem : {A : Type 0} (l : List A) → ((a : A) → ¬ Mem a l) → l ≡ []
none_mem [] f = refl
none_mem (x ∷ l) f = absurd (f x mem-cons_self)

difference_self : (l : List SensorSummary) → difference (sensor_ids l) (sensor_ids l) ≡ []
difference_self l =
    none_mem (difference (sensor_ids l) (sensor_ids l))
      (λ id m. let (a, b) = (mem-difference id l l).0 m in cc)

status_eq_self : (s : VerdictStatus) → status_eq s s ≡ true
status_eq_self s = ground arith

-- The deltas are exact: below 2^63, each is the difference of the two counts.
pub count_deltas-exact :
    (b c : VerdictCounts)
    → b.info < two_63
    → c.info < two_63
    → b.warn < two_63
    → c.warn < two_63
    → b.error < two_63
    → c.error < two_63
    → ((count_deltas b c).info_delta ≡ pos c.info -ℤ pos b.info)
      × ((count_deltas b c).warn_delta ≡ pos c.warn -ℤ pos b.warn)
      × ((count_deltas b c).error_delta ≡ pos c.error -ℤ pos b.error)
unfolding count_deltas
count_deltas-exact b c bi ci bw cw be ce = (
  delta_exact c.info b.info ci bi,
  delta_exact c.warn b.warn cw bw,
  delta_exact c.error b.error ce be,
)

abbrev pub no_difference : TrendDelta
no_difference = record {
  verdict_change = none;
  count_deltas = record { info_delta = pos 0; warn_delta = pos 0; error_delta = pos 0 };
  new_findings = [];
  fixed_findings = [];
  sensors_added = [];
  sensors_removed = [];
}

-- A report compared with itself has no difference.
pub compute_trend-same : {V : Type 0} (r : CockpitReport V) → compute_trend r r ≡ no_difference
unfolding compute_trend verdict_change count_deltas
compute_trend-same r =
    rw
      (
        status_eq_self r.verdict.status,
        delta_self r.verdict.counts.info,
        delta_self r.verdict.counts.warn,
        delta_self r.verdict.counts.error,
        unmatched_self r.highlights,
        difference_self r.sensors,
      )
      refl
