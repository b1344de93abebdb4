-- ===== src/Domain/Counts.antt =====
-- `compute_counts` of crates/cockpitctl-domain/src/lib.rs: the loop over the findings, and what it
-- comes to.
use cockpitctl.Base.{
  ℕ, ◌+◌, ◌≤◌, min, length, ◌≡◌, refl, Perm, count-perm, Bool, true, false, List, [], ◌∷◌, arith,
  saturating_add, u64_max, count,
}
use cockpitctl.Types.Enums.{Severity}
use cockpitctl.Types.Findings.{Finding, VerdictCounts}

abbrev pub no_counts : VerdictCounts
no_counts = record { info = 0; warn = 0; error = 0; suppressed = 0 }

-- The body of the loop.
abbrev pub add_severity : VerdictCounts → Severity → VerdictCounts
add_severity c Severity.info = record c { info = saturating_add c.info 1 }
add_severity c Severity.warn = record c { warn = saturating_add c.warn 1 }
add_severity c Severity.error = record c { error = saturating_add c.error 1 }

abbrev pub severity_eq : Severity → Severity → Bool
severity_eq Severity.info Severity.info = true
severity_eq Severity.warn Severity.warn = true
severity_eq Severity.error Severity.error = true
severity_eq _ _ = false

module _ {V : Type 0} where
  count_from : VerdictCounts → List (Finding V) → VerdictCounts
  count_from c [] = c
  count_from c (f ∷ fs) = count_from (add_severity c f.severity) fs

  unfoldable pub compute_counts : List (Finding V) → VerdictCounts
  unfolding count_from
  compute_counts findings = count_from no_counts findings

  -- How many findings have the severity.
  abbrev pub of_severity : Severity → List (Finding V) → ℕ
  of_severity s fs = count (λ f. severity_eq f.severity s) fs

  abbrev saturated : VerdictCounts → List (Finding V) → VerdictCounts
  saturated c fs = record {
    info = min (c.info + of_severity Severity.info fs) u64_max;
    warn = min (c.warn + of_severity Severity.warn fs) u64_max;
    error = min (c.error + of_severity Severity.error fs) u64_max;
    suppressed = c.suppressed;
  }

  count_from-saturated :
      (c : VerdictCounts) (fs : List (Finding V))
      → c.info ≤ u64_max
      → c.warn ≤ u64_max
      → c.error ≤ u64_max
      → count_from c fs ≡ saturated c fs
  unfolding count_from
  count_from-saturated c [] i w e = ground arith
  count_from-saturated c (f ∷ fs) i w e =
      ground (arith, count_from-saturated (add_severity c f.severity) fs)

  pub compute_counts_lem : (fs : List (Finding V)) → compute_counts fs ≡ saturated no_counts fs
  unfolding compute_counts
  compute_counts_lem fs =
      count_from-saturated no_counts fs (omega arith) (omega arith) (omega arith)

  -- Every finding is counted under one severity.
  pub of_severity-sum :
      (fs : List (Finding V))
      → of_severity Severity.info fs + of_severity Severity.warn fs + of_severity Severity.error fs
        ≡ length fs
  of_severity-sum [] = refl
  of_severity-sum (f ∷ fs) = ground (arith, of_severity-sum fs)

  -- Below the largest `u64` the counts add up to the number of findings.
  pub compute_counts-sum :
      (fs : List (Finding V))
      → length fs ≤ u64_max
      → (compute_counts fs).info + (compute_counts fs).warn + (compute_counts fs).error ≡ length fs
  compute_counts-sum fs h = ground (arith, compute_counts_lem fs, of_severity-sum fs)

  -- The counts do not depend on the order of the findings, and each is the number of findings of
  -- its severity, capped at the largest `u64`; none is suppressed.
  pub compute_counts-perm :
      (l r : List (Finding V))
      → Perm l r
      → (compute_counts l ≡ compute_counts r)
        × ((compute_counts l).info ≡ min (of_severity Severity.info l) u64_max)
        × ((compute_counts l).warn ≡ min (of_severity Severity.warn l) u64_max)
        × ((compute_counts l).error ≡ min (of_severity Severity.error l) u64_max)
        × ((compute_counts l).suppressed ≡ 0)
  compute_counts-perm l r p =
      let i = count-perm (λ (f : Finding V). severity_eq f.severity Severity.info) p in
      let w = count-perm (λ (f : Finding V). severity_eq f.severity Severity.warn) p in
      let e = count-perm (λ (f : Finding V). severity_eq f.severity Severity.error) p in
      let cl = compute_counts_lem l in
      let cr = compute_counts_lem r in
      (ground arith, ground arith, ground arith, ground arith, ground arith)
