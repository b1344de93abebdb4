-- ===== src/Domain/Summarize/Reconcile.antt =====
-- How `summarize_sensor_report` reconciles a receipt's own counts with what is surfaced.
use mathlib.Core.List.{append-nil}
use mathlib.Core.List.Perm
use cockpitctl.Base.{
  ℕ, ◌+◌, ◌≤◌, ◌<◌, min, String, ◌≡◌, ap, sym, Bool, true, Option, some, List, [], ◌∷◌, ◌++◌, map,
  arith, length, ltb, length-append, length-map, inl, inr, Bool-cases, u64_max, if◌then◌else◌,
}
use cockpitctl.Types.Findings.{Finding, Highlight, Verdict, VerdictCounts, SensorReport}
use cockpitctl.Types.Config.{SensorPolicy}
use cockpitctl.Types.Reports.{SensorSummary}
use cockpitctl.Types.Ranks.{counts_eq}
use cockpitctl.Domain.Counts.{compute_counts, compute_counts-sum, compute_counts-perm}
use cockpitctl.Domain.Findings.{sort_findings, cap_findings}
use cockpitctl.Domain.Findings.Surfaced.{surfaced-length}
use cockpitctl.Domain.Outcome.{compute_policy_outcome}
use cockpitctl.Domain.Summarize.{highlight_of, reconcile, summarize_sensor_report}

counts_eq-eq : (a b : VerdictCounts) → counts_eq a b ≡ true → a ≡ b
counts_eq-eq a b h = ground arith

counts_eq_self : (a : VerdictCounts) → counts_eq a a ≡ true
counts_eq_self a = ground arith

-- The receipt's own counts are those of what is surfaced.
abbrev agrees : {V : Type 0} → SensorReport V → List (Finding V) → Bool
agrees report surfaced = counts_eq report.verdict.counts (compute_counts surfaced)

reconcile-counts :
    (V : Type 0) (sensor_id : String) (v : Verdict) (c : VerdictCounts)
    → (reconcile {V = V} sensor_id v c).0.counts ≡ c
unfolding reconcile
reconcile-counts V sensor_id v c = ground (arith, counts_eq-eq v.counts c)

reconcile-reasons :
    (V : Type 0) (sensor_id : String) (v : Verdict) (c : VerdictCounts)
    → (reconcile {V = V} sensor_id v c).0.reasons
      ≡ v.reasons ++ (if counts_eq v.counts c then [] else "receipt_inconsistent" ∷ [])
unfolding reconcile
reconcile-reasons V sensor_id v c = elim (Bool-cases (counts_eq v.counts c)) [
  | inl h ↦ rw h (sym (append-nil v.reasons))
  | inr h ↦ rw h
]

reconcile-status :
    (V : Type 0) (sensor_id : String) (v : Verdict) (c : VerdictCounts)
    → (reconcile {V = V} sensor_id v c).0.status ≡ v.status
unfolding reconcile
reconcile-status V sensor_id v c = ground arith

length-reconcile :
    (V : Type 0) (sensor_id : String) (v : Verdict) (c : VerdictCounts)
    → length (reconcile {V = V} sensor_id v c).1 ≡ (if counts_eq v.counts c then 0 else 1)
unfolding reconcile
length-reconcile V sensor_id v c = ground arith

module _ {V : Type 0} (sensor_id report_path : String) (comment_path : Option String)
    (policy : SensorPolicy) (report : SensorReport V) (max : ℕ) where
  abbrev result : SensorSummary × List (Highlight V)
  result = summarize_sensor_report sensor_id report_path comment_path policy report max

  abbrev surfaced : List (Finding V)
  surfaced = (cap_findings (sort_findings sensor_id report.findings) max).0

  -- The summary keeps the receipt's status, counts what is surfaced, adds a reason exactly if the
  -- receipt's counts differ from those, and has the outcome of the policy for that status.
  pub summarize_sensor_report-verdict :
      (result.0.verdict.status ≡ report.verdict.status)
      × (result.0.verdict.counts ≡ compute_counts surfaced)
      × (result.0.verdict.reasons
          ≡ report.verdict.reasons
            ++ (if agrees report surfaced then [] else "receipt_inconsistent" ∷ []))
      × (result.0.policy_outcome
          ≡ some (compute_policy_outcome policy.blocking report.verdict.status))
  unfolding summarize_sensor_report
  summarize_sensor_report-verdict =
      let status = reconcile-status V sensor_id report.verdict (compute_counts surfaced) in
      (
        status,
        reconcile-counts V sensor_id report.verdict (compute_counts surfaced),
        reconcile-reasons V sensor_id report.verdict (compute_counts surfaced),
        ap (λ s. some (compute_policy_outcome policy.blocking s)) status,
      )

  -- There is one highlight for each surfaced finding, and one more exactly if the receipt's counts
  -- differ; the summary is marked truncated exactly if there are more findings than the cap.
  pub summarize_sensor_report-length :
      (length result.1
        ≡ (if agrees report surfaced then 0 else 1) + min max (length report.findings))
      × (result.0.truncated ≡ ltb max (length report.findings))
  unfolding summarize_sensor_report
  summarize_sensor_report-length =
      let sizes = surfaced-length sensor_id report.findings max in
      let notes = (reconcile {V = V} sensor_id report.verdict (compute_counts surfaced)).1 in
      (
        omega (
          arith,
          length-append notes (map (highlight_of sensor_id) surfaced),
          length-map surfaced (highlight_of sensor_id),
          length-reconcile V sensor_id report.verdict (compute_counts surfaced),
          sizes.0,
        ),
        sizes.1,
      )

  -- A receipt whose counts are exactly those of its findings is still reported as inconsistent when
  -- it has more findings than the cap (and at most as many as fit a `u64`).
  pub capped_receipt-inconsistent :
      report.verdict.counts ≡ compute_counts report.findings
      → max < length report.findings
      → length report.findings ≤ u64_max
      → result.0.verdict.reasons ≡ report.verdict.reasons ++ "receipt_inconsistent" ∷ []
  capped_receipt-inconsistent exact more fits =
      let sizes = surfaced-length sensor_id report.findings max in
      let whole = compute_counts-sum report.findings fits in
      let part = compute_counts-sum surfaced (omega (arith, sizes.0)) in
      elim (Bool-cases (agrees report surfaced)) [
        | inl same ↦
            let e = counts_eq-eq report.verdict.counts (compute_counts surfaced) same in
            absurd (ground (arith, sizes.0))
        | inr differ ↦ rw differ at (summarize_sensor_report-verdict.2)
      ]

  -- A receipt that reports suppressed findings is reported as inconsistent whatever its findings.
  pub suppressed_receipt-inconsistent :
      0 < report.verdict.counts.suppressed
      → result.0.verdict.reasons ≡ report.verdict.reasons ++ "receipt_inconsistent" ∷ []
  suppressed_receipt-inconsistent some_suppressed =
      let none_computed = (compute_counts-perm surfaced surfaced Perm.rfl).4 in
      elim (Bool-cases (agrees report surfaced)) [
        | inl same ↦
            let e = counts_eq-eq report.verdict.counts (compute_counts surfaced) same in
            absurd (ground arith)
        | inr differ ↦ rw differ at (summarize_sensor_report-verdict.2)
      ]
