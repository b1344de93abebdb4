-- ===== src/Buildfix/Totals.antt =====
-- What `match_buildfix_plan` promises of its summary.
use cockpitctl.Base.{
  ◌≡◌, refl, ◌+◌, ◌∙◌, String, Bool, not, ◌&&◌, List, [], ◌∷◌, map, any, filter, ◌++◌, count,
  count-perm, count-le-length, length, length-map, length-perm, arith, Perm, str_eq, sort_by,
  sort_by-perm, sort_by-IsSorted, IsSorted,
}
use cockpitctl.Types.Findings.{Highlight}
use cockpitctl.Types.Fixes.{FindingRef, MatchedFinding, Fix, BuildfixPlan, FixSummary}
use cockpitctl.Buildfix.{
  refers_to, match_ref, match_refs, matched_finding, is_nil, summarize_fix, fix_cmp,
  fix_cmp-IsOrder, summarize_fixes, match_buildfix_plan,
}

module _ {V : Type 0} (sensor_id : String) (highlights : List (Highlight V)) where
  -- Some highlight is one that the reference is to.
  abbrev pub ref_matches : FindingRef → Bool
  ref_matches fref = str_eq fref.sensor_id sensor_id && any (refers_to sensor_id fref) highlights

  is_nil-map :
      (p : Highlight V → Bool) (l : List (Highlight V))
      → is_nil (map matched_finding (filter p l)) ≡ not (any p l)
  unfolding is_nil
  is_nil-map p [] = refl
  is_nil-map p (h ∷ l) = ground (arith, is_nil-map p l)

  is_nil-append : (a b : List MatchedFinding) → is_nil (a ++ b) ≡ (is_nil a && is_nil b)
  unfolding is_nil
  is_nil-append [] b = refl
  is_nil-append (x ∷ a) b = refl

  is_nil-match_ref :
      (fref : FindingRef) → is_nil (match_ref sensor_id highlights fref) ≡ not (ref_matches fref)
  unfolding match_ref is_nil
  is_nil-match_ref fref = ground (arith, is_nil-map (refers_to sensor_id fref) highlights)

  is_nil-match_refs :
      (refs : List FindingRef)
      → is_nil (match_refs sensor_id highlights refs) ≡ not (any ref_matches refs)
  unfolding match_refs is_nil
  is_nil-match_refs [] = refl
  is_nil-match_refs (r ∷ refs) = ground (
    arith,
    is_nil-append (match_ref sensor_id highlights r) (match_refs sensor_id highlights refs),
    is_nil-match_ref r,
    is_nil-match_refs refs,
  )

  -- A fix is unmatched exactly if none of its references is to a surfaced finding of the sensor.
  pub summarize_fix-unmatched :
      (fix : Fix V)
      → (summarize_fix sensor_id highlights fix).unmatched ≡ not (any ref_matches fix.finding_refs)
  unfolding summarize_fix
  summarize_fix-unmatched fix = is_nil-match_refs fix.finding_refs

  count-unmatched :
      (fixes : List (Fix V))
      → count (λ f. f.unmatched) (map (summarize_fix sensor_id highlights) fixes)
        ≡ count (λ f. not (any ref_matches f.finding_refs)) fixes
  count-unmatched [] = refl
  count-unmatched (f ∷ fixes) = ground (arith, summarize_fix-unmatched f, count-unmatched fixes)

  -- The summary has every fix of the plan once, in ascending order, and its totals count the fixes:
  -- all of them, and those without a matching reference.
  pub match_buildfix_plan-totals :
      (plan : BuildfixPlan V)
      → Perm
          (match_buildfix_plan sensor_id plan highlights).fixes
          (map (summarize_fix sensor_id highlights) plan.fixes)
        × IsSorted fix_cmp (match_buildfix_plan sensor_id plan highlights).fixes
        × ((match_buildfix_plan sensor_id plan highlights).total_fixes ≡ length plan.fixes)
        × ((match_buildfix_plan sensor_id plan highlights).unmatched_count
            ≡ count (λ f. not (any ref_matches f.finding_refs)) plan.fixes)
        × ((match_buildfix_plan sensor_id plan highlights).matched_count
              + (match_buildfix_plan sensor_id plan highlights).unmatched_count
            ≡ length plan.fixes)
  unfolding match_buildfix_plan summarize_fixes
  match_buildfix_plan-totals plan =
      let fixes = map (summarize_fix sensor_id highlights) plan.fixes in
      let perm = sort_by-perm fix_cmp fixes in
      let all : length (sort_by fix_cmp fixes) ≡ length plan.fixes =
        length-perm perm ∙ length-map plan.fixes (summarize_fix sensor_id highlights) in
      let unmatched =
        count-perm (λ (f : FixSummary). f.unmatched) perm ∙ count-unmatched plan.fixes in
      (
        perm,
        sort_by-IsSorted fix_cmp-IsOrder fixes,
        all,
        unmatched,
        omega
            (arith, all, count-le-length (λ (f : FixSummary). f.unmatched) (sort_by fix_cmp fixes)),
      )
