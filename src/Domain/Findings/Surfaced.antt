-- ===== src/Domain/Findings/Surfaced.antt =====
-- What sorting and capping surface of a sensor's findings.
use mathlib.Core.List.{mem-append}
use mathlib.Core.List.Perm
use mathlib.Core.Logic.Or
use mathlib.Core.Logic.{◌∨₁◌, ∨₁_prop}
use cockpitctl.Base.{
  ℕ, ◌≤◌, ◌<◌, min, String, ◌≡◌, ap, ◌∙◌, sym, true, List, map, Mem, Perm, arith, ltb, le_of,
  length, length-perm, length-take, take, take_all, take-append-drop, map-take, mem-drop-lt,
  sort_by-perm, sort_by-IsSorted, take-le-drop, sort_by-keys_unique, filter, filter-sort_by,
  IsSorted, is_eq,
}
use cockpitctl.Types.Findings.{Finding}
use cockpitctl.Types.Ranks.{
  severity_rank, sort_key_cmp, sort_key_cmp-IsOrder, sort_key_cmp-IsAntisym,
}
use cockpitctl.Domain.Findings.{
  cap_findings, finding_sort_key, finding_cmp, finding_cmp-IsOrder, sort_findings,
}

module _ {V : Type 0} where
  -- Both branches of the cap at once.
  pub cap_findings_lem :
      (findings : List (Finding V)) (max : ℕ)
      → cap_findings findings max ≡ (take max findings, ltb max (length findings))
  unfolding cap_findings
  cap_findings_lem findings max = ground (arith, take_all max findings)

  le-severity_rank :
      (sensor_id : String) (a b : Finding V)
      → le_of (finding_cmp sensor_id a b) ≡ true
      → severity_rank a.severity ≤ severity_rank b.severity
  unfolding finding_sort_key
  le-severity_rank sensor_id a b h = ground arith

module _ {V : Type 0} (sensor_id : String) where
  -- The findings are rearranged into the order of their keys, and those with one key keep their
  -- order.
  pub sort_findings_lem :
      (findings : List (Finding V))
      → Perm (sort_findings sensor_id findings) findings
        × IsSorted (finding_cmp sensor_id) (sort_findings sensor_id findings)
        × ((f : Finding V)
            → filter (λ g. is_eq (finding_cmp sensor_id f g)) (sort_findings sensor_id findings)
              ≡ filter (λ g. is_eq (finding_cmp sensor_id f g)) findings)
  unfolding sort_findings
  sort_findings_lem findings = (
    sort_by-perm (finding_cmp sensor_id) findings,
    sort_by-IsSorted (finding_cmp-IsOrder sensor_id) findings,
    λ f. filter-sort_by (finding_cmp-IsOrder sensor_id) f findings,
  )

  abbrev surfaced : List (Finding V) → ℕ → List (Finding V)
  surfaced findings max = (cap_findings (sort_findings sensor_id findings) max).0

  surfaced-take :
      (findings : List (Finding V)) (max : ℕ)
      → surfaced findings max ≡ take max (sort_findings sensor_id findings)
  surfaced-take findings max =
      ap (λ p. p.0) (cap_findings_lem (sort_findings sensor_id findings) max)

  length-sort_findings :
      (findings : List (Finding V)) → length (sort_findings sensor_id findings) ≡ length findings
  length-sort_findings findings = length-perm (sort_findings_lem findings).0

  -- Sorting and capping surface as many findings as the cap allows, and report a truncation exactly
  -- if there are more.
  pub surfaced-length :
      (findings : List (Finding V)) (max : ℕ)
      → (length (surfaced findings max) ≡ min max (length findings))
        × ((cap_findings (sort_findings sensor_id findings) max).1 ≡ ltb max (length findings))
  surfaced-length findings max = (
    ap length (surfaced-take findings max)
        ∙ length-take max (sort_findings sensor_id findings)
        ∙ ap (min max) (length-sort_findings findings),
    ap (λ p. p.1) (cap_findings_lem (sort_findings sensor_id findings) max)
        ∙ ap (ltb max) (length-sort_findings findings),
  )

  -- A finding that is not surfaced was left out for lack of room: there are more findings than the cap
  -- allows, as many are surfaced as it allows, and no surfaced finding is less severe.
  pub surfaced-severest :
      (findings : List (Finding V)) (max : ℕ) (f : Finding V)
      → Mem f findings
      → Mem f (surfaced findings max)
        ∨₁ ((max < length findings)
            × (length (surfaced findings max) ≡ max)
            × ((g : Finding V)
                → Mem g (surfaced findings max)
                → severity_rank g.severity ≤ severity_rank f.severity))
  surfaced-severest findings max f m =
      let all = sort_findings sensor_id findings in
      rw (surfaced-take findings max) (
        Or.elim ∨₁_prop
          (mem-append.0 (
            rw (← take-append-drop max all) at ((Perm.mem_iff (sort_findings_lem findings).0).1 m)))
          (λ kept. Or.inl kept)
          (λ left. Or.inr (
            omega (arith, mem-drop-lt max all left, length-sort_findings findings),
            omega (
              arith,
              length-take max all,
              mem-drop-lt max all left,
              length-sort_findings findings,
            ),
            λ g mg. le-severity_rank sensor_id g f (
                take-le-drop (finding_cmp-IsOrder sensor_id) max all (sort_findings_lem findings).1
                  mg left),
          )))

  -- The keys of what is surfaced do not depend on the order in which the sensor wrote its findings.
  pub surfaced-order_free :
      (l r : List (Finding V)) (max : ℕ)
      → Perm l r
      → map (finding_sort_key sensor_id) (surfaced l max)
        ≡ map (finding_sort_key sensor_id) (surfaced r max)
  unfolding sort_findings
  surfaced-order_free l r max p =
      rw (surfaced-take l max, surfaced-take r max)
        (map-take (finding_sort_key sensor_id) max (sort_findings sensor_id l)
          ∙ ap (take max) (
              sort_by-keys_unique (finding_sort_key sensor_id) sort_key_cmp sort_key_cmp-IsOrder
                sort_key_cmp-IsAntisym p)
          ∙ sym (map-take (finding_sort_key sensor_id) max (sort_findings sensor_id r)))
