-- ===== src/Conform/Checks/Ordering.antt =====
-- `check_ordering` of crates/cockpitctl-conform/src/checks.rs, and the sort of
-- crates/cockpitctl-domain/src/lib.rs.
use mathlib.Core.List.{Pairwise-map, mem-cons, mem-cons_self, mem-cons_of_mem, not-mem-nil}
use mathlib.Core.List.Perm
use mathlib.Core.List.Pairwise
use mathlib.Core.Logic.Or
use mathlib.Core.Bool.{Bool-set}
use mathlib.Core.Option.{bind}
use cockpitctl.Base.{
  ◌≡◌, refl, sym, ap, ap₂, ◌∙◌, ◌↔◌, ℕ, ◌+◌, String, Bool, true, false, not, ◌&&◌, none, some, List,
  [], ◌∷◌, map, Mem, Pairwise, arith, IsSorted, is_lt, is_some, swap, Ordering, lt, eq, gt, ◌++◌,
  le_of, le_trans,
}
use cockpitctl.Types.Findings.{Finding, SensorReport}
use cockpitctl.Types.Ranks.{FindingSortKey, sort_key_cmp, sort_key_cmp-IsOrder}
use cockpitctl.Domain.Findings.{finding_sort_key, sort_findings}
use cockpitctl.Domain.Findings.Surfaced.{sort_findings_lem}
use cockpitctl.Render.Sections.{no_items}
use cockpitctl.Conform.Checks.{when, out_of_order, ordering_key, check_ordering}
use cockpitctl.Conform.Checks.Clean.{no_items-append, no_items-when}

below_head :
    {b : FindingSortKey} {l : List FindingSortKey} (a : FindingSortKey)
    → le_of (sort_key_cmp a b) ≡ true
    → IsSorted sort_key_cmp (b ∷ l)
    → (z : FindingSortKey) → Mem z (b ∷ l)
    → le_of (sort_key_cmp a z) ≡ true
below_head {b} a h (Pairwise.cons below s) z m =
    Or.elim (Bool-set _ _) (mem-cons.0 m) (λ e. rw e h)
      (λ r. le_trans sort_key_cmp-IsOrder a b z h (below z r))

heads_le :
    {a b : FindingSortKey} {l : List FindingSortKey}
    → IsSorted sort_key_cmp (a ∷ b ∷ l)
    → le_of (sort_key_cmp a b) ≡ true
heads_le {b} (Pairwise.cons below s) = below b mem-cons_self

nothing : {A : Type 0} (l : List A) → no_items l ≡ true → l ≡ []
nothing [] h = refl
nothing (a ∷ l) h = cc

lt_swap : (o : Ordering) → not (is_lt (swap o)) ≡ le_of o
lt_swap lt = refl
lt_swap eq = refl
lt_swap gt = refl

-- Neighbours have no violation exactly if they ascend.
pub neighbours :
    (a b : FindingSortKey) (message : String) (rest : List String)
    → no_items (when (is_lt (sort_key_cmp b a)) message ++ rest)
      ≡ (le_of (sort_key_cmp a b) && no_items rest)
neighbours a b message rest =
    no_items-append (when (is_lt (sort_key_cmp b a)) message) rest
    ∙ ap (λ x. x && no_items rest)
        (no_items-when (is_lt (sort_key_cmp b a)) message
          ∙ ap (λ o. not (is_lt o)) (sort_key_cmp-IsOrder.flip a b)
          ∙ lt_swap (sort_key_cmp a b))

and_true : (x y : Bool) → (x && y ≡ true) ↔ ((x ≡ true) × (y ≡ true))
and_true true y = (λ h. (refl, h), λ (_, h). h)
and_true false y = (λ h. cc, λ (h, _). h)

out_of_order-IsSorted :
    (i : ℕ) (l : List FindingSortKey)
    → (no_items (out_of_order i l) ≡ true) ↔ IsSorted sort_key_cmp l
unfolding out_of_order
out_of_order-IsSorted i [] = (λ _. Pairwise.nil, λ _. refl)
out_of_order-IsSorted i (a ∷ []) =
    (λ _. Pairwise.cons (λ z m. absurd (not-mem-nil m)) Pairwise.nil, λ _. refl)
out_of_order-IsSorted i (a ∷ b ∷ rest) =
    let next = out_of_order-IsSorted (i + 1) (b ∷ rest) in
    let split = and_true (le_of (sort_key_cmp a b)) (no_items (out_of_order (i + 1) (b ∷ rest))) in
    (
      λ h.
          let (first, others) =
            split.0 (sym (neighbours a b _ (out_of_order (i + 1) (b ∷ rest))) ∙ h) in
          Pairwise.cons (below_head a first (next.0 others)) (next.0 others),
      λ s.
          neighbours a b _ (out_of_order (i + 1) (b ∷ rest))
          ∙ split.1 (heads_le s, next.1 (Pairwise.of_cons s)),
    )

module _ {V : Type 0} where
  -- The check of the order finds nothing exactly if the keys that it computes ascend.
  pub check_ordering-IsSorted :
      (report : SensorReport V) (sensor_id : String)
      → (no_items (check_ordering report sensor_id) ≡ true)
        ↔ IsSorted sort_key_cmp (map (ordering_key sensor_id) report.findings)
  unfolding check_ordering
  check_ordering-IsSorted report sensor_id =
      out_of_order-IsSorted 1 (map (ordering_key sensor_id) report.findings)

  -- The finding has a line.
  abbrev pub has_line : Finding V → Bool
  has_line f = elim f.location [ none ↦ false | some loc ↦ is_some loc.line ]

  same_key :
      (sensor_id : String) (f : Finding V)
      → has_line f ≡ true
      → finding_sort_key sensor_id f ≡ ordering_key sensor_id f
  unfolding finding_sort_key ordering_key bind
  same_key sensor_id f h = ground arith

  same_keys :
      (sensor_id : String) (l : List (Finding V))
      → ((f : Finding V) → Mem f l → has_line f ≡ true)
      → map (ordering_key sensor_id) l ≡ map (finding_sort_key sensor_id) l
  same_keys sensor_id [] h = refl
  same_keys sensor_id (f ∷ l) h =
      ap₂ ◌∷◌ (sym (same_key sensor_id f (h f mem-cons_self)))
        (same_keys sensor_id l (λ g m. h g (mem-cons_of_mem f m)))

  -- Findings that all have a line pass the check once they are sorted.
  pub check_ordering-sort_findings :
      (report : SensorReport V) (sensor_id : String)
      → ((f : Finding V) → Mem f report.findings → has_line f ≡ true)
      → check_ordering
          (record report { findings = sort_findings sensor_id report.findings })
          sensor_id
        ≡ []
  check_ordering-sort_findings report sensor_id lines =
      let sorted : List (Finding V) = sort_findings sensor_id report.findings in
      let (perm, ascending, _) = sort_findings_lem sensor_id report.findings in
      let keys : map (ordering_key sensor_id) sorted ≡ map (finding_sort_key sensor_id) sorted =
        same_keys sensor_id sorted (λ f m. lines f ((Perm.mem_iff perm).0 m)) in
      nothing _ (
        (check_ordering-IsSorted (record report { findings = sorted }) sensor_id).1
          (rw keys ((Pairwise-map (λ a b. Bool-set _ _) (finding_sort_key sensor_id)).1 ascending)))
