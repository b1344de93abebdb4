-- ===== src/Domain/Highlights/Select.antt =====
-- What `select_highlights` of crates/cockpitctl-domain/src/lib.rs selects.
use mathlib.Core.List.{Nodup, Subset, mem-append}
use mathlib.Core.List.Perm
use mathlib.Core.List.Sublist
use mathlib.Core.Logic.Or
use mathlib.Core.Logic.{◌∨₁◌, ∨₁_prop}
use cockpitctl.Base.{
  ◌≤◌, String, ◌≡◌, Bool, true, List, [], map, Mem, arith, length, length-take, take-append-drop,
  mem-take, mem-drop-lt, Pairwise-take, map-take, sort_by, sort_by-perm, sort_by-IsSorted,
  take-le-drop, IsSorted, le_of,
}
use cockpitctl.Base.Map.{BTreeMap}
use cockpitctl.Types.Findings.{Highlight}
use cockpitctl.Types.Config.{CockpitConfig}
use cockpitctl.Domain.Highlights.{
  fingerprint_of, normalize, dedupe, highlight_cmp, highlight_cmp-IsOrder, select_highlights,
}
use cockpitctl.Domain.Highlights.Dedupe.{dedupe-Nodup, dedupe-Sublist}

module _ {V : Type 0} (sha256_hex : String → String) (candidates : List (Highlight V))
    (cfg : CockpitConfig) (blocking : BTreeMap String Bool) where
  abbrev selected : List (Highlight V)
  selected = select_highlights sha256_hex candidates cfg blocking

  abbrev distinct : List (Highlight V)
  distinct = dedupe sha256_hex [] candidates

  abbrev sorted : List (Highlight V)
  sorted = sort_by (highlight_cmp blocking) distinct

  -- At most `max_highlights` are selected, no two with one fingerprint.
  pub select_highlights-Nodup :
      (length selected ≤ cfg.policy.max_highlights)
      × Nodup (map (fingerprint_of sha256_hex) selected)
  unfolding select_highlights
  select_highlights-Nodup = (
    omega (arith, length-take cfg.policy.max_highlights sorted),
    rw (map-take (fingerprint_of sha256_hex) cfg.policy.max_highlights sorted) (
        Pairwise-take cfg.policy.max_highlights (
          (Perm.Nodup-iff (
              Perm.map (fingerprint_of sha256_hex)
                (sort_by-perm (highlight_cmp blocking) distinct))).1
            (dedupe-Nodup sha256_hex [] candidates))),
  )

  -- Each selected highlight is a candidate with its fingerprint filled in, and the selection is in
  -- the order of the key tuples.
  pub select_highlights-ordered :
      Subset selected (map (normalize sha256_hex) candidates)
      × IsSorted (highlight_cmp blocking) selected
  unfolding select_highlights
  select_highlights-ordered = (
    λ a m. Sublist.subset (dedupe-Sublist sha256_hex [] candidates) a (
        (Perm.mem_iff (sort_by-perm (highlight_cmp blocking) distinct)).0
          (mem-take cfg.policy.max_highlights m)),
    Pairwise-take cfg.policy.max_highlights
        (sort_by-IsSorted (highlight_cmp-IsOrder blocking) distinct),
  )

  -- A deduplicated candidate that is not selected was left out for lack of room, and every selected
  -- highlight stands before it or ties with it in the order of the key tuples.
  pub select_highlights-best :
      (x : Highlight V)
      → Mem x distinct
      → Mem x selected
        ∨₁ ((length selected ≡ cfg.policy.max_highlights)
            × ((a : Highlight V) → Mem a selected → le_of (highlight_cmp blocking a x) ≡ true))
  unfolding select_highlights
  select_highlights-best x m =
      Or.elim ∨₁_prop
        (mem-append.0 (
          rw (← take-append-drop cfg.policy.max_highlights sorted) at
            ((Perm.mem_iff (sort_by-perm (highlight_cmp blocking) distinct)).1 m)))
        (λ kept. Or.inl kept)
        (λ left. Or.inr (
          omega (
            arith,
            length-take cfg.policy.max_highlights sorted,
            mem-drop-lt cfg.policy.max_highlights sorted left,
          ),
          λ a ma.
              take-le-drop (highlight_cmp-IsOrder blocking) cfg.policy.max_highlights sorted
                (sort_by-IsSorted (highlight_cmp-IsOrder blocking) distinct) ma left,
        ))
