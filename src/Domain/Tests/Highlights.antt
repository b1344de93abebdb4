-- ===== src/Domain/Tests/Highlights.antt =====
-- The selection of highlights on two candidates.
use mathlib.Core.List.{mem-cons_self}
use mathlib.Core.Logic.{◌∨₁◌}
use mathlib.Core.List.{Nodup}
use cockpitctl.Base.{map, ◌≤◌, ◌≡◌, refl, Bool, true, String, List, [], ◌∷◌, Mem, le_of, length}
use cockpitctl.Base.Map
use cockpitctl.Base.Map.{BTreeMap}
use cockpitctl.Types.Findings.{Highlight}
use cockpitctl.Domain.Highlights.{
  fingerprint_of, normalize, dedupe, highlight_cmp, select_highlights,
}
use cockpitctl.Domain.Highlights.Select.{select_highlights-best, select_highlights-Nodup}
use cockpitctl.Domain.Samples.{V₀, highlight_a, two_highlights, strict_config}

-- A digest of no interest.
abbrev digest : String → String
digest s = s

abbrev blocking : BTreeMap String Bool
blocking = ("lint", true) ∷ []

abbrev kept : List (Highlight V₀)
kept = select_highlights digest two_highlights strict_config blocking

a_is_distinct : dedupe digest [] two_highlights ≡ two_highlights
unfolding dedupe Map.contains_key normalize Map.insert
a_is_distinct = refl

select_highlights-best_example :
    Mem highlight_a kept
    ∨₁ ((length kept ≡ 1)
        × ((a : Highlight V₀) → Mem a kept → le_of (highlight_cmp blocking a highlight_a) ≡ true))
select_highlights-best_example =
    select_highlights-best digest two_highlights strict_config blocking highlight_a
      (rw a_is_distinct mem-cons_self)

select_highlights-Nodup_example : (length kept ≤ 1) × Nodup (map (fingerprint_of digest) kept)
select_highlights-Nodup_example =
    select_highlights-Nodup digest two_highlights strict_config blocking
