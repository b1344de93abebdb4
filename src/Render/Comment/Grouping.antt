-- ===== src/Render/Comment/Grouping.antt =====
-- The grouping of the sensors in `render_comment` of crates/cockpitctl-render/src/lib.rs.
use mathlib.Core.Option.{get_or}
use text.Mathlib.TextLemmas.{append-nil}
use mathlib.Core.List.{append_assoc}
use cockpitctl.Base.{
  ◌≡◌, refl, sym, ap, ◌∙◌, String, Bool-cases, inl, inr, Option, none, some, List, [], ◌∷◌, ◌++◌,
  filter, arith, is_eq, concat, string_compare, string_compare-IsOrder, string_compare-IsAntisym,
}
use cockpitctl.Base.Map
use cockpitctl.Base.Map.{BTreeMap}
use cockpitctl.Types.Config.{CockpitConfig}
use cockpitctl.Types.Reports.{SensorSummary}
use cockpitctl.Render.Sections.{each}
use cockpitctl.Render.Comment.{section_of, by_section, section_block, sections_part}

-- The sensors that the policy files under a section.
abbrev pub members : CockpitConfig → String → List SensorSummary → List SensorSummary
members cfg section = filter (λ s. is_eq (string_compare section (section_of cfg s)))

-- A list that is appended to an entry.
joined : Option (List SensorSummary) → List SensorSummary → Option (List SensorSummary)
joined o [] = o
joined o (s ∷ l) = some (get_or o [] ++ s ∷ l)

joined_step :
    (o : Option (List SensorSummary)) (s : SensorSummary) (l : List SensorSummary)
    → joined (some (get_or o [] ++ s ∷ [])) l ≡ joined o (s ∷ l)
unfolding joined
joined_step o s [] = refl
joined_step o s (t ∷ l) = ap some (append_assoc (get_or o []) (s ∷ []) (t ∷ l))

get-by_section :
    (cfg : CockpitConfig) (section : String) (m : BTreeMap String (List SensorSummary))
    (sensors : List SensorSummary)
    → Map.get string_compare section (by_section cfg m sensors)
      ≡ joined (Map.get string_compare section m) (members cfg section sensors)
unfolding by_section joined
get-by_section cfg section m [] = refl
get-by_section cfg section m (s ∷ rest) =
    let sec : String = section_of cfg s in
    let pushed : List SensorSummary = get_or (Map.get string_compare sec m) [] ++ s ∷ [] in
    let step = get-by_section cfg section (Map.insert string_compare sec pushed m) rest in
    let found = Map.get-insert string_compare-IsOrder sec section pushed m in
    elim (Bool-cases (is_eq (string_compare section sec))) [
      | inl h ↦
          let same : section ≡ sec = string_compare-IsAntisym section sec (ground arith) in
          rw (step, found, h)
            (joined_step (Map.get string_compare sec m) s (members cfg section rest)
              ∙ ap (λ x. joined (Map.get string_compare x m) (s ∷ members cfg section rest))
                  (sym same))
      | inr h ↦ rw (step, found, h) refl
    ]

-- What stands under a section's heading; nothing without a sensor.
abbrev pub block_of : CockpitConfig → String → List SensorSummary → String
block_of cfg section [] = ""
block_of cfg section (s ∷ l) = section_block cfg section (s ∷ l)

joined_shown :
    (cfg : CockpitConfig) (section : String) (l : List SensorSummary)
    → elim (joined none l) [ none ↦ "" | some l ↦ section_block cfg section l ]
      ≡ block_of cfg section l
unfolding joined
joined_shown cfg section [] = refl
joined_shown cfg section (s ∷ l) = refl

section_shown :
    (cfg : CockpitConfig) (section : String) (sensors : List SensorSummary)
    → elim (Map.get string_compare section (by_section cfg [] sensors)) [
      | none ↦ ""
      | some l ↦ section_block cfg section l
    ]
      ≡ block_of cfg section (members cfg section sensors)
unfolding Map.get
section_shown cfg section sensors =
    rw (get-by_section cfg section [] sensors)
      (joined_shown cfg section (members cfg section sensors))

-- The sections of the comment are those of the policy's order that have a sensor, in that order, and
-- each shows exactly the sensors that the policy files under it, in the order of the report.
pub sections_part-members :
    (cfg : CockpitConfig) (order : List String) (sensors : List SensorSummary)
    → sections_part cfg (by_section cfg [] sensors) order
      ≡ each (λ section. block_of cfg section (members cfg section sensors)) order
unfolding sections_part each concat
sections_part-members cfg [] sensors = refl
sections_part-members cfg (section ∷ order) sensors =
    rw (section_shown cfg section sensors, sections_part-members cfg order sensors, append-nil) refl
