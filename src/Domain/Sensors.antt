-- ===== src/Domain/Sensors.antt =====
-- `sort_sensor_summaries` of crates/cockpitctl-domain/src/lib.rs.
pub mod Order
use mathlib.Core.Option.{get_or, bind}
use cockpitctl.Base.{
  ℕ, suc, String, List, [], ◌∷◌, compare, string_compare, Cmp, on, lex, IsOrder, IsOrder-on,
  IsOrder-lex, compare-IsOrder, string_compare-IsOrder, sort_by, usize_max,
}
use cockpitctl.Base.Map
use cockpitctl.Base.Map.{BTreeMap}
use cockpitctl.Types.Config.{SensorPolicy, CockpitConfig}
use cockpitctl.Types.Reports.{SensorSummary}

-- The loop that ranks the sections by position; a section that is named twice has the later rank.
rank_sections : ℕ → BTreeMap String ℕ → List String → BTreeMap String ℕ
rank_sections i m [] = m
rank_sections i m (s ∷ rest) = rank_sections (suc i) (Map.insert string_compare s i m) rest

pub section_rank : CockpitConfig → BTreeMap String ℕ
unfolding rank_sections
section_rank cfg = rank_sections 0 [] cfg.policy.section_order

unfoldable pub section_of : CockpitConfig → SensorSummary → String
unfolding bind
section_of cfg s =
    get_or (bind (Map.get string_compare s.id cfg.sensors) (λ (p : SensorPolicy). p.section))
      "Other"

unfoldable pub rank_of : CockpitConfig → SensorSummary → ℕ
unfolding section_of section_rank
rank_of cfg s = get_or (Map.get string_compare (section_of cfg s) (section_rank cfg)) usize_max

abbrev pub summary_cmp : CockpitConfig → Cmp SensorSummary
summary_cmp cfg = lex (on (rank_of cfg) compare) (on (λ s. s.id) string_compare)

pub summary_cmp-IsOrder : (cfg : CockpitConfig) → IsOrder (summary_cmp cfg)
summary_cmp-IsOrder cfg =
    IsOrder-lex (IsOrder-on (rank_of cfg) compare-IsOrder)
      (IsOrder-on (λ (s : SensorSummary). s.id) string_compare-IsOrder)

unfoldable pub sort_sensor_summaries : List SensorSummary → CockpitConfig → List SensorSummary
sort_sensor_summaries summaries cfg = sort_by (summary_cmp cfg) summaries
