-- ===== src/Domain/Sensors/Order.antt =====
-- The order of the sensors in crates/cockpitctl-domain/src/lib.rs.
use mathlib.Core.List.{map-map}
use cockpitctl.Base.{
  ◌≡◌, sym, ap, ◌∙◌, ℕ, String, List, map, Perm, compare, string_compare, Cmp, on, lex, IsOrder,
  IsOrder-on, IsOrder-lex, compare-IsOrder, string_compare-IsOrder, compare-IsAntisym,
  string_compare-IsAntisym, IsAntisym, sort_by, sort_by-perm, sort_by-IsSorted, IsSorted,
  sort_by-keys_unique, arith,
}
use cockpitctl.Types.Config.{CockpitConfig}
use cockpitctl.Types.Reports.{SensorSummary}
use cockpitctl.Domain.Sensors.{rank_of, summary_cmp, summary_cmp-IsOrder, sort_sensor_summaries}

abbrev pair_cmp : Cmp (ℕ × String)
pair_cmp = lex (on (λ p. p.0) compare) (on (λ p. p.1) string_compare)

pair_cmp-IsOrder : IsOrder pair_cmp
pair_cmp-IsOrder =
    IsOrder-lex (IsOrder-on (λ (p : ℕ × String). p.0) compare-IsOrder)
      (IsOrder-on (λ (p : ℕ × String). p.1) string_compare-IsOrder)

pair_cmp-IsAntisym : IsAntisym pair_cmp
pair_cmp-IsAntisym (a, s) (b, t) h =
    ground (arith, compare-IsAntisym a b, string_compare-IsAntisym s t)

-- The sensors are rearranged, in ascending order of their section's rank and then of their id.
pub sort_sensor_summaries_lem :
    (summaries : List SensorSummary) (cfg : CockpitConfig)
    → Perm (sort_sensor_summaries summaries cfg) summaries
      × IsSorted (summary_cmp cfg) (sort_sensor_summaries summaries cfg)
unfolding sort_sensor_summaries
sort_sensor_summaries_lem summaries cfg =
    (sort_by-perm (summary_cmp cfg) summaries, sort_by-IsSorted (summary_cmp-IsOrder cfg) summaries)

-- The sequence of ids does not depend on the order in which the summaries came.
pub sort_sensor_summaries-order_free :
    {l r : List SensorSummary} (cfg : CockpitConfig)
    → Perm l r
    → map (λ s. s.id) (sort_sensor_summaries l cfg) ≡ map (λ s. s.id) (sort_sensor_summaries r cfg)
unfolding sort_sensor_summaries
sort_sensor_summaries-order_free {l} {r} cfg p =
    let f : SensorSummary → ℕ × String = λ s. (rank_of cfg s, s.id) in
    let same : map f (sort_by (summary_cmp cfg) l) ≡ map f (sort_by (summary_cmp cfg) r) =
      sort_by-keys_unique f pair_cmp pair_cmp-IsOrder pair_cmp-IsAntisym p in
    sym (map-map (λ (q : ℕ × String). q.1) f (sort_by (summary_cmp cfg) l))
    ∙ ap (map (λ q. q.1)) same
    ∙ map-map (λ (q : ℕ × String). q.1) f (sort_by (summary_cmp cfg) r)
