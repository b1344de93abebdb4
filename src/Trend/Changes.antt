-- ===== src/Trend/Changes.antt =====
-- The sets of sensor ids in crates/cockpitctl-domain-trend/src/lib.rs.
use mathlib.Core.List.{mem-cons, mem-cons_of_mem, not-mem-nil}
use mathlib.Core.Logic.Or
use mathlib.Core.Bool.{Bool-set}
use cockpitctl.Base.{
  ◌≡◌, refl, sym, ap, ◌∙◌, ◌↔◌, String, Bool, true, false, not, ◌||◌, List, [], ◌∷◌, map, filter,
  mem-filter, Mem, any, arith, is_eq, string_compare, string_compare-IsOrder,
  string_compare-IsAntisym, Bool-cases, cmp_self, inl, inr,
}
use cockpitctl.Base.Map
use cockpitctl.Base.Map.{BTreeMap, BTreeSet}
use cockpitctl.Types.Reports.{SensorSummary, CockpitReport}
use cockpitctl.Trend.{compute_trend, difference, sensor_ids, highlight_to_trend_finding}
use cockpitctl.Trend.Match.{appears, unmatched_findings-appears}

is_eq-eq : (a b : String) → is_eq (string_compare a b) ≡ true → a ≡ b
is_eq-eq a b h = string_compare-IsAntisym a b (ground arith)

empty_contains : (id : String) → ¬ (Map.contains_key {V = Unit {0}} string_compare id [] ≡ true)
unfolding Map.contains_key Map.get
empty_contains id h = cc

contains-cons :
    (id j : String) (w : Unit {0}) (m : BTreeSet String)
    → Map.contains_key string_compare id ((j, w) ∷ m)
      ≡ (is_eq (string_compare id j) || Map.contains_key string_compare id m)
unfolding Map.contains_key Map.get
contains-cons id j w m = ground arith

-- The keys of a set are what it contains.
mem-keys :
    (id : String) (m : BTreeSet String)
    → Mem id (Map.keys m) ↔ (Map.contains_key string_compare id m ≡ true)
mem-keys id [] = (λ m. absurd (not-mem-nil m), λ h. absurd (empty_contains id h))
mem-keys id ((j, w) ∷ m) = elim (Bool-cases (is_eq (string_compare id j))) [
  | inl h ↦ rw (contains-cons id j w m, h) (λ _. refl, λ _. mem-cons.1 (Or.inl (is_eq-eq id j h)))
  | inr h ↦
      rw (contains-cons id j w m, h)
        (
          λ k.
              Or.elim (Bool-set _ _) (mem-cons.0 k)
                (λ e. absurd (
                  let q = cmp_self string_compare-IsOrder j in
                  let h' : is_eq (string_compare j j) ≡ false = rw e at h in ground (arith, q, h')))
                (λ r. (mem-keys id m).0 r),
          λ k. mem-cons_of_mem j ((mem-keys id m).1 k),
        )
]

-- The report has a sensor with this id.
abbrev pub has_sensor : String → List SensorSummary → Bool
has_sensor id = any (λ s. is_eq (string_compare id s.id))

contains-sensor_ids :
    (id : String) (l : List SensorSummary)
    → Map.contains_key string_compare id (sensor_ids l) ≡ has_sensor id l
unfolding sensor_ids Map.contains_key
contains-sensor_ids id [] = refl
contains-sensor_ids id (s ∷ l) =
    Map.contains-insert string_compare-IsOrder s.id id tt (sensor_ids l)
    ∙ ap (λ b. is_eq (string_compare id s.id) || b) (contains-sensor_ids id l)

pub mem-difference :
    (id : String) (l r : List SensorSummary)
    → Mem id (difference (sensor_ids l) (sensor_ids r))
      ↔ ((has_sensor id l ≡ true) × (has_sensor id r ≡ false))
unfolding difference
mem-difference id l r =
    let found =
      mem-filter (λ x. not (Map.contains_key string_compare x (sensor_ids r)))
        (Map.keys (sensor_ids l)) {a = id} in
    let keys = mem-keys id (sensor_ids l) in
    let cl = contains-sensor_ids id l in
    let cr = contains-sensor_ids id r in
    (
      λ m. (sym cl ∙ keys.0 (found.0 m).0, (let q = (found.0 m).1 in ground (arith, q, cr))),
      λ (a, b). found.1 (keys.1 (cl ∙ a), ground (arith, a, b, cr)),
    )

module _ {V : Type 0} (baseline current : CockpitReport V) where
  -- The ids reported as added are those of the current report that the baseline has not; those
  -- reported as removed are those of the baseline that the current report has not.
  pub compute_trend-sensors :
      (id : String)
      → (Mem id (compute_trend baseline current).sensors_added
          ↔ ((has_sensor id current.sensors ≡ true) × (has_sensor id baseline.sensors ≡ false)))
        × (Mem id (compute_trend baseline current).sensors_removed
            ↔ ((has_sensor id baseline.sensors ≡ true) × (has_sensor id current.sensors ≡ false)))
  unfolding compute_trend
  compute_trend-sensors id = (
    mem-difference id current.sensors baseline.sensors,
    mem-difference id baseline.sensors current.sensors,
  )

  -- The new findings are the highlights of the current report that do not appear in the baseline, and
  -- the fixed ones are those of the baseline that do not appear in the current report, each in its
  -- report's order.
  pub compute_trend-findings :
      ((compute_trend baseline current).new_findings
        ≡ map highlight_to_trend_finding
            (filter (λ h. not (appears baseline.highlights h)) current.highlights))
      × ((compute_trend baseline current).fixed_findings
          ≡ map highlight_to_trend_finding
              (filter (λ h. not (appears current.highlights h)) baseline.highlights))
  unfolding compute_trend
  compute_trend-findings = (
    unmatched_findings-appears baseline.highlights current.highlights,
    unmatched_findings-appears current.highlights baseline.highlights,
  )
