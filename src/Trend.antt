-- ===== src/Trend.antt =====
-- crates/cockpitctl-domain-trend/src/lib.rs: the difference of a baseline report and a current one.
-- Signed counts wrap, as they do in a release build.

pub mod Match
pub mod Changes
pub mod Same
use mathlib.Core.Option.{get_or, bind}
use cockpitctl.Base.{
  ℕ, ◌-◌, String, Bool, not, Option, none, some, List, [], ◌∷◌, map, filter, ltb, compare,
  string_compare, Cmp, on, lex, IsOrder, IsOrder-on, IsOrder-lex, compare-IsOrder,
  string_compare-IsOrder, if◌then◌else◌,
}
use cockpitctl.Base.Map
use cockpitctl.Base.Map.{BTreeMap, BTreeSet}
use cockpitctl.Base.Int.{ℤ, pos, negsuc, ◌-ℤ◌, ◌+ℤ◌, ltb_ℤ}
use cockpitctl.Types.Enums.{VerdictStatus}
use cockpitctl.Types.Findings.{Location, Finding, Highlight, VerdictCounts}
use cockpitctl.Types.Reports.{SensorSummary, CockpitReport}
use cockpitctl.Types.Deltas.{VerdictChange, CountDeltas, TrendFinding, TrendDelta}
use cockpitctl.Types.Ranks.{status_eq}

pub record FindingKey : Type 0 where
  pub sensor_id : String
  pub code : String
  pub path : String
  pub line : ℕ

-- The derived `Ord`.
abbrev pub key_cmp : Cmp FindingKey
key_cmp = lex (on (λ k. k.sensor_id) string_compare) (
    lex (on (λ k. k.code) string_compare)
      (lex (on (λ k. k.path) string_compare) (on (λ k. k.line) compare)))

pub key_cmp-IsOrder : IsOrder key_cmp
key_cmp-IsOrder =
    IsOrder-lex (IsOrder-on (λ (k : FindingKey). k.sensor_id) string_compare-IsOrder) (
      IsOrder-lex (IsOrder-on (λ (k : FindingKey). k.code) string_compare-IsOrder) (
        IsOrder-lex (IsOrder-on (λ (k : FindingKey). k.path) string_compare-IsOrder)
          (IsOrder-on (λ (k : FindingKey). k.line) compare-IsOrder)))

path_of : Option Location → Option String
unfolding bind
path_of location = bind location (λ (l : Location). l.path)

line_of : Option Location → Option ℕ
unfolding bind
line_of location = bind location (λ (l : Location). l.line)

module _ {V : Type 0} where
  unfoldable pub finding_to_key : String → Finding V → FindingKey
  unfolding path_of line_of
  finding_to_key sensor_id f = record {
    sensor_id = sensor_id;
    code = f.code;
    path = get_or (path_of f.location) "";
    line = get_or (line_of f.location) 0;
  }

  unfoldable pub highlight_to_trend_finding : Highlight V → TrendFinding
  unfolding path_of line_of
  highlight_to_trend_finding h = record {
    sensor_id = h.sensor_id;
    code = h.finding.code;
    message = h.finding.message;
    path = path_of h.finding.location;
    line = line_of h.finding.location;
    fingerprint = h.finding.fingerprint;
    severity = h.finding.severity;
  }

  abbrev pub key_of : Highlight V → FindingKey
  key_of h = finding_to_key h.sensor_id h.finding

  add_fp :
      Option String → Highlight V → BTreeMap String (Highlight V) → BTreeMap String (Highlight V)
  add_fp none h m = m
  add_fp (some fp) h m = Map.insert string_compare fp h m

  -- The index by fingerprint, and the index by key. A later entry replaces an earlier one.
  index_fp : BTreeMap String (Highlight V) → List (Highlight V) → BTreeMap String (Highlight V)
  unfolding add_fp
  index_fp m [] = m
  index_fp m (h ∷ rest) = index_fp (add_fp h.finding.fingerprint h m) rest

  index_key :
      BTreeMap FindingKey (Highlight V) → List (Highlight V) → BTreeMap FindingKey (Highlight V)
  index_key m [] = m
  index_key m (h ∷ rest) = index_key (Map.insert key_cmp (key_of h) h m) rest

  -- Looks a finding up in the indexes of the other report.
  unfoldable pub matched : List (Highlight V) → Highlight V → Bool
  unfolding index_fp index_key
  matched others h = elim h.finding.fingerprint [
    | some fp ↦ Map.contains_key string_compare fp (index_fp [] others)
    | none ↦ Map.contains_key key_cmp (key_of h) (index_key [] others)
  ]

  -- The findings of one report that the other lacks.
  unfoldable pub unmatched_findings : List (Highlight V) → List (Highlight V) → List TrendFinding
  unfolding matched
  unmatched_findings others hs =
      map highlight_to_trend_finding (filter (λ h. not (matched others h)) hs)

unfoldable pub verdict_change : VerdictStatus → VerdictStatus → Option VerdictChange
verdict_change before after =
    if not (status_eq before after) then some (record { before = before; after = after }) else none

abbrev two_63 : ℕ
two_63 = 9223372036854775808

abbrev two_64 : ℕ
two_64 = 18446744073709551616

-- `n as i64`
unfoldable pub as_i64 : ℕ → ℤ
as_i64 n = if ltb n two_63 then pos n else negsuc (two_64 - n - 1)

-- The result of a subtraction, brought back into the range of `i64`.
wrap : ℤ → ℤ
wrap z =
    if ltb_ℤ z (negsuc (two_63 - 1))
    then z +ℤ pos two_64
    else if ltb_ℤ (pos (two_63 - 1)) z
    then z -ℤ pos two_64
    else z

unfoldable pub delta : ℕ → ℕ → ℤ
unfolding as_i64 wrap ◌-ℤ◌ ◌+ℤ◌
delta current baseline = wrap (as_i64 current -ℤ as_i64 baseline)

unfoldable pub count_deltas : VerdictCounts → VerdictCounts → CountDeltas
unfolding delta
count_deltas baseline current = record {
  info_delta = delta current.info baseline.info;
  warn_delta = delta current.warn baseline.warn;
  error_delta = delta current.error baseline.error;
}

-- `sensors.iter().map(|s| s.id.clone()).collect::<BTreeSet<_>>()`
unfoldable pub sensor_ids : List SensorSummary → BTreeSet String
sensor_ids [] = []
sensor_ids (s ∷ rest) = Map.insert string_compare s.id tt (sensor_ids rest)

-- `a.difference(&b).cloned().collect()`
unfoldable pub difference : BTreeSet String → BTreeSet String → List String
difference a b = filter (λ id. not (Map.contains_key string_compare id b)) (Map.keys a)

unfoldable pub compute_trend : {V : Type 0} → CockpitReport V → CockpitReport V → TrendDelta
unfolding unmatched_findings verdict_change count_deltas sensor_ids difference
compute_trend baseline current = record {
  verdict_change = verdict_change baseline.verdict.status current.verdict.status;
  count_deltas = count_deltas baseline.verdict.counts current.verdict.counts;
  new_findings = unmatched_findings baseline.highlights current.highlights;
  fixed_findings = unmatched_findings current.highlights baseline.highlights;
  sensors_added = difference (sensor_ids current.sensors) (sensor_ids baseline.sensors);
  sensors_removed = difference (sensor_ids baseline.sensors) (sensor_ids current.sensors);
}
