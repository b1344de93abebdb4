-- ===== src/Domain/Highlights.antt =====
-- `select_highlights` of crates/cockpitctl-domain/src/lib.rs. `sha256_hex` is the digest that
-- `derive_fingerprint` takes.
pub mod Dedupe
pub mod Select
use mathlib.Core.Option.{get_or}
use cockpitctl.Base.{
  ℕ, String, Bool, false, none, some, List, [], ◌∷◌, compare, string_compare, take, Cmp, on, lex,
  IsOrder, IsOrder-on, IsOrder-lex, compare-IsOrder, string_compare-IsOrder, sort_by, if◌then◌else◌,
}
use cockpitctl.Base.Map
use cockpitctl.Base.Map.{BTreeMap, BTreeSet}
use cockpitctl.Types.Findings.{Highlight}
use cockpitctl.Types.Config.{CockpitConfig}
use cockpitctl.Types.Ranks.{severity_rank}
use cockpitctl.Domain.Findings.{path_or_empty, line_or_max, derive_fingerprint}

module _ {V : Type 0} (sha256_hex : String → String) where
  unfoldable pub fingerprint_of : Highlight V → String
  fingerprint_of h = elim h.finding.fingerprint [
    | none ↦ derive_fingerprint sha256_hex h.sensor_id h.finding
    | some fp ↦ fp
  ]

  -- Makes sure that the fingerprint is present.
  unfoldable pub normalize : Highlight V → Highlight V
  unfolding fingerprint_of
  normalize h = record h { finding = record h.finding { fingerprint = some (fingerprint_of h) } }

  -- The loop over the candidates: what is pushed, given the fingerprints that were seen.
  unfoldable pub dedupe : BTreeSet String → List (Highlight V) → List (Highlight V)
  dedupe seen [] = []
  dedupe seen (h ∷ rest) =
      let fp = fingerprint_of h in
      let again = dedupe seen rest in
      let pushed = normalize h ∷ dedupe (Map.insert string_compare fp tt seen) rest in
      if Map.contains_key string_compare fp seen then again else pushed

module _ {V : Type 0} (sensor_blocking : BTreeMap String Bool) where
  -- `if a_block { 0u8 } else { 1u8 }`
  abbrev pub block_rank : Highlight V → ℕ
  block_rank h = if get_or (Map.get string_compare h.sensor_id sensor_blocking) false then 0 else 1

  -- The comparison of the two key tuples.
  abbrev pub highlight_cmp : Cmp (Highlight V)
  highlight_cmp = lex (on (λ h. severity_rank h.finding.severity) compare) (
      lex (on block_rank compare) (
        lex (on (λ h. h.sensor_id) string_compare) (
          lex (on (λ h. path_or_empty h.finding.location) string_compare) (
            lex (on (λ h. line_or_max h.finding.location) compare) (
              lex (on (λ h. h.finding.code) string_compare)
                (on (λ h. h.finding.message) string_compare))))))

  pub highlight_cmp-IsOrder : IsOrder highlight_cmp
  highlight_cmp-IsOrder =
      IsOrder-lex
        (IsOrder-on (λ (h : Highlight V). severity_rank h.finding.severity) compare-IsOrder)
        (IsOrder-lex (IsOrder-on block_rank compare-IsOrder) (
          IsOrder-lex (IsOrder-on (λ (h : Highlight V). h.sensor_id) string_compare-IsOrder) (
            IsOrder-lex
              (IsOrder-on (λ (h : Highlight V). path_or_empty h.finding.location)
                string_compare-IsOrder)
              (IsOrder-lex
                (IsOrder-on (λ (h : Highlight V). line_or_max h.finding.location) compare-IsOrder)
                (IsOrder-lex
                  (IsOrder-on (λ (h : Highlight V). h.finding.code) string_compare-IsOrder)
                  (IsOrder-on (λ (h : Highlight V). h.finding.message) string_compare-IsOrder))))))

module _ {V : Type 0} (sha256_hex : String → String) where
  unfoldable pub select_highlights :
      List (Highlight V) → CockpitConfig → BTreeMap String Bool → List (Highlight V)
  unfolding dedupe
  select_highlights candidates cfg sensor_blocking =
      take cfg.policy.max_highlights
        (sort_by (highlight_cmp sensor_blocking) (dedupe sha256_hex [] candidates))
