-- ===== src/Trend/Match.antt =====
-- The lookups of `compute_trend` in its indexes, as searches of the other report's list.
use cockpitctl.Base.{
  map, filter, not, Option-cases, inl, inr, ◌≡◌, String, Bool, false, ◌||◌, Option, none, some,
  List, [], ◌∷◌, any, arith, is_eq, string_compare, string_compare-IsOrder,
}
use cockpitctl.Base.Map
use cockpitctl.Base.Map.{BTreeMap}
use cockpitctl.Types.Findings.{Highlight}
use cockpitctl.Trend.{
  finding_to_key, unmatched_findings, highlight_to_trend_finding, FindingKey, key_cmp,
  key_cmp-IsOrder, key_of, add_fp, index_fp, index_key, matched,
}

-- The option is this fingerprint.
abbrev pub fp_is : String → Option String → Bool
fp_is fp none = false
fp_is fp (some g) = is_eq (string_compare fp g)

module _ {V : Type 0} where
  contains-add_fp :
      (fp : String) (o : Option String) (h : Highlight V) (m : BTreeMap String (Highlight V))
      → Map.contains_key string_compare fp (add_fp o h m)
        ≡ (Map.contains_key string_compare fp m || fp_is fp o)
  unfolding add_fp
  contains-add_fp fp none h m = ground arith
  contains-add_fp fp (some g) h m =
      ground (arith, Map.contains-insert string_compare-IsOrder g fp h m)

  contains-index_fp :
      (fp : String) (m : BTreeMap String (Highlight V)) (hs : List (Highlight V))
      → Map.contains_key string_compare fp (index_fp m hs)
        ≡ (Map.contains_key string_compare fp m || any (λ h. fp_is fp h.finding.fingerprint) hs)
  unfolding index_fp add_fp Map.contains_key
  contains-index_fp fp m [] = ground arith
  contains-index_fp fp m (h ∷ hs) = ground (
    arith,
    contains-index_fp fp (add_fp h.finding.fingerprint h m) hs,
    contains-add_fp fp h.finding.fingerprint h m,
  )

  contains-index_key :
      (k : FindingKey) (m : BTreeMap FindingKey (Highlight V)) (hs : List (Highlight V))
      → Map.contains_key key_cmp k (index_key m hs)
        ≡ (Map.contains_key key_cmp k m || any (λ h. is_eq (key_cmp k (key_of h))) hs)
  unfolding index_key Map.contains_key
  contains-index_key k m [] = ground arith
  contains-index_key k m (h ∷ hs) = ground (
    arith,
    contains-index_key k (Map.insert key_cmp (key_of h) h m) hs,
    Map.contains-insert key_cmp-IsOrder (key_of h) k h m,
  )

  -- A finding with a fingerprint is in the list if that fingerprint is; one without, if some finding
  -- of the list has the same sensor, code, path and line.
  abbrev pub appears : List (Highlight V) → Highlight V → Bool
  appears others h = elim h.finding.fingerprint [
    | some fp ↦ any (λ g. fp_is fp g.finding.fingerprint) others
    | none ↦ any (λ g. is_eq (key_cmp (key_of h) (key_of g))) others
  ]

  pub matched_lem :
      (others : List (Highlight V)) (h : Highlight V) → matched others h ≡ appears others h
  unfolding matched Map.contains_key finding_to_key
  matched_lem others h = elim (Option-cases h.finding.fingerprint) [
    | inl e ↦ rw e (contains-index_key (key_of h) [] others)
    | inr (fp, e) ↦ rw e (contains-index_fp fp [] others)
  ]

  -- The findings that a report has and the other lacks, in the report's order.
  pub unmatched_findings-appears :
      (others hs : List (Highlight V))
      → unmatched_findings others hs
        ≡ map highlight_to_trend_finding (filter (λ h. not (appears others h)) hs)
  unfolding unmatched_findings
  unmatched_findings-appears others hs i =
      map highlight_to_trend_finding (filter (λ h. not (matched_lem others h i)) hs)
