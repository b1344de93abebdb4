-- ===== src/Buildfix.antt =====
-- crates/cockpitctl-domain-buildfix/src/lib.rs: the fixes of a plan are matched to the surfaced
-- findings, and those that may be applied without a person are selected.
pub mod Totals
pub mod Select
use cockpitctl.Base.{
  ◌-◌, String, Bool, true, false, not, ◌&&◌, ◌||◌, Option, none, some, List, [], ◌∷◌, ◌++◌, map,
  leb, compare, string_compare, Cmp, on, lex, IsOrder, IsOrder-on, IsOrder-lex, compare-IsOrder,
  string_compare-IsOrder, sort_by, filter, length, count, str_eq, if◌then◌else◌,
}
use cockpitctl.Types.Enums.{SafetyLevel}
use cockpitctl.Types.Findings.{Highlight}
use cockpitctl.Types.Fixes.{
  FindingRef, Fix, BuildfixPlan, MatchedFinding, FixSummary, BuildfixSummary,
}
use cockpitctl.Types.Ranks.{safety_level_rank}

-- The `match` on the fingerprints of a reference and of a finding.
pub fp_match : Option String → Option String → Bool
fp_match none finding_fp = true
fp_match (some ref_fp) none = false
fp_match (some ref_fp) (some finding_fp) = str_eq ref_fp finding_fp

pub code_match : Option String → String → Bool
code_match none code = true
code_match (some ref_code) code = str_eq ref_code code

-- `any_matched` is set with each push, so it is false exactly if nothing was pushed.
is_nil : List MatchedFinding → Bool
is_nil [] = true
is_nil _ = false

module _ {V : Type 0} where
  matched_finding : Highlight V → MatchedFinding
  matched_finding h = record {
    sensor_id = h.sensor_id;
    code = h.finding.code;
    fingerprint = h.finding.fingerprint;
  }

  -- The reference is to this finding of the sensor.
  unfoldable pub refers_to : String → FindingRef → Highlight V → Bool
  unfolding fp_match code_match
  refers_to sensor_id fref h =
      str_eq h.sensor_id sensor_id
      && fp_match fref.fingerprint h.finding.fingerprint
      && code_match fref.code h.finding.code

  -- The two inner loops: what is pushed to `matched_findings`.
  match_ref : String → List (Highlight V) → FindingRef → List MatchedFinding
  unfolding refers_to matched_finding
  match_ref sensor_id highlights fref =
      if str_eq fref.sensor_id sensor_id
      then map matched_finding (filter (refers_to sensor_id fref) highlights)
      else []

  match_refs : String → List (Highlight V) → List FindingRef → List MatchedFinding
  unfolding match_ref
  match_refs sensor_id highlights [] = []
  match_refs sensor_id highlights (fref ∷ rest) =
      match_ref sensor_id highlights fref ++ match_refs sensor_id highlights rest

  unfoldable pub summarize_fix : String → List (Highlight V) → Fix V → FixSummary
  unfolding match_refs is_nil
  summarize_fix sensor_id highlights fix =
      let matched = match_refs sensor_id highlights fix.finding_refs in
      record {
        fix_id = fix.id;
        sensor_id = sensor_id;
        safety = fix.safety;
        description = fix.description;
        matched_findings = matched;
        unmatched = is_nil matched;
      }

abbrev pub fix_cmp : Cmp FixSummary
fix_cmp =
    lex (on (λ f. safety_level_rank f.safety) compare)
      (lex (on (λ f. f.sensor_id) string_compare) (on (λ f. f.fix_id) string_compare))

pub fix_cmp-IsOrder : IsOrder fix_cmp
fix_cmp-IsOrder =
    IsOrder-lex (IsOrder-on (λ (f : FixSummary). safety_level_rank f.safety) compare-IsOrder) (
      IsOrder-lex (IsOrder-on (λ (f : FixSummary). f.sensor_id) string_compare-IsOrder)
        (IsOrder-on (λ (f : FixSummary). f.fix_id) string_compare-IsOrder))

-- The totals of a list of fixes.
unfoldable pub summarize_fixes : List FixSummary → BuildfixSummary
summarize_fixes fixes =
    let total_fixes = length fixes in
    let unmatched_count = count (λ f. f.unmatched) fixes in
    record {
      fixes = fixes;
      total_fixes = total_fixes;
      matched_count = total_fixes - unmatched_count;
      unmatched_count = unmatched_count;
    }

unfoldable pub match_buildfix_plan :
    {V : Type 0} → String → BuildfixPlan V → List (Highlight V) → BuildfixSummary
unfolding summarize_fix summarize_fixes
match_buildfix_plan sensor_id plan highlights =
    summarize_fixes (sort_by fix_cmp (map (summarize_fix sensor_id highlights) plan.fixes))

unfoldable pub select_auto_apply_fixes : BuildfixSummary → SafetyLevel → Bool → List FixSummary
select_auto_apply_fixes summary max_auto_apply_safety require_matched_finding =
    filter
      (λ fix.
        leb (safety_level_rank fix.safety) (safety_level_rank max_auto_apply_safety)
        && (not require_matched_finding || not fix.unmatched))
      summary.fixes
