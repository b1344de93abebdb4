-- ===== src/Tests/Buildfix.antt =====
-- A plan with one fix that matches and one that does not.
use cockpitctl.Base.{◌≡◌, ◌+◌, String, not, none, some, [], ◌∷◌, map, any, count, Perm, IsSorted}
use cockpitctl.Types.Enums.{SafetyLevel}
use cockpitctl.Types.Fixes.{Fix, BuildfixPlan, FixSummary, BuildfixSummary}
use cockpitctl.Domain.Samples.{V₀, two_highlights, tool}
use cockpitctl.Buildfix.{summarize_fix, fix_cmp, match_buildfix_plan}
use cockpitctl.Buildfix.Totals.{ref_matches, match_buildfix_plan-totals}

abbrev fix_of : String → String → Fix V₀
fix_of id code = record {
  id = id;
  safety = SafetyLevel.safe;
  description = "a fix";
  finding_refs =
      record {
        sensor_id = "lint";
        fingerprint = some code;
        code = none;
        tool = none;
        check_id = none;
      }
      ∷ [];
  preconditions = none;
  payload = none;
}

abbrev plan : BuildfixPlan V₀
plan = record {
  schema = "buildfix.plan.v1";
  tool = tool;
  fixes = fix_of "one" "a" ∷ fix_of "two" "z" ∷ [];
}

abbrev result : BuildfixSummary
result = match_buildfix_plan "lint" plan two_highlights

match_buildfix_plan-totals_example :
    Perm result.fixes (map (summarize_fix "lint" two_highlights) plan.fixes)
    × IsSorted fix_cmp result.fixes
    × (result.total_fixes ≡ 2)
    × (result.unmatched_count
        ≡ count
            (λ (f : Fix V₀). not (any (ref_matches "lint" two_highlights) f.finding_refs))
            plan.fixes)
    × (result.matched_count + result.unmatched_count ≡ 2)
match_buildfix_plan-totals_example = match_buildfix_plan-totals "lint" two_highlights plan

abbrev one : FixSummary
one = summarize_fix "lint" two_highlights (fix_of "one" "a")
