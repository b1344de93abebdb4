-- ===== src/Buildfix/Select.antt =====
-- Which fixes `select_auto_apply_fixes` selects.

use cockpitctl.Base.{◌≡◌, sym, ◌∙◌, mem-filter, ◌↔◌, Bool, true, not, ◌&&◌, ◌||◌, Mem, arith, leb}
use cockpitctl.Types.Enums.{SafetyLevel}
use cockpitctl.Types.Fixes.{FixSummary, BuildfixSummary}
use cockpitctl.Types.Ranks.{safety_level_rank}
use cockpitctl.Buildfix.{select_auto_apply_fixes}

-- May be applied without a person.
abbrev pub eligible : SafetyLevel → Bool → FixSummary → Bool
eligible max_auto_apply_safety require_matched_finding fix =
    leb (safety_level_rank fix.safety) (safety_level_rank max_auto_apply_safety)
    && not (require_matched_finding && fix.unmatched)

module _ (summary : BuildfixSummary) (level : SafetyLevel) (require : Bool) where
  test_eq :
      (fix : FixSummary)
      → (leb (safety_level_rank fix.safety) (safety_level_rank level)
          && (not require || not fix.unmatched))
        ≡ eligible level require fix
  test_eq fix = ground arith

  -- The selected fixes are those of the summary that are at most as unsafe as the limit and, where
  -- a match is required, are matched.
  pub select_auto_apply_fixes-eligible :
      (fix : FixSummary)
      → Mem fix (select_auto_apply_fixes summary level require)
        ↔ (Mem fix summary.fixes × (eligible level require fix ≡ true))
  unfolding select_auto_apply_fixes
  select_auto_apply_fixes-eligible fix =
      let found =
        mem-filter
          (λ (f : FixSummary).
            leb (safety_level_rank f.safety) (safety_level_rank level)
            && (not require || not f.unmatched))
          summary.fixes {a = fix} in
      let same = test_eq fix in
      (λ m. ((found.0 m).0, sym same ∙ (found.0 m).1), λ (m, e). found.1 (m, same ∙ e))
