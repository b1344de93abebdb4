-- ===== src/Cli/Apply/Gate.antt =====
-- When fixes count as applied, in `cmd_ingest` of crates/cockpitctl-cli/src/main.rs.
use cockpitctl.Base.{
  ◌≡◌, refl, ◌⊎◌, inl, inr, Bool, true, false, Option, none, some, List, [], ◌∷◌, Mem,
}
use cockpitctl.Types.Enums.{BuildfixApplyStatus}
use cockpitctl.Types.Config.{BuildfixActuatorConfig, BuildfixPolicy}
use cockpitctl.Types.Fixes.{
  FixSummary, BuildfixSummary, BuildfixApplyRequest, BuildfixActuatorResult, BuildfixApplySummary,
}
use cockpitctl.Buildfix.Select.{eligible, select_auto_apply_fixes-eligible}
use cockpitctl.Ingest.Result.{Result, ok, err}
use cockpitctl.Cli.Apply.{
  selected_fixes, start_summary, reported, after_actuator, apply_request, apply_with,
  apply_selected, apply_enabled, apply_summary,
}

List-cases : {A : Type 0} (l : List A) → (l ≡ []) ⊎ ((a : A) × (r : List A) × (l ≡ a ∷ r))
List-cases [] = inl refl
List-cases (a ∷ r) = inr (a, r, refl)

reported-applied :
    (out : BuildfixActuatorResult) (s : BuildfixApplySummary)
    → (reported out s).status ≡ BuildfixApplyStatus.applied
    → out.errors ≡ []
unfolding reported
reported-applied out s h = elim (List-cases out.errors) [
  | inl e ↦ e
  | inr (a, r, e) ↦ absurd (
      let h' : BuildfixApplyStatus.failed ≡ BuildfixApplyStatus.applied = rw (reported, e) at h in
      cc)
]

-- The run succeeded and reported no error.
abbrev pub IsClean : Result BuildfixActuatorResult → Type 0
IsClean r = (out : BuildfixActuatorResult) × (r ≡ ok out) × (out.errors ≡ [])

after_actuator-applied :
    (r : Result BuildfixActuatorResult) (s : BuildfixApplySummary)
    → (after_actuator r s).status ≡ BuildfixApplyStatus.applied
    → IsClean r
unfolding after_actuator
after_actuator-applied (ok out) s h = (out, refl, reported-applied out s h)
after_actuator-applied (err e) s h = cc

module _ (run : BuildfixActuatorConfig → BuildfixApplyRequest → Result BuildfixActuatorResult)
    (effective : BuildfixPolicy) where
  apply_with-applied :
      (a : Option BuildfixActuatorConfig) (selected : List FixSummary) (s : BuildfixApplySummary)
      → s.status ≡ BuildfixApplyStatus.skipped
      → (apply_with run a effective selected s).status ≡ BuildfixApplyStatus.applied
      → (actuator : BuildfixActuatorConfig) × (a ≡ some actuator)
        × IsClean (run actuator (apply_request effective selected))
  unfolding apply_with
  apply_with-applied none selected s k h = cc
  apply_with-applied (some actuator) selected s k h =
      (actuator, refl, after_actuator-applied (run actuator (apply_request effective selected)) s h)

  apply_selected-applied :
      (selected : List FixSummary) (s : BuildfixApplySummary)
      → s.status ≡ BuildfixApplyStatus.skipped
      → (apply_selected run effective selected s).status ≡ BuildfixApplyStatus.applied
      → (actuator : BuildfixActuatorConfig) × (effective.actuator ≡ some actuator)
        × IsClean (run actuator (apply_request effective selected))
  unfolding apply_selected
  apply_selected-applied [] s k h = cc
  apply_selected-applied (f ∷ rest) s k h = apply_with-applied effective.actuator (f ∷ rest) s k h

  apply_enabled-applied :
      (enabled : Bool) (selected : List FixSummary) (s : BuildfixApplySummary)
      → s.status ≡ BuildfixApplyStatus.skipped
      → (apply_enabled run enabled effective selected s).status ≡ BuildfixApplyStatus.applied
      → (enabled ≡ true)
        × ((actuator : BuildfixActuatorConfig) × (effective.actuator ≡ some actuator)
            × IsClean (run actuator (apply_request effective selected)))
  unfolding apply_enabled
  apply_enabled-applied false selected s k h = cc
  apply_enabled-applied true selected s k h = (refl, apply_selected-applied selected s k h)

  -- Fixes are applied only if automatic application is on and an actuator is configured; the actuator
  -- was then run on a request in which every fix comes from the plans, is no less safe than the limit
  -- and, where a match is required, is matched; and it ended with success and reported no error.
  pub apply_summary-gated :
      (buildfix : Option BuildfixSummary)
      → (apply_summary run effective buildfix).status ≡ BuildfixApplyStatus.applied
      → (effective.auto_apply ≡ true)
        × ((bf : BuildfixSummary) × (actuator : BuildfixActuatorConfig)
            × (request : BuildfixApplyRequest) × (buildfix ≡ some bf)
            × (effective.actuator ≡ some actuator)
            × IsClean (run actuator request)
            × ((fix : FixSummary)
                → Mem fix request.fixes
                → Mem fix bf.fixes
                  × (eligible effective.max_auto_apply_safety effective.require_matched_finding fix
                      ≡ true)))
  unfolding apply_summary start_summary selected_fixes apply_request
  apply_summary-gated none h = cc
  apply_summary-gated (some bf) h =
      let selected : List FixSummary = selected_fixes effective (some bf) in
      let (on, (actuator, configured, clean)) =
        apply_enabled-applied effective.auto_apply selected (start_summary effective (some bf)) refl
          h in
      (
        on,
        (
          bf,
          actuator,
          apply_request effective selected,
          refl,
          configured,
          clean,
          λ fix m.
              (select_auto_apply_fixes-eligible bf effective.max_auto_apply_safety
                  effective.require_matched_finding fix).0
                m,
        ),
      )
