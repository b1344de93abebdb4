-- ===== src/Render/Sections.antt =====
-- The further sections of crates/cockpitctl-render/src/lib.rs: the trend, the fixes and the policy
-- signature.
pub mod Unchanged
use Prim.Native.String.{String}
use mathlib.Core.Bool.{Bool, true, false, ◌&&◌, ◌||◌, not}
use cockpitctl.Base.{
  ℕ, Option, none, some, List, [], ◌∷◌, ◌++◌, map, concat, join, to_string, replace, length,
  is_some, suc, ◌==◌, if◌then◌else◌,
}
use cockpitctl.Base.Int.{ℤ, pos, negsuc}
use cockpitctl.Types.Enums.{Severity}
use cockpitctl.Types.Fixes.{FixSummary, BuildfixSummary, BuildfixApplySummary}
use cockpitctl.Types.Deltas.{VerdictChange, CountDeltas, TrendFinding, TrendDelta}
use cockpitctl.Types.Hints.{PolicySignatureEvidence}
use cockpitctl.Render.Badges.{
  status_badge, severity_badge, safety_badge, safety_name, apply_status_badge,
  policy_signature_algorithm_label,
}

-- `Vec::is_empty`
abbrev pub no_items : {A : Type 0} → List A → Bool
no_items [] = true
no_items (a ∷ l) = false

abbrev pub is_zero : ℤ → Bool
is_zero (pos n) = n == 0
is_zero (negsuc n) = false

-- `{:+}`
signed : ℤ → String
unfolding concat to_string
signed (pos n) = concat ("+" ∷ to_string n ∷ [])
signed (negsuc n) = concat ("-" ∷ to_string (suc n) ∷ [])

-- The text of all items.
unfoldable pub each : {A : Type 0} → (A → String) → List A → String
unfolding concat
each show l = concat (map show l)

delta_row : String → ℤ → String
unfolding concat signed
delta_row label d = if is_zero d then "" else concat ("| " ∷ label ∷ " | " ∷ signed d ∷ " |\n" ∷ [])

no_deltas : CountDeltas → Bool
no_deltas cd = is_zero cd.info_delta && is_zero cd.warn_delta && is_zero cd.error_delta

unfoldable trend_verdict : Option VerdictChange → String
unfolding concat status_badge
trend_verdict none = ""
trend_verdict (some vc) =
    concat ("Verdict: " ∷ status_badge vc.before ∷ " → " ∷ status_badge vc.after ∷ "\n\n" ∷ [])

unfoldable trend_counts : CountDeltas → String
unfolding concat delta_row no_deltas
trend_counts cd =
    if no_deltas cd
    then ""
    else concat (
        "| Severity | Delta |\n|---|---:|\n"
        ∷ delta_row "Error" cd.error_delta
        ∷ delta_row "Warn" cd.warn_delta
        ∷ delta_row "Info" cd.info_delta
        ∷ "\n"
        ∷ [])

trend_place : Option String → Option ℕ → String
unfolding concat to_string
trend_place none line = ""
trend_place (some p) none = concat (" at `" ∷ p ∷ "`" ∷ [])
trend_place (some p) (some line) = concat (" at `" ∷ p ∷ ":" ∷ to_string line ∷ "`" ∷ [])

unfoldable new_finding_line : TrendFinding → String
unfolding concat severity_badge trend_place
new_finding_line f = concat (
    "- "
    ∷ severity_badge f.severity
    ∷ " **"
    ∷ f.sensor_id
    ∷ "**: `"
    ∷ f.code
    ∷ "`"
    ∷ trend_place f.path f.line
    ∷ "\n"
    ∷ [])

unfoldable fixed_finding_line : TrendFinding → String
unfolding concat
fixed_finding_line f =
    concat ("- ~**" ∷ f.sensor_id ∷ "**: `" ∷ f.code ∷ "`~ — " ∷ f.message ∷ "\n" ∷ [])

-- A list under its count, if it is not empty.
unfoldable counted : String → (TrendFinding → String) → List TrendFinding → String
unfolding concat each to_string
counted label show [] = ""
counted label show (f ∷ fs) =
    concat ("**" ∷ to_string (length (f ∷ fs)) ∷ label ∷ each show (f ∷ fs) ∷ "\n" ∷ [])

quoted : String → String
unfolding concat
quoted s = concat ("`" ∷ s ∷ "`" ∷ [])

-- The items in back quotes on one line, if there are any.
unfoldable pub listed : String → List String → String → String
unfolding concat join quoted
listed label [] end = ""
listed label (s ∷ rest) end = concat (label ∷ join ", " (map quoted (s ∷ rest)) ∷ end ∷ [])

unfoldable pub unchanged : TrendDelta → Bool
unfolding no_deltas
unchanged trend =
    not (is_some trend.verdict_change)
    && no_items trend.new_findings
    && no_items trend.fixed_findings
    && no_items trend.sensors_added
    && no_items trend.sensors_removed
    && no_deltas trend.count_deltas

unfoldable pub render_trend_section : TrendDelta → String
unfolding concat trend_verdict trend_counts counted new_finding_line fixed_finding_line listed
    unchanged
render_trend_section trend = concat (
    "### Trend\n\n"
    ∷ trend_verdict trend.verdict_change
    ∷ trend_counts trend.count_deltas
    ∷ counted " new finding(s)**:\n" new_finding_line trend.new_findings
    ∷ counted " fixed finding(s)**:\n" fixed_finding_line trend.fixed_findings
    ∷ listed "Sensors added: " trend.sensors_added "\n"
    ∷ listed "Sensors removed: " trend.sensors_removed "\n"
    ∷ (if unchanged trend then "_No changes from baseline._\n" else "")
    ∷ "\n"
    ∷ [])

fix_row : FixSummary → String
unfolding concat safety_badge replace
fix_row fix = concat (
    "| `"
    ∷ fix.fix_id
    ∷ "` | "
    ∷ safety_badge fix.safety
    ∷ " | "
    ∷ (if fix.unmatched then "no" else "yes")
    ∷ " | "
    ∷ replace b'\n' " " fix.description
    ∷ " |\n"
    ∷ [])

unfoldable pub render_buildfix_section : BuildfixSummary → String
unfolding concat to_string each fix_row
render_buildfix_section summary =
    if no_items summary.fixes
    then "### Buildfix\n\n_No fixes available._\n\n"
    else concat (
        "### Buildfix\n\n"
        ∷ to_string summary.total_fixes
        ∷ " fix(es) available ("
        ∷ to_string summary.matched_count
        ∷ " matched, "
        ∷ to_string summary.unmatched_count
        ∷ " unmatched)\n\n"
        ∷ "| Fix | Safety | Matched | Description |\n|---|---|---:|---|\n"
        ∷ each fix_row summary.fixes
        ∷ "\n"
        ∷ [])

apply_errors : List String → String
unfolding concat each replace
apply_errors [] = ""
apply_errors (e ∷ rest) = concat (
    "Errors:\n"
    ∷ each (λ e. concat ("- " ∷ replace b'\n' " " e ∷ "\n" ∷ [])) (e ∷ rest)
    ∷ "\n"
    ∷ [])

unfoldable pub render_buildfix_apply_section : BuildfixApplySummary → String
unfolding concat apply_status_badge safety_name listed apply_errors
render_buildfix_apply_section summary = concat (
    "### Buildfix Apply\n\nStatus: "
    ∷ apply_status_badge summary.status
    ∷ " · max safety: `"
    ∷ safety_name summary.max_auto_apply_safety
    ∷ "` · require matched finding: `"
    ∷ (if summary.require_matched_finding then "true" else "false")
    ∷ "`\n\n"
    ∷ elim summary.reason [ none ↦ "" | some r ↦ concat ("Reason: `" ∷ r ∷ "`\n\n" ∷ []) ]
    ∷ listed "Selected fixes: " summary.selected_fix_ids "\n\n"
    ∷ listed "Applied fixes: " summary.applied_fix_ids "\n\n"
    ∷ apply_errors summary.errors
    ∷ [])

unfoldable pub render_policy_signature_section : PolicySignatureEvidence → String
unfolding concat policy_signature_algorithm_label
render_policy_signature_section signature = concat (
    "### Policy Signature\n\n- algorithm: `"
    ∷ policy_signature_algorithm_label signature.algorithm
    ∷ "`\n"
    ∷ elim signature.key_id [ none ↦ "" | some k ↦ concat ("- key_id: `" ∷ k ∷ "`\n" ∷ []) ]
    ∷ "- policy_sha256: `"
    ∷ signature.policy_sha256
    ∷ "`\n- signature: `"
    ∷ signature.signature
    ∷ "`\n\n"
    ∷ [])
