-- ===== src/Render/Comment.antt =====
-- `render_comment` of crates/cockpitctl-render/src/lib.rs.
pub mod Grouping
use Prim.Native.String.{String}
use mathlib.Core.Option.{get_or, bind}
use cockpitctl.Base.{
  ℕ, Bool, Option, none, some, List, [], ◌∷◌, ◌++◌, concat, to_string, string_compare,
  if◌then◌else◌,
}
use cockpitctl.Base.Map
use cockpitctl.Base.Map.{BTreeMap}
use cockpitctl.Types.Config.{CockpitConfig, SensorPolicy}
use cockpitctl.Types.Findings.{Highlight}
use cockpitctl.Types.Reports.{SensorSummary, CockpitReport}
use cockpitctl.Types.Fixes.{BuildfixSummary, BuildfixApplySummary}
use cockpitctl.Types.Hints.{PolicySignatureEvidence}
use cockpitctl.Render.Badges.{status_badge}
use cockpitctl.Render.Annotations.{numbered, render_annotations_section}
use cockpitctl.Render.Sections.{
  each, render_buildfix_section, render_buildfix_apply_section, render_policy_signature_section,
}

-- `serde_json`: the lookup of a key in a value, and the conversion of a value, which may fail.
pub record Payloads (V : Type 0) : Type 0 where
  pub get : V → String → Option V
  pub buildfix_summary : V → Option BuildfixSummary
  pub apply_summary : V → Option BuildfixApplySummary
  pub policy_signature : V → Option PolicySignatureEvidence

-- The path of the sensor's own comment, if there is one.
comment_note : String → Option String → String
unfolding concat
comment_note label none = ""
comment_note label (some c) = concat (label ∷ c ∷ "`" ∷ [])

unfoldable summary_row : SensorSummary → String
unfolding concat status_badge comment_note
summary_row s = concat (
    "| `"
    ∷ s.id
    ∷ "` | "
    ∷ status_badge s.verdict.status
    ∷ " | "
    ∷ (if s.blocking then "yes" else "no")
    ∷ " | `"
    ∷ s.report_path
    ∷ "`"
    ∷ comment_note " · `" s.comment_path
    ∷ (if s.truncated then " · _truncated_" else "")
    ∷ " |\n"
    ∷ [])

unfoldable highlights_part : {V : Type 0} → ℕ → List (Highlight V) → String
unfolding concat to_string numbered
highlights_part max [] = "_No highlights._\n\n"
highlights_part max (h ∷ hs) =
    concat ("(showing up to **" ∷ to_string max ∷ "**)\n\n" ∷ numbered 1 (h ∷ hs) ∷ "\n" ∷ [])

-- `report.sensors.iter().map(|s| (s.id.clone(), s.blocking)).collect()`
unfoldable pub blocking_map : BTreeMap String Bool → List SensorSummary → BTreeMap String Bool
unfolding Map.insert
blocking_map m [] = m
blocking_map m (s ∷ rest) = blocking_map (Map.insert string_compare s.id s.blocking m) rest

unfoldable pub section_of : CockpitConfig → SensorSummary → String
unfolding Map.get bind
section_of cfg s =
    get_or (bind (Map.get string_compare s.id cfg.sensors) (λ (p : SensorPolicy). p.section))
      "Other"

-- `by_section.entry(section).or_default().push(s)` for each sensor
unfoldable pub by_section :
    CockpitConfig
    → BTreeMap String (List SensorSummary)
    → List SensorSummary
    → BTreeMap String (List SensorSummary)
unfolding section_of Map.insert Map.get
by_section cfg m [] = m
by_section cfg m (s ∷ rest) =
    let section = section_of cfg s in
    let sensors = get_or (Map.get string_compare section m) [] in
    by_section cfg (Map.insert string_compare section (sensors ++ s ∷ []) m) rest

repro_note : CockpitConfig → SensorSummary → String
unfolding concat Map.get bind
repro_note cfg s =
    elim (bind (Map.get string_compare s.id cfg.sensors) (λ (p : SensorPolicy). p.repro)) [
      | none ↦ ""
      | some r ↦ concat ("\n  - repro: `" ∷ r ∷ "`" ∷ [])
    ]

unfoldable pub sensor_line : CockpitConfig → SensorSummary → String
unfolding concat status_badge comment_note repro_note
sensor_line cfg s = concat (
    "- `"
    ∷ s.id
    ∷ "`: "
    ∷ status_badge s.verdict.status
    ∷ " · report `"
    ∷ s.report_path
    ∷ "`"
    ∷ comment_note " · comment `" s.comment_path
    ∷ repro_note cfg s
    ∷ "\n"
    ∷ [])

unfoldable pub section_block : CockpitConfig → String → List SensorSummary → String
unfolding concat each sensor_line
section_block cfg section sensors =
    concat ("### " ∷ section ∷ "\n\n" ∷ each (sensor_line cfg) sensors ∷ "\n" ∷ [])

-- The sections in the policy's order.
unfoldable pub sections_part :
    CockpitConfig → BTreeMap String (List SensorSummary) → List String → String
unfolding concat section_block Map.get
sections_part cfg m [] = ""
sections_part cfg m (section ∷ rest) = concat (
    elim (Map.get string_compare section m) [
      | none ↦ ""
      | some sensors ↦ section_block cfg section sensors
    ]
    ∷ sections_part cfg m rest
    ∷ [])

module _ {V : Type 0} (json : Payloads V) where
  -- What a section of the payload under `key` renders to.
  unfoldable extracted : {A : Type 0} → String → (V → Option A) → (A → String) → Option V → String
  unfolding bind
  extracted key from_value show payload =
      elim (bind (bind payload (λ v. json.get v key)) from_value) [ none ↦ "" | some a ↦ show a ]

  unfoldable pub comment_body : CockpitReport V → CockpitConfig → String
  unfolding concat each summary_row highlights_part blocking_map render_annotations_section
      render_buildfix_section render_buildfix_apply_section render_policy_signature_section
      extracted by_section sections_part
  comment_body report cfg = concat (
      "## Cockpit\n\n"
      ∷ "This comment is generated by `cockpitctl`. Details live in `artifacts/`.\n\n"
      ∷ "### Summary\n\n| Sensor | Status | Blocking | Notes |\n|---|---:|---:|---|\n"
      ∷ each summary_row report.sensors
      ∷ "\n### Highlights\n\n"
      ∷ highlights_part cfg.policy.max_highlights report.highlights
      ∷ render_annotations_section report.highlights cfg (blocking_map [] report.sensors)
      ∷ extracted "_buildfix" json.buildfix_summary render_buildfix_section report.payload
      ∷ extracted "_buildfix_apply" json.apply_summary render_buildfix_apply_section report.payload
      ∷ extracted "_policy_signature" json.policy_signature render_policy_signature_section
          report.payload
      ∷ sections_part cfg (by_section cfg [] report.sensors) cfg.policy.section_order
      ∷ [])

  unfoldable pub render_comment : CockpitReport V → CockpitConfig → String
  unfolding concat comment_body
  render_comment report cfg =
      concat ("<!-- cockpit:begin -->\n" ∷ comment_body report cfg ∷ "<!-- cockpit:end -->\n" ∷ [])
