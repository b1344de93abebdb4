-- ===== src/Render/Github.antt =====
-- The workflow commands of crates/cockpitctl-render/src/lib.rs: `gh_escape` and
-- `render_github_annotations`.
pub mod Escape
pub mod Lines
use cockpitctl.Base.{
  ℕ, String, Bool, Option, none, some, List, [], ◌∷◌, ◌++◌, map, concat, join, to_string, replace,
  ltb, min, length, take,
}
use cockpitctl.Base.Map.{BTreeMap}
use cockpitctl.Types.Findings.{Location, Highlight}
use cockpitctl.Types.Config.{CockpitConfig}
use cockpitctl.Render.Badges.{gh_level}
use cockpitctl.Render.Annotations.{sorted_annotations}

pub record GitHubAnnotationResult : Type 0 where
  pub lines : List String
  pub truncated : Bool
  pub total_count : ℕ
  pub rendered_count : ℕ

unfoldable pub gh_escape : String → String
unfolding replace
gh_escape s = replace b'\r' "%0D" (replace b'\n' "%0A" (replace b'%' "%25" s))

-- `name=value`, if there is a value
unfoldable pub param : {A : Type 0} → String → (A → String) → Option A → List String
unfolding concat
param name show none = []
param name show (some a) = concat (name ∷ "=" ∷ show a ∷ []) ∷ []

unfoldable pub location_params : Option Location → List String
unfolding param
location_params none = []
location_params (some loc) =
    param "file" (λ p. p) loc.path
    ++ param "line" to_string loc.line
    ++ param "col" to_string loc.col

unfoldable pub gh_line : {V : Type 0} → Highlight V → String
unfolding concat join gh_escape gh_level location_params
gh_line h =
    let title = gh_escape (concat ("[" ∷ h.sensor_id ∷ "] " ∷ h.finding.code ∷ [])) in
    let params = location_params h.finding.location ++ concat ("title=" ∷ title ∷ []) ∷ [] in
    concat (
      "::"
      ∷ gh_level h.finding.severity
      ∷ " "
      ∷ join "," params
      ∷ "::"
      ∷ gh_escape h.finding.message
      ∷ [])

unfoldable pub render_github_annotations :
    {V : Type 0}
    → List (Highlight V)
    → CockpitConfig
    → BTreeMap String Bool
    → GitHubAnnotationResult
unfolding gh_line sorted_annotations
render_github_annotations highlights cfg sensor_blocking =
    let max = cfg.policy.max_annotations in
    let total_count = length highlights in
    record {
      lines = map gh_line (take max (sorted_annotations sensor_blocking highlights));
      truncated = ltb max total_count;
      total_count = total_count;
      rendered_count = min total_count max;
    }
