-- ===== src/Render/Annotations.antt =====
-- `render_annotations` and `annotation_sort_key` of crates/cockpitctl-render/src/lib.rs.
pub mod Order
use mathlib.Core.Option.{bind}
use cockpitctl.Base.{
  ℕ, ◌+◌, String, Bool, Option, none, some, List, [], ◌∷◌, concat, to_string, replace, is_empty,
  ltb, min, length, take, compare, string_compare, Cmp, on, lex, option_cmp, sort_by, IsOrder,
  IsOrder-on, IsOrder-lex, IsOrder-option, compare-IsOrder, string_compare-IsOrder, if◌then◌else◌,
}
use cockpitctl.Base.Map.{BTreeMap}
use cockpitctl.Types.Enums.{Severity}
use cockpitctl.Types.Findings.{Location, Highlight}
use cockpitctl.Types.Config.{CockpitConfig}
use cockpitctl.Types.Ranks.{severity_rank}
use cockpitctl.Domain.Highlights.{block_rank}
use cockpitctl.Render.Badges.{severity_badge}

pub record AnnotationRenderResult : Type 0 where
  pub content : String
  pub truncated : Bool
  pub total_count : ℕ
  pub rendered_count : ℕ

-- `h.finding.location.as_ref().and_then(|l| l.path.as_deref())`
unfoldable pub path_of : {V : Type 0} → Highlight V → Option String
unfolding bind
path_of h = bind h.finding.location (λ (l : Location). l.path)

unfoldable pub line_of : {V : Type 0} → Highlight V → Option ℕ
unfolding bind
line_of h = bind h.finding.location (λ (l : Location). l.line)

place : Location → String
unfolding concat
place l = concat (
    elim l.path [ none ↦ "" | some p ↦ p ]
    ∷ elim l.line [ none ↦ "" | some line ↦ concat (":" ∷ to_string line ∷ []) ]
    ∷ [])

-- `loc_str`
loc_str : Option Location → String
unfolding place concat is_empty
loc_str none = ""
loc_str (some l) = if is_empty (place l) then "" else concat (" at `" ∷ place l ∷ "`" ∷ [])

-- The line of one highlight in a numbered list.
unfoldable pub numbered_line : {V : Type 0} → ℕ → Highlight V → String
unfolding loc_str concat severity_badge replace
numbered_line i h = concat (
    to_string i
    ∷ ". "
    ∷ severity_badge h.finding.severity
    ∷ " **"
    ∷ h.sensor_id
    ∷ "**: `"
    ∷ h.finding.code
    ∷ "`"
    ∷ loc_str h.finding.location
    ∷ " — "
    ∷ replace b'\n' " " h.finding.message
    ∷ "\n"
    ∷ [])

-- The lines of the highlights, counted from `i`.
unfoldable pub numbered : {V : Type 0} → ℕ → List (Highlight V) → String
unfolding numbered_line concat
numbered i [] = ""
numbered i (h ∷ rest) = concat (numbered_line i h ∷ numbered (i + 1) rest ∷ [])

-- The tuple that `annotation_sort_key` returns.
pub record AnnotationSortKey : Type 0 where
  pub severity_rank : ℕ
  pub block_rank : ℕ
  pub sensor_id : String
  pub path : Option String
  pub line : Option ℕ
  pub code : String
  pub message : String

-- The order of the tuple.
abbrev pub annotation_key_cmp : Cmp AnnotationSortKey
annotation_key_cmp = lex (on (λ k. k.severity_rank) compare) (
    lex (on (λ k. k.block_rank) compare) (
      lex (on (λ k. k.sensor_id) string_compare) (
        lex (on (λ k. k.path) (option_cmp string_compare)) (
          lex (on (λ k. k.line) (option_cmp compare))
            (lex (on (λ k. k.code) string_compare) (on (λ k. k.message) string_compare))))))

pub annotation_key_cmp-IsOrder : IsOrder annotation_key_cmp
annotation_key_cmp-IsOrder =
    IsOrder-lex (IsOrder-on (λ (k : AnnotationSortKey). k.severity_rank) compare-IsOrder) (
      IsOrder-lex (IsOrder-on (λ (k : AnnotationSortKey). k.block_rank) compare-IsOrder) (
        IsOrder-lex (IsOrder-on (λ (k : AnnotationSortKey). k.sensor_id) string_compare-IsOrder) (
          IsOrder-lex
            (IsOrder-on (λ (k : AnnotationSortKey). k.path) (IsOrder-option string_compare-IsOrder))
            (IsOrder-lex
              (IsOrder-on (λ (k : AnnotationSortKey). k.line) (IsOrder-option compare-IsOrder))
              (IsOrder-lex (IsOrder-on (λ (k : AnnotationSortKey). k.code) string_compare-IsOrder)
                (IsOrder-on (λ (k : AnnotationSortKey). k.message) string_compare-IsOrder))))))

module _ {V : Type 0} (sensor_blocking : BTreeMap String Bool) where
  unfoldable pub annotation_sort_key : Highlight V → AnnotationSortKey
  unfolding path_of line_of
  annotation_sort_key h = record {
    severity_rank = severity_rank h.finding.severity;
    block_rank = block_rank sensor_blocking h;
    sensor_id = h.sensor_id;
    path = path_of h;
    line = line_of h;
    code = h.finding.code;
    message = h.finding.message;
  }

  abbrev pub annotation_cmp : Cmp (Highlight V)
  annotation_cmp = on annotation_sort_key annotation_key_cmp

  unfoldable pub sorted_annotations : List (Highlight V) → List (Highlight V)
  sorted_annotations hs = sort_by annotation_cmp hs

-- What stands below the list if it was cut.
notice : ℕ → ℕ → String
unfolding concat
notice rendered_count total_count = concat (
    "\n_Showing "
    ∷ to_string rendered_count
    ∷ " of "
    ∷ to_string total_count
    ∷ " annotations (capped by `max_annotations`)._\n"
    ∷ [])

unfoldable pub annotations_content : {V : Type 0} → ℕ → ℕ → List (Highlight V) → String
unfolding numbered concat notice
annotations_content max total_count [] = "_No annotations._\n"
annotations_content max total_count (h ∷ hs) = concat (
    numbered 1 (take max (h ∷ hs))
    ∷ (if ltb max total_count then notice (min total_count max) total_count else "")
    ∷ [])

unfoldable pub render_annotations :
    {V : Type 0}
    → List (Highlight V)
    → CockpitConfig
    → BTreeMap String Bool
    → AnnotationRenderResult
unfolding annotations_content sorted_annotations
render_annotations highlights cfg sensor_blocking =
    let max = cfg.policy.max_annotations in
    let total_count = length highlights in
    let sorted = sorted_annotations sensor_blocking highlights in
    record {
      content = annotations_content max total_count sorted;
      truncated = ltb max total_count;
      total_count = total_count;
      rendered_count = min total_count max;
    }

unfoldable pub render_annotations_section :
    {V : Type 0} → List (Highlight V) → CockpitConfig → BTreeMap String Bool → String
unfolding render_annotations concat
render_annotations_section highlights cfg sensor_blocking = concat (
    "### Annotations\n\n" ∷ (render_annotations highlights cfg sensor_blocking).content ∷ "\n" ∷ [])
