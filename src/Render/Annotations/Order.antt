-- ===== src/Render/Annotations/Order.antt =====
-- The annotations of crates/cockpitctl-render/src/lib.rs do not depend on the order of the highlights.
use mathlib.Core.Option.{bind}
use cockpitctl.Base.{
  ◌≡◌, refl, sym, ap, ap₂, ◌∙◌, ℕ, ◌+◌, String, Bool, Option, none, some, List, [], ◌∷◌, map, Perm,
  arith, concat, to_string, replace, is_empty, compare-IsAntisym, string_compare-IsAntisym,
  IsAntisym, option_cmp, sort_by-keys_unique, map-take, take, length, length-perm, min, ltb, Cmp,
  ◌==◌, if◌then◌else◌,
}
use cockpitctl.Base.Map.{BTreeMap}
use cockpitctl.Types.Enums.{Severity}
use cockpitctl.Types.Findings.{Location, Highlight}
use cockpitctl.Types.Config.{CockpitConfig}
use cockpitctl.Types.Ranks.{severity_rank}
use cockpitctl.Render.Badges.{severity_badge}
use cockpitctl.Render.Annotations.{
  AnnotationSortKey, annotation_sort_key, annotation_key_cmp, annotation_key_cmp-IsOrder, path_of,
  line_of, loc_str, place, notice, numbered_line, numbered, annotations_content, sorted_annotations,
  render_annotations,
}

option_cmp-IsAntisym : {A : Type 0} (cmp : Cmp A) → IsAntisym cmp → IsAntisym (option_cmp cmp)
option_cmp-IsAntisym cmp h none none e = refl
option_cmp-IsAntisym cmp h none (some b) e = cc
option_cmp-IsAntisym cmp h (some a) none e = cc
option_cmp-IsAntisym cmp h (some a) (some b) e = ap some (h a b e)

annotation_key_cmp-IsAntisym : IsAntisym annotation_key_cmp
annotation_key_cmp-IsAntisym a b h = ground (
  arith,
  string_compare-IsAntisym a.sensor_id b.sensor_id,
  option_cmp-IsAntisym _ string_compare-IsAntisym a.path b.path,
  option_cmp-IsAntisym _ compare-IsAntisym a.line b.line,
  string_compare-IsAntisym a.code b.code,
  string_compare-IsAntisym a.message b.message,
)

-- The line of a highlight, from its key.
severity_of : ℕ → Severity
severity_of n = if n == 0 then Severity.error else if n == 1 then Severity.warn else Severity.info

severity_of-rank : (s : Severity) → severity_of (severity_rank s) ≡ s
unfolding severity_of severity_rank
severity_of-rank s = ground arith

key_line : ℕ → AnnotationSortKey → String
unfolding loc_str place concat severity_badge replace is_empty
key_line i k = concat (
    to_string i
    ∷ ". "
    ∷ severity_badge (severity_of k.severity_rank)
    ∷ " **"
    ∷ k.sensor_id
    ∷ "**: `"
    ∷ k.code
    ∷ "`"
    ∷ loc_str (some (record { path = k.path; line = k.line; col = none }))
    ∷ " — "
    ∷ replace b'\n' " " k.message
    ∷ "\n"
    ∷ [])

key_lines : ℕ → List AnnotationSortKey → String
unfolding key_line concat
key_lines i [] = ""
key_lines i (k ∷ rest) = concat (key_line i k ∷ key_lines (i + 1) rest ∷ [])

loc_str_key :
    (l : Option Location)
    → loc_str l
      ≡ loc_str (
          some (record {
            path = bind l (λ (l : Location). l.path);
            line = bind l (λ (l : Location). l.line);
            col = none;
          }))
unfolding loc_str place bind
loc_str_key none = refl
loc_str_key (some l) = refl

key_content : ℕ → ℕ → List AnnotationSortKey → String
unfolding key_lines concat notice
key_content max total_count [] = "_No annotations._\n"
key_content max total_count (k ∷ ks) = concat (
    key_lines 1 (take max (k ∷ ks))
    ∷ (if ltb max total_count then notice (min total_count max) total_count else "")
    ∷ [])

module _ {V : Type 0} (sensor_blocking : BTreeMap String Bool) where
  key_line_lem :
      (i : ℕ) (h : Highlight V)
      → numbered_line i h ≡ key_line i (annotation_sort_key sensor_blocking h)
  unfolding numbered_line key_line annotation_sort_key path_of line_of
  key_line_lem i h = rw (severity_of-rank h.finding.severity, ← loc_str_key h.finding.location) refl

  key_lines_lem :
      (i : ℕ) (hs : List (Highlight V))
      → numbered i hs ≡ key_lines i (map (annotation_sort_key sensor_blocking) hs)
  unfolding numbered key_lines
  key_lines_lem i [] = refl
  key_lines_lem i (h ∷ hs) = rw (key_line_lem i h, key_lines_lem (i + 1) hs) refl

  key_content_lem :
      (max total_count : ℕ) (hs : List (Highlight V))
      → annotations_content max total_count hs
        ≡ key_content max total_count (map (annotation_sort_key sensor_blocking) hs)
  unfolding annotations_content key_content
  key_content_lem max total_count [] = refl
  key_content_lem max total_count (h ∷ hs) =
      rw
        (
          key_lines_lem 1 (take max (h ∷ hs)),
          map-take (annotation_sort_key sensor_blocking) max (h ∷ hs),
        )
        refl

  -- The same highlights in another order give the same annotations.
  pub render_annotations-order_free :
      (cfg : CockpitConfig) {hs ks : List (Highlight V)}
      → Perm hs ks
      → render_annotations hs cfg sensor_blocking ≡ render_annotations ks cfg sensor_blocking
  unfolding render_annotations sorted_annotations
  render_annotations-order_free cfg {hs} {ks} p =
      let max : ℕ = cfg.policy.max_annotations in
      let n : length hs ≡ length ks = length-perm p in
      let keys =
        sort_by-keys_unique (annotation_sort_key sensor_blocking) annotation_key_cmp
          annotation_key_cmp-IsOrder annotation_key_cmp-IsAntisym p in
      let content : annotations_content max (length hs) (sorted_annotations sensor_blocking hs)
          ≡ annotations_content max (length ks) (sorted_annotations sensor_blocking ks) =
        key_content_lem max (length hs) (sorted_annotations sensor_blocking hs)
        ∙ ap₂ (key_content max) n keys
        ∙ sym (key_content_lem max (length ks) (sorted_annotations sensor_blocking ks)) in
      cc (content, n)
