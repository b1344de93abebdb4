-- ===== src/Render/Github/Lines.antt =====
-- The lines that `render_github_annotations` of crates/cockpitctl-render/src/lib.rs writes.
use Prim.Native.String.{◌++◌ as append}
use mathlib.Core.Logic.{∥∥₁_elim}
use mathlib.Core.List.{mem-map, Mem}
use mathlib.Core.List.Perm
use mathlib.Core.Bool.{Bool-set}
use cockpitctl.Base.{
  ◌≡◌, refl, ℕ, String, Bool, true, Option, none, some, List, [], ◌∷◌, ◌++◌, ◌&&◌, arith, all_chars,
  all_chars-append, all_chars-to_string, concat, join, to_string, length, length-map, length-take,
  take, ltb, sort_by-perm, length-perm, mem-take, ◌≤◌,
}
use cockpitctl.Base.Map.{BTreeMap}
use cockpitctl.Types.Findings.{Location, Highlight}
use cockpitctl.Types.Config.{CockpitConfig}
use cockpitctl.Types.Enums.{Severity}
use cockpitctl.Render.Badges.{gh_level}
use cockpitctl.Render.Annotations.{annotation_cmp, sorted_annotations}
use cockpitctl.Render.Github.{gh_escape, gh_line, location_params, param, render_github_annotations}
use cockpitctl.Render.Github.Escape.{is_inline, gh_escape_inline}

abbrev pub inline : String → Bool
inline s = all_chars is_inline s

abbrev pub all_inline : List String → Bool
all_inline [] = true
all_inline (s ∷ l) = inline s && all_inline l

inline-concat : (l : List String) → all_inline l ≡ true → inline (concat l) ≡ true
unfolding concat all_chars
inline-concat [] h = refl
inline-concat (s ∷ l) h = ground (arith, all_chars-append is_inline s (concat l), inline-concat l)

inline-join : (l : List String) → all_inline l ≡ true → inline (join "," l) ≡ true
unfolding join all_chars
inline-join [] h = refl
inline-join (s ∷ []) h = ground arith
inline-join (s ∷ t ∷ l) h = ground (
  arith,
  all_chars-append is_inline s (append "," (join "," (t ∷ l))),
  all_chars-append is_inline "," (join "," (t ∷ l)),
  inline-join (t ∷ l),
)

all_inline-append : (l r : List String) → all_inline (l ++ r) ≡ (all_inline l && all_inline r)
all_inline-append [] r = refl
all_inline-append (s ∷ l) r = ground (arith, all_inline-append l r)

inline-to_string : (n : ℕ) → inline (to_string n) ≡ true
unfolding all_chars
inline-to_string n = all_chars-to_string is_inline n refl

-- The value, if there is one, is shown without a line break.
abbrev pub inline_with : {A : Type 0} → (A → String) → Option A → Bool
inline_with show none = true
inline_with show (some a) = inline (show a)

inline_with-to_string : (o : Option ℕ) → inline_with to_string o ≡ true
inline_with-to_string none = refl
inline_with-to_string (some n) = inline-to_string n

inline-param :
    {A : Type 0} (name : String) (show : A → String) (o : Option A)
    → inline name ≡ true
    → inline_with show o ≡ true
    → all_inline (param name show o) ≡ true
unfolding param all_chars
inline-param name show none h k = refl
inline-param name show (some a) h k =
    rw (inline-concat (name ∷ "=" ∷ show a ∷ []) (rw (h, k) refl)) refl

-- The location's path, if there is one, has no line break.
abbrev pub path_inline : Option Location → Bool
path_inline none = true
path_inline (some loc) = inline_with (λ p. p) loc.path

names_inline : (inline "file" ≡ true) × (inline "line" ≡ true) × (inline "col" ≡ true)
unfolding all_chars
names_inline = (refl, refl, refl)

inline-location_params :
    (l : Option Location) → path_inline l ≡ true → all_inline (location_params l) ≡ true
unfolding location_params
inline-location_params none h = refl
inline-location_params (some loc) h =
    rw
      (
        all_inline-append (param "file" (λ p. p) loc.path ++ param "line" to_string loc.line)
            (param "col" to_string loc.col),
        all_inline-append (param "file" (λ p. p) loc.path) (param "line" to_string loc.line),
        inline-param "file" (λ p. p) loc.path names_inline.0 h,
        inline-param "line" to_string loc.line names_inline.1 (inline_with-to_string loc.line),
        inline-param "col" to_string loc.col names_inline.2 (inline_with-to_string loc.col),
      )
      refl

gh_level-inline : (s : Severity) → inline (gh_level s) ≡ true
unfolding gh_level all_chars
gh_level-inline Severity.error = refl
gh_level-inline Severity.warn = refl
gh_level-inline Severity.info = refl

module _ {V : Type 0} where
  inline-gh_line :
      (h : Highlight V) → path_inline h.finding.location ≡ true → inline (gh_line h) ≡ true
  unfolding gh_line all_chars
  inline-gh_line h p =
      let title : String = gh_escape (concat ("[" ∷ h.sensor_id ∷ "] " ∷ h.finding.code ∷ [])) in
      let params : List String =
        location_params h.finding.location ++ concat ("title=" ∷ title ∷ []) ∷ [] in
      let titled : inline (concat ("title=" ∷ title ∷ [])) ≡ true =
        inline-concat ("title=" ∷ title ∷ []) (rw (gh_escape_inline _) refl) in
      let joined : inline (join "," params) ≡ true = inline-join params (
        rw
          (
            all_inline-append (location_params h.finding.location)
                (concat ("title=" ∷ title ∷ []) ∷ []),
            inline-location_params h.finding.location p,
            titled,
          )
          refl) in
      inline-concat
        ("::"
          ∷ gh_level h.finding.severity
          ∷ " "
          ∷ join "," params
          ∷ "::"
          ∷ gh_escape h.finding.message
          ∷ [])
        (rw (gh_level-inline h.finding.severity, joined, gh_escape_inline h.finding.message) refl)

  module _ (highlights : List (Highlight V)) (cfg : CockpitConfig)
      (sensor_blocking : BTreeMap String Bool) where
    -- If no path of the highlights has a line break, then no line that is written has one, whatever
    -- the messages, the codes and the ids of the sensors are.
    pub render_github_annotations-inline :
        ((h : Highlight V) → Mem h highlights → path_inline h.finding.location ≡ true)
        → (line : String)
        → Mem line (render_github_annotations highlights cfg sensor_blocking).lines
        → inline line ≡ true
    unfolding render_github_annotations sorted_annotations
    render_github_annotations-inline paths line m =
        ∥∥₁_elim (mem-map.0 m) (Bool-set _ _) (λ (h, k, e). rw (← e) (
          inline-gh_line h (
            paths h (
              (Perm.mem_iff (sort_by-perm (annotation_cmp sensor_blocking) highlights)).0
                (mem-take cfg.policy.max_annotations k)))))

    -- There are as many lines as the result says were rendered, no more than the cap, and the result is
    -- marked as truncated exactly if fewer were rendered than there are highlights.
    pub render_github_annotations-counts :
        let out = render_github_annotations highlights cfg sensor_blocking in
        (length out.lines ≡ out.rendered_count)
        × (out.rendered_count ≤ cfg.policy.max_annotations)
        × (out.truncated ≡ ltb out.rendered_count out.total_count)
    unfolding render_github_annotations sorted_annotations
    render_github_annotations-counts =
        let n : length (sorted_annotations sensor_blocking highlights) ≡ length highlights =
          length-perm (sort_by-perm (annotation_cmp sensor_blocking) highlights) in
        let l =
          length-map
            (take cfg.policy.max_annotations (sorted_annotations sensor_blocking highlights))
            gh_line in
        let t =
          length-take cfg.policy.max_annotations (sorted_annotations sensor_blocking highlights) in
        (omega (arith, n, l, t), omega arith, ground arith)
