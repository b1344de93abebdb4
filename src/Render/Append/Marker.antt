-- ===== src/Render/Append/Marker.antt =====
-- Where `append_comment_sections` of crates/cockpitctl-render/src/lib.rs puts the sections.
use Prim.Native.String.{String, ◌++◌ as append}
use text.Mathlib.TextLemmas.{append-nil, append_assoc, nil-append}
use mathlib.Core.List.{append-nil as list-append-nil}
use cockpitctl.Base.{
  ◌≡◌, refl, sym, true, some, List, [], ◌∷◌, ◌++◌, concat, contains, trim, trim_end, ends_with,
  ends_with-append, split_last, split_last-append, split_last-IsCut, contains-split_last,
}
use cockpitctl.Types.Config.{CockpitConfig}
use cockpitctl.Types.Reports.{CockpitReport}
use cockpitctl.Render.Comment.{Payloads, comment_body, render_comment}
use cockpitctl.Render.Append.{
  end_marker, gap, rendered_sections, insert_sections, append_comment_sections,
}

rendered_sections-append :
    (xs ys : List (String × String))
    → rendered_sections (xs ++ ys) ≡ append (rendered_sections xs) (rendered_sections ys)
unfolding rendered_sections concat
rendered_sections-append [] ys = sym (nil-append _)
rendered_sections-append ((name, content) ∷ xs) ys =
    rw (rendered_sections-append xs ys) (simp (append_assoc, append-nil))

ends_with-concat :
    (l : List String) (s t : String)
    → ends_with s t ≡ true
    → ends_with (concat (l ++ s ∷ [])) t ≡ true
unfolding concat
ends_with-concat [] s t h = rw (append-nil s) h
ends_with-concat (x ∷ l) s t h =
    ends_with-append x (concat (l ++ s ∷ [])) t (ends_with-concat l s t h)

two_ends : ends_with "\n\n" "\n\n" ≡ true
unfolding ends_with
two_ends = refl

-- A rendered section ends with an empty line.
ends_with-rendered_sections :
    (s : String × String) (xs : List (String × String))
    → ends_with (rendered_sections (s ∷ xs)) "\n\n" ≡ true
unfolding rendered_sections
ends_with-rendered_sections (name, content) [] =
    ends_with-concat ("### " ∷ trim name ∷ "\n\n" ∷ trim_end content ∷ []) "\n\n" "\n\n" two_ends
ends_with-rendered_sections (name, content) (x ∷ xs) =
    ends_with-concat ("### " ∷ trim name ∷ "\n\n" ∷ trim_end content ∷ "\n\n" ∷ [])
      (rendered_sections (x ∷ xs)) "\n\n" (ends_with-rendered_sections x xs)

gap_closed : (x : String) → ends_with x "\n\n" ≡ true → gap x ≡ ""
unfolding gap
gap_closed x h = rw h refl

module _ (head tail : String) (x y : String × String) (xs ys : List (String × String)) where
  -- The text in front of the marker, after the first call.
  abbrev front : String
  front = concat (head ∷ gap head ∷ rendered_sections (x ∷ xs) ∷ [])

  front_closed : gap front ≡ ""
  front_closed = gap_closed front (
      ends_with-concat (head ∷ gap head ∷ []) (rendered_sections (x ∷ xs)) "\n\n"
        (ends_with-rendered_sections x xs))

  front-append :
      concat (head ∷ gap head ∷ rendered_sections (x ∷ xs) ∷ tail ∷ []) ≡ append front tail
  unfolding concat
  front-append = simp (append_assoc, append-nil)

  front_merged :
      concat (front ∷ "" ∷ rendered_sections (y ∷ ys) ∷ tail ∷ [])
      ≡ concat (head ∷ gap head ∷ rendered_sections ((x ∷ xs) ++ y ∷ ys) ∷ tail ∷ [])
  unfolding concat
  front_merged =
      rw (rendered_sections-append (x ∷ xs) (y ∷ ys)) (simp (append_assoc, append-nil, nil-append))

  insert_twice :
      split_last end_marker tail ≡ some ("", tail)
      → append_comment_sections
          (concat (head ∷ gap head ∷ rendered_sections (x ∷ xs) ∷ tail ∷ []))
          (y ∷ ys)
        ≡ concat (head ∷ gap head ∷ rendered_sections ((x ∷ xs) ++ y ∷ ys) ∷ tail ∷ [])
  unfolding append_comment_sections insert_sections
  insert_twice h =
      rw (front-append, split_last-append end_marker front tail h, front_closed) front_merged

marker_found :
    (comment_md : String)
    → contains comment_md end_marker ≡ true
    → (p : String × String) × (split_last end_marker comment_md ≡ some p)
unfolding contains
marker_found comment_md h = contains-split_last end_marker comment_md refl h

-- Where a comment has the end marker, sections that are appended in two calls stand as they would
-- after one call with all of them, whatever they contain.
pub append_comment_sections-append :
    (comment_md : String) (xs ys : List (String × String))
    → contains comment_md end_marker ≡ true
    → append_comment_sections (append_comment_sections comment_md xs) ys
      ≡ append_comment_sections comment_md (xs ++ ys)
unfolding append_comment_sections insert_sections
append_comment_sections-append comment_md [] ys h = refl
append_comment_sections-append comment_md (x ∷ xs) [] h = rw (list-append-nil xs) refl
append_comment_sections-append comment_md (x ∷ xs) (y ∷ ys) h =
    let (p, e) = marker_found comment_md h in
    let (_, last) = split_last-IsCut end_marker comment_md {p = p} e in
    rw e (insert_twice p.0 p.1 x y xs ys last)

closing : split_last end_marker "<!-- cockpit:end -->\n" ≡ some ("", "<!-- cockpit:end -->\n")
unfolding split_last
closing = refl

render_comment_closed :
    {V : Type 0} (json : Payloads V) (report : CockpitReport V) (cfg : CockpitConfig)
    → render_comment json report cfg
      ≡ append
          (append "<!-- cockpit:begin -->\n" (comment_body json report cfg))
          "<!-- cockpit:end -->\n"
unfolding render_comment concat
render_comment_closed json report cfg = sym (
    append_assoc "<!-- cockpit:begin -->\n" (comment_body json report cfg) "<!-- cockpit:end -->\n")

inserted :
    (body : String) (x : String × String) (xs : List (String × String))
    → append_comment_sections (append body "<!-- cockpit:end -->\n") (x ∷ xs)
      ≡ concat (body ∷ gap body ∷ rendered_sections (x ∷ xs) ∷ "<!-- cockpit:end -->\n" ∷ [])
unfolding append_comment_sections insert_sections
inserted body x xs = rw (split_last-append end_marker body "<!-- cockpit:end -->\n" closing) refl

-- The sections that are appended to a rendered comment stand between its body and its last line,
-- whatever the texts of the report contain.
pub append_comment_sections-render_comment :
    {V : Type 0} (json : Payloads V) (report : CockpitReport V) (cfg : CockpitConfig)
    (x : String × String) (xs : List (String × String))
    → let body = append "<!-- cockpit:begin -->\n" (comment_body json report cfg) in
      append_comment_sections (render_comment json report cfg) (x ∷ xs)
      ≡ concat (body ∷ gap body ∷ rendered_sections (x ∷ xs) ∷ "<!-- cockpit:end -->\n" ∷ [])
append_comment_sections-render_comment json report cfg x xs =
    rw (render_comment_closed json report cfg)
      (inserted (append "<!-- cockpit:begin -->\n" (comment_body json report cfg)) x xs)
