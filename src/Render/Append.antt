-- ===== src/Render/Append.antt =====
-- `append_comment_sections` of crates/cockpitctl-render/src/lib.rs. A section is a name and its
-- content.
pub mod Marker
use Prim.Native.String.{String}
use mathlib.Core.Bool.{Bool, true, false}
use cockpitctl.Base.{
  Option, none, some, List, [], ◌∷◌, concat, trim, trim_end, ends_with, split_last, if◌then◌else◌,
}

abbrev pub end_marker : String
end_marker = "<!-- cockpit:end -->"

unfoldable pub rendered_sections : List (String × String) → String
unfolding concat trim trim_end
rendered_sections [] = ""
rendered_sections ((name, content) ∷ rest) =
    concat ("### " ∷ trim name ∷ "\n\n" ∷ trim_end content ∷ "\n\n" ∷ rendered_sections rest ∷ [])

-- What separates the sections from the text before them.
unfoldable pub gap : String → String
unfolding ends_with
gap head = if ends_with head "\n\n" then "" else if ends_with head "\n" then "\n" else "\n\n"

insert_sections : String → List (String × String) → Option (String × String) → String
unfolding concat gap rendered_sections trim_end
insert_sections comment_md sections (some (head, tail)) =
    concat (head ∷ gap head ∷ rendered_sections sections ∷ tail ∷ [])
insert_sections comment_md sections none =
    concat (trim_end comment_md ∷ "\n\n" ∷ rendered_sections sections ∷ [])

unfoldable pub append_comment_sections : String → List (String × String) → String
unfolding insert_sections split_last
append_comment_sections comment_md [] = comment_md
append_comment_sections comment_md (s ∷ rest) =
    insert_sections comment_md (s ∷ rest) (split_last end_marker comment_md)
