-- ===== src/Tests/Render.antt =====
-- Rendering a small report.
use Prim.Native.String.{◌++◌ as append}
use mathlib.Core.List.Perm
use mathlib.Core.List.{mem-cons_self}
use cockpitctl.Base.{◌≡◌, refl, String, true, none, some, [], ◌∷◌, Perm, concat, sort_by}
use cockpitctl.Types.Findings.{Highlight}
use cockpitctl.Types.Reports.{CockpitReport}
use cockpitctl.Domain.Report.{build_cockpit_report}
use cockpitctl.Domain.Samples.{
  V₀, lint, tests, highlight_a, highlight_b, two_highlights, strict_config, tool, run,
}
use cockpitctl.Conform.Cli.Directory.{all-mem}
use cockpitctl.Render.Annotations.{sorted_annotations, render_annotations}
use cockpitctl.Render.Annotations.Order.{render_annotations-order_free}
use cockpitctl.Render.Github.{gh_escape, gh_line, render_github_annotations}
use cockpitctl.Render.Github.Escape.{gh_escape-injective}
use cockpitctl.Render.Github.Lines.{inline, path_inline, render_github_annotations-inline}
use cockpitctl.Render.Sections.{each}
use cockpitctl.Render.Comment.{comment_body, render_comment, by_section, sections_part}
use cockpitctl.Render.Comment.Grouping.{block_of, members, sections_part-members}
use cockpitctl.Render.Samples.{no_payloads}
use cockpitctl.Render.Append.{gap, rendered_sections, append_comment_sections}
use cockpitctl.Render.Append.Marker.{append_comment_sections-render_comment}

abbrev report : CockpitReport V₀
report = build_cockpit_report strict_config tool run (lint ∷ tests ∷ []) two_highlights

gh_escape_run : gh_escape "50%\r\n" ≡ "50%25%0D%0A"
unfolding gh_escape
gh_escape_run = refl

gh_escape-injective_example : "50%" ≡ append "50" "%"
gh_escape-injective_example = gh_escape-injective "50%" (append "50" "%") refl

gh_line_run : gh_line highlight_b ≡ "::error title=[lint] b::a message"
unfolding gh_line
gh_line_run = refl

-- A path is written as it is.
abbrev broken : Highlight V₀
broken = record highlight_b {
  finding = record highlight_b.finding {
    location = some (record { path = some "a\n::error::forged"; line = none; col = none });
  };
}

broken_run : gh_line broken ≡ "::error file=a\n::error::forged,title=[lint] b::a message"
unfolding gh_line
broken_run = refl

one_line :
    (render_github_annotations (highlight_b ∷ []) strict_config []).lines
    ≡ "::error title=[lint] b::a message" ∷ []
unfolding render_github_annotations sorted_annotations gh_line sort_by
one_line = refl

render_github_annotations-inline_example : inline "::error title=[lint] b::a message" ≡ true
render_github_annotations-inline_example =
    render_github_annotations-inline (highlight_b ∷ []) strict_config []
      ((all-mem (λ (h : Highlight V₀). path_inline h.finding.location) (highlight_b ∷ [])).0 refl)
      "::error title=[lint] b::a message" (rw one_line mem-cons_self)

swapped : Perm two_highlights (highlight_b ∷ highlight_a ∷ [])
swapped = Perm.swap highlight_b highlight_a []

render_annotations-order_free_example :
    render_annotations two_highlights strict_config []
    ≡ render_annotations (highlight_b ∷ highlight_a ∷ []) strict_config []
render_annotations-order_free_example = render_annotations-order_free [] strict_config swapped

sections_part-members_example :
    sections_part strict_config (by_section strict_config [] (lint ∷ tests ∷ [])) ("Other" ∷ [])
    ≡ each
        (λ section.
          block_of strict_config section (members strict_config section (lint ∷ tests ∷ [])))
        ("Other" ∷ [])
sections_part-members_example =
    sections_part-members strict_config ("Other" ∷ []) (lint ∷ tests ∷ [])

abbrev notes : String × String
notes = ("Notes", "Some text <!-- cockpit:end -->")

append_comment_sections-render_comment_example :
    append_comment_sections (render_comment no_payloads report strict_config) (notes ∷ [])
    ≡ concat (
        append "<!-- cockpit:begin -->\n" (comment_body no_payloads report strict_config)
        ∷ gap (append "<!-- cockpit:begin -->\n" (comment_body no_payloads report strict_config))
        ∷ rendered_sections (notes ∷ [])
        ∷ "<!-- cockpit:end -->\n"
        ∷ [])
append_comment_sections-render_comment_example =
    append_comment_sections-render_comment no_payloads report strict_config notes []
