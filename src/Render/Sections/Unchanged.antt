-- ===== src/Render/Sections/Unchanged.antt =====
-- The trend section of crates/cockpitctl-render/src/lib.rs where nothing has changed.
use cockpitctl.Base.{◌≡◌, refl, ◌↔◌, String, true, arith}
use cockpitctl.Base.Int.{ℤ, pos}
use cockpitctl.Types.Deltas.{TrendDelta}
use cockpitctl.Types.Reports.{CockpitReport}
use cockpitctl.Trend.{compute_trend}
use cockpitctl.Trend.Same.{no_difference, compute_trend-same}
use cockpitctl.Render.Sections.{unchanged, no_deltas, is_zero, render_trend_section}

-- The text for a trend without a change.
abbrev pub unchanged_text : String
unchanged_text = "### Trend\n\n_No changes from baseline._\n\n"

is_zero-eq : (z : ℤ) → is_zero z ≡ true → z ≡ pos 0
is_zero-eq z h = ground arith

-- A trend counts as unchanged exactly if it has no difference at all.
pub unchanged-no_difference : (t : TrendDelta) → (unchanged t ≡ true) ↔ (t ≡ no_difference)
unfolding unchanged no_deltas
unchanged-no_difference t = (
  λ h. ground (
    arith,
    is_zero-eq t.count_deltas.info_delta,
    is_zero-eq t.count_deltas.warn_delta,
    is_zero-eq t.count_deltas.error_delta,
  ),
  λ e. rw e refl,
)

-- The trend of a report against itself is shown as the text that says so, and nothing else.
pub render_trend_section-compute_trend :
    {V : Type 0} (r : CockpitReport V) → render_trend_section (compute_trend r r) ≡ unchanged_text
unfolding render_trend_section
render_trend_section-compute_trend r = rw (compute_trend-same r) refl
