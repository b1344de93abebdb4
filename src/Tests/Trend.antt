-- ===== src/Tests/Trend.antt =====
-- The trend of two small reports.
use cockpitctl.Base.{◌≡◌, not, [], ◌∷◌, map, filter}
use cockpitctl.Types.Findings.{VerdictCounts}
use cockpitctl.Types.Reports.{CockpitReport}
use cockpitctl.Domain.Report.{build_cockpit_report}
use cockpitctl.Domain.Samples.{V₀, lint, tests, highlight_a, highlight_b, strict_config, tool, run}
use cockpitctl.Trend.{compute_trend, highlight_to_trend_finding}
use cockpitctl.Trend.Match.{appears}
use cockpitctl.Trend.Changes.{compute_trend-findings}

abbrev before : CockpitReport V₀
before = build_cockpit_report strict_config tool run (lint ∷ []) (highlight_a ∷ [])

abbrev after : CockpitReport V₀
after =
    build_cockpit_report strict_config tool run (lint ∷ tests ∷ []) (highlight_a ∷ highlight_b ∷ [])

compute_trend-findings_example :
    ((compute_trend before after).new_findings
      ≡ map highlight_to_trend_finding
          (filter (λ h. not (appears before.highlights h)) after.highlights))
    × ((compute_trend before after).fixed_findings
        ≡ map highlight_to_trend_finding
            (filter (λ h. not (appears after.highlights h)) before.highlights))
compute_trend-findings_example = compute_trend-findings before after

abbrev few : VerdictCounts
few = record { info = 1; warn = 5; error = 0; suppressed = 0 }

abbrev many : VerdictCounts
many = record { info = 4; warn = 2; error = 1; suppressed = 0 }
