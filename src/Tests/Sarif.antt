-- ===== src/Tests/Sarif.antt =====
-- The export of a report with three highlights, two of them with the same code.
use cockpitctl.Base.{
  ◌≡◌, refl, true, String, List, [], ◌∷◌, map, any, is_eq, is_some, string_compare,
}
use cockpitctl.Base.Map
use cockpitctl.Types.Findings.{Highlight}
use cockpitctl.Types.Reports.{CockpitReport}
use cockpitctl.Domain.Report.{build_cockpit_report}
use cockpitctl.Domain.Samples.{
  V₀, lint, highlight_a, highlight_b, finding_a, strict_config, tool, run,
}
use cockpitctl.Sarif.{SarifRule, SarifResult, cockpit_report_to_sarif}
use cockpitctl.Sarif.Rules.{
  rules_in, results_in, rule_with, first_rule, cockpit_report_to_sarif-rules,
  cockpit_report_to_sarif-results,
}

-- The code of the second again, from another sensor.
abbrev again : Highlight V₀
again = record { sensor_id = "tests"; finding = finding_a }

abbrev report : CockpitReport V₀
report =
    build_cockpit_report strict_config tool run (lint ∷ []) (highlight_b ∷ highlight_a ∷ again ∷ [])

abbrev rules : List SarifRule
rules = rules_in (cockpit_report_to_sarif report).runs

abbrev results : List SarifResult
results = results_in (cockpit_report_to_sarif report).runs

rules_run : map (λ (r : SarifRule). r.id) rules ≡ "a" ∷ "b" ∷ []
unfolding cockpit_report_to_sarif build_cockpit_report Map.get
rules_run = refl

cockpit_report_to_sarif-rules_example :
    (Map.ascends string_compare (map (λ (r : SarifRule). r.id) rules) ≡ true)
    × ((code : String) → rule_with code rules ≡ first_rule code report.highlights)
cockpit_report_to_sarif-rules_example = cockpit_report_to_sarif-rules report

cockpit_report_to_sarif-results_example :
    (map (λ (r : SarifResult). r.rule_id) results ≡ map (λ h. h.finding.code) report.highlights)
    × ((code : String)
        → is_some (rule_with code rules)
          ≡ any (λ (r : SarifResult). is_eq (string_compare code r.rule_id)) results)
cockpit_report_to_sarif-results_example = cockpit_report_to_sarif-results report
