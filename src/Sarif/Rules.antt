-- ===== src/Sarif/Rules.antt =====
-- The rules and results of a SARIF log that crates/cockpitctl-sarif/src/lib.rs exports.
use cockpitctl.Base.{
  ◌≡◌, refl, ◌∙◌, String, Bool, true, ◌&&◌, Option, none, some, List, [], ◌∷◌, ◌++◌, map, any,
  arith, is_eq, string_compare, string_compare-IsOrder, cmp_self, is_some, string_compare-IsAntisym,
  if◌then◌else◌,
}
use mathlib.Core.List.{append-nil}
use cockpitctl.Base.Map
use cockpitctl.Base.Map.{BTreeMap}
use cockpitctl.Types.Findings.{Highlight}
use cockpitctl.Types.Reports.{CockpitReport}
use cockpitctl.Sarif.{
  SarifRule, SarifRun, SarifResult, rule_of, rules_map, cockpit_report_to_sarif,
  highlight_to_sarif_result,
}

-- The rules and the results of all runs.
abbrev pub rules_in : List SarifRun → List SarifRule
rules_in [] = []
rules_in (r ∷ rest) = r.tool.driver.rules ++ rules_in rest

abbrev pub results_in : List SarifRun → List SarifResult
results_in [] = []
results_in (r ∷ rest) = r.results ++ results_in rest

-- The first rule with this id.
abbrev pub rule_with : String → List SarifRule → Option SarifRule
rule_with code [] = none
rule_with code (r ∷ rest) = if is_eq (string_compare code r.id) then some r else rule_with code rest

-- Each rule is filed under its id.
abbrev ids : BTreeMap String SarifRule → Bool
ids [] = true
ids ((k, r) ∷ m) = is_eq (string_compare k r.id) && ids m

ids-insert :
    (k : String) (r : SarifRule) (m : BTreeMap String SarifRule)
    → is_eq (string_compare k r.id) ≡ true
    → ids m ≡ true
    → ids (Map.insert string_compare k r m) ≡ true
unfolding Map.insert
ids-insert k r [] h s = rw h refl
ids-insert k r ((j, q) ∷ m) h s =
    ground (arith, ids-insert k r m h, string_compare-IsOrder.eq_left k j r.id)

ids_eq :
    (m : BTreeMap String SarifRule)
    → ids m ≡ true
    → map (λ (r : SarifRule). r.id) (map (λ e. e.1) m) ≡ Map.keys m
ids_eq [] s = refl
ids_eq ((k, r) ∷ m) s = ground (arith, ids_eq m, string_compare-IsAntisym k r.id)

rule_with-get :
    (code : String) (m : BTreeMap String SarifRule)
    → ids m ≡ true
    → rule_with code (map (λ e. e.1) m) ≡ Map.get string_compare code m
unfolding Map.get
rule_with-get code [] s = refl
rule_with-get code ((k, r) ∷ m) s =
    ground (arith, rule_with-get code m, string_compare-IsAntisym k r.id)

module _ {V : Type 0} where
  -- The rule of the first highlight with this code.
  abbrev pub first_rule : String → List (Highlight V) → Option SarifRule
  first_rule code [] = none
  first_rule code (h ∷ rest) =
      if is_eq (string_compare code h.finding.code) then some (rule_of h) else first_rule code rest

  get-rules_map :
      (code : String) (m : BTreeMap String SarifRule) (hs : List (Highlight V))
      → Map.get string_compare code (rules_map m hs)
        ≡ Map.or_else (Map.get string_compare code m) (first_rule code hs)
  unfolding rules_map
  get-rules_map code m [] = ground arith
  get-rules_map code m (h ∷ hs) = ground (
    arith,
    get-rules_map code (Map.or_insert string_compare h.finding.code (rule_of h) m) hs,
    Map.get-or_insert string_compare-IsOrder h.finding.code code (rule_of h) m,
  )

  ascends-rules_map :
      (m : BTreeMap String SarifRule) (hs : List (Highlight V))
      → Map.ascends string_compare (Map.keys m) ≡ true
      → Map.ascends string_compare (Map.keys (rules_map m hs)) ≡ true
  unfolding rules_map
  ascends-rules_map m [] s = s
  ascends-rules_map m (h ∷ hs) s =
      ascends-rules_map (Map.or_insert string_compare h.finding.code (rule_of h) m) hs
        (Map.ascends-or_insert string_compare-IsOrder h.finding.code (rule_of h) m s)

  ids-rules_map :
      (m : BTreeMap String SarifRule) (hs : List (Highlight V))
      → ids m ≡ true
      → ids (rules_map m hs) ≡ true
  unfolding rules_map Map.or_insert rule_of
  ids-rules_map m [] s = s
  ids-rules_map m (h ∷ hs) s =
      ids-rules_map (Map.or_insert string_compare h.finding.code (rule_of h) m) hs (
        ground (
          arith,
          ids-insert h.finding.code (rule_of h) m,
          cmp_self string_compare-IsOrder h.finding.code,
        ))

module _ {V : Type 0} where
  codes_of_results :
      (hs : List (Highlight V))
      → map (λ (r : SarifResult). r.rule_id) (map highlight_to_sarif_result hs)
        ≡ map (λ h. h.finding.code) hs
  unfolding highlight_to_sarif_result
  codes_of_results [] = refl
  codes_of_results (h ∷ hs) = rw (codes_of_results hs) refl

  first_rule-any :
      (code : String) (hs : List (Highlight V))
      → is_some (first_rule code hs)
        ≡ any
            (λ (r : SarifResult). is_eq (string_compare code r.rule_id))
            (map highlight_to_sarif_result hs)
  unfolding highlight_to_sarif_result
  first_rule-any code [] = refl
  first_rule-any code (h ∷ hs) = ground (arith, first_rule-any code hs)

module _ {V : Type 0} (report : CockpitReport V) where
  abbrev log_rules : List SarifRule
  log_rules = rules_in (cockpit_report_to_sarif report).runs

  abbrev log_results : List SarifResult
  log_results = results_in (cockpit_report_to_sarif report).runs

  -- The ids of the rules ascend, so that no two rules have the same id; and the rule for a code is
  -- that of the first highlight with the code, if there is one.
  pub cockpit_report_to_sarif-rules :
      (Map.ascends string_compare (map (λ (r : SarifRule). r.id) log_rules) ≡ true)
      × ((code : String) → rule_with code log_rules ≡ first_rule code report.highlights)
  unfolding cockpit_report_to_sarif rules_map Map.get
  cockpit_report_to_sarif-rules =
      let m : BTreeMap String SarifRule = rules_map [] report.highlights in
      let s : ids m ≡ true = ids-rules_map [] report.highlights refl in
      (
        rw (append-nil (map (λ (e : String × SarifRule). e.1) m), ids_eq m s)
            (ascends-rules_map [] report.highlights refl),
        λ code.
            rw (append-nil (map (λ (e : String × SarifRule). e.1) m))
              (rule_with-get code m s ∙ get-rules_map code [] report.highlights),
      )

  -- There is one result for each highlight, in their order, under the code of its finding; and a code
  -- has a rule exactly if some result has it.
  pub cockpit_report_to_sarif-results :
      (map (λ (r : SarifResult). r.rule_id) log_results
        ≡ map (λ h. h.finding.code) report.highlights)
      × ((code : String)
          → is_some (rule_with code log_rules)
            ≡ any (λ (r : SarifResult). is_eq (string_compare code r.rule_id)) log_results)
  unfolding cockpit_report_to_sarif
  cockpit_report_to_sarif-results =
      let nil = append-nil (map highlight_to_sarif_result report.highlights) in
      (
        rw nil (codes_of_results report.highlights),
        λ code.
            rw (nil, cockpit_report_to_sarif-rules.1 code) (first_rule-any code report.highlights),
      )
