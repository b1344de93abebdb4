-- ===== src/Conform/Single/Pass.antt =====
-- When a receipt passes, in crates/cockpitctl-conform/src/single.rs.
use cockpitctl.Base.{
  ◌≡◌, refl, sym, ◌∙◌, String, Bool, true, false, ◌&&◌, ◌||◌, not, arith, List, [], ◌∷◌, map,
}
use cockpitctl.Types.Enums.{VerdictStatus}
use cockpitctl.Types.Ranks.{status_eq}
use cockpitctl.Types.Findings.{SensorReport}
use cockpitctl.Types.SensorId.{is_valid_sensor_id}
use cockpitctl.Render.Sections.{no_items}
use cockpitctl.Ingest.Result.{
  ok, context, Always, Always-bind, Always-eq, Always-self, Always-context,
}
use cockpitctl.Conform.Checks.Told.{
  tokens_formed, error_identified, ascending, told_key, check_reason_tokens-token,
  check_tool_error_identity-identified, check_ordering-ascending,
}
use cockpitctl.Conform.Checks.Clean.{
  all, no_items-append, no_items-when, is_clean_finding, is_clean_artifact,
  check_path_hygiene-clean, check_artifact_pointers-clean, check_sensor_id_format-valid,
}
use cockpitctl.Conform.Single.{
  ConformChecks, ConformResult, Json, is_pass, labelled, survivability_violations,
  extended_violations, after_schema, conform_single,
}

-- A check that is enabled finds nothing.
abbrev pub passes : Bool → List String → Bool
passes enabled messages = not enabled || no_items messages

no_items-map : {A B : Type 0} (f : A → B) (l : List A) → no_items (map f l) ≡ no_items l
no_items-map f [] = refl
no_items-map f (a ∷ l) = refl

no_items-labelled :
    (enabled : Bool) (check : String) (messages : List String)
    → no_items (labelled enabled check messages) ≡ passes enabled messages
unfolding labelled
no_items-labelled true check messages = no_items-map _ messages
no_items-labelled false check messages = refl

-- A verdict that fails comes with a finding or a reason.
abbrev pub explains_failure : {V : Type 0} → SensorReport V → Bool
explains_failure parsed =
    not (status_eq parsed.verdict.status VerdictStatus.fail)
    || not (no_items parsed.findings)
    || not (no_items parsed.verdict.reasons)

module _ {V J C : Type 0} (json : Json V J C) where
  -- What the enabled checks ask of a receipt.
  abbrev pub is_conformant : SensorReport V → String → ConformChecks → Bool
  is_conformant parsed sensor_id cfg =
      (not cfg.survivability || explains_failure parsed)
      && (not cfg.path_hygiene || all is_clean_finding parsed.findings)
      && (not cfg.ordering || ascending (map (told_key sensor_id) parsed.findings))
      && (not cfg.reason_lint || tokens_formed parsed)
      && (not cfg.tool_error_identity || error_identified parsed)
      && (not cfg.sensor_id_format || is_valid_sensor_id sensor_id)
      && (not cfg.artifact_pointers || all is_clean_artifact parsed.artifacts)

  survivability_violations-explained :
      (parsed : SensorReport V)
      → no_items (survivability_violations json parsed) ≡ explains_failure parsed
  unfolding survivability_violations
  survivability_violations-explained parsed = grind (arith, no_items-when)

  extended_violations-conformant :
      (parsed : SensorReport V) (sensor_id : String) (cfg : ConformChecks)
      → no_items (extended_violations json parsed sensor_id cfg)
        ≡ is_conformant parsed sensor_id cfg
  unfolding extended_violations
  extended_violations-conformant parsed sensor_id cfg = grind (
    arith,
    no_items-append,
    no_items-labelled,
    survivability_violations-explained parsed,
    check_path_hygiene-clean parsed,
    check_ordering-ascending parsed sensor_id,
    check_reason_tokens-token parsed json.debug,
    check_tool_error_identity-identified parsed,
    check_sensor_id_format-valid json.debug sensor_id,
    check_artifact_pointers-clean parsed,
  )

  -- The content is a receipt in which the validator of the embedded schema for receipts finds no error,
  -- and the enabled checks hold of it.
  abbrev pub IsConformant : String → String → ConformChecks → Type 0
  IsConformant content sensor_id cfg =
      (value : J) × (schema : J) × (validator : C) × (parsed : SensorReport V) × (json.from_str
          content
        ≡ ok value)
      × (json.from_str json.sensor_report_schema ≡ ok schema)
      × (json.validator_for schema ≡ ok validator)
      × (json.iter_errors validator value ≡ [])
      × (json.to_sensor_report value ≡ ok parsed)
      × (is_conformant parsed sensor_id cfg ≡ true)

  after_schema-IsConformant :
      (content sensor_id : String) (cfg : ConformChecks) (value schema : J) (validator : C)
      (errors : List String)
      → json.from_str content ≡ ok value
      → json.from_str json.sensor_report_schema ≡ ok schema
      → json.validator_for schema ≡ ok validator
      → json.iter_errors validator value ≡ errors
      → Always
          (λ r. is_pass r ≡ true → IsConformant content sensor_id cfg)
          (after_schema json value sensor_id cfg errors)
  unfolding after_schema is_pass labelled
  after_schema-IsConformant content sensor_id cfg value schema validator [] e s c k =
      Always-bind (λ parsed. json.to_sensor_report value ≡ ok parsed) _
        (context "parse as SensorReport" (json.to_sensor_report value)) _
        (Always-context _ _ (json.to_sensor_report value)
          (Always-self (json.to_sensor_report value)))
        (λ parsed p h. (
          value,
          schema,
          validator,
          parsed,
          e,
          s,
          c,
          k,
          p,
          sym (extended_violations-conformant parsed sensor_id cfg) ∙ h,
        ))
  after_schema-IsConformant content sensor_id cfg value schema validator (x ∷ errors) e s c k =
      λ h. cc

  conform_single-Always :
      (content sensor_id : String) (cfg : ConformChecks)
      → Always
          (λ r. is_pass r ≡ true → IsConformant content sensor_id cfg)
          (conform_single json content sensor_id cfg)
  unfolding conform_single
  conform_single-Always content sensor_id cfg =
      Always-bind (λ value. json.from_str content ≡ ok value) _
        (context "parse JSON" (json.from_str content)) _
        (Always-context _ _ (json.from_str content) (Always-self (json.from_str content)))
        (λ value e.
          Always-bind (λ schema. json.from_str json.sensor_report_schema ≡ ok schema) _
            (context "parse embedded sensor.report.v1 schema"
              (json.from_str json.sensor_report_schema))
            _
            (Always-context _ _ (json.from_str json.sensor_report_schema)
              (Always-self (json.from_str json.sensor_report_schema)))
            (λ schema s.
              Always-bind (λ validator. json.validator_for schema ≡ ok validator) _
                (context "compile sensor.report.v1 schema" (json.validator_for schema)) _
                (Always-context _ _ (json.validator_for schema)
                  (Always-self (json.validator_for schema)))
                (λ validator c.
                  after_schema-IsConformant content sensor_id cfg value schema validator
                    (json.iter_errors validator value) e s c refl)))

  -- If a receipt passes, then it was parsed, the validator of the embedded schema for receipts has no
  -- error for it, and every enabled check holds: a failing verdict comes with a finding or a reason, the
  -- paths of findings and artifacts are clean, the keys of the findings ascend, the reasons are not empty
  -- and have lower case letters, digits and underscores only, the reason `tool_error` comes with a finding
  -- `tool.runtime` with the code `runtime_error`, and the sensor id is valid.
  pub conform_single-IsConformant :
      (content sensor_id : String) (cfg : ConformChecks) {result : ConformResult}
      → conform_single json content sensor_id cfg ≡ ok result
      → is_pass result ≡ true
      → IsConformant content sensor_id cfg
  conform_single-IsConformant content sensor_id cfg e =
      Always-eq (λ r. is_pass r ≡ true → IsConformant content sensor_id cfg)
        (conform_single json content sensor_id cfg) (conform_single-Always content sensor_id cfg) e
