-- ===== src/Cli/Commands.antt =====
-- The commands `explain`, `init` and `validate` of crates/cockpitctl-cli/src/main.rs. What they print is
-- left out.
pub mod Validate
use Prim.Native.String.{◌++◌ as append}
use cockpitctl.Base.{
  ℕ, String, Bool, true, false, ◌||◌, str_eq, is_some, Option, none, some, List, [], ◌∷◌, ◌++◌,
  concat, join, if◌then◌else◌,
}
use cockpitctl.Ingest.Ports.{Bytes, SchemaValidationResult, valid, invalid}
use cockpitctl.Ingest.Result.{Result, ok, err, ◌>>=◌, context}
use cockpitctl.Domain.Codes.{explain_code}
use cockpitctl.Render.Sections.{no_items}
use cockpitctl.Io.Layout.{Files}
use cockpitctl.Io.Sink.{Disk, and_then, within}
use cockpitctl.Io.Schema.{Schemas, sensor_report_v1, cockpit_report_v1, validate_receipt}

unfoldable pub cmd_explain : String → Result ℕ
unfolding explain_code
cmd_explain code =
    ok (if str_eq code "all" then 0 else if is_some (explain_code code) then 0 else 1)

-- `example` is the embedded example configuration.
unfoldable pub cmd_init : {P W : Type 0} → Files P → Disk P W → String → P → W → Result ℕ × W
unfolding concat
cmd_init fs disk example path w =
    if fs.exists path
    then (ok 2, w)
    else and_then
        (within (concat ("write " ∷ fs.display path ∷ []))
          (disk.write path (disk.as_bytes example) w))
        (λ _ w1. (ok 0, w1))

unfoldable pub format_schema_errors : String → List String → String
unfolding concat join
format_schema_errors label errs =
    concat
      (label ∷ ": " ∷ (if no_items errs then "schema validation failed" else join "; " errs) ∷ [])

-- `is_sensor` and `is_cockpit` tell whether `serde_json` parses the bytes as a report of the sensor's or
-- of the cockpit's type, and `schema_hint` is the text under the key `schema`, if there is one.
module _ {J C : Type 0} (s : Schemas J C) (is_sensor is_cockpit : Bytes → Bool)
    (schema_hint : J → Option String) where
  labelled_sensor : Result (List (String × C))
  unfolding sensor_report_v1
  labelled_sensor = context "load sensor.report.v1 JSON schema" (sensor_report_v1 s) >>= λ c.
      ok (("sensor.report.v1", c) ∷ [])

  labelled_cockpit : Result (List (String × C))
  unfolding cockpit_report_v1
  labelled_cockpit = context "load cockpit.report.v1 JSON schema" (cockpit_report_v1 s) >>= λ c.
      ok (("cockpit.report.v1", c) ∷ [])

  unfoldable pub schema_candidates : Option String → Result (List (String × C))
  unfolding labelled_sensor labelled_cockpit
  schema_candidates none =
      labelled_sensor >>= λ first. labelled_cockpit >>= λ second. ok (first ++ second)
  schema_candidates (some hint) =
      if str_eq hint "cockpit.report.v1" then labelled_cockpit else labelled_sensor

  -- The loop over the candidates, from the results of their validations.
  unfoldable pub first_valid :
      List (String × Result SchemaValidationResult) → List String → Result ℕ
  unfolding format_schema_errors join
  first_valid [] errors = err (append "strict validation failed:\n" (join "\n" errors) ∷ [])
  first_valid ((label, err e) ∷ rest) errors = err e
  first_valid ((label, ok valid) ∷ rest) errors = ok 0
  first_valid ((label, ok (invalid errs)) ∷ rest) errors =
      first_valid rest (errors ++ format_schema_errors label errs ∷ [])

  unfoldable pub validations :
      List (String × C) → Bytes → List (String × Result SchemaValidationResult)
  unfolding validate_receipt
  validations [] bytes = []
  validations ((label, c) ∷ rest) bytes =
      (label, validate_receipt s c bytes) ∷ validations rest bytes

  unfoldable pub validate_lax : Bytes → Result ℕ
  validate_lax bytes =
      if is_sensor bytes || is_cockpit bytes
      then ok 0
      else err ("input did not parse as SensorReport or CockpitReport" ∷ [])

  unfoldable pub validate_strict : Bool → Bytes → Result ℕ
  unfolding schema_candidates first_valid validations
  validate_strict true bytes = context "parse JSON input" (s.from_slice bytes) >>= λ value.
      schema_candidates (schema_hint value) >>= λ candidates.
      first_valid (validations candidates bytes) []
  validate_strict false bytes =
      if is_sensor bytes || is_cockpit bytes
      then ok 0
      else err ("input did not parse as known cockpit report type" ∷ [])

  -- `feature_schema` tells whether the build has the feature.
  unfoldable pub cmd_validate : {P : Type 0} → Files P → Bool → P → Bool → Result ℕ
  unfolding validate_lax validate_strict concat
  cmd_validate fs feature_schema input lax =
      context (concat ("read " ∷ fs.display input ∷ [])) (fs.read input) >>= λ bytes.
      if lax then validate_lax bytes else validate_strict feature_schema bytes
