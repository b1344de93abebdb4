-- ===== src/Io/Schema.antt =====
-- crates/cockpitctl-io-schema/src/lib.rs. `J` is a JSON value and `C` a compiled schema.
use Prim.Native.String.{◌++◌ as append}
use cockpitctl.Base.{String, Bool, List, [], ◌∷◌, map, concat, join, is_empty, if◌then◌else◌}
use cockpitctl.Ingest.Ports.{Bytes, SchemaValidationResult, valid, invalid}
use cockpitctl.Ingest.Result.{Result, ok, err, ◌>>=◌, context}
use cockpitctl.Io.Layout.{Files}

-- What is used of `serde_json` and `jsonschema`: the parsers, the compilation of a schema, whether a
-- value is valid, the errors as their paths and messages, and the two embedded schemas.
pub record Schemas (J C : Type 0) : Type 0 where
  pub from_slice : Bytes → Result J
  pub from_str : String → Result J
  pub compile : J → Result C
  pub is_valid : C → J → Bool
  pub iter_errors : C → J → List (String × String)
  pub sensor_report_schema : String
  pub cockpit_report_schema : String

module _ {J C : Type 0} (s : Schemas J C) where
  -- `map_err` of the compilation
  invalid_schema : Result C → Result C
  unfolding join concat
  invalid_schema (ok c) = ok c
  invalid_schema (err e) = err (concat ("invalid JSON schema: " ∷ join ": " e ∷ []) ∷ [])

  unfoldable pub from_schema : J → Result C
  unfolding invalid_schema
  from_schema schema = invalid_schema (s.compile schema)

  unfoldable pub from_file : {P : Type 0} → Files P → P → Result C
  unfolding from_schema concat
  from_file fs path =
      context (concat ("read schema file " ∷ fs.display path ∷ [])) (fs.read_to_string path)
      >>= λ text.
          context (concat ("parse schema JSON from " ∷ fs.display path ∷ [])) (s.from_str text)
          >>= λ schema. from_schema schema

  unfoldable pub sensor_report_v1 : Result C
  unfolding from_schema
  sensor_report_v1 =
      context "parse embedded sensor.report.v1 schema" (s.from_str s.sensor_report_schema)
      >>= λ schema. from_schema schema

  unfoldable pub cockpit_report_v1 : Result C
  unfolding from_schema
  cockpit_report_v1 =
      context "parse embedded cockpit.report.v1 schema" (s.from_str s.cockpit_report_schema)
      >>= λ schema. from_schema schema

  located : String × String → String
  unfolding concat is_empty
  located (path, message) = if is_empty path then message else concat (path ∷ ": " ∷ message ∷ [])

  validate_parsed : C → Result J → SchemaValidationResult
  unfolding located join
  validate_parsed validator (err e) = invalid (append "malformed JSON: " (join ": " e) ∷ [])
  validate_parsed validator (ok value) =
      if s.is_valid validator value
      then valid
      else invalid (map located (s.iter_errors validator value))

  unfoldable pub validate_receipt : C → Bytes → Result SchemaValidationResult
  unfolding validate_parsed
  validate_receipt validator bytes = ok (validate_parsed validator (s.from_slice bytes))
