-- ===== src/Xtask/Schemas.antt =====
-- The tasks of xtask/src/main.rs that check schemas: `schema_check` and `validate_schemas`. What they print
-- is left out.
pub mod Errors
pub mod Valid
pub mod Fixed
use cockpitctl.Base.{
  ℕ, ◌&&◌, ◌||◌, not, String, Bool, true, false, str_eq, is_empty, Option, none, some, List, [],
  ◌∷◌, ◌++◌, length, concat, join, to_string, if◌then◌else◌,
}
use mathlib.Core.Option.{get_or}
use cockpitctl.Render.Sections.{no_items}
use cockpitctl.Ingest.Result.{Result, ok, err, ◌>>=◌, context}
use cockpitctl.Io.Sink.{and_then, within}

-- What the tasks use of `std::fs`, `std::path` and `walkdir`. Which files there are does not change, for
-- only files that are there are written; their texts are in the state `W`.
pub record Tree (P W : Type 0) : Type 0 where
  pub join : P → String → P
  pub display : P → String
  pub exists : P → Bool
  pub walk : P → List (Result P)
  pub extension : P → Option String
  pub is_file : P → Bool
  pub read_to_string : W → P → Result String
  pub write : P → String → W → Result (Unit {0}) × W

-- What the tasks use of `serde_json` and `jsonschema`. `get_str` is `get` and `as_str`.
pub record SchemaTools (J : Type 0) : Type 0 where
  pub from_str : String → Result J
  pub to_string_pretty : J → Result String
  pub get_str : J → String → Option String
  pub meta_error : J → Option String

module _ {P W J : Type 0} (fs : Tree P W) (tools : SchemaTools J) where
  unfoldable pub check_schema : W → P → Result (Unit {0})
  unfolding concat is_empty
  check_schema w f =
      context (concat ("read " ∷ fs.display f ∷ [])) (fs.read_to_string w f) >>= λ txt.
      context (concat ("parse json " ∷ fs.display f ∷ [])) (tools.from_str txt) >>= λ v.
      if is_empty (get_or (tools.get_str v "$id") "")
        || is_empty (get_or (tools.get_str v "title") "")
      then err (concat ("schema missing $id/title: " ∷ fs.display f ∷ []) ∷ [])
      else ok tt

  unfoldable pub schema_check : W → P → Result (Unit {0})
  unfolding check_schema
  schema_check w dir = check_schema w (fs.join dir "sensor.report.v1.json") >>= λ _.
      check_schema w (fs.join dir "cockpit.report.v1.json")

  unfoldable pub is_json : P → Bool
  is_json path = elim (fs.extension path) [ none ↦ false | some e ↦ str_eq e "json" ]

  -- The reformatting of a file with this text and value.
  unfoldable pub fix_file : P → String → J → W → Result (Unit {0}) × W
  unfolding concat
  fix_file path content value w =
      and_then
        (
          context (concat ("failed to format " ∷ fs.display path ∷ []))
              (tools.to_string_pretty value),
          w,
        )
        (λ formatted w1.
          let formatted_with_newline = concat (formatted ∷ "\n" ∷ []) in
          if str_eq formatted_with_newline content
          then (ok tt, w1)
          else within (concat ("failed to write " ∷ fs.display path ∷ []))
              (fs.write path formatted_with_newline w1))

  fixed_if : Bool → P → String → J → W → Result (Unit {0}) × W
  unfolding fix_file
  fixed_if false path content value w = (ok tt, w)
  fixed_if true path content value w = fix_file path content value w

  unfoldable pub check_meta :
      Bool → P → String → J → Option String → List String → W → Result (List String) × W
  unfolding concat fixed_if
  check_meta fix path content value (some meta_err) errors w = (
    ok (errors ++ concat (fs.display path ∷ ": not a valid JSON Schema: " ∷ meta_err ∷ []) ∷ []),
    w,
  )
  check_meta fix path content value none errors w =
      and_then (fixed_if fix path content value w) (λ _ w1. (ok errors, w1))

  unfoldable pub check_value :
      Bool → P → String → Result J → List String → W → Result (List String) × W
  unfolding concat join check_meta
  check_value fix path content (err e) errors w =
      (ok (errors ++ concat (fs.display path ∷ ": invalid JSON: " ∷ join ": " e ∷ []) ∷ []), w)
  check_value fix path content (ok value) errors w =
      check_meta fix path content value (tools.meta_error value) errors w

  unfoldable pub check_text : Bool → P → Result String → List String → W → Result (List String) × W
  unfolding concat join check_value
  check_text fix path (err e) errors w = (
    ok (errors ++ concat (fs.display path ∷ ": failed to read file: " ∷ join ": " e ∷ []) ∷ []),
    w,
  )
  check_text fix path (ok content) errors w =
      check_value fix path content (tools.from_str content) errors w

  -- The loop over what `WalkDir` yields, from the errors so far.
  unfoldable pub check_files : Bool → List (Result P) → List String → W → Result (List String) × W
  unfolding is_json check_text
  check_files fix [] errors w = (ok errors, w)
  check_files fix (err e ∷ rest) errors w = check_files fix rest errors w
  check_files fix (ok path ∷ rest) errors w =
      let skipped = check_files fix rest errors w in
      if not (is_json path) || not (fs.is_file path)
      then skipped
      else and_then (check_text fix path (fs.read_to_string w path) errors w)
          (λ errors' w1. check_files fix rest errors' w1)

  unfoldable pub validate_schemas : P → Bool → W → Result (Unit {0}) × W
  unfolding check_files concat to_string
  validate_schemas dir fix w =
      if not (fs.exists dir)
      then (err (concat ("schema directory does not exist: " ∷ fs.display dir ∷ []) ∷ []), w)
      else and_then (check_files fix (fs.walk dir) [] w) (λ errors w1.
        if no_items errors then (ok tt, w1) else (
          err (
              concat
                ("schema validation failed with " ∷ to_string (length errors) ∷ " error(s)" ∷ [])
              ∷ []),
          w1,
        ))
