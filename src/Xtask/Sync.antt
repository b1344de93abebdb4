-- ===== src/Xtask/Sync.antt =====
-- The tasks of xtask/src/main.rs that keep copies of files: `schema_sync_check` and `schema_sync_fix`,
-- `example_sync_check` and `example_sync_fix`. What they print is left out.
pub mod Checked
pub mod Restored
use cockpitctl.Base.{
  ℕ, ◌==◌, ◌&&◌, String, Bool, true, false, Option, none, some, List, [], ◌∷◌, ◌++◌, length, concat,
  to_string, if◌then◌else◌,
}
use cockpitctl.Render.Sections.{no_items}
use cockpitctl.Ingest.Ports.{Bytes}
use cockpitctl.Ingest.Result.{Result, ok, err, ◌>>=◌, context}
use cockpitctl.Io.Sink.{and_then, within}

-- What the tasks use of `std::fs` and `std::path`, over the state `W` of the file system.
pub record Store (P W : Type 0) : Type 0 where
  pub from : String → P
  pub join : P → String → P
  pub parent : P → Option P
  pub display : P → String
  pub read : W → P → Result Bytes
  pub create_dir_all : P → W → Result (Unit {0}) × W
  pub copy : P → P → W → Result (Unit {0}) × W

abbrev pub schema_files : List String
schema_files =
    "sensor.report.v1.json" ∷ "cockpit.report.v1.json" ∷ "buildfix.plan.v1.json"
    ∷ "cockpit.promote.v1.json" ∷ []

-- The equality of `Vec<u8>`.
unfoldable pub same_bytes : Bytes → Bytes → Bool
same_bytes [] [] = true
same_bytes [] (y ∷ t) = false
same_bytes (x ∷ s) [] = false
same_bytes (x ∷ s) (y ∷ t) = x == y && same_bytes s t

module _ {P W : Type 0} (fs : Store P W) where
  abbrev pub schema_source : String → P
  schema_source name = fs.join (fs.from "contracts/schemas") name

  abbrev pub schema_dest : String → P
  schema_dest name = fs.join (fs.from "crates/cockpitctl-types/schemas") name

  abbrev pub example_source : P
  example_source = fs.from "cockpit.toml.example"

  abbrev pub example_dest : P
  example_dest = fs.from "crates/cockpitctl-cli/cockpit.toml.example"

  unfoldable pub read_named : W → P → Result Bytes
  unfolding concat
  read_named w p = context (concat ("read " ∷ fs.display p ∷ [])) (fs.read w p)

  -- The loop over the names, from those that did not match so far.
  unfoldable pub schema_mismatches : W → List String → List String → Result (List String)
  unfolding read_named same_bytes
  schema_mismatches w [] mismatches = ok mismatches
  schema_mismatches w (name ∷ rest) mismatches = read_named w (schema_source name) >>= λ src_bytes.
      read_named w (schema_dest name) >>= λ dst_bytes.
      schema_mismatches w rest
        (if same_bytes src_bytes dst_bytes then mismatches else mismatches ++ name ∷ [])

  unfoldable pub schema_sync_check : W → Result (Unit {0})
  unfolding schema_mismatches concat to_string
  schema_sync_check w = schema_mismatches w schema_files [] >>= λ mismatches.
      if no_items mismatches
      then ok tt
      else err (
          concat (
            "schema-sync-check: "
            ∷ to_string (length mismatches)
            ∷ " file(s) out of sync — run `cargo run -p xtask -- schema-sync-fix`"
            ∷ [])
          ∷ [])

  unfoldable pub copy_named : P → P → W → Result (Unit {0}) × W
  unfolding concat
  copy_named src dst w =
      within (concat ("copy " ∷ fs.display src ∷ " → " ∷ fs.display dst ∷ [])) (fs.copy src dst w)

  unfoldable pub copy_schemas : List String → W → Result (Unit {0}) × W
  unfolding copy_named
  copy_schemas [] w = (ok tt, w)
  copy_schemas (name ∷ rest) w =
      and_then (copy_named (schema_source name) (schema_dest name) w) (λ _ w1. copy_schemas rest w1)

  unfoldable pub schema_sync_fix : W → Result (Unit {0}) × W
  unfolding copy_schemas concat
  schema_sync_fix w =
      let dest = fs.from "crates/cockpitctl-types/schemas" in
      and_then (within (concat ("create " ∷ fs.display dest ∷ [])) (fs.create_dir_all dest w))
        (λ _ w1. copy_schemas schema_files w1)

  unfoldable pub example_sync_check : W → Result (Unit {0})
  unfolding read_named same_bytes
  example_sync_check w = read_named w example_source >>= λ src_bytes.
      read_named w example_dest >>= λ dst_bytes.
      if same_bytes src_bytes dst_bytes
      then ok tt
      else err (
          "example-sync-check: cockpit.toml.example out of sync — run `cargo run -p xtask -- example-sync-fix`"
          ∷ [])

  create_parent : Option P → W → Result (Unit {0}) × W
  unfolding concat
  create_parent none w = (ok tt, w)
  create_parent (some parent) w =
      within (concat ("create " ∷ fs.display parent ∷ [])) (fs.create_dir_all parent w)

  unfoldable pub example_sync_fix : W → Result (Unit {0}) × W
  unfolding create_parent copy_named
  example_sync_fix w =
      and_then (create_parent (fs.parent example_dest) w)
        (λ _ w1. copy_named example_source example_dest w1)
