-- ===== src/Cli/Entry.antt =====
-- The commands of crates/cockpitctl-cli/src/main.rs and the process around them. What is printed to
-- stderr is left out.
pub mod Bounds
use cockpitctl.Base.{ℕ, ◌^◌, ◌%◌, String, Bool, Option}
use cockpitctl.Ingest.Ports.{Bytes}
use cockpitctl.Ingest.Result.{Result, ok, err}
use cockpitctl.Cli.Commands.{cmd_explain, cmd_init, cmd_validate}
use cockpitctl.Cli.Ingest.{IngestInputs, Environment, cmd_ingest}

pub data Commands (P : Type 0) : Type 0 where
  ingest : IngestInputs P → Commands P
  init : P → Commands P
  validate : (input : P) (strict lax : Bool) → Commands P
  explain : String → Commands P

-- What the other commands use besides: the embedded example, whether `serde_json` parses the bytes as a
-- report of the sensor's or of the cockpit's type, and the text under the key `schema`.
pub record Extras (J : Type 0) : Type 0 where
  pub example : String
  pub is_sensor : Bytes → Bool
  pub is_cockpit : Bytes → Bool
  pub schema_hint : J → Option String

unfoldable pub code_of : {W : Type 0} → Result ℕ × W → ℕ × W
code_of (ok code, w) = (code, w)
code_of (err e, w) = (1, w)

module _ {V P W J C : Type 0} (env : Environment V P W J C) (extras : Extras J) where
  unfoldable pub run : Commands P → W → Result ℕ × W
  unfolding cmd_ingest cmd_init cmd_validate cmd_explain
  run (ingest inputs) w = cmd_ingest env inputs w
  run (init path) w = cmd_init env.adapters.fs env.adapters.disk extras.example path w
  run (validate input strict lax) w = (
    cmd_validate env.schemas extras.is_sensor extras.is_cockpit extras.schema_hint env.adapters.fs
        env.feature_schema input lax,
    w,
  )
  run (explain code) w = (cmd_explain code, w)

  unfoldable pub main_entry : Commands P → W → ℕ × W
  unfolding run code_of
  main_entry cli w = code_of (run cli w)

  -- The process's exit code, an `i32` that is cast to a `u8`.
  unfoldable pub main : Commands P → W → ℕ × W
  unfolding main_entry
  main cli w = let (code, w1) = main_entry cli w in (code % 2 ^ 8, w1)
