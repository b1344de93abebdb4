-- ===== src/Xtask.antt =====
-- xtask/src/main.rs: the commands and the process. What they print is left out. The code of `conform` and
-- of `conform_dir` is that of `check` and `check_dir` in crates/conformctl/src/main.rs.
pub mod Sync
pub mod Schemas
pub mod Samples
use cockpitctl.Base.{ℕ, String, Bool, ◌||◌, Option}
use cockpitctl.Ingest.Result.{Result, ok, err}
use cockpitctl.Io.Layout.{Files}
use cockpitctl.Conform.Single.{ConformChecks, Json}
use cockpitctl.Conform.Cli.{checks_with_all, check, check_dir}
use cockpitctl.Xtask.Sync.{
  Store, schema_sync_check, schema_sync_fix, example_sync_check, example_sync_fix,
}
use cockpitctl.Xtask.Schemas.{Tree, SchemaTools, schema_check, validate_schemas}

pub data Commands (P : Type 0) : Type 0 where
  run_schema_check : P → Commands P
  run_validate_schemas : (dir : P) (fix : Bool) → Commands P
  run_fixtures_help run_schema_sync_check run_schema_sync_fix : Commands P
  run_example_sync_check run_example_sync_fix : Commands P
  run_conform :
      (report : P) (golden : Option P) (sensor_id : Option String) (flags : ConformChecks)
      (all : Bool)
      → Commands P
  run_conform_dir :
      (dir : P) (validate_cockpit : Bool) (flags : ConformChecks) (all : Bool)
      (presence_semantics allow_missing_report : Bool)
      → Commands P

-- The libraries that the tasks call.
pub record Libraries (V J C P W : Type 0) : Type 0 where
  pub json : Json V J C
  pub files : Files P
  pub store : Store P W
  pub tree : Tree P W
  pub tools : SchemaTools J

module _ {V J C P W : Type 0} (libraries : Libraries V J C P W) where
  unfoldable pub conform : P → Option P → Option String → ConformChecks → Bool → Result (Unit {0})
  unfolding check
  conform report golden sensor_id flags all =
      check libraries.json libraries.files report golden sensor_id flags all

  unfoldable pub conform_dir : P → Bool → ConformChecks → Bool → Bool → Result (Unit {0})
  unfolding check_dir
  conform_dir dir validate_cockpit checks allow_missing_report presence_semantics =
      check_dir libraries.json libraries.files dir validate_cockpit checks allow_missing_report
        presence_semantics

  unfoldable pub run : Commands P → W → Result (Unit {0}) × W
  unfolding schema_check validate_schemas schema_sync_check schema_sync_fix example_sync_check
      example_sync_fix conform conform_dir checks_with_all
  run (run_schema_check dir) w = (schema_check libraries.tree libraries.tools w dir, w)
  run (run_validate_schemas dir fix) w = validate_schemas libraries.tree libraries.tools dir fix w
  run run_fixtures_help w = (ok tt, w)
  run run_schema_sync_check w = (schema_sync_check libraries.store w, w)
  run run_schema_sync_fix w = schema_sync_fix libraries.store w
  run run_example_sync_check w = (example_sync_check libraries.store w, w)
  run run_example_sync_fix w = example_sync_fix libraries.store w
  run (run_conform report golden sensor_id flags all) w =
      (conform report golden sensor_id flags all, w)
  run (run_conform_dir dir validate_cockpit flags all presence_semantics allow_missing_report) w = (
    conform_dir dir validate_cockpit (checks_with_all all flags) allow_missing_report
        (presence_semantics || all),
    w,
  )

  exit_code : Result (Unit {0}) → ℕ
  exit_code (ok u) = 0
  exit_code (err e) = 1

  unfoldable pub main_entry : Commands P → W → ℕ × W
  unfolding run exit_code
  main_entry cli w = let (r, w1) = run cli w in (exit_code r, w1)
