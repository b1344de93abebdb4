-- ===== src/Io/Actuator.antt =====
-- crates/cockpitctl-io-buildfix/src/lib.rs. The child process is the parameter of Hooks.antt.
pub mod Tidy
use cockpitctl.Base.{
  ℕ, String, Bool, true, false, List, [], ◌∷◌, str_eq, concat, to_string, string_compare, sort_by,
  if◌then◌else◌,
}
use cockpitctl.Types.Config.{BuildfixActuatorConfig}
use cockpitctl.Types.Fixes.{BuildfixApplyRequest, BuildfixActuatorResult}
use cockpitctl.Ingest.Ports.{Bytes}
use cockpitctl.Ingest.Result.{Result, ok, err, ◌>>=◌, context}
use cockpitctl.Io.Hooks.{Process, Exit, exited, timed_out}

-- `Vec::dedup`
unfoldable pub dedup : List String → List String
dedup [] = []
dedup (x ∷ []) = x ∷ []
dedup (x ∷ y ∷ rest) = let tail = dedup (y ∷ rest) in if str_eq x y then tail else x ∷ tail

-- `sort` and `dedup`
unfoldable pub sort_dedup : List String → List String
unfolding dedup
sort_dedup l = dedup (sort_by string_compare l)

unfoldable pub tidy : BuildfixActuatorResult → BuildfixActuatorResult
unfolding sort_dedup
tidy result = record {
  applied_fix_ids = sort_dedup result.applied_fix_ids;
  skipped_fix_ids = sort_dedup result.skipped_fix_ids;
  errors = sort_dedup result.errors;
}

abbrev no_stdout : Bytes → Bool
no_stdout [] = true
no_stdout (b ∷ rest) = false

-- `to_vec` and `from_slice` are those of `serde_json`.
module _ (process : Process) (to_vec : BuildfixApplyRequest → Result Bytes)
    (from_slice : Bytes → Result BuildfixActuatorResult) where
  actuator_output : BuildfixActuatorConfig → Exit → Result BuildfixActuatorResult
  unfolding concat to_string tidy
  actuator_output actuator Exit.timed_out = err (
      concat ("buildfix actuator timed out after " ∷ to_string actuator.timeout_ms ∷ "ms" ∷ [])
      ∷ [])
  actuator_output actuator (Exit.exited false status stdout) =
      err (concat ("buildfix actuator exited with status " ∷ status ∷ []) ∷ [])
  actuator_output actuator (Exit.exited true status stdout) =
      if no_stdout stdout
      then ok (record { applied_fix_ids = []; skipped_fix_ids = []; errors = [] })
      else (context "parse buildfix actuator output JSON" (from_slice stdout) >>= λ result.
          ok (tidy result))

  run_command :
      BuildfixActuatorConfig → BuildfixApplyRequest → List String → Result BuildfixActuatorResult
  unfolding concat actuator_output
  run_command actuator request [] = err ("buildfix actuator command is empty" ∷ [])
  run_command actuator request (command ∷ args) =
      context "serialize buildfix apply request for actuator" (to_vec request) >>= λ payload.
      context (concat ("spawn buildfix actuator `" ∷ actuator.command ∷ "`" ∷ []))
        (process.spawn (command ∷ args))
      >>= λ child.
          context "write buildfix apply request to actuator stdin"
            (process.write_stdin child payload)
          >>= λ _.
              context "wait for buildfix actuator" (process.wait_timeout child actuator.timeout_ms)
              >>= λ exit. actuator_output actuator exit

  unfoldable pub run_buildfix_actuator :
      BuildfixActuatorConfig → BuildfixApplyRequest → Result BuildfixActuatorResult
  unfolding run_command
  run_buildfix_actuator actuator request =
      run_command actuator request (process.split_whitespace actuator.command)
