-- ===== src/Tests/Io.antt =====
-- Reads, a listing, hooks and an actuator, over a small file system.

use mathlib.Core.Logic.Or
use mathlib.Core.Bool.{Bool-set}
use mathlib.Core.List.{mem-cons, not-mem-nil}
use cockpitctl.Base.{
  Mem, Bool, false, contains, ◌≡◌, refl, String, true, begins_with, [], ◌∷◌, List, sort_by,
}
use cockpitctl.Base.Int.{pos}
use cockpitctl.Types.Enums.{HookWhen, SafetyLevel}
use cockpitctl.Types.Config.{HookConfig, BuildfixActuatorConfig}
use cockpitctl.Types.Fixes.{BuildfixApplyRequest, BuildfixActuatorResult}
use cockpitctl.Types.SensorId.{is_valid_sensor_id}
use cockpitctl.Ingest.Ports.{Bytes, ReportRead, DiscoveredSensors}
use cockpitctl.Ingest.Result.{Result, ok}
use cockpitctl.Io.Layout.{DirEntry, report_file}
use cockpitctl.Io.Samples.{fs, layout, source, process, disk, lint_dir, misnamed_dir}
use cockpitctl.Io.Source.{read_report_bytes, discovered_sensors}
use cockpitctl.Io.Source.Safe.{IsContained, read_report_bytes-IsContained}
use cockpitctl.Io.Source.Discover.{listing, IsDiscovery, discovered_sensors-IsDiscovery}
use cockpitctl.Io.Hooks.{
  OutputFile, run_single_hook, CommentSection, PostProcessOutput, section_cmp, run_hooks,
}
use cockpitctl.Io.Sink.{is_unsafe_name, write_extra_file}
use cockpitctl.Io.Hooks.Run.{IsOutput, contributed, run_hooks-contributed}
use cockpitctl.Io.Actuator.{run_buildfix_actuator}
use cockpitctl.Io.Actuator.Tidy.{IsOutcome, run_buildfix_actuator-IsOutcome}

read_run : read_report_bytes fs source "lint" ≡ ok (ReportRead.bytes (1 ∷ 2 ∷ 3 ∷ []))
unfolding read_report_bytes begins_with
read_run = refl

read_report_bytes-IsContained_example :
    (is_valid_sensor_id "lint" ≡ true)
    × IsContained fs source (report_file fs layout "lint") (1 ∷ 2 ∷ 3 ∷ [])
read_report_bytes-IsContained_example = read_report_bytes-IsContained fs source "lint" read_run

abbrev entries : List (DirEntry String)
entries = misnamed_dir ∷ lint_dir ∷ []

discovered_sensors-IsDiscovery_example :
    (d : DiscoveredSensors) × (discovered_sensors (listing fs source entries) source ≡ ok d)
    × IsDiscovery (listing fs source entries) layout entries d
discovered_sensors-IsDiscovery_example = discovered_sensors-IsDiscovery fs source entries refl

abbrev notify : HookConfig
notify = record {
  name = "notify";
  command = "notify";
  when = HookWhen.after_ingest;
  timeout_ms = 1000;
}

abbrev section : CommentSection
section = record { name = "Notes"; content = "text"; order = pos 1 }

abbrev output : Bytes → Result PostProcessOutput
output b = ok (record {
  comment_sections = section ∷ [];
  files = record { name = "n.txt"; content = b } ∷ [];
})

abbrev written : OutputFile
written = record { name = "n.txt"; content = 1 ∷ [] }

answered :
    run_single_hook process (λ s. []) output notify "{}"
    ≡ ok (record { comment_sections = section ∷ []; files = written ∷ [] })
unfolding run_single_hook
answered = refl

named_written : (f : OutputFile) → Mem f (written ∷ []) → is_unsafe_name f.name ≡ false
unfolding is_unsafe_name contains begins_with
named_written f m =
    Or.elim (Bool-set _ _) (mem-cons.0 m) (λ e. rw e refl) (λ r. absurd (not-mem-nil r))

-- Each file of the hook is `n.txt`.
named :
    (f : OutputFile)
    → IsOutput process (λ s. []) output (notify ∷ []) "{}" f
    → is_unsafe_name f.name ≡ false
named f (hook, o, m, e, k) =
    Or.elim (Bool-set _ _) (mem-cons.0 m)
      (λ same.
        let run = rw same at e in
        let o_is : o ≡ record { comment_sections = section ∷ []; files = written ∷ [] } =
          let a = answered in cc in
        named_written f (rw o_is at k))
      (λ r. absurd (not-mem-nil r))

run_hooks-contributed_example :
    (w : Bool) × (run_hooks process
        (λ s. [])
        output
        (write_extra_file fs disk layout)
        (notify ∷ [])
        "{}"
        false
      ≡ (ok (sort_by section_cmp (contributed process (λ s. []) output (notify ∷ []) "{}")), w))
run_hooks-contributed_example =
    run_hooks-contributed process (λ s. []) output fs disk layout (notify ∷ []) "{}" (λ w. Unit {0})
      (λ w. Unit {0}) (λ w u. (w, refl, tt)) (λ f w i r. (_, refl, tt)) named false tt

abbrev actuator : BuildfixActuatorConfig
actuator = record { command = "fix"; timeout_ms = 1000 }

abbrev request : BuildfixApplyRequest
request = record {
  schema = "buildfix.apply.request.v1";
  max_auto_apply_safety = SafetyLevel.safe;
  require_matched_finding = true;
  fixes = [];
}

abbrev answer : Bytes → Result BuildfixActuatorResult
answer b = ok (record { applied_fix_ids = "b" ∷ "a" ∷ "b" ∷ []; skipped_fix_ids = []; errors = [] })

abbrev tidied : BuildfixActuatorResult
tidied = record { applied_fix_ids = "a" ∷ "b" ∷ []; skipped_fix_ids = []; errors = [] }

actuator_run : run_buildfix_actuator process (λ r. ok []) answer actuator request ≡ ok tidied
unfolding run_buildfix_actuator sort_by
actuator_run = refl

run_buildfix_actuator-IsOutcome_example : IsOutcome process (λ r. ok []) answer actuator tidied
run_buildfix_actuator-IsOutcome_example =
    run_buildfix_actuator-IsOutcome process (λ r. ok []) answer actuator request actuator_run
