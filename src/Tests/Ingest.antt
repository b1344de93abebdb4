-- ===== src/Tests/Ingest.antt =====
-- A run over two sensors, one with a receipt that cannot be parsed and one without a receipt.
use cockpitctl.Base.{
  ◌⊎◌, ◌≡◌, ◌≤◌, refl, String, str_eq, false, none, some, List, [], ◌∷◌, any, map, Perm, length,
  concat, if◌then◌else◌,
}
use cockpitctl.Domain.Verdict.Worst.{blocks}
use cockpitctl.Domain.Report.{build_cockpit_report}
use cockpitctl.Domain.Samples.{V₀, strict_config, tool, run}
use cockpitctl.Ingest.Result.{Result, ok, err}
use cockpitctl.Ingest.Ports.{
  DiscoveredSensors, ReportRead, CommentRead, PlanRead, SchemaValidationResult, Ports, OutputSink,
  IngestRequest, IngestResult,
}
use cockpitctl.Ingest.Samples.{codec}
use cockpitctl.Base.Map
use cockpitctl.Types.SensorId
use cockpitctl.Ingest.Examine
use cockpitctl.Ingest.Execute
use cockpitctl.Ingest.Examine.{examine}
use cockpitctl.Ingest.Examine.Isolation.{with_reads, examine-reads}
use cockpitctl.Ingest.Execute.{Prepared, expected_sensors, prepare, execute}
use mathlib.Core.List.{mem-cons_self}
use cockpitctl.Ingest.Execute.Closed.{execute-rejected}
use cockpitctl.Ingest.Execute.Exit.{execute-exit_code}
use cockpitctl.Ingest.Execute.Sensors.{execute-sensors}
use cockpitctl.Ingest.Execute.Writes.{HasWritten, HasStopped, execute-writes, execute-error}

abbrev discovered : DiscoveredSensors
discovered = record {
  sensors = "lint" ∷ "tests" ∷ [];
  truncated = false;
  total_found = 2;
  invalid_sensor_ids = [];
}

abbrev reports : String → Result ReportRead
reports id = ok (if str_eq id "lint" then ReportRead.bytes (1 ∷ []) else ReportRead.missing)

abbrev comments : String → Result CommentRead
comments id = ok CommentRead.missing

abbrev plans : String → Result PlanRead
plans id = ok PlanRead.missing

abbrev ports : Ports V₀
ports = record {
  discovered_sensors = ok discovered;
  read_report_bytes = reports;
  report_path = λ id. concat ("artifacts/" ∷ id ∷ "/report.json" ∷ []);
  comment_path_if_present = comments;
  read_plan_bytes = plans;
  load_config = ok (some strict_config);
  validate_receipt = λ b. ok SchemaValidationResult.valid;
  render = λ r c. "a comment";
}

-- The files that were written, the latest first.
abbrev sink : OutputSink (List String)
sink = record {
  write_cockpit_report = λ s w. (ok tt, s ∷ w);
  write_cockpit_comment = λ s w. (ok tt, s ∷ w);
}

abbrev request : IngestRequest
request = record { labels = []; tool = tool; run = run; schema_validation_override = none }

abbrev no_result : IngestResult V₀
no_result = record {
  report = build_cockpit_report strict_config tool run [] [];
  comment_md = "";
  exit_code = 1;
  buildfix = none;
}

abbrev result : IngestResult V₀
result = elim (execute ports codec sink request []).0 [ ok r ↦ r | err e ↦ no_result ]

abbrev written : List String
written = "a comment" ∷ concat ("{}" ∷ "\n" ∷ []) ∷ []

runs : execute ports codec sink request [] ≡ (ok result, written)
unfolding execute Execute.gather expected_sensors examine SensorId.is_valid_sensor_id
    Examine.label_gated Examine.policy_of Map.get Examine.is_strict Execute.all_fixes
    Execute.conclude
runs = refl

execute-exit_code_example :
    result.exit_code
    ≡ (if any (blocks result.report.policy.warn_is_fail) result.report.sensors then 2 else 0)
execute-exit_code_example = execute-exit_code ports codec request sink [] result written runs

execute-sensors_example :
    Perm
      (map (λ s. s.id) result.report.sensors)
      (expected_sensors strict_config ("lint" ∷ "tests" ∷ []))
    × (length result.report.highlights ≤ 1)
execute-sensors_example =
    execute-sensors ports codec request sink [] discovered (some strict_config) result written refl
      refl runs

execute-writes_example :
    (json : String) × (codec.to_string_pretty result.report ≡ ok json)
    × HasWritten sink (concat (json ∷ "\n" ∷ [])) result.comment_md [] written
execute-writes_example = execute-writes ports codec request sink [] result written runs

-- Other answers for an id that is not valid.
abbrev other_reports : String → Result ReportRead
other_reports id = if str_eq id "../x" then ok (ReportRead.bytes []) else reports id

examine-reads_example :
    examine (with_reads ports other_reports comments) codec strict_config false [] "../x"
    ≡ examine ports codec strict_config false [] "../x"
unfolding SensorId.is_valid_sensor_id
examine-reads_example =
    examine-reads ports codec strict_config false [] other_reports comments "../x" (λ h. cc)
      (λ h. refl)

execute-rejected_example : result.exit_code ≡ 2
unfolding Examine.policy_of Map.get Examine.label_gated expected_sensors
execute-rejected_example =
    execute-rejected ports codec request sink [] discovered (some strict_config) result written
      "lint" (ReportRead.bytes (1 ∷ [])) refl refl mem-cons_self refl refl refl refl runs

-- The disk is full when the comment is written.
abbrev full_sink : OutputSink (List String)
full_sink = record sink { write_cockpit_comment = λ s w. (err ("disk full" ∷ []), w) }

abbrev report_text : String
report_text = concat ("{}" ∷ "\n" ∷ [])

stops : execute ports codec full_sink request [] ≡ (err ("disk full" ∷ []), report_text ∷ [])
unfolding execute Execute.gather expected_sensors examine SensorId.is_valid_sensor_id
    Examine.label_gated Examine.policy_of Map.get Examine.is_strict Execute.all_fixes
    Execute.conclude
stops = refl

execute-error_example :
    ((prepare ports codec request ≡ err ("disk full" ∷ [])) × (report_text ∷ [] ≡ []))
    ⊎ ((p : Prepared V₀) × (prepare ports codec request ≡ ok p)
        × HasStopped full_sink p.report_json p.outcome.comment_md []
            (report_text ∷ [])
            ("disk full" ∷ []))
execute-error_example =
    execute-error ports codec request full_sink [] ("disk full" ∷ []) (report_text ∷ []) stops
