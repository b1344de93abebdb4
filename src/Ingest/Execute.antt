-- ===== src/Ingest/Execute.antt =====
-- `IngestUseCase::execute` of crates/cockpitctl-ingest/src/lib.rs. `prepare` reads and computes, and
-- `write` writes the report and then the comment.
pub mod Steps
pub mod Exit
pub mod Sensors
pub mod Writes
pub mod Kept
pub mod Total
pub mod Closed
use mathlib.Core.Option.{get_or}
use cockpitctl.Base.{
  ℕ, String, Bool, Option, none, some, List, [], ◌∷◌, ◌++◌, map, length, string_compare, concat,
  if◌then◌else◌,
}
use cockpitctl.Base.Map
use cockpitctl.Base.Map.{BTreeMap}
use cockpitctl.Types.Enums.{VerdictStatus}
use cockpitctl.Types.Findings.{Highlight}
use cockpitctl.Types.Config.{CockpitConfig}
use cockpitctl.Types.Reports.{SensorSummary, CockpitReport}
use cockpitctl.Types.Fixes.{FixSummary, BuildfixSummary}
use cockpitctl.Types.Defaults.{default_config}
use cockpitctl.Domain.Synthesize.{synthesize_path_traversal_highlight, synthesize_sensors_truncated}
use cockpitctl.Domain.Sensors.{sort_sensor_summaries}
use cockpitctl.Domain.Highlights.{select_highlights}
use cockpitctl.Domain.Report.{build_cockpit_report}
use cockpitctl.Buildfix.{match_buildfix_plan, summarize_fixes}
use cockpitctl.Ingest.Result.{Result, ok, err, ◌>>=◌, context}
use cockpitctl.Ingest.Ports.{
  DiscoveredSensors, PlanRead, Parsed, Ports, Codec, OutputSink, IngestRequest, IngestResult,
}
use cockpitctl.Ingest.Examine.{policy_of, is_strict, examine}

-- The sensors of the policy, or those discovered if it names none.
unfoldable pub expected_sensors : CockpitConfig → List String → List String
expected_sensors cfg discovered = elim cfg.sensors [ [] ↦ discovered | e ∷ m ↦ Map.keys (e ∷ m) ]

-- What the loop over the expected sensors fills.
pub record Gathered (V : Type 0) : Type 0 where
  pub sensor_summaries : List SensorSummary
  pub highlight_candidates : List (Highlight V)
  pub sensor_blocking : BTreeMap String Bool

unfoldable pub exit_code_of : VerdictStatus → ℕ
exit_code_of VerdictStatus.fail = 2
exit_code_of _ = 0

module _ {V : Type 0} (ports : Ports V) where
  -- The candidates before the loop: ids that discovery rejected, and the note of a truncation.
  unfoldable pub discovery_notes : DiscoveredSensors → List (Highlight V)
  discovery_notes d =
      map (λ id. synthesize_path_traversal_highlight id (ports.report_path id) none)
        d.invalid_sensor_ids
      ++ (if d.truncated
          then synthesize_sensors_truncated (length d.sensors) d.total_found ∷ []
          else [])

module _ {V : Type 0} (ports : Ports V) (codec : Codec V) (cfg : CockpitConfig) where
  unfoldable pub gather : Bool → List String → Gathered V → List String → Result (Gathered V)
  gather strict labels g [] = ok g
  gather strict labels g (sensor_id ∷ rest) = do
    examined ← examine ports codec cfg strict labels sensor_id
    gather strict labels
        (record {
          sensor_summaries = g.sensor_summaries ++ examined.0 ∷ [];
          highlight_candidates = g.highlight_candidates ++ examined.1;
          sensor_blocking =
              Map.insert string_compare sensor_id (policy_of cfg sensor_id).blocking
                g.sensor_blocking;
        })
        rest

  -- A plan that is missing, too large or malformed adds no fix.
  fixes_of : String → List (Highlight V) → PlanRead → List FixSummary
  fixes_of sensor_id highlights (PlanRead.bytes bytes) = elim (codec.parse_plan bytes) [
    | Parsed.parsed plan ↦ (match_buildfix_plan sensor_id plan highlights).fixes
    | Parsed.malformed _ ↦ []
  ]
  fixes_of sensor_id highlights _ = []

  unfoldable pub all_fixes : List (Highlight V) → List String → Result (List FixSummary)
  unfolding fixes_of
  all_fixes highlights [] = ok []
  all_fixes highlights (sensor_id ∷ rest) = do
    plan ← ports.read_plan_bytes sensor_id
    others ← all_fixes highlights rest
    ok (fixes_of sensor_id highlights plan ++ others)

unfoldable pub buildfix_summary_of : List FixSummary → Option BuildfixSummary
buildfix_summary_of [] = none
buildfix_summary_of (f ∷ fs) = some (summarize_fixes (f ∷ fs))

module _ {V : Type 0} (codec : Codec V) where
  -- `report.data.get_or_insert_with(..)` and the insertion of `_buildfix`
  unfoldable pub with_buildfix : Option BuildfixSummary → CockpitReport V → CockpitReport V
  with_buildfix none report = report
  with_buildfix (some bf) report = elim (codec.buildfix_to_value bf) [
    | none ↦ report
    | some val ↦ record report {
      payload =
          some (codec.insert_entry "_buildfix" val (get_or report.payload codec.empty_object));
    }
  ]

-- What is computed before the first write: the result, and the text of the report.
pub record Prepared (V : Type 0) : Type 0 where
  pub outcome : IngestResult V
  pub report_json : String

module _ {V : Type 0} (ports : Ports V) (codec : Codec V) (req : IngestRequest) where
  abbrev pub start : DiscoveredSensors → Gathered V
  start d = record {
    sensor_summaries = [];
    highlight_candidates = discovery_notes ports d;
    sensor_blocking = [];
  }

  abbrev strict_of : CockpitConfig → Bool
  strict_of cfg = is_strict (get_or req.schema_validation_override cfg.policy.schema_validation)

  unfoldable pub report_of : CockpitConfig → Gathered V → List (Highlight V) → CockpitReport V
  report_of cfg g highlights =
      build_cockpit_report cfg req.tool req.run (sort_sensor_summaries g.sensor_summaries cfg)
        highlights

  abbrev pub highlights_of : CockpitConfig → Gathered V → List (Highlight V)
  highlights_of cfg g =
      select_highlights codec.sha256_hex g.highlight_candidates cfg g.sensor_blocking

  -- From the report on: the comment, the text, the exit code.
  unfoldable pub conclude :
      CockpitConfig → CockpitReport V → Option BuildfixSummary → Result (Prepared V)
  conclude cfg report buildfix = do
    json ← context "serialize cockpit report" (codec.to_string_pretty report)
    ok (record {
      outcome = record {
        report = report;
        comment_md = ports.render report cfg;
        exit_code = exit_code_of report.verdict.status;
        buildfix = buildfix;
      };
      report_json = concat (json ∷ "\n" ∷ []);
    })

  unfoldable pub evaluate : DiscoveredSensors → CockpitConfig → Result (Prepared V)
  evaluate discovery cfg = do
    g ←
        gather ports codec cfg (strict_of cfg) req.labels (start discovery)
          (expected_sensors cfg discovery.sensors)
    let highlights = highlights_of cfg g
    fixes ← all_fixes ports codec cfg highlights discovery.sensors
    let buildfix = buildfix_summary_of fixes
    conclude cfg (with_buildfix codec buildfix (report_of cfg g highlights)) buildfix

  unfoldable pub prepare : Result (Prepared V)
  unfolding evaluate
  prepare = do
    discovery ← context "discover sensors" ports.discovered_sensors
    config ← context "load cockpit.toml" ports.load_config
    evaluate discovery (get_or config default_config)

module _ {V W : Type 0} (sink : OutputSink W) where
  -- After the report was written.
  write_comment : Prepared V → Result (Unit {0}) × W → Result (IngestResult V) × W
  write_comment p (err e, w) = (err e, w)
  write_comment p (ok _, w) =
      let (r, w') = sink.write_cockpit_comment p.outcome.comment_md w in
      (r >>= (λ _. ok p.outcome), w')

  unfoldable pub write : Result (Prepared V) → W → Result (IngestResult V) × W
  unfolding write_comment
  write (err e) w = (err e, w)
  write (ok p) w = write_comment p (sink.write_cockpit_report p.report_json w)

unfoldable pub execute :
    {V W : Type 0}
    → Ports V
    → Codec V
    → OutputSink W
    → IngestRequest
    → W
    → Result (IngestResult V) × W
unfolding prepare write
execute ports codec sink req w = write sink (prepare ports codec req) w
