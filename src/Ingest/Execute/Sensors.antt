-- ===== src/Ingest/Execute/Sensors.antt =====
-- The sensors and the highlights of the report of a run of crates/cockpitctl-ingest/src/lib.rs.
use mathlib.Core.Option.{get_or}
use mathlib.Core.List.Perm
use cockpitctl.Base.{
  ◌≡◌, refl, ap, ◌∙◌, ◌≤◌, Option, [], ◌∷◌, Perm, arith, sort_by-perm, length, length-take, concat,
  sort_by,
}
use cockpitctl.Types.Config.{CockpitConfig}
use cockpitctl.Types.Fixes.{BuildfixSummary}
use cockpitctl.Types.Defaults.{default_config}
use cockpitctl.Domain.Report.{build_cockpit_report}
use cockpitctl.Domain.Sensors.{sort_sensor_summaries, summary_cmp}
use cockpitctl.Domain.Highlights.{dedupe, highlight_cmp, select_highlights}
use cockpitctl.Ingest.Result.{Result, ok, ◌>>=◌, context, Always, Always->>=, Always-eq, Always-ok}
use cockpitctl.Ingest.Ports.{
  DiscoveredSensors, Ports, Codec, OutputSink, IngestRequest, IngestResult,
}
use cockpitctl.Ingest.Execute.{
  expected_sensors, Gathered, exit_code_of, buildfix_summary_of, with_buildfix, Prepared, report_of,
  highlights_of, conclude, evaluate, prepare, execute,
}
use cockpitctl.Ingest.Execute.Steps.{
  ids, with_buildfix-sensors, write-Always, evaluate-Always, gathered-ids,
}

module _ {V : Type 0} (ports : Ports V) (codec : Codec V) (req : IngestRequest) where
  -- The ids of the report's sensors are those expected, and it has at most so many highlights.
  abbrev pub IsComplete : CockpitConfig → DiscoveredSensors → IngestResult V → Type 0
  IsComplete cfg d r =
      Perm (ids r.report.sensors) (expected_sensors cfg d.sensors)
      × (length r.report.highlights ≤ cfg.policy.max_highlights)

  select-le :
      (cfg : CockpitConfig) (g : Gathered V)
      → length (highlights_of ports codec req cfg g) ≤ cfg.policy.max_highlights
  unfolding select_highlights
  select-le cfg g = omega (
    arith,
    length-take cfg.policy.max_highlights (
        sort_by (highlight_cmp g.sensor_blocking)
          (dedupe codec.sha256_hex [] g.highlight_candidates)),
  )

  report_of-IsComplete :
      (cfg : CockpitConfig) (d : DiscoveredSensors) (g : Gathered V) (o : Option BuildfixSummary)
      → ids g.sensor_summaries ≡ expected_sensors cfg d.sensors
      → (r : IngestResult V)
      → r.report
        ≡ with_buildfix codec o
            (report_of ports codec req cfg g (highlights_of ports codec req cfg g))
      → IsComplete cfg d r
  unfolding report_of build_cockpit_report sort_sensor_summaries
  report_of-IsComplete cfg d g o e r same =
      let kept =
        with_buildfix-sensors codec o
          (report_of ports codec req cfg g (highlights_of ports codec req cfg g)) in
      let sensors : r.report.sensors ≡ sort_by (summary_cmp cfg) g.sensor_summaries =
        ap (λ x. x.sensors) same ∙ kept.1 in
      let highlights : r.report.highlights ≡ highlights_of ports codec req cfg g =
        ap (λ x. x.highlights) same ∙ kept.2 in
      (
        rw (sensors, ← e)
            (Perm.map (λ s. s.id) (sort_by-perm (summary_cmp cfg) g.sensor_summaries)),
        rw (highlights) (select-le cfg g),
      )

  conclude-IsComplete :
      (cfg : CockpitConfig) (d : DiscoveredSensors) (g : Gathered V) (o : Option BuildfixSummary)
      → ids g.sensor_summaries ≡ expected_sensors cfg d.sensors
      → Always
          (λ p. IsComplete cfg d p.outcome)
          (conclude ports codec req cfg
            (with_buildfix codec o
              (report_of ports codec req cfg g (highlights_of ports codec req cfg g)))
            o)
  unfolding conclude
  conclude-IsComplete cfg d g o e =
      let report =
        with_buildfix codec o
          (report_of ports codec req cfg g (highlights_of ports codec req cfg g)) in
      let outcome : IngestResult V = record {
        report = report;
        comment_md = ports.render report cfg;
        exit_code = exit_code_of report.verdict.status;
        buildfix = o;
      } in
      Always->>= (λ p. IsComplete cfg d p.outcome)
        (context "serialize cockpit report" (codec.to_string_pretty report))
        (λ json. ok (record { outcome = outcome; report_json = concat (json ∷ "\n" ∷ []) }))
        (λ json. report_of-IsComplete cfg d g o e outcome refl)

  prepare-IsComplete :
      (d : DiscoveredSensors) (c : Option CockpitConfig)
      → ports.discovered_sensors ≡ ok d
      → ports.load_config ≡ ok c
      → Always (λ p. IsComplete (get_or c default_config) d p.outcome) (prepare ports codec req)
  unfolding prepare
  prepare-IsComplete d c hd hc =
      let cfg = get_or c default_config in
      let P : Prepared V → Type 0 = λ p. IsComplete cfg d p.outcome in
      let rest : DiscoveredSensors → Result (Prepared V) = λ d'.
        context "load cockpit.toml" ports.load_config
        >>= (λ c'. evaluate ports codec req d' (get_or c' default_config)) in
      Always-ok P "discover sensors" ports.discovered_sensors rest hd (
        Always-ok P "load cockpit.toml" ports.load_config
          (λ c'. evaluate ports codec req d (get_or c' default_config)) hc
          (evaluate-Always ports codec req
            (λ g. ids g.sensor_summaries ≡ expected_sensors cfg d.sensors)
            (λ p. IsComplete cfg d p.outcome) d cfg (gathered-ids ports codec req d cfg)
            (λ g fixes e. conclude-IsComplete cfg d g (buildfix_summary_of fixes) e)))

  -- The report of a run that succeeds has one sensor for each expected one (those of the policy, or
  -- those discovered if the policy names none) with the same ids, and no more highlights than the
  -- policy allows.
  pub execute-sensors :
      {W : Type 0} (sink : OutputSink W) (w : W) (d : DiscoveredSensors) (c : Option CockpitConfig)
      (r : IngestResult V) (w' : W)
      → ports.discovered_sensors ≡ ok d
      → ports.load_config ≡ ok c
      → execute ports codec sink req w ≡ (ok r, w')
      → Perm (ids r.report.sensors) (expected_sensors (get_or c default_config) d.sensors)
        × (length r.report.highlights ≤ (get_or c default_config).policy.max_highlights)
  unfolding execute
  execute-sensors sink w d c r w' hd hc h =
      let P : IngestResult V → Type 0 = IsComplete (get_or c default_config) d in
      Always-eq P (execute ports codec sink req w).0
        (write-Always sink P (prepare ports codec req) w (prepare-IsComplete d c hd hc))
        (ap (λ x. x.0) h)
