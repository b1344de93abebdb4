-- ===== src/Ingest/Execute/Exit.antt =====
-- The exit code that a run of crates/cockpitctl-ingest/src/lib.rs returns.
use mathlib.Core.Option.{get_or}
use cockpitctl.Base.{◌≡◌, sym, ap, ◌∙◌, Option, List, [], ◌∷◌, any, arith, if◌then◌else◌, concat}
use cockpitctl.Types.Enums.{VerdictStatus}
use cockpitctl.Types.Findings.{Highlight}
use cockpitctl.Types.Config.{CockpitConfig}
use cockpitctl.Types.Reports.{CockpitReport}
use cockpitctl.Types.Fixes.{BuildfixSummary}
use cockpitctl.Types.Defaults.{default_config}
use cockpitctl.Domain.Outcome.{is_fail}
use cockpitctl.Domain.Verdict.{overall_verdict}
use cockpitctl.Domain.Verdict.Worst.{blocks, overall_verdict-fail}
use cockpitctl.Domain.Report.{build_cockpit_report, snapshot_policy}
use cockpitctl.Ingest.Result.{ok, ◌>>=◌, context, Always, Always->>=, Always-eq}
use cockpitctl.Ingest.Ports.{Ports, Codec, OutputSink, IngestRequest, IngestResult}
use cockpitctl.Ingest.Execute.{
  expected_sensors, Gathered, exit_code_of, buildfix_summary_of, with_buildfix, Prepared, report_of,
  highlights_of, conclude, evaluate, prepare, execute,
}
use cockpitctl.Ingest.Execute.Steps.{
  ids, with_buildfix-sensors, write-Always, evaluate-Always, gathered-ids,
}

-- The report's verdict is that of its sensors, under its policy.
abbrev IsJudged : {V : Type 0} → CockpitConfig → CockpitReport V → Type 0
IsJudged cfg r = (r.verdict ≡ overall_verdict r.sensors cfg) × (r.policy ≡ snapshot_policy cfg)

exit_code_of_lem : (s : VerdictStatus) → exit_code_of s ≡ (if is_fail s then 2 else 0)
unfolding exit_code_of
exit_code_of_lem s = ground arith

module _ {V : Type 0} (ports : Ports V) (codec : Codec V) (req : IngestRequest) where
  -- The exit code tells whether a blocking sensor of the report blocks.
  abbrev IsJudgedBy : IngestResult V → Type 0
  IsJudgedBy r =
      r.exit_code ≡ (if any (blocks r.report.policy.warn_is_fail) r.report.sensors then 2 else 0)

  conclude-exit_code :
      (cfg : CockpitConfig) (report : CockpitReport V) (buildfix : Option BuildfixSummary)
      → IsJudged cfg report
      → Always (λ p. IsJudgedBy p.outcome) (conclude ports codec req cfg report buildfix)
  unfolding conclude snapshot_policy
  conclude-exit_code cfg report buildfix (verdict, policy) =
      let fails : is_fail report.verdict.status
          ≡ any (blocks report.policy.warn_is_fail) report.sensors =
        ap (λ v. is_fail v.status) verdict
        ∙ overall_verdict-fail report.sensors cfg
        ∙ ap (λ p. any (blocks p.warn_is_fail) report.sensors) (sym policy) in
      Always->>= (λ p. IsJudgedBy p.outcome)
        (context "serialize cockpit report" (codec.to_string_pretty report))
        (λ json. ok (record {
          outcome = record {
            report = report;
            comment_md = ports.render report cfg;
            exit_code = exit_code_of report.verdict.status;
            buildfix = buildfix;
          };
          report_json = concat (json ∷ "\n" ∷ []);
        }))
        (λ json. exit_code_of_lem report.verdict.status ∙ ap (λ b. if b then 2 else 0) fails)

  report_of-IsJudged :
      (cfg : CockpitConfig) (g : Gathered V) (hs : List (Highlight V)) (o : Option BuildfixSummary)
      → IsJudged cfg (with_buildfix codec o (report_of ports codec req cfg g hs))
  unfolding report_of build_cockpit_report
  report_of-IsJudged cfg g hs o =
      let report = report_of ports codec req cfg g hs in
      let same = with_buildfix-sensors codec o report in
      (same.0 ∙ ap (λ l. overall_verdict l cfg) (sym same.1), same.3)

  prepare-exit_code : Always (λ p. IsJudgedBy p.outcome) (prepare ports codec req)
  unfolding prepare
  prepare-exit_code =
      let P : Prepared V → Type 0 = λ p. IsJudgedBy p.outcome in
      Always->>= P (context "discover sensors" ports.discovered_sensors)
        (λ d.
          context "load cockpit.toml" ports.load_config
          >>= (λ c. evaluate ports codec req d (get_or c default_config)))
        (λ d.
          Always->>= P (context "load cockpit.toml" ports.load_config)
            (λ c. evaluate ports codec req d (get_or c default_config))
            (λ c.
              evaluate-Always ports codec req
                (λ g. ids g.sensor_summaries ≡ expected_sensors (get_or c default_config) d.sensors)
                P d (get_or c default_config)
                (gathered-ids ports codec req d (get_or c default_config))
                (λ g fixes e.
                  conclude-exit_code (get_or c default_config)
                    (with_buildfix codec (buildfix_summary_of fixes) (
                      report_of ports codec req (get_or c default_config) g
                        (highlights_of ports codec req (get_or c default_config) g)))
                    (buildfix_summary_of fixes)
                    (report_of-IsJudged (get_or c default_config) g
                      (highlights_of ports codec req (get_or c default_config) g)
                      (buildfix_summary_of fixes)))))

  -- The exit code of a run that succeeds is 2 if some blocking sensor of the report fails, or warns
  -- where the report's policy counts warnings as failures, and it is 0 otherwise.
  pub execute-exit_code :
      {W : Type 0} (sink : OutputSink W) (w : W) (r : IngestResult V) (w' : W)
      → execute ports codec sink req w ≡ (ok r, w')
      → r.exit_code ≡ (if any (blocks r.report.policy.warn_is_fail) r.report.sensors then 2 else 0)
  unfolding execute
  execute-exit_code sink w r w' h =
      Always-eq IsJudgedBy (execute ports codec sink req w).0
        (write-Always sink IsJudgedBy (prepare ports codec req) w prepare-exit_code)
        (ap (λ x. x.0) h)
