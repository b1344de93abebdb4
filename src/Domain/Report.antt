-- ===== src/Domain/Report.antt =====
-- `snapshot_policy` and `build_cockpit_report` of crates/cockpitctl-domain/src/lib.rs.
use cockpitctl.Base.{String, none, List, map}
use cockpitctl.Types.Run.{ToolInfo, RunInfo}
use cockpitctl.Types.Findings.{Highlight}
use cockpitctl.Types.Config.{SensorPolicy, CockpitConfig}
use cockpitctl.Types.Reports.{SensorSummary, PolicySensorSnapshot, PolicySnapshot, CockpitReport}
use cockpitctl.Domain.Verdict.{overall_verdict}

snapshot_sensor : String × SensorPolicy → PolicySensorSnapshot
snapshot_sensor (id, p) = record {
  id = id;
  blocking = p.blocking;
  missing = p.missing;
  section = p.section;
  require_label = p.require_label;
  repro = p.repro;
}

unfoldable pub snapshot_policy : CockpitConfig → PolicySnapshot
unfolding snapshot_sensor
snapshot_policy cfg = record {
  warn_is_fail = cfg.policy.warn_is_fail;
  max_highlights = cfg.policy.max_highlights;
  max_per_sensor_findings = cfg.policy.max_per_sensor_findings;
  max_annotations = cfg.policy.max_annotations;
  section_order = cfg.policy.section_order;
  sensors = map snapshot_sensor cfg.sensors;
}

unfoldable pub build_cockpit_report :
    {V : Type 0}
    → CockpitConfig
    → ToolInfo
    → RunInfo
    → List SensorSummary
    → List (Highlight V)
    → CockpitReport V
unfolding snapshot_policy overall_verdict
build_cockpit_report cfg tool run sensor_summaries highlights = record {
  schema = "cockpit.report.v1";
  tool = tool;
  run = run;
  verdict = overall_verdict sensor_summaries cfg;
  sensors = sensor_summaries;
  highlights = highlights;
  policy = snapshot_policy cfg;
  payload = none;
}
