-- ===== src/Ingest/Execute/Total.antt =====
-- When a run of crates/cockpitctl-ingest/src/lib.rs computes a report.
use mathlib.Core.Option.{get_or}
use cockpitctl.Base.{
  ◌≡◌, refl, ap, String, Bool, Option, List, [], ◌∷◌, ◌++◌, concat, string_compare,
}
use cockpitctl.Base.Map
use cockpitctl.Types.Findings.{Highlight}
use cockpitctl.Types.Config.{CockpitConfig}
use cockpitctl.Types.Reports.{CockpitReport}
use cockpitctl.Types.Fixes.{FixSummary, BuildfixSummary}
use cockpitctl.Types.Defaults.{default_config}
use cockpitctl.Ingest.Result.{Result, ok, ◌>>=◌, context}
use cockpitctl.Ingest.Ports.{Bytes, DiscoveredSensors, Ports, Codec, IngestRequest, IngestResult}
use cockpitctl.Ingest.Examine.{Examined, policy_of, examine}
use cockpitctl.Ingest.Examine.Total.{IsOk, IsOk->>=, examine-IsOk}
use cockpitctl.Ingest.Execute.{
  expected_sensors, Gathered, gather, all_fixes, fixes_of, buildfix_summary_of, with_buildfix,
  Prepared, start, report_of, highlights_of, conclude, evaluate, prepare, strict_of, exit_code_of,
}

pub context-IsOk :
    {A : Type 0} (message : String) (m : Result A) → IsOk m → IsOk (context message m)
context-IsOk message m (a, e) = (a, ap (context message) e)

-- No port fails, and a report can be serialized. What the ports answer is free.
abbrev pub IsAnswering : {V : Type 0} → Ports V → Codec V → Type 0
IsAnswering {V} ports codec =
    IsOk ports.discovered_sensors
    × IsOk ports.load_config
    × ((id : String) → IsOk (ports.read_report_bytes id))
    × ((id : String) → IsOk (ports.comment_path_if_present id))
    × ((id : String) → IsOk (ports.read_plan_bytes id))
    × ((b : Bytes) → IsOk (ports.validate_receipt b))
    × ((r : CockpitReport V) → IsOk (codec.to_string_pretty r))

module _ {V : Type 0} (ports : Ports V) (codec : Codec V)
    (answering : IsAnswering ports codec) where
  gather-IsOk :
      (cfg : CockpitConfig) (strict : Bool) (labels : List String) (g : Gathered V)
      (l : List String)
      → IsOk (gather ports codec cfg strict labels g l)
  unfolding gather
  gather-IsOk cfg strict labels g [] = (g, refl)
  gather-IsOk cfg strict labels g (sensor_id ∷ rest) =
      let next : Examined V → Gathered V = λ e. record {
        sensor_summaries = g.sensor_summaries ++ e.0 ∷ [];
        highlight_candidates = g.highlight_candidates ++ e.1;
        sensor_blocking =
            Map.insert string_compare sensor_id (policy_of cfg sensor_id).blocking
              g.sensor_blocking;
      } in
      IsOk->>= (examine ports codec cfg strict labels sensor_id)
        (λ e. gather ports codec cfg strict labels (next e) rest)
        (examine-IsOk ports codec cfg strict labels answering.2 answering.3 answering.5 sensor_id)
        (λ e. gather-IsOk cfg strict labels (next e) rest)

  all_fixes-IsOk :
      (cfg : CockpitConfig) (hs : List (Highlight V)) (l : List String)
      → IsOk (all_fixes ports codec cfg hs l)
  unfolding all_fixes
  all_fixes-IsOk cfg hs [] = ([], refl)
  all_fixes-IsOk cfg hs (sensor_id ∷ rest) =
      IsOk->>= (ports.read_plan_bytes sensor_id)
        (λ plan.
          all_fixes ports codec cfg hs rest
          >>= (λ others. ok (fixes_of ports codec cfg sensor_id hs plan ++ others)))
        (answering.4 sensor_id)
        (λ plan.
          IsOk->>= (all_fixes ports codec cfg hs rest)
            (λ others. ok (fixes_of ports codec cfg sensor_id hs plan ++ others))
            (all_fixes-IsOk cfg hs rest) (λ others. (_, refl)))

  conclude-IsOk :
      (req : IngestRequest) (cfg : CockpitConfig) (r : CockpitReport V) (o : Option BuildfixSummary)
      → IsOk (conclude ports codec req cfg r o)
  unfolding conclude
  conclude-IsOk req cfg r o =
      let outcome : IngestResult V = record {
        report = r;
        comment_md = ports.render r cfg;
        exit_code = exit_code_of r.verdict.status;
        buildfix = o;
      } in
      IsOk->>= (context "serialize cockpit report" (codec.to_string_pretty r))
        (λ json. ok (record { outcome = outcome; report_json = concat (json ∷ "\n" ∷ []) }))
        (context-IsOk "serialize cockpit report" (codec.to_string_pretty r) (answering.6 r))
        (λ json. (_, refl))

  evaluate-IsOk :
      (req : IngestRequest) (d : DiscoveredSensors) (cfg : CockpitConfig)
      → IsOk (evaluate ports codec req d cfg)
  unfolding evaluate
  evaluate-IsOk req d cfg =
      let highlights : Gathered V → List (Highlight V) = highlights_of ports codec req cfg in
      let finish : Gathered V → List FixSummary → Result (Prepared V) = λ g fixes.
        conclude ports codec req cfg
          (with_buildfix codec (buildfix_summary_of fixes)
            (report_of ports codec req cfg g (highlights g)))
          (buildfix_summary_of fixes) in
      IsOk->>=
        (gather ports codec cfg (strict_of ports codec req cfg) req.labels (start ports codec req d)
          (expected_sensors cfg d.sensors))
        (λ g. all_fixes ports codec cfg (highlights g) d.sensors >>= finish g)
        (gather-IsOk cfg (strict_of ports codec req cfg) req.labels (start ports codec req d)
          (expected_sensors cfg d.sensors))
        (λ g.
          IsOk->>= (all_fixes ports codec cfg (highlights g) d.sensors) (finish g)
            (all_fixes-IsOk cfg (highlights g) d.sensors)
            (λ fixes.
              conclude-IsOk req cfg
                (with_buildfix codec (buildfix_summary_of fixes)
                  (report_of ports codec req cfg g (highlights g)))
                (buildfix_summary_of fixes)))

  -- Where no port fails and reports can be serialized, the run computes a report, whatever the ids,
  -- the receipts, the comments and the plans are.
  pub prepare-total : (req : IngestRequest) → (p : Prepared V) × (prepare ports codec req ≡ ok p)
  unfolding prepare
  prepare-total req =
      let loaded : DiscoveredSensors → Option CockpitConfig → Result (Prepared V) =
        λ d c. evaluate ports codec req d (get_or c default_config) in
      IsOk->>= (context "discover sensors" ports.discovered_sensors)
        (λ d. context "load cockpit.toml" ports.load_config >>= loaded d)
        (context-IsOk "discover sensors" ports.discovered_sensors answering.0)
        (λ d.
          IsOk->>= (context "load cockpit.toml" ports.load_config) (loaded d)
            (context-IsOk "load cockpit.toml" ports.load_config answering.1)
            (λ c. evaluate-IsOk req d (get_or c default_config)))
