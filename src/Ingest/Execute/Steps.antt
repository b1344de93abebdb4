-- ===== src/Ingest/Execute/Steps.antt =====
-- How a property passes through the steps of `IngestUseCase::execute` of
-- crates/cockpitctl-ingest/src/lib.rs.
use mathlib.Core.List.{append-nil}
use cockpitctl.Base.Map
use cockpitctl.Base.{
  ◌≡◌, refl, sym, ◌∙◌, ◌++◌, String, Bool, Option, none, some, List, [], ◌∷◌, map, arith,
  string_compare,
}
use cockpitctl.Types.Config.{CockpitConfig}
use cockpitctl.Types.Reports.{SensorSummary, CockpitReport}
use cockpitctl.Types.Fixes.{FixSummary, BuildfixSummary}
use cockpitctl.Ingest.Result.{Result, ok, err, ◌>>=◌, Always, Always->>=, Always-bind, Always-mono}
use cockpitctl.Ingest.Ports.{
  DiscoveredSensors, Ports, Codec, OutputSink, IngestRequest, IngestResult,
}
use cockpitctl.Ingest.Examine.{Examined, policy_of, examine}
use cockpitctl.Ingest.Examine.Identity.{IsOf, examine-IsOf}
use cockpitctl.Ingest.Execute.{
  expected_sensors, Gathered, gather, all_fixes, buildfix_summary_of, with_buildfix, Prepared,
  start, report_of, highlights_of, conclude, evaluate, write_comment, write, strict_of,
}

abbrev pub ids : List SensorSummary → List String
ids l = map (λ s. s.id) l

ids-append :
    (l : List SensorSummary) (s : SensorSummary) (id : String) (rest : List String)
    → s.id ≡ id
    → ids (l ++ s ∷ []) ++ rest ≡ ids l ++ id ∷ rest
ids-append [] s id rest e = cc
ids-append (x ∷ l) s id rest e = cc (ids-append l s id rest e)

module _ {V : Type 0} (ports : Ports V) (codec : Codec V) (cfg : CockpitConfig) (strict : Bool)
    (labels : List String) where
  -- The loop pushes one summary for each sensor, in order.
  pub gather-ids :
      (g : Gathered V) (l : List String)
      → Always
          (λ g'. ids g'.sensor_summaries ≡ ids g.sensor_summaries ++ l)
          (gather ports codec cfg strict labels g l)
  unfolding gather
  gather-ids g [] = sym (append-nil (ids g.sensor_summaries))
  gather-ids g (sensor_id ∷ rest) =
      let next : Examined V → Gathered V = λ e. record {
        sensor_summaries = g.sensor_summaries ++ e.0 ∷ [];
        highlight_candidates = g.highlight_candidates ++ e.1;
        sensor_blocking =
            Map.insert string_compare sensor_id (policy_of cfg sensor_id).blocking
              g.sensor_blocking;
      } in
      Always-bind (λ e. IsOf sensor_id (policy_of cfg sensor_id) e.0)
        (λ g'. ids g'.sensor_summaries ≡ ids g.sensor_summaries ++ sensor_id ∷ rest)
        (examine ports codec cfg strict labels sensor_id)
        (λ e. gather ports codec cfg strict labels (next e) rest)
        (examine-IsOf ports codec cfg strict labels sensor_id)
        (λ e h.
          Always-mono (λ g'. ids g'.sensor_summaries ≡ ids (next e).sensor_summaries ++ rest)
            (λ g'. ids g'.sensor_summaries ≡ ids g.sensor_summaries ++ sensor_id ∷ rest)
            (gather ports codec cfg strict labels (next e) rest)
            (λ g' k. k ∙ ids-append g.sensor_summaries e.0 sensor_id rest h.0)
            (gather-ids (next e) rest))

module _ {V : Type 0} (codec : Codec V) where
  pub with_buildfix-sensors :
      (o : Option BuildfixSummary) (r : CockpitReport V)
      → ((with_buildfix codec o r).verdict ≡ r.verdict)
        × ((with_buildfix codec o r).sensors ≡ r.sensors)
        × ((with_buildfix codec o r).highlights ≡ r.highlights)
        × ((with_buildfix codec o r).policy ≡ r.policy)
  unfolding with_buildfix
  with_buildfix-sensors none r = (refl, refl, refl, refl)
  with_buildfix-sensors (some bf) r = ground arith

module _ {V W : Type 0} (sink : OutputSink W) (P : IngestResult V → Type 0) where
  write_comment-Always :
      (p : Prepared V) (r : Result (Unit {0}) × W)
      → P p.outcome
      → Always P (write_comment sink p r).0
  unfolding write_comment
  write_comment-Always p (err e, w) h = tt
  write_comment-Always p (ok _, w) h =
      Always->>= P (sink.write_cockpit_comment p.outcome.comment_md w).0 (λ _. ok p.outcome)
        (λ _. h)

  pub write-Always :
      (m : Result (Prepared V)) (w : W) → Always (λ p. P p.outcome) m → Always P (write sink m w).0
  unfolding write
  write-Always (err e) w h = tt
  write-Always (ok p) w h = write_comment-Always p (sink.write_cockpit_report p.report_json w) h

module _ {V : Type 0} (ports : Ports V) (codec : Codec V) (req : IngestRequest) where
  abbrev pub gathered : DiscoveredSensors → CockpitConfig → Result (Gathered V)
  gathered d cfg =
      gather ports codec cfg (strict_of ports codec req cfg) req.labels (start ports codec req d)
        (expected_sensors cfg d.sensors)

  abbrev pub reported : CockpitConfig → Gathered V → List FixSummary → CockpitReport V
  reported cfg g fixes =
      with_buildfix codec (buildfix_summary_of fixes)
        (report_of ports codec req cfg g (highlights_of ports codec req cfg g))

  -- What follows for the prepared report from what holds of the gathered summaries.
  pub evaluate-Always :
      (G : Gathered V → Type 0) (P : Prepared V → Type 0) (d : DiscoveredSensors)
      (cfg : CockpitConfig)
      → Always G (gathered d cfg)
      → ((g : Gathered V) (fixes : List FixSummary)
          → G g
          → Always P
              (conclude ports codec req cfg (reported cfg g fixes) (buildfix_summary_of fixes)))
      → Always P (evaluate ports codec req d cfg)
  unfolding evaluate
  evaluate-Always G P d cfg all h =
      let finish : Gathered V → List FixSummary → Result (Prepared V) = λ g fixes.
        conclude ports codec req cfg (reported cfg g fixes) (buildfix_summary_of fixes) in
      Always-bind G P (gathered d cfg)
        (λ g.
          all_fixes ports codec cfg (highlights_of ports codec req cfg g) d.sensors >>= finish g)
        all
        (λ g e.
          Always->>= P (all_fixes ports codec cfg (highlights_of ports codec req cfg g) d.sensors)
            (finish g) (λ fixes. h g fixes e))

  pub gathered-ids :
      (d : DiscoveredSensors) (cfg : CockpitConfig)
      → Always (λ g. ids g.sensor_summaries ≡ expected_sensors cfg d.sensors) (gathered d cfg)
  gathered-ids d cfg =
      gather-ids ports codec cfg (strict_of ports codec req cfg) req.labels
        (start ports codec req d) (expected_sensors cfg d.sensors)
