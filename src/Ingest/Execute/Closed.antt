-- ===== src/Ingest/Execute/Closed.antt =====
-- The exit code of a run of crates/cockpitctl-ingest/src/lib.rs with a rejected receipt.
use mathlib.Core.Option.{get_or}
use mathlib.Core.List.{mem-cons, not-mem-nil}
use mathlib.Core.Logic.Or
use mathlib.Core.Bool.{Bool-set}
use cockpitctl.Base.Map
use cockpitctl.Base.{
  ◌≡◌, refl, sort_by, sym, ap, ◌∙◌, ◌++◌, ◌||◌, ◌==◌, String, Bool, true, false, Option, List, [],
  ◌∷◌, any, Mem, Perm, arith, if◌then◌else◌, sort_by-perm, subst, string_compare, concat,
  count-perm, any-count,
}
use cockpitctl.Types.Config.{CockpitConfig}
use cockpitctl.Types.Reports.{SensorSummary}
use cockpitctl.Types.Fixes.{FixSummary}
use cockpitctl.Ingest.Execute.Steps.{with_buildfix-sensors, reported, evaluate-Always, write-Always}
use cockpitctl.Ingest.Execute.Exit.{execute-exit_code}
use cockpitctl.Types.Defaults.{default_config}
use cockpitctl.Domain.Verdict.Worst.{blocks}
use cockpitctl.Domain.Report.{build_cockpit_report, snapshot_policy}
use cockpitctl.Domain.Sensors.{sort_sensor_summaries, summary_cmp}
use cockpitctl.Ingest.Result.{
  Result, ok, ◌>>=◌, context, Always, Always->>=, Always-bind, Always-eq, Always-mono, Always-ok,
  Always-and, Always-IsProp,
}
use cockpitctl.Ingest.Ports.{
  ReportRead, DiscoveredSensors, Ports, Codec, OutputSink, IngestRequest, IngestResult,
}
use cockpitctl.Ingest.Examine.{Examined, policy_of, examine, label_gated}
use cockpitctl.Ingest.Examine.Identity.{IsOf, examine-IsOf}
use cockpitctl.Ingest.Examine.Rejected.{is_rejected, IsFailing, IsRejected, examine-IsFailing}
use cockpitctl.Ingest.Execute.{
  expected_sensors, Gathered, gather, Prepared, prepare, execute, strict_of, report_of,
  highlights_of, buildfix_summary_of, conclude, exit_code_of, evaluate, start,
}

any-perm : {A : Type 0} (p : A → Bool) {l r : List A} → Perm l r → any p l ≡ any p r
any-perm p {l} {r} h =
    any-count p l ∙ ap (λ n. if n == 0 then false else true) (count-perm p h) ∙ sym (any-count p r)

any-push : {A : Type 0} (p : A → Bool) (l : List A) (a : A) → any p (l ++ a ∷ []) ≡ (any p l || p a)
any-push p [] a = ground arith
any-push p (x ∷ l) a = ground (arith, any-push p l a)

failing-blocks :
    (w : Bool) (s : SensorSummary) → s.blocking ≡ true → IsFailing s → blocks w s ≡ true
failing-blocks w s b f = ground (arith, b, f)

module _ {V : Type 0} (ports : Ports V) (codec : Codec V) (cfg : CockpitConfig) (strict : Bool)
    (labels : List String) (w : Bool) where
  abbrev next : Gathered V → String → Examined V → Gathered V
  next g sensor_id e = record {
    sensor_summaries = g.sensor_summaries ++ e.0 ∷ [];
    highlight_candidates = g.highlight_candidates ++ e.1;
    sensor_blocking =
        Map.insert string_compare sensor_id (policy_of cfg sensor_id).blocking g.sensor_blocking;
  }

  -- Some summary blocks.
  abbrev Blocked : Gathered V → Type 0
  Blocked g = any (blocks w) g.sensor_summaries ≡ true

  gather-keeps :
      (g : Gathered V) (l : List String)
      → Blocked g
      → Always Blocked (gather ports codec cfg strict labels g l)
  unfolding gather
  gather-keeps g [] h = h
  gather-keeps g (sensor_id ∷ rest) h =
      Always->>= Blocked (examine ports codec cfg strict labels sensor_id)
        (λ e. gather ports codec cfg strict labels (next g sensor_id e) rest)
        (λ e.
          gather-keeps (next g sensor_id e) rest
            (any-push (blocks w) g.sensor_summaries e.0 ∙ ap (λ b. b || blocks w e.0) h))

  module _ (id : String) (blocking : (policy_of cfg id).blocking ≡ true)
      (rejected : IsRejected ports codec cfg strict labels id) where
    examine-blocks : Always (λ e. blocks w e.0 ≡ true) (examine ports codec cfg strict labels id)
    examine-blocks =
        let its = examine ports codec cfg strict labels id in
        Always-mono (λ e. IsOf id (policy_of cfg id) e.0 × IsFailing e.0) (λ e. blocks w e.0 ≡ true)
          its (λ e h. failing-blocks w e.0 (h.0.1 ∙ blocking) h.1)
          (Always-and (λ e. IsOf id (policy_of cfg id) e.0) (λ e. IsFailing e.0) its
            (examine-IsOf ports codec cfg strict labels id)
            (examine-IsFailing ports codec cfg strict labels id rejected))

    gather-Blocked :
        (g : Gathered V) (l : List String)
        → Mem id l
        → Always Blocked (gather ports codec cfg strict labels g l)
    unfolding gather
    gather-Blocked g [] m = absurd (not-mem-nil m)
    gather-Blocked g (sensor_id ∷ rest) m =
        Or.elim
          (Always-IsProp Blocked (λ g'. Bool-set _ _)
            (examine ports codec cfg strict labels sensor_id
              >>= (λ e. gather ports codec cfg strict labels (next g sensor_id e) rest)))
          (mem-cons.0 m)
          (λ here.
            Always-bind (λ e. blocks w e.0 ≡ true) Blocked
              (examine ports codec cfg strict labels sensor_id)
              (λ e. gather ports codec cfg strict labels (next g sensor_id e) rest)
              (subst
                (λ s. Always (λ e. blocks w e.0 ≡ true) (examine ports codec cfg strict labels s))
                here examine-blocks)
              (λ e h.
                gather-keeps (next g sensor_id e) rest
                  (any-push (blocks w) g.sensor_summaries e.0 ∙ ground (arith, h))))
          (λ there.
            Always->>= Blocked (examine ports codec cfg strict labels sensor_id)
              (λ e. gather ports codec cfg strict labels (next g sensor_id e) rest)
              (λ e. gather-Blocked (next g sensor_id e) rest there))

module _ {V : Type 0} (ports : Ports V) (codec : Codec V) (req : IngestRequest)
    (d : DiscoveredSensors) (cfg : CockpitConfig) where
  -- Some sensor of the report blocks under the report's policy.
  abbrev IsBlocked : IngestResult V → Type 0
  IsBlocked r = any (blocks r.report.policy.warn_is_fail) r.report.sensors ≡ true

  reported-IsBlocked :
      (g : Gathered V) (fixes : List FixSummary) (r : IngestResult V)
      → any (blocks cfg.policy.warn_is_fail) g.sensor_summaries ≡ true
      → r.report ≡ reported ports codec req cfg g fixes
      → IsBlocked r
  unfolding report_of build_cockpit_report sort_sensor_summaries snapshot_policy
  reported-IsBlocked g fixes r h same =
      let kept =
        with_buildfix-sensors codec (buildfix_summary_of fixes)
          (report_of ports codec req cfg g (highlights_of ports codec req cfg g)) in
      let sensors : r.report.sensors ≡ sort_by (summary_cmp cfg) g.sensor_summaries =
        ap (λ x. x.sensors) same ∙ kept.1 in
      let policy : r.report.policy.warn_is_fail ≡ cfg.policy.warn_is_fail =
        ap (λ x. x.policy.warn_is_fail) same ∙ ap (λ x. x.warn_is_fail) kept.3 in
      rw (sensors, policy)
        (any-perm (blocks cfg.policy.warn_is_fail)
            (sort_by-perm (summary_cmp cfg) g.sensor_summaries)
          ∙ h)

  conclude-IsBlocked :
      (g : Gathered V) (fixes : List FixSummary)
      → any (blocks cfg.policy.warn_is_fail) g.sensor_summaries ≡ true
      → Always
          (λ p. IsBlocked p.outcome)
          (conclude ports codec req cfg
            (reported ports codec req cfg g fixes)
            (buildfix_summary_of fixes))
  unfolding conclude
  conclude-IsBlocked g fixes h =
      let report = reported ports codec req cfg g fixes in
      let outcome : IngestResult V = record {
        report = report;
        comment_md = ports.render report cfg;
        exit_code = exit_code_of report.verdict.status;
        buildfix = buildfix_summary_of fixes;
      } in
      Always->>= (λ p. IsBlocked p.outcome)
        (context "serialize cockpit report" (codec.to_string_pretty report))
        (λ json. ok (record { outcome = outcome; report_json = concat (json ∷ "\n" ∷ []) }))
        (λ json. reported-IsBlocked g fixes outcome h refl)

  evaluate-IsBlocked :
      (id : String)
      → Mem id (expected_sensors cfg d.sensors)
      → (policy_of cfg id).blocking ≡ true
      → IsRejected ports codec cfg (strict_of ports codec req cfg) req.labels id
      → Always (λ p. IsBlocked p.outcome) (evaluate ports codec req d cfg)
  evaluate-IsBlocked id m blocking rejected =
      evaluate-Always ports codec req
        (λ g. any (blocks cfg.policy.warn_is_fail) g.sensor_summaries ≡ true)
        (λ p. IsBlocked p.outcome) d cfg
        (gather-Blocked ports codec cfg (strict_of ports codec req cfg) req.labels
          cfg.policy.warn_is_fail id blocking rejected (start ports codec req d)
          (expected_sensors cfg d.sensors) m)
        conclude-IsBlocked

module _ {V : Type 0} (ports : Ports V) (codec : Codec V) (req : IngestRequest) where
  -- A run that succeeds has the exit code 2 if some expected sensor is blocking, is not skipped for a
  -- missing label, and has a receipt that is unsafe, too large or malformed, or missing where the
  -- policy makes that a failure.
  pub execute-rejected :
      {W : Type 0} (sink : OutputSink W) (w : W) (d : DiscoveredSensors) (c : Option CockpitConfig)
      (r : IngestResult V) (w' : W) (id : String) (read : ReportRead)
      → ports.discovered_sensors ≡ ok d
      → ports.load_config ≡ ok c
      → Mem id (expected_sensors (get_or c default_config) d.sensors)
      → (policy_of (get_or c default_config) id).blocking ≡ true
      → label_gated req.labels (policy_of (get_or c default_config) id).require_label ≡ false
      → ports.read_report_bytes id ≡ ok read
      → is_rejected codec (policy_of (get_or c default_config) id) read ≡ true
      → execute ports codec sink req w ≡ (ok r, w')
      → r.exit_code ≡ 2
  unfolding execute prepare
  execute-rejected sink w d c r w' id read hd hc m blocking gate is_read rejected h =
      let cfg = get_or c default_config in
      let P : Prepared V → Type 0 = λ p. IsBlocked ports codec req d cfg p.outcome in
      let rest : DiscoveredSensors → Result (Prepared V) = λ d'.
        context "load cockpit.toml" ports.load_config
        >>= (λ c'. evaluate ports codec req d' (get_or c' default_config)) in
      let prepared : Always P (prepare ports codec req) =
        Always-ok P "discover sensors" ports.discovered_sensors rest hd (
          Always-ok P "load cockpit.toml" ports.load_config
            (λ c'. evaluate ports codec req d (get_or c' default_config)) hc
            (evaluate-IsBlocked ports codec req d cfg id m blocking
              (gate, read, is_read, rejected))) in
      let blocked =
        Always-eq (IsBlocked ports codec req d cfg) (execute ports codec sink req w).0
          (write-Always sink (IsBlocked ports codec req d cfg) (prepare ports codec req) w prepared)
          (ap (λ x. x.0) h) in
      execute-exit_code ports codec req sink w r w' h ∙ ap (λ b. if b then 2 else 0) blocked
