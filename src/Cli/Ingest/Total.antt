-- ===== src/Cli/Ingest/Total.antt =====
-- When a run of `cmd_ingest` in crates/cockpitctl-cli/src/main.rs succeeds.
use mathlib.Core.List.{mem-cons_self, mem-cons_of_mem}
use cockpitctl.Base.{sym, ◌≡◌, refl, inl, inr, Bool-cases, arith, ℕ, String, true, [], none, some}
use cockpitctl.Types.Config.{BuildfixPolicy, CockpitConfig}
use cockpitctl.Types.Reports.{CockpitReport}
use cockpitctl.Ingest.Ports.{
  no_op_validate_receipt, Bytes, SchemaValidationResult, Ports, Codec, OutputSink, IngestRequest,
  IngestResult,
}
use cockpitctl.Ingest.Result.{Result, ok, context, bind-ok, context-ok}
use cockpitctl.Ingest.Examine.Total.{IsOk, IsOk->>=}
use cockpitctl.Ingest.Execute.{write, execute}
use cockpitctl.Ingest.Execute.Total.{context-IsOk, IsAnswering, prepare-total}
use cockpitctl.Sarif.{SarifLog, cockpit_report_to_sarif, cockpit_report_to_sarif_json}
use cockpitctl.Io.Source.{new_receipt_source, load_config}
use cockpitctl.Io.Source.Total.{
  IsReadable, discovered_sensors-IsOk, read_report_bytes-IsOk, comment_path_if_present-IsOk,
  read_plan_bytes-IsOk,
}
use cockpitctl.Io.Sink.{fs_output_sink}
use cockpitctl.Io.Sink.Total.{
  Ends, and_then-Ends, pure-Ends, within-Ends, write_cockpit_report-Ends,
  write_cockpit_comment-Ends,
}
use cockpitctl.Io.Schema.{sensor_report_v1, validate_receipt}
use cockpitctl.Cli.Options.{effective_buildfix, effective_policy_signing}
use cockpitctl.Cli.Stages.Total.{IsPrinting, after_ingest-Ends}
use cockpitctl.Cli.Ingest.Kept.{println_each_keeps}
use cockpitctl.Render.Comment.{blocking_map}
use cockpitctl.Render.Github.{render_github_annotations}
use cockpitctl.Cli.Ingest.{
  is_lax, OutputFormat, cockpit, sarif, IngestInputs, Environment, pre_config, layout_of, request,
  validator, ports_of, run_use_case, annotate, write_sarif, sarif_stage, trend_stage, state,
  buildfix_switch, signing_switch, hooks_switch, finish, cmd_ingest,
}

-- The use case, where its ports answer and its sink writes.
execute-Ends :
    {V W : Type 0} (ports : Ports V) (codec : Codec V) (sink : OutputSink W) (req : IngestRequest)
    (w : W) (Ready : W → Type 0)
    → IsAnswering ports codec
    → ((s : String) → Ends Ready (sink.write_cockpit_report s w))
    → ((s : String) (w : W) → Ready w → Ends Ready (sink.write_cockpit_comment s w))
    → Ends Ready (execute ports codec sink req w)
unfolding execute write
execute-Ends ports codec sink req w Ready answering reports comments =
    let (p, e) = prepare-total ports codec answering req in
    let (_, w1, e1, r1) = reports p.report_json in
    let (_, w2, e2, r2) = comments p.outcome.comment_md w1 r1 in
    rw (e, e1, e2) (p.outcome, w2, refl, r2)

-- The validator in its place.
IsOk-same :
    (f g : Bytes → Result SchemaValidationResult)
    → ◌≡◌ {A = Result (Bytes → Result SchemaValidationResult)} (ok f) (ok g)
    → (b : Bytes) → IsOk (f b)
    → IsOk (g b)
IsOk-same f g h b k = let e : f ≡ g = cc in rw (sym e) k

module _ {V P W J C : Type 0} (env : Environment V P W J C) (inputs : IngestInputs P) where
  load_config-IsOk :
      (cfg : CockpitConfig)
      → pre_config env inputs ≡ ok cfg
      → IsOk (load_config env.adapters.fs env.config_from_str (layout_of env inputs cfg))
  unfolding pre_config load_config layout_of
  load_config-IsOk cfg h = elim (Bool-cases (env.adapters.fs.exists inputs.config)) [
    | inr n ↦ rw n (none, refl)
    | inl y ↦
        let (text, r, h1) =
          bind-ok (context _ (env.adapters.fs.read_to_string inputs.config)) _ (rw y at h) in
        rw
          (
            y,
            context-ok _ (env.adapters.fs.read_to_string inputs.config) r,
            context-ok _ (env.config_from_str text) h1,
          )
          (some cfg, refl)
  ]

  -- A validator that was loaded answers.
  validator-IsOk :
      (validate : Bytes → Result SchemaValidationResult)
      → validator env inputs ≡ ok validate
      → (b : Bytes) → IsOk (validate b)
  unfolding validator no_op_validate_receipt validate_receipt
  validator-IsOk validate h b = elim (Bool-cases (is_lax inputs.schema_validation)) [
    | inl y ↦ IsOk-same no_op_validate_receipt validate (rw y at h) b (_, refl)
    | inr n ↦ elim (Bool-cases env.feature_schema) [
      | inr m ↦ IsOk-same no_op_validate_receipt validate (rw (n, m) at h) b (_, refl)
      | inl m ↦
          let (c, _, h1) =
            bind-ok (context "load sensor.report.v1 JSON schema" (sensor_report_v1 env.schemas)) _
              (rw (n, m) at h) in
          IsOk-same (validate_receipt env.schemas c) validate h1 b (_, refl)
    ]
  ]

module _ {V P W J C : Type 0} (env : Environment V P W J C) (inputs : IngestInputs P)
    (cfg : CockpitConfig) (Usable Ready : W → Type 0)
    (readable : IsReadable env.adapters.fs (layout_of env inputs cfg))
    (printing : IsPrinting env.adapters (layout_of env inputs cfg) Usable Ready)
    (prints : (line : String) (w : W) → Ready w → Ready (env.println line w))
    (reports : (r : CockpitReport V) → IsOk (env.codec.to_string_pretty r))
    (logs : (log : SarifLog) → IsOk (env.sarif_to_string log)) where
  run_use_case-Ends :
      (validate : Bytes → Result SchemaValidationResult) (w : W)
      → pre_config env inputs ≡ ok cfg
      → validator env inputs ≡ ok validate
      → Usable w
      → Ends Ready (run_use_case env inputs (layout_of env inputs cfg) w)
  unfolding run_use_case ports_of fs_output_sink new_receipt_source
  run_use_case-Ends validate w c v u =
      let layout = layout_of env inputs cfg in
      let source = new_receipt_source env.adapters.fs layout in
      rw v (
        within-Ends Ready "ingest" _ (
          execute-Ends (ports_of env inputs layout validate) env.codec
            (fs_output_sink env.adapters.fs env.adapters.disk layout) (request env inputs) w Ready
            (
              discovered_sensors-IsOk env.adapters.fs source readable,
              load_config-IsOk env inputs cfg c,
              read_report_bytes-IsOk env.adapters.fs source readable,
              comment_path_if_present-IsOk env.adapters.fs source readable,
              read_plan_bytes-IsOk env.adapters.fs source readable,
              validator-IsOk env inputs validate v,
              reports,
            )
            (λ s.
              write_cockpit_report-Ends env.adapters.fs env.adapters.disk layout Usable Ready
                printing.0 s w u)
            (λ s w1 r.
              write_cockpit_comment-Ends env.adapters.fs env.adapters.disk layout Usable Ready
                printing.0 s w1 (printing.0.2 w1 r))))

  annotate_keeps :
      (result : IngestResult V) (w : W) → Ready w → Ready (annotate env inputs cfg result w)
  unfolding annotate
  annotate_keeps result w r = elim (Bool-cases inputs.github_annotations) [
    | inr n ↦ rw n r
    | inl y ↦ rw y (
        println_each_keeps env.println Ready prints
          (render_github_annotations result.report.highlights cfg
            (blocking_map [] result.report.sensors)).lines
          w r)
  ]

  sarif_stage-Ends :
      (format : OutputFormat) (result : IngestResult V) (w : W)
      → Ready w
      → Ends Ready (sarif_stage env inputs format result w)
  unfolding sarif_stage write_sarif cockpit_report_to_sarif_json layout_of
  sarif_stage-Ends cockpit result w r = (_, w, refl, r)
  sarif_stage-Ends sarif result w r =
      pure-Ends Ready
        (context "render SARIF" (cockpit_report_to_sarif_json env.sarif_to_string result.report)) w
        _
        (context-IsOk _ (cockpit_report_to_sarif_json env.sarif_to_string result.report) (
          IsOk->>= (env.sarif_to_string (cockpit_report_to_sarif result.report)) _
            (logs (cockpit_report_to_sarif result.report)) (λ json. (_, refl))))
        (λ json. within-Ends Ready _ _ (
          printing.0.1 "sarif.json" (env.adapters.disk.as_bytes json) w
            (mem-cons_of_mem _ (mem-cons_of_mem _ mem-cons_self)) r))

  finish-Ends :
      (buildfix : BuildfixPolicy) (result : IngestResult V) (w : W)
      → inputs.baseline ≡ none
      → inputs.disable_policy_signing ≡ true
      → inputs.disable_hooks ≡ true
      → Ready w
      → Ends Ready (finish env inputs cfg buildfix result w)
  unfolding finish trend_stage state
  finish-Ends buildfix result w b s h r =
      and_then-Ends Ready Ready
        (sarif_stage env inputs inputs.format result (annotate env inputs cfg result w)) _
        (sarif_stage-Ends inputs.format result (annotate env inputs cfg result w)
          (annotate_keeps result w r))
        (λ _ w1 r1. rw b (
          after_ingest-Ends env.adapters (layout_of env inputs cfg) cfg Usable Ready printing
            (buildfix_switch env inputs) (signing_switch env inputs) (hooks_switch env inputs)
            inputs.options buildfix (effective_policy_signing inputs.options cfg.policy_signing)
            result w1 (ground (arith, s)) (ground (arith, h)) r1))

  -- A run of `ingest` without a baseline, the signature and the hooks has an exit code, whatever the
  -- receipts hold and whatever the actuator of the fixes does, if the configuration is absent or can be
  -- read and parsed, no overriding actuator is empty, the artifacts directory, if it exists, can be
  -- listed, the receipts and plans that exist can be read, the output directory can be created in the
  -- state that the run starts in, the four files of a run can be written there once it was created, also
  -- after lines were printed and sidecars removed, the schema can be loaded, and reports, fixes and the
  -- SARIF log can be serialized.
  pub cmd_ingest-Ends :
      (validate : Bytes → Result SchemaValidationResult) (w : W)
      → pre_config env inputs ≡ ok cfg
      → IsOk (effective_buildfix inputs.options cfg.buildfix)
      → validator env inputs ≡ ok validate
      → inputs.baseline ≡ none
      → inputs.disable_policy_signing ≡ true
      → inputs.disable_hooks ≡ true
      → Usable w
      → (code : ℕ) × (w' : W) × (cmd_ingest env inputs w ≡ (ok code, w')) × Ready w'
  unfolding cmd_ingest
  cmd_ingest-Ends validate w c e v b s h u = rw c (
      pure-Ends Ready (effective_buildfix inputs.options cfg.buildfix) w _ e (λ buildfix.
        and_then-Ends Ready Ready (run_use_case env inputs (layout_of env inputs cfg) w) _
          (run_use_case-Ends validate w c v u)
          (λ result w2 r2. finish-Ends buildfix result w2 b s h r2)))
