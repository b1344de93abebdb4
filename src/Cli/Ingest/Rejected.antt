-- ===== src/Cli/Ingest/Rejected.antt =====
-- Receipts that lead out of the artifacts directory, from the file system of crates/cockpitctl-io/src/lib.rs
-- to the exit code of crates/cockpitctl-cli/src/main.rs.
use mathlib.Core.List.{not-mem-nil}
use cockpitctl.Base.{
  ◌≡◌, refl, ◌∙◌, inl, inr, Bool-cases, ℕ, String, true, false, some, List, [], ◌∷◌, Mem,
}
use cockpitctl.Base.Map
use cockpitctl.Base.Map.{BTreeMap}
use cockpitctl.Types.Config.{SensorPolicy, CockpitConfig}
use cockpitctl.Types.SensorId.{is_valid_sensor_id}
use cockpitctl.Ingest.Ports.{
  DiscoveredSensors, ReportRead, Ports, Codec, OutputSink, IngestRequest, IngestResult,
}
use cockpitctl.Ingest.Result.{Result, ok, err, context, bind-ok, context-ok}
use cockpitctl.Ingest.Examine.{policy_of, label_gated}
use cockpitctl.Ingest.Execute.{Prepared, expected_sensors, prepare, write, execute}
use cockpitctl.Ingest.Execute.Closed.{execute-rejected}
use cockpitctl.Io.Layout.{Files, report_file}
use cockpitctl.Io.Source.{
  FsReceiptSource, new_receipt_source, is_safe_path, read_report_bytes, load_config,
}
use cockpitctl.Io.Sink.{fs_output_sink}
use cockpitctl.Cli.Ingest.{
  IngestInputs, Environment, pre_config, layout_of, request, ports_of, cmd_ingest,
}
use cockpitctl.Cli.Ingest.Exit.{HasIngested, cmd_ingest-HasIngested}

write-ok :
    {V W : Type 0} (sink : OutputSink W) (p : Result (Prepared V)) (w : W) {r : IngestResult V}
    {w' : W}
    → write sink p w ≡ (ok r, w')
    → (q : Prepared V) × (p ≡ ok q)
unfolding write
write-ok sink (ok q) w h = (q, refl)
write-ok sink (err e) w h = absurd (cc)

-- A run that succeeds has discovered its sensors.
execute-discovered :
    {V W : Type 0} (ports : Ports V) (codec : Codec V) (sink : OutputSink W) (req : IngestRequest)
    (w : W) {r : IngestResult V} {w' : W}
    → execute ports codec sink req w ≡ (ok r, w')
    → (d : DiscoveredSensors) × (ports.discovered_sensors ≡ ok d)
unfolding execute prepare
execute-discovered ports codec sink req w h =
    let (q, e) = write-ok sink (prepare ports codec req) w h in
    let (d, k, _) = bind-ok (context "discover sensors" ports.discovered_sensors) _ e in
    (d, context-ok "discover sensors" ports.discovered_sensors k)

keys-expected :
    (sensors : BTreeMap String SensorPolicy) (id : String) (found : List String)
    → Mem id (Map.keys sensors)
    → Mem id (elim sensors [ [] ↦ found | e ∷ m ↦ Map.keys (e ∷ m) ])
keys-expected [] id found m = absurd (not-mem-nil m)
keys-expected (e ∷ l) id found m = m

configured-expected :
    (cfg : CockpitConfig) (id : String) (found : List String)
    → Mem id (Map.keys cfg.sensors)
    → Mem id (expected_sensors cfg found)
unfolding expected_sensors
configured-expected cfg id found m = keys-expected cfg.sensors id found m

escaped-read :
    {P : Type 0} (fs : Files P) (source : FsReceiptSource P) (id : String)
    → fs.exists (report_file fs source.layout id) ≡ true
    → is_safe_path fs source (report_file fs source.layout id) ≡ false
    → read_report_bytes fs source id ≡ ok ReportRead.unsafe_path
unfolding read_report_bytes
escaped-read fs source id x s = elim (Bool-cases (is_valid_sensor_id id)) [
  | inl v ↦ rw (v, x, s) refl
  | inr v ↦ rw v refl
]

module _ {V P W J C : Type 0} (env : Environment V P W J C) (inputs : IngestInputs P) where
  configured :
      {text : String} {cfg : CockpitConfig}
      → env.adapters.fs.exists inputs.config ≡ true
      → env.adapters.fs.read_to_string inputs.config ≡ ok text
      → env.config_from_str text ≡ ok cfg
      → (pre_config env inputs ≡ ok cfg)
        × (load_config env.adapters.fs env.config_from_str (layout_of env inputs cfg)
            ≡ ok (some cfg))
  unfolding pre_config load_config layout_of
  configured x r p = (rw (x, r, p) refl, rw (x, r, p) refl)

  same_config : (r : Result CockpitConfig) {a b : CockpitConfig} → r ≡ ok a → r ≡ ok b → a ≡ b
  same_config r p q = cc

  -- A run of `ingest` that succeeds has the exit code 2 if the configuration can be read and names a
  -- blocking sensor that is not skipped for a missing label, and the sensor's report exists but, once
  -- its links are resolved, is not below the artifacts directory or cannot be resolved.
  pub cmd_ingest-escaped :
      (w : W) {text : String} {cfg : CockpitConfig} (id : String) {code : ℕ} {w' : W}
      → env.adapters.fs.exists inputs.config ≡ true
      → env.adapters.fs.read_to_string inputs.config ≡ ok text
      → env.config_from_str text ≡ ok cfg
      → Mem id (Map.keys cfg.sensors)
      → (policy_of cfg id).blocking ≡ true
      → label_gated inputs.labels (policy_of cfg id).require_label ≡ false
      → env.adapters.fs.exists (report_file env.adapters.fs (layout_of env inputs cfg) id) ≡ true
      → is_safe_path env.adapters.fs
          (new_receipt_source env.adapters.fs (layout_of env inputs cfg))
          (report_file env.adapters.fs (layout_of env inputs cfg) id)
        ≡ false
      → cmd_ingest env inputs w ≡ (ok code, w')
      → code ≡ 2
  unfolding ports_of new_receipt_source request layout_of pre_config
  cmd_ingest-escaped w {text} {cfg} id x r p m blocking gate found escaped h =
      let (cfg', result, ran, c) = cmd_ingest-HasIngested env inputs w h in
      let (e, load) = configured x r p in
      let same = same_config (pre_config env inputs) (ran.2) e in
      let (validate, w1, _, _, run) : HasIngested env inputs w cfg result = rw same at ran in
      let ports = ports_of env inputs (layout_of env inputs cfg) validate in
      let sink = fs_output_sink env.adapters.fs env.adapters.disk (layout_of env inputs cfg) in
      let (d, hd) = execute-discovered ports env.codec sink (request env inputs) w run in
      c
      ∙ execute-rejected ports env.codec (request env inputs) sink w d (some cfg) result w1 id
          ReportRead.unsafe_path hd load (configured-expected cfg id d.sensors m) blocking gate
          (escaped-read env.adapters.fs
            (new_receipt_source env.adapters.fs (layout_of env inputs cfg)) id found escaped)
          refl run
