-- ===== src/Cli/Ingest.antt =====
-- `cmd_ingest` of crates/cockpitctl-cli/src/main.rs as a whole, and `now_rfc3339`. What is printed to
-- stderr is left out, except for the trend.
pub mod Kept
pub mod Total
pub mod Rejected
pub mod Exit
use mathlib.Core.Option.{bind, get_or}
use cockpitctl.Base.{
  ℕ, String, Bool, true, false, ◌&&◌, not, Option, none, some, List, [], ◌∷◌, concat, if◌then◌else◌,
}
use cockpitctl.Base.Int.{ℤ}
use cockpitctl.Types.Enums.{SchemaValidation}
use cockpitctl.Types.Run.{ToolInfo, RunInfo}
use cockpitctl.Types.Config.{BuildfixPolicy, CockpitConfig}
use cockpitctl.Types.Defaults.{default_config}
use cockpitctl.Types.Reports.{CockpitReport}
use cockpitctl.Trend.{compute_trend}
use cockpitctl.Features.{Build, RuntimeFeatureState, from_disable_flags}
use cockpitctl.Ingest.Ports.{
  Bytes, SchemaValidationResult, Ports, Codec, IngestRequest, IngestResult, no_op_validate_receipt,
}
use cockpitctl.Ingest.Result.{Result, ok, err, ◌>>=◌, context}
use cockpitctl.Ingest.Execute.{execute}
use cockpitctl.Render.Comment.{blocking_map, render_comment}
use cockpitctl.Render.Github.{render_github_annotations}
use cockpitctl.Render.Sections.{render_trend_section}
use cockpitctl.Sarif.{SarifLog, cockpit_report_to_sarif_json}
use cockpitctl.Io.Layout.{Files, FsLayout, new_layout, with_max_receipt_bytes}
use cockpitctl.Io.Source.{
  new_receipt_source, discovered_sensors, read_report_bytes, report_path, comment_path_if_present,
  read_plan_bytes, load_config,
}
use cockpitctl.Io.Sink.{Disk, and_then, within, fs_output_sink}
use cockpitctl.Io.Schema.{Schemas, sensor_report_v1, validate_receipt}
use cockpitctl.Cli.Options.{IngestOptions, effective_buildfix, effective_policy_signing}
use cockpitctl.Cli.Stages.{Adapters, Switch, after_ingest}

pub data OutputFormat : Type 0 where
  cockpit sarif : OutputFormat

-- The options of `ingest` besides those in IngestOptions.
pub record IngestInputs (P : Type 0) : Type 0 where
  pub artifacts : P
  pub config : P
  pub labels : List String
  pub schema_validation : Option SchemaValidation
  pub github_annotations : Bool
  pub format : OutputFormat
  pub baseline : Option P
  pub disable_hooks : Bool
  pub disable_buildfix : Bool
  pub disable_policy_signing : Bool
  pub options : IngestOptions

-- The environment variables, the parser of `i64`, the format of a timestamp and of the current time.
pub record Clock : Type 0 where
  pub var : String → Option String
  pub parse_i64 : String → Option ℤ
  pub format_unix : ℤ → Option String
  pub format_now : Option String

unfoldable pub now_rfc3339 : Clock → String
unfolding bind
now_rfc3339 clock = elim (clock.var "COCKPITCTL_STARTED_AT") [
  | some v ↦ v
  | none ↦ elim (bind (bind (clock.var "SOURCE_DATE_EPOCH") clock.parse_i64) clock.format_unix) [
    | some s ↦ s
    | none ↦ get_or clock.format_now "1970-01-01T00:00:00Z"
  ]
]

-- What the command uses besides the adapters: `serde_json` and `toml`, the standard streams, the clock,
-- and what the build has compiled in.
pub record Environment (V P W J C : Type 0) : Type 0 where
  pub adapters : Adapters V P W
  pub codec : Codec V
  pub schemas : Schemas J C
  pub config_from_str : String → Result CockpitConfig
  pub report_from_slice : Bytes → Result (CockpitReport V)
  pub sarif_to_string : SarifLog → Result String
  pub println : String → W → W
  pub eprint : String → W → W
  pub clock : Clock
  pub version : String
  pub commit : Option String
  pub build : Build
  pub feature_schema : Bool

unfoldable pub println_each : {W : Type 0} → (String → W → W) → List String → W → W
println_each println [] w = w
println_each println (line ∷ lines) w = println_each println lines (println line w)

unfoldable pub is_lax : Option SchemaValidation → Bool
is_lax (some SchemaValidation.lax) = true
is_lax _ = false

module _ {V P W J C : Type 0} (env : Environment V P W J C) (inputs : IngestInputs P) where
  abbrev files : Files P
  files = env.adapters.fs

  -- The configuration that the limits are taken from.
  unfoldable pub pre_config : Result CockpitConfig
  unfolding concat
  pre_config =
      if files.exists inputs.config
      then (context (concat ("read config " ∷ files.display inputs.config ∷ []))
            (files.read_to_string inputs.config)
          >>= λ txt.
              context (concat ("parse config " ∷ files.display inputs.config ∷ []))
                (env.config_from_str txt))
      else ok default_config

  unfoldable pub layout_of : CockpitConfig → FsLayout P
  unfolding new_layout with_max_receipt_bytes
  layout_of cfg =
      with_max_receipt_bytes (new_layout files inputs.artifacts inputs.config)
        cfg.policy.max_receipt_size_bytes

  unfoldable pub request : IngestRequest
  unfolding now_rfc3339
  request = record {
    labels = inputs.labels;
    tool = record { name = "cockpitctl"; version = env.version; commit = env.commit };
    run = record {
      started_at = now_rfc3339 env.clock;
      ended_at = none;
      duration_ms = none;
      host = none;
      git = none;
      ci = none;
      capabilities = [];
    };
    schema_validation_override = inputs.schema_validation;
  }

  unfoldable pub validator : Result (Bytes → Result SchemaValidationResult)
  unfolding is_lax sensor_report_v1 validate_receipt no_op_validate_receipt
  validator =
      if is_lax inputs.schema_validation
      then ok no_op_validate_receipt
      else if env.feature_schema
      then (context "load sensor.report.v1 JSON schema" (sensor_report_v1 env.schemas) >>= λ c.
          ok (validate_receipt env.schemas c))
      else ok no_op_validate_receipt

  -- The adapters behind the ports of the use case.
  unfoldable pub ports_of : FsLayout P → (Bytes → Result SchemaValidationResult) → Ports V
  unfolding new_receipt_source discovered_sensors read_report_bytes report_path
      comment_path_if_present read_plan_bytes load_config render_comment
  ports_of layout validate =
      let source = new_receipt_source files layout in
      record {
        discovered_sensors = discovered_sensors files source;
        read_report_bytes = read_report_bytes files source;
        report_path = report_path files source;
        comment_path_if_present = comment_path_if_present files source;
        read_plan_bytes = read_plan_bytes files source;
        load_config = load_config files env.config_from_str layout;
        validate_receipt = validate;
        render = render_comment env.adapters.payloads;
      }

  unfoldable pub run_use_case : FsLayout P → W → Result (IngestResult V) × W
  unfolding validator ports_of request execute fs_output_sink
  run_use_case layout w =
      and_then (validator, w)
        (λ validate w1. within "ingest" (
          execute (ports_of layout validate) env.codec
            (fs_output_sink files env.adapters.disk layout) request w1))

  unfoldable pub annotate : CockpitConfig → IngestResult V → W → W
  unfolding println_each render_github_annotations blocking_map
  annotate cfg result w =
      if inputs.github_annotations
      then println_each env.println
          (render_github_annotations result.report.highlights cfg
            (blocking_map [] result.report.sensors)).lines
          w
      else w

  write_sarif : IngestResult V → W → Result (Unit {0}) × W
  unfolding cockpit_report_to_sarif_json concat
  write_sarif result w =
      let sarif_path = files.join (files.join inputs.artifacts "cockpit") "sarif.json" in
      and_then
        (context "render SARIF" (cockpit_report_to_sarif_json env.sarif_to_string result.report), w)
        (λ json w1.
          within (concat ("write " ∷ files.display sarif_path ∷ []))
            (env.adapters.disk.write sarif_path (env.adapters.disk.as_bytes json) w1))

  unfoldable pub sarif_stage : OutputFormat → IngestResult V → W → Result (Unit {0}) × W
  unfolding write_sarif
  sarif_stage cockpit result w = (ok tt, w)
  sarif_stage sarif result w = write_sarif result w

  unfoldable pub trend_stage : Option P → IngestResult V → W → Result (Unit {0}) × W
  unfolding concat render_trend_section compute_trend
  trend_stage none result w = (ok tt, w)
  trend_stage (some path) result w =
      and_then (context (concat ("read baseline " ∷ files.display path ∷ [])) (files.read path), w)
        (λ bytes w1.
          and_then
            (
              context (concat ("parse baseline " ∷ files.display path ∷ []))
                  (env.report_from_slice bytes),
              w1,
            )
            (λ baseline w2.
              (ok tt, env.eprint (render_trend_section (compute_trend baseline result.report)) w2)))

  unfoldable pub state : RuntimeFeatureState
  unfolding from_disable_flags
  state =
      from_disable_flags env.build.feature_hooks inputs.disable_hooks env.build.feature_buildfix
        inputs.disable_buildfix env.build.feature_policy_signing inputs.disable_policy_signing

  -- Whether the build has the feature, and whether the run does.
  abbrev pub buildfix_switch : Switch
  buildfix_switch = record { available = env.build.feature_buildfix; enabled = state.buildfix }

  abbrev pub signing_switch : Switch
  signing_switch = record {
    available = env.build.feature_policy_signing;
    enabled = state.policy_signing;
  }

  abbrev pub hooks_switch : Switch
  hooks_switch = record { available = env.build.feature_hooks; enabled = state.hooks }

  -- What follows the use case.
  unfoldable pub finish : CockpitConfig → BuildfixPolicy → IngestResult V → W → Result ℕ × W
  unfolding annotate sarif_stage trend_stage effective_policy_signing after_ingest layout_of state
  finish cfg buildfix result w =
      and_then (sarif_stage inputs.format result (annotate cfg result w)) (λ _ w1.
        and_then (trend_stage inputs.baseline result w1) (λ _ w2.
          after_ingest env.adapters (layout_of cfg) cfg buildfix_switch signing_switch hooks_switch
            inputs.options buildfix (effective_policy_signing inputs.options cfg.policy_signing)
            result w2))

  unfoldable pub cmd_ingest : W → Result ℕ × W
  unfolding pre_config effective_buildfix run_use_case layout_of finish
  cmd_ingest w =
      and_then (pre_config, w)
        (λ cfg w1.
          and_then (effective_buildfix inputs.options cfg.buildfix, w1)
            (λ buildfix w2.
              and_then (run_use_case (layout_of cfg) w2)
                (λ result w3. finish cfg buildfix result w3)))
