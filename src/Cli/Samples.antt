-- ===== src/Cli/Samples.antt =====
-- Test data for the modules of crates/cockpitctl-cli/src/main.rs: a run in which everything answers, and
-- a receipt that leads out of the artifacts directory.
use cockpitctl.Base.{
  ◌||◌, ◌==◌, ℕ, String, Bool, true, false, none, some, [], ◌∷◌, str_eq, begins_with, if◌then◌else◌,
}
use cockpitctl.Types.Enums.{SafetyLevel}
use cockpitctl.Types.Config.{BuildfixActuatorConfig, BuildfixPolicy, PolicySigningConfig}
use cockpitctl.Types.Fixes.{
  FixSummary, BuildfixSummary, BuildfixApplyRequest, BuildfixActuatorResult,
}
use cockpitctl.Types.Defaults.{default_config, default_policy_signing}
use cockpitctl.Domain.Report.{build_cockpit_report}
use cockpitctl.Domain.Samples.{V₀, lint, strict_config, tool, run}
use cockpitctl.Ingest.Ports.{IngestResult}
use cockpitctl.Ingest.Result.{Result, ok, err}
use cockpitctl.Ingest.Samples.{codec}
use cockpitctl.Render.Samples.{no_payloads}
use cockpitctl.Io.Layout.{Files}
use cockpitctl.Io.Samples.{lint_dir, fs, disk, remove_file, process}
use cockpitctl.Io.Sink.{Disk}
use cockpitctl.Io.Schema.{Schemas}
use cockpitctl.Cli.Options.{IngestOptions}
use cockpitctl.Cli.Stages.{Adapters, Switch}
use cockpitctl.Cli.Entry.{Extras}
use cockpitctl.Cli.Ingest.{OutputFormat, IngestInputs, Environment}

abbrev pub options : IngestOptions
options = record {
  buildfix_auto_apply = true;
  buildfix_max_auto_apply_safety = none;
  buildfix_actuator = none;
  buildfix_actuator_timeout_ms = none;
  policy_sign = false;
  policy_sign_key_path = some "key";
  policy_sign_key_env = none;
  policy_sign_key_id = none;
}

abbrev pub policy : BuildfixPolicy
policy = record {
  auto_apply = true;
  max_auto_apply_safety = SafetyLevel.safe;
  require_matched_finding = false;
  actuator = some (record { command = "fix"; timeout_ms = 1000 });
}

abbrev pub fix_summary : FixSummary
fix_summary = record {
  fix_id = "f";
  sensor_id = "lint";
  safety = SafetyLevel.safe;
  description = "a fix";
  matched_findings = [];
  unmatched = true;
}

abbrev pub plan : BuildfixSummary
plan = record { fixes = fix_summary ∷ []; total_fixes = 1; matched_count = 0; unmatched_count = 1 }

abbrev pub actuate : BuildfixActuatorConfig → BuildfixApplyRequest → Result BuildfixActuatorResult
actuate actuator request =
    ok (record { applied_fix_ids = "f" ∷ []; skipped_fix_ids = []; errors = [] })

abbrev pub signing : PolicySigningConfig
signing = record default_policy_signing { enabled = true; key_path = some "key" }

abbrev pub adapters : Adapters V₀ String Bool
adapters = record {
  fs = fs;
  disk = disk;
  remove_file = remove_file;
  process = process;
  hook_output = λ b. err ("no output" ∷ []);
  payloads = no_payloads;
  request_to_vec = λ request. ok [];
  result_from_slice = λ b.
      actuate (record { command = ""; timeout_ms = 0 })
        (record {
          schema = "";
          max_auto_apply_safety = SafetyLevel.safe;
          require_matched_finding = true;
          fixes = [];
        });
  read = λ path. ok (7 ∷ []);
  var = λ name. err ("no such variable" ∷ []);
  digest = λ b. 1 ∷ [];
  encode = λ b. "01";
  policy_to_vec = λ snapshot. ok [];
  report_to_string = λ report. ok "{}";
  apply_to_value = λ summary. ok tt;
  apply_to_string = λ summary. ok "{}";
  signature_to_value = λ signature. ok tt;
  signature_to_string = λ signature. ok "{}";
  empty_object = tt;
  insert = λ key value object. object;
  remove = λ key object. object;
}

abbrev pub on : Switch
on = record { available = true; enabled = true }

abbrev pub ingested : IngestResult V₀
ingested = record {
  report = build_cockpit_report default_config tool run (lint ∷ []) [];
  comment_md = "";
  exit_code = 2;
  buildfix = some plan;
}

-- A value is a number, and a schema is valid for the values that are equal to it.
abbrev pub schemas : Schemas ℕ ℕ
schemas = record {
  from_slice = λ b. ok 2;
  from_str = λ text. ok (if str_eq text "sensor" then 1 else 2);
  compile = λ value. ok value;
  is_valid = λ c value. c == value;
  iter_errors = λ c value. ("", "no match") ∷ [];
  sensor_report_schema = "sensor";
  cockpit_report_schema = "cockpit";
}

-- The report of `lint` is a link to a file elsewhere.
abbrev pub linked_fs : Files String
linked_fs = record fs {
  canonicalize = λ p. some (if begins_with p "artifacts/lint" then "/etc/passwd" else p);
}

abbrev pub environment : Environment V₀ String Bool ℕ ℕ
environment = record {
  adapters = record adapters { fs = linked_fs };
  codec = codec;
  schemas = schemas;
  config_from_str = λ text. ok strict_config;
  report_from_slice = λ b. err ("no report" ∷ []);
  sarif_to_string = λ log. ok "{}";
  println = λ line w. w;
  eprint = λ text w. w;
  clock = record {
    var = λ name. none;
    parse_i64 = λ s. none;
    format_unix = λ n. none;
    format_now = some "2024-01-01T00:00:00Z";
  };
  version = "0.1.0";
  commit = none;
  build = record { feature_hooks = true; feature_buildfix = true; feature_policy_signing = true };
  feature_schema = true;
}

abbrev pub inputs : IngestInputs String
inputs = record {
  artifacts = "artifacts";
  config = "cockpit.toml";
  labels = [];
  schema_validation = none;
  github_annotations = true;
  format = OutputFormat.sarif;
  baseline = none;
  disable_hooks = false;
  disable_buildfix = true;
  disable_policy_signing = false;
  options = record options { buildfix_auto_apply = false; policy_sign_key_path = none };
}

abbrev pub extras : Extras ℕ
extras = record {
  example = "";
  is_sensor = λ b. false;
  is_cockpit = λ b. true;
  schema_hint = λ value. none;
}

abbrev is_there : String → Bool
is_there p =
    str_eq p "cockpit.toml"
    || str_eq p "artifacts"
    || str_eq p "artifacts/lint"
    || str_eq p "artifacts/lint/report.json"

-- Nothing else exists, what does not exist cannot be read, and one directory can be listed.
abbrev pub sparse_fs : Files String
sparse_fs = record fs {
  exists = is_there;
  len = λ p. if is_there p then ok 3 else err ("not found" ∷ []);
  read = λ p. if is_there p then ok (1 ∷ 2 ∷ 3 ∷ []) else err ("not found" ∷ []);
  read_dir = λ p. if str_eq p "artifacts" then ok (ok lint_dir ∷ []) else err ("not listed" ∷ []);
}

-- The state is whether the output directory was created; without it no file is written.
abbrev pub made_disk : Disk String Bool
made_disk = record {
  create_dir_all = λ p w. (ok tt, true);
  write = λ p content w. (if w then ok tt else err ("not found" ∷ []), w);
  as_bytes = λ s. [];
}

abbrev pub sparse_environment : Environment V₀ String Bool ℕ ℕ
sparse_environment = record environment {
  adapters = record adapters { fs = sparse_fs; disk = made_disk; remove_file = λ p w. w };
}
