-- ===== src/Types/Defaults.antt =====
-- crates/cockpitctl-types/src/lib.rs: the default values of the configuration.
use cockpitctl.Base.{ℕ, ◌*◌, String, true, false, none, List, [], ◌∷◌}
use cockpitctl.Types.Enums.{MissingPolicy, SchemaValidation, SafetyLevel, PolicySignatureAlgorithm}
use cockpitctl.Types.Config.{
  SensorPolicy, BuildfixPolicy, Policy, PolicySigningConfig, CockpitConfig,
}

abbrev default_max_highlights : ℕ
default_max_highlights = 7

abbrev default_max_per_sensor_findings : ℕ
default_max_per_sensor_findings = 20

abbrev default_max_annotations : ℕ
default_max_annotations = 25

abbrev default_max_receipt_size_bytes : ℕ
default_max_receipt_size_bytes = 2 * 1024 * 1024

abbrev default_section_order : List String
default_section_order =
    "Highlights" ∷ "Repo contract" ∷ "Dependencies" ∷ "Policy" ∷ "Tests" ∷ "Diagnostics"
    ∷ "Performance" ∷ "Environment" ∷ "Other" ∷ []

abbrev pub default_policy : Policy
default_policy = record {
  warn_is_fail = false;
  max_highlights = default_max_highlights;
  max_per_sensor_findings = default_max_per_sensor_findings;
  max_annotations = default_max_annotations;
  section_order = default_section_order;
  schema_validation = SchemaValidation.lax;
  max_receipt_size_bytes = default_max_receipt_size_bytes;
}

abbrev pub default_buildfix_policy : BuildfixPolicy
default_buildfix_policy = record {
  auto_apply = false;
  max_auto_apply_safety = SafetyLevel.safe;
  require_matched_finding = true;
  actuator = none;
}

abbrev pub default_sensor_policy : SensorPolicy
default_sensor_policy = record {
  blocking = false;
  missing = MissingPolicy.skip;
  section = none;
  require_label = none;
  repro = none;
}

abbrev pub default_policy_signing : PolicySigningConfig
default_policy_signing = record {
  enabled = false;
  algorithm = PolicySignatureAlgorithm.hmac_sha256;
  key_path = none;
  key_env = none;
  key_id = none;
}

abbrev pub default_config : CockpitConfig
default_config = record {
  policy = default_policy;
  buildfix = default_buildfix_policy;
  policy_signing = default_policy_signing;
  sensors = [];
  hooks = [];
}
