-- ===== src/Tests/Signing.antt =====
-- A policy, signed with a key from a file.
use cockpitctl.Base.{◌≡◌, refl, String, true, false, none, some, [], ◌∷◌, arith}
use cockpitctl.Types.Enums.{PolicySignatureAlgorithm}
use cockpitctl.Types.Config.{PolicySigningConfig}
use cockpitctl.Types.Hints.{PolicySignatureEvidence}
use cockpitctl.Types.Reports.{PolicySnapshot}
use cockpitctl.Ingest.Ports.{Bytes}
use cockpitctl.Ingest.Result.{Result, ok, err}
use cockpitctl.Signing.{
  last, strip, is_line_break, hmac_sha256, normalize_signing_key_bytes, load_policy_signing_key,
  sign_policy_snapshot, policy_snapshot_sha256_hex,
}
use cockpitctl.Signing.Keys.{
  IsNormalized, strip_ends, normalize_signing_key_bytes-IsNormalized, load_policy_signing_key-sign,
}

abbrev key_file : Bytes
key_file = b'k' ∷ b'\r' ∷ b'\n' ∷ []

strip_ends_example :
    (is_line_break (last (strip 5 key_file)) ≡ false) × (strip 5 key_file ≡ strip 3 key_file)
strip_ends_example = strip_ends 5 key_file (omega arith)

normalize_run : normalize_signing_key_bytes key_file ≡ ok (b'k' ∷ [])
unfolding normalize_signing_key_bytes
normalize_run = refl

normalize_signing_key_bytes-IsNormalized_example :
    IsNormalized key_file (normalize_signing_key_bytes key_file)
normalize_signing_key_bytes-IsNormalized_example = normalize_signing_key_bytes-IsNormalized key_file

abbrev snapshot : PolicySnapshot
snapshot = record {
  warn_is_fail = true;
  max_highlights = 1;
  max_per_sensor_findings = 1;
  max_annotations = 1;
  section_order = [];
  sensors = [];
}

abbrev config : PolicySigningConfig
config = record {
  enabled = true;
  algorithm = PolicySignatureAlgorithm.hmac_sha256;
  key_path = some "key";
  key_env = none;
  key_id = none;
}

abbrev read : String → Result Bytes
read path = ok key_file

abbrev var : String → Result Bytes
var name = err ("no such variable" ∷ [])

abbrev digest : Bytes → Bytes
digest b = 7 ∷ []

abbrev encode : Bytes → String
encode b = "07"

abbrev to_vec : PolicySnapshot → Result Bytes
to_vec p = ok (1 ∷ 2 ∷ [])

loaded : load_policy_signing_key read var config ≡ ok (some (b'k' ∷ []))
unfolding load_policy_signing_key
loaded = refl

load_policy_signing_key-sign_example :
    (evidence : PolicySignatureEvidence) × (sign_policy_snapshot digest encode to_vec snapshot
        PolicySignatureAlgorithm.hmac_sha256
        (b'k' ∷ [])
        none
      ≡ ok evidence)
    × (policy_snapshot_sha256_hex digest encode to_vec snapshot ≡ ok evidence.policy_sha256)
    × (evidence.signature ≡ encode (hmac_sha256 digest (b'k' ∷ []) (1 ∷ 2 ∷ [])))
load_policy_signing_key-sign_example =
    load_policy_signing_key-sign read var digest encode to_vec config snapshot
      PolicySignatureAlgorithm.hmac_sha256 none loaded refl
