-- ===== src/Signing.antt =====
-- crates/cockpitctl-domain-signing/src/lib.rs and crates/cockpitctl-io-policy-signing/src/lib.rs: the
-- signature of the policy snapshot, and where its key comes from. A byte is a number below 256.
pub mod Keys
pub mod Hmac
use Prim.Native.Nat.{bit_xor}
use cockpitctl.Base.{
  ℕ, zero, suc, ◌-◌, String, Bool, true, false, ◌||◌, ◌==◌, ltb, Option, none, some, List, [], ◌∷◌,
  ◌++◌, map, length, concat, trim, is_empty, if◌then◌else◌,
}
use cockpitctl.Types.Enums.{PolicySignatureAlgorithm}
use cockpitctl.Types.Config.{PolicySigningConfig}
use cockpitctl.Types.Hints.{PolicySignatureEvidence}
use cockpitctl.Types.Reports.{PolicySnapshot}
use cockpitctl.Ingest.Ports.{Bytes}
use cockpitctl.Ingest.Result.{Result, ok, err, ◌>>=◌, context}

abbrev pub zeros : ℕ → Bytes
zeros zero = []
zeros (suc n) = 0 ∷ zeros n

abbrev pub block : ℕ
block = 64

-- A block of zeros into which the bytes are copied from its start.
unfoldable pub copied : Bytes → Bytes
copied bytes = bytes ++ zeros (block - length bytes)

-- `[byte; 64]` after `^=` with it, byte by byte.
unfoldable pub xored : ℕ → Bytes → Bytes
xored byte bytes = map (λ b. bit_xor byte b) bytes

abbrev pub no_bytes : Bytes → Bool
no_bytes [] = true
no_bytes (b ∷ rest) = false

abbrev pub policy_signature_schema_id : String
policy_signature_schema_id = "cockpit.policy_signature.v1"

-- `digest` is `Sha256::digest`, `encode` is `hex::encode` and `to_vec` is `serde_json::to_vec`.
module _ (digest : Bytes → Bytes) where
  unfoldable pub key_block : Bytes → Bytes
  unfolding copied
  key_block key = if ltb block (length key) then copied (digest key) else copied key

  unfoldable pub hmac_sha256 : Bytes → Bytes → Bytes
  unfolding key_block xored
  hmac_sha256 key message =
      digest (xored 0x5c (key_block key) ++ digest (xored 0x36 (key_block key) ++ message))

  module _ (encode : Bytes → String) (to_vec : PolicySnapshot → Result Bytes) where
    unfoldable pub canonical_policy_snapshot_bytes : PolicySnapshot → Result Bytes
    canonical_policy_snapshot_bytes policy =
        context "serialize policy snapshot for signing" (to_vec policy)

    unfoldable pub policy_snapshot_sha256_hex : PolicySnapshot → Result String
    unfolding canonical_policy_snapshot_bytes
    policy_snapshot_sha256_hex policy =
        canonical_policy_snapshot_bytes policy >>= λ payload. ok (encode (digest payload))

    unfoldable pub sign_policy_snapshot_hmac_sha256 :
        PolicySnapshot → Bytes → Option String → Result PolicySignatureEvidence
    unfolding canonical_policy_snapshot_bytes hmac_sha256
    sign_policy_snapshot_hmac_sha256 policy key key_id =
        if no_bytes key
        then err ("policy signing key is empty" ∷ [])
        else (canonical_policy_snapshot_bytes policy >>= λ payload. ok (record {
          schema = policy_signature_schema_id;
          algorithm = PolicySignatureAlgorithm.hmac_sha256;
          policy_sha256 = encode (digest payload);
          signature = encode (hmac_sha256 key payload);
          key_id = key_id;
        }))

    unfoldable pub sign_policy_snapshot :
        PolicySnapshot
        → PolicySignatureAlgorithm
        → Bytes
        → Option String
        → Result PolicySignatureEvidence
    unfolding sign_policy_snapshot_hmac_sha256
    sign_policy_snapshot policy PolicySignatureAlgorithm.hmac_sha256 key key_id =
        sign_policy_snapshot_hmac_sha256 policy key key_id

-- `Vec::last` and `Vec::pop`
unfoldable pub last : Bytes → Option ℕ
last [] = none
last (b ∷ []) = some b
last (b ∷ c ∷ rest) = last (c ∷ rest)

unfoldable pub pop : Bytes → Bytes
pop [] = []
pop (b ∷ []) = []
pop (b ∷ c ∷ rest) = b ∷ pop (c ∷ rest)

abbrev pub is_line_break : Option ℕ → Bool
is_line_break none = false
is_line_break (some b) = b == b'\n' || b == b'\r'

-- `while matches!(bytes.last(), Some(b'\n' | b'\r')) { bytes.pop(); }`, for at most so many rounds
unfoldable pub strip : ℕ → Bytes → Bytes
unfolding last pop
strip zero bytes = bytes
strip (suc fuel) bytes =
    let rest = strip fuel (pop bytes) in if is_line_break (last bytes) then rest else bytes

-- The loop takes at most one round for each byte.
unfoldable pub normalize_signing_key_bytes : Bytes → Result Bytes
unfolding strip
normalize_signing_key_bytes bytes =
    let stripped = strip (length bytes) bytes in
    if no_bytes stripped then err ("policy signing key is empty" ∷ []) else ok stripped

-- `read` is `fs::read` and `var` is `std::env::var`.
module _ (read var : String → Result Bytes) where
  key_from : String → String → (String → Result Bytes) → String → Result (Option Bytes)
  unfolding is_empty trim concat normalize_signing_key_bytes
  key_from empty source get name =
      if is_empty (trim name)
      then err (empty ∷ [])
      else (context (concat (source ∷ name ∷ [])) (get name) >>= λ bytes.
          normalize_signing_key_bytes bytes >>= λ key. ok (some key))

  unfoldable pub load_policy_signing_key : PolicySigningConfig → Result (Option Bytes)
  unfolding key_from
  load_policy_signing_key cfg = elim cfg.key_path [
    | some path ↦ key_from "policy signing key_path is empty" "read policy signing key " read path
    | none ↦ elim cfg.key_env [
      | some name ↦
          key_from "policy signing key_env is empty" "read policy signing key from env " var name
      | none ↦ ok none
    ]
  ]
