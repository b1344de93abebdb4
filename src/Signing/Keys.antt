-- ===== src/Signing/Keys.antt =====
-- The key of crates/cockpitctl-io-policy-signing/src/lib.rs, and its use by
-- crates/cockpitctl-domain-signing/src/lib.rs.
use mathlib.Core.List.{append_assoc, append-nil}
use cockpitctl.Base.{
  ◌≡◌, refl, sym, ap, ◌∙◌, inl, inr, Bool-cases, Option-cases, trim, is_empty, concat, ℕ, zero, suc,
  ◌≤◌, ◌+◌, String, Bool, true, false, ◌&&◌, Option, none, some, [], ◌∷◌, ◌++◌, length, arith,
}
use cockpitctl.Ingest.Ports.{Bytes}
use cockpitctl.Types.Config.{PolicySigningConfig}
use cockpitctl.Types.Reports.{PolicySnapshot}
use cockpitctl.Types.Hints.{PolicySignatureEvidence}
use cockpitctl.Types.Enums.{PolicySignatureAlgorithm}
use cockpitctl.Ingest.Result.{Result, ok, err, context, Always, Always->>=, Always-bind, Always-eq}
use cockpitctl.Signing.{
  no_bytes, last, pop, is_line_break, strip, normalize_signing_key_bytes, key_from,
  load_policy_signing_key, sign_policy_snapshot, sign_policy_snapshot_hmac_sha256,
  policy_snapshot_sha256_hex, canonical_policy_snapshot_bytes, hmac_sha256,
}

-- Line breaks only.
abbrev pub breaks : Bytes → Bool
breaks [] = true
breaks (b ∷ rest) = is_line_break (some b) && breaks rest

breaks-append : (x y : Bytes) → breaks (x ++ y) ≡ (breaks x && breaks y)
breaks-append [] y = refl
breaks-append (b ∷ x) y = ground (arith, breaks-append x y)

length-pop :
    (bytes : Bytes) → is_line_break (last bytes) ≡ true → length bytes ≡ length (pop bytes) + 1
unfolding last pop
length-pop [] h = cc
length-pop (b ∷ []) h = refl
length-pop (b ∷ c ∷ rest) h = omega (arith, length-pop (c ∷ rest) h)

strip_stable :
    (f g : ℕ) (bytes : Bytes) → length bytes ≤ f → length bytes ≤ g → strip f bytes ≡ strip g bytes
unfolding strip last
strip_stable zero zero bytes h k = refl
strip_stable zero (suc g) [] h k = refl
strip_stable zero (suc g) (b ∷ bytes) h k = absurd (omega arith)
strip_stable (suc f) zero [] h k = refl
strip_stable (suc f) zero (b ∷ bytes) h k = absurd (omega arith)
strip_stable (suc f) (suc g) bytes h k =
    ground (arith, strip_stable f g (pop bytes), length-pop bytes)

strip_ended :
    (f : ℕ) (bytes : Bytes) → length bytes ≤ f → is_line_break (last (strip f bytes)) ≡ false
unfolding strip last
strip_ended zero [] h = refl
strip_ended zero (b ∷ bytes) h = absurd (omega arith)
strip_ended (suc f) bytes h = ground (arith, strip_ended f (pop bytes), length-pop bytes)

-- With as many rounds as there are bytes the loop has ended: no line break is left at the end, and
-- more rounds change nothing.
pub strip_ends :
    (fuel : ℕ) (bytes : Bytes)
    → length bytes ≤ fuel
    → (is_line_break (last (strip fuel bytes)) ≡ false)
      × (strip fuel bytes ≡ strip (length bytes) bytes)
strip_ends fuel bytes h =
    (strip_ended fuel bytes h, strip_stable fuel (length bytes) bytes h (omega arith))

last-pop :
    (bytes : Bytes)
    → is_line_break (last bytes) ≡ true
    → (b : ℕ) × (bytes ≡ pop bytes ++ b ∷ []) × (is_line_break (some b) ≡ true)
unfolding last pop
last-pop [] h = cc
last-pop (b ∷ []) h = (b, refl, h)
last-pop (b ∷ c ∷ rest) h = let (d, e, k) = last-pop (c ∷ rest) h in (d, ap (λ l. b ∷ l) e, k)

-- What the loop takes away is line breaks.
strip_parts :
    (fuel : ℕ) (bytes : Bytes)
    → (tail : Bytes) × (bytes ≡ strip fuel bytes ++ tail) × (breaks tail ≡ true)
unfolding strip
strip_parts zero bytes = ([], sym (append-nil bytes), refl)
strip_parts (suc fuel) bytes = elim (Bool-cases (is_line_break (last bytes))) [
  | inl k ↦
      let (b, e, j) = last-pop bytes k in
      let (tail, below, all) = strip_parts fuel (pop bytes) in
      rw k (
        tail ++ b ∷ [],
        e ∙ ap (λ l. l ++ b ∷ []) below ∙ append_assoc (strip fuel (pop bytes)) tail (b ∷ []),
        rw (breaks-append tail (b ∷ []), all, j) refl,
      )
  | inr k ↦ rw k ([], sym (append-nil bytes), refl)
]

-- What the key is, or that there is none.
abbrev pub IsNormalized : Bytes → Result Bytes → Type 0
IsNormalized bytes (ok key) =
    (no_bytes key ≡ false)
    × (is_line_break (last key) ≡ false)
    × ((tail : Bytes) × (bytes ≡ key ++ tail) × (breaks tail ≡ true))
IsNormalized bytes (err e) = breaks bytes ≡ true

all_tail :
    (key tail : Bytes) {bytes : Bytes}
    → bytes ≡ key ++ tail
    → no_bytes key ≡ true
    → breaks tail ≡ true
    → breaks bytes ≡ true
all_tail [] tail e h k = rw e k
all_tail (b ∷ key) tail e h k = cc

-- The key is the bytes without the line breaks at their end, and is never empty; the bytes are
-- refused only if they are line breaks throughout.
pub normalize_signing_key_bytes-IsNormalized :
    (bytes : Bytes) → IsNormalized bytes (normalize_signing_key_bytes bytes)
unfolding normalize_signing_key_bytes
normalize_signing_key_bytes-IsNormalized bytes =
    elim (Bool-cases (no_bytes (strip (length bytes) bytes))) [
      | inl h ↦
          let (tail, e, all) = strip_parts (length bytes) bytes in
          rw h (all_tail (strip (length bytes) bytes) tail e h all)
      | inr h ↦
          rw h
            (h, (strip_ends (length bytes) bytes (omega arith)).0, strip_parts (length bytes) bytes)
    ]

-- There is a key and it is not empty, or there is none.
abbrev IsKey : Option Bytes → Type 0
IsKey none = Unit
IsKey (some key) = no_bytes key ≡ false

normalized-IsKey :
    (bytes : Bytes) → Always (λ key. IsKey (some key)) (normalize_signing_key_bytes bytes)
unfolding normalize_signing_key_bytes
normalized-IsKey bytes = elim (Bool-cases (no_bytes (strip (length bytes) bytes))) [
  | inl h ↦ rw h tt
  | inr h ↦ rw h h
]

module _ (read var : String → Result Bytes) where
  key_from-IsKey :
      (empty source : String) (get : String → Result Bytes) (name : String)
      → Always IsKey (key_from read var empty source get name)
  unfolding key_from
  key_from-IsKey empty source get name = elim (Bool-cases (is_empty (trim name))) [
    | inl h ↦ rw h tt
    | inr h ↦ rw h (
        Always->>= IsKey (context (concat (source ∷ name ∷ [])) (get name)) _ (λ bytes.
          Always-bind (λ key. IsKey (some key)) IsKey (normalize_signing_key_bytes bytes) _
            (normalized-IsKey bytes) (λ key k. k)))
  ]

  load_policy_signing_key-IsKey :
      (cfg : PolicySigningConfig) → Always IsKey (load_policy_signing_key read var cfg)
  unfolding load_policy_signing_key
  load_policy_signing_key-IsKey cfg = elim (Option-cases cfg.key_path) [
    | inr (path, e) ↦ rw e (key_from-IsKey _ _ read path)
    | inl e ↦ elim (Option-cases cfg.key_env) [
      | inr (name, f) ↦ rw (e, f) (key_from-IsKey _ _ var name)
      | inl f ↦ rw (e, f) tt
    ]
  ]

  -- A key that was loaded signs every policy that can be serialized, and the digest in the evidence is
  -- the one that is computed for the policy without a key.
  pub load_policy_signing_key-sign :
      (digest : Bytes → Bytes) (encode : Bytes → String) (to_vec : PolicySnapshot → Result Bytes)
      (cfg : PolicySigningConfig) (policy : PolicySnapshot) (algorithm : PolicySignatureAlgorithm)
      (key_id : Option String) {key payload : Bytes}
      → load_policy_signing_key read var cfg ≡ ok (some key)
      → to_vec policy ≡ ok payload
      → (evidence : PolicySignatureEvidence) × (sign_policy_snapshot digest encode to_vec policy
            algorithm key key_id
          ≡ ok evidence)
        × (policy_snapshot_sha256_hex digest encode to_vec policy ≡ ok evidence.policy_sha256)
        × (evidence.signature ≡ encode (hmac_sha256 digest key payload))
  unfolding sign_policy_snapshot sign_policy_snapshot_hmac_sha256 policy_snapshot_sha256_hex
      canonical_policy_snapshot_bytes
  load_policy_signing_key-sign digest encode to_vec cfg policy PolicySignatureAlgorithm.hmac_sha256
        key_id {key} {payload} h k =
      let full : no_bytes key ≡ false =
        Always-eq IsKey (load_policy_signing_key read var cfg) (load_policy_signing_key-IsKey cfg)
          h in
      rw (full, k) (_, refl, refl, refl)
