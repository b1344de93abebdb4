-- ===== src/Signing/Hmac.antt =====
-- The keys of `hmac_sha256` in crates/cockpitctl-domain-signing/src/lib.rs.
use mathlib.Core.List.{append_assoc}
use cockpitctl.Base.{
  ◌≡◌, refl, ap, ◌∙◌, ℕ, zero, suc, ◌≤◌, ◌<◌, ◌+◌, ◌-◌, true, false, ltb, ◌∷◌, ◌++◌, length,
  length-append, arith,
}
use cockpitctl.Ingest.Ports.{Bytes}
use cockpitctl.Signing.{block, zeros, copied, key_block, hmac_sha256}

length-zeros : (n : ℕ) → length (zeros n) ≡ n
length-zeros zero = refl
length-zeros (suc n) = omega (arith, length-zeros n)

zeros-append : (m n : ℕ) → zeros m ++ zeros n ≡ zeros (m + n)
zeros-append zero n = let e : n ≡ zero + n = omega arith in ap zeros e
zeros-append (suc m) n =
    let e : suc (m + n) ≡ suc m + n = omega arith in ap (λ l. 0 ∷ l) (zeros-append m n) ∙ ap zeros e

copied_padded :
    (key : Bytes) (n : ℕ) → length key + n ≤ block → copied (key ++ zeros n) ≡ copied key
unfolding copied
copied_padded key n h =
    append_assoc key (zeros n) (zeros (block - length (key ++ zeros n)))
    ∙ ap (λ l. key ++ l)
        (zeros-append n (block - length (key ++ zeros n))
          ∙ ap zeros (omega (arith, length-append key (zeros n), length-zeros n)))

module _ (digest : Bytes → Bytes) (key message : Bytes) where
  -- A key up to the block size and the same key with zeros at its end, up to the block size, make the
  -- same code; a longer key makes the code of its digest, if a digest is no longer than a block.
  pub hmac_sha256_keys :
      ((n : ℕ)
        → length key + n ≤ block
        → hmac_sha256 digest (key ++ zeros n) message ≡ hmac_sha256 digest key message)
      × (block < length key
          → length (digest key) ≤ block
          → hmac_sha256 digest key message ≡ hmac_sha256 digest (digest key) message)
  unfolding hmac_sha256 key_block
  hmac_sha256_keys = (
    λ n h.
        let l = length-append key (zeros n) in
        let z = length-zeros n in
        let short : ltb block (length key) ≡ false = ground arith in
        let short' : ltb block (length (key ++ zeros n)) ≡ false = ground (arith, l, z) in
        rw (short, short', copied_padded key n h) refl,
    λ h k.
        let long : ltb block (length key) ≡ true = ground arith in
        let short : ltb block (length (digest key)) ≡ false = ground arith in rw (long, short) refl,
  )

  -- Where a digest is no longer than a block, the block made of a key is a whole block.
  pub length-key_block : length (digest key) ≤ block → length (key_block digest key) ≡ block
  unfolding key_block copied
  length-key_block h = ground (
    arith,
    length-append (digest key) (zeros (block - length (digest key))),
    length-zeros (block - length (digest key)),
    length-append key (zeros (block - length key)),
    length-zeros (block - length key),
  )
