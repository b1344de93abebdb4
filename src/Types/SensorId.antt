-- ===== src/Types/SensorId.antt =====
-- crates/cockpitctl-types/src/lib.rs: `is_valid_sensor_id`. A byte that is no ASCII letter, digit,
-- `_` or `-` fails the test, and so does every byte of a character beyond ASCII; so the test of
-- the bytes is a test of the characters.
use Prim.Native.Char.{Char, code}
use Prim.Native.Nat.{ℕ}
use Prim.Native.String.{String, [] as nil, ◌∷◌ as cons}
use cockpitctl.Base.{
  ◌≡◌, refl, inl, inr, Bool, Bool-cases, true, false, ◌&&◌, ◌||◌, not, arith, leb, ◌==◌, is_empty,
  all_chars, begins_with, contains,
}

-- `u8::is_ascii_alphanumeric`
is_ascii_alphanumeric : ℕ → Bool
is_ascii_alphanumeric b =
    leb b'0' b && leb b b'9' || leb b'A' b && leb b b'Z' || leb b'a' b && leb b b'z'

unfoldable pub is_id_byte : ℕ → Bool
unfolding is_ascii_alphanumeric
is_id_byte b = is_ascii_alphanumeric b || b == b'_' || b == b'-'

unfoldable pub is_valid_sensor_id : String → Bool
unfolding is_id_byte is_empty all_chars contains
is_valid_sensor_id id =
    not (is_empty id)
    && not (contains id "..")
    && not (contains id "/")
    && not (contains id "\\")
    && all_chars is_id_byte id

begins_with-first :
    (p : ℕ → Bool) (c : Char) (t s : String)
    → begins_with s (cons c t) ≡ true
    → all_chars p s ≡ true
    → p (code c) ≡ true
unfolding begins_with all_chars
begins_with-first p c t nil h k = cc
begins_with-first p c t (cons d s) h k = ground arith

contains-first :
    (p : ℕ → Bool) (c : Char) (t s : String)
    → contains s (cons c t) ≡ true
    → all_chars p s ≡ true
    → p (code c) ≡ true
unfolding contains all_chars
contains-first p c t nil h k = cc
contains-first p c t (cons d s) h k =
    ground (arith, begins_with-first p c t (cons d s), contains-first p c t s)

not-contains :
    (p : ℕ → Bool) (c : Char) (t s : String)
    → p (code c) ≡ false
    → all_chars p s ≡ true
    → contains s (cons c t) ≡ false
not-contains p c t s h k = ground (arith, contains-first p c t s)

-- The tests for `..`, `/` and `\` follow from the test of the characters.
pub is_valid_sensor_id_lem :
    (id : String) → is_valid_sensor_id id ≡ (not (is_empty id) && all_chars is_id_byte id)
unfolding is_valid_sensor_id
is_valid_sensor_id_lem id = elim (Bool-cases (all_chars is_id_byte id)) [
  | inl h ↦
      let dots : contains id ".." ≡ false = not-contains is_id_byte "." "." id refl h in
      let slash : contains id "/" ≡ false = not-contains is_id_byte "/" "" id refl h in
      let backslash : contains id "\\" ≡ false = not-contains is_id_byte "\\" "" id refl h in
      ground arith
  | inr h ↦ ground arith
]
