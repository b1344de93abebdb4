-- ===== src/Base/Word.antt =====
-- The machine integers of the crates: `u32`, `u64`, and `usize` on a 64-bit target.
use Prim.Native.Nat.{ℕ, ◌+◌, min}

abbrev pub u32_max : ℕ
u32_max = 4294967295

abbrev pub u64_max : ℕ
u64_max = 18446744073709551615

abbrev pub usize_max : ℕ
usize_max = 18446744073709551615

-- `u64::saturating_add`
abbrev pub saturating_add : ℕ → ℕ → ℕ
saturating_add a b = min (a + b) u64_max
