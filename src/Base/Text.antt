-- ===== src/Base/Text.antt =====
-- `String` and `&str`. A text is a native `String`; its order by code points is the order of the
-- UTF-8 bytes that Rust compares. `format!` is `concat` of its pieces, and a number is printed by
-- `to_string`.
use Prim.Native.Char.{code}
use Prim.Native.Nat.{ℕ, zero, suc, ◌/◌, ◌%◌, ◌<◌}
use Prim.Native.String.{String, [] as nil, ◌∷◌ as cons, ◌++◌ as append}
use text.Mathlib.TextLemmas.{nil-append, cons-append, append_assoc}
use mathlib.Core.Path.{◌≡◌, refl}
use mathlib.Core.Bool.{Bool, true, false, ◌&&◌, ◌||◌}
use mathlib.Core.List.{List, [], ◌∷◌}
use native.Mathlib.Omega.{arith}
use cockpitctl.Base.Tests.{ltb, ◌==◌, if◌then◌else◌}

unfoldable pub concat : List String → String
concat [] = ""
concat (s ∷ rest) = append s (concat rest)

-- `slice::join`
unfoldable pub join : String → List String → String
join sep [] = ""
join sep (s ∷ []) = s
join sep (s ∷ t ∷ rest) = append s (append sep (join sep (t ∷ rest)))

unfoldable pub is_empty : String → Bool
is_empty nil = true
is_empty (cons c s) = false

-- Every character passes the test.
unfoldable pub all_chars : (ℕ → Bool) → String → Bool
all_chars p nil = true
all_chars p (cons c s) = p (code c) && all_chars p s

unfoldable pub begins_with : String → String → Bool
begins_with s nil = true
begins_with nil (cons c t) = false
begins_with (cons d s) (cons c t) = code d == code c && begins_with s t

pub begins_with-append : (s t : String) → begins_with (append s t) s ≡ true
unfolding begins_with
begins_with-append nil t = refl
begins_with-append (cons c s) t = rw (cons-append c s t) (ground (arith, begins_with-append s t))

-- `str::contains`
unfoldable pub contains : String → String → Bool
unfolding begins_with
contains nil t = begins_with nil t
contains (cons c s) t = begins_with (cons c s) t || contains s t

digit : ℕ → String
digit d =
    if d == 0
    then "0"
    else if d == 1
    then "1"
    else if d == 2
    then "2"
    else if d == 3
    then "3"
    else if d == 4
    then "4"
    else if d == 5
    then "5"
    else if d == 6
    then "6"
    else if d == 7
    then "7"
    else if d == 8
    then "8"
    else "9"

decimal : ℕ → ℕ → String
unfolding digit
decimal zero n = ""
decimal (suc fuel) n =
    let front = decimal fuel (n / 10) in if ltb n 10 then digit n else append front (digit (n % 10))

-- A number has fewer digits than `n + 1`.
unfoldable pub to_string : ℕ → String
unfolding decimal
to_string n = decimal (suc n) n

decimal_fuel : (f g n : ℕ) → n < f → n < g → decimal f n ≡ decimal g n
unfolding decimal
decimal_fuel zero g n h k = elim h [ ]
decimal_fuel (suc f) zero n h k = elim k [ ]
decimal_fuel (suc f) (suc g) n h k = ground (arith, decimal_fuel f g (n / 10))

to_string_large : to_string 18446744073709551615 ≡ "18446744073709551615"
unfolding to_string
to_string_large = refl

pub ruleset append_laws = (arith, nil-append, cons-append, append_assoc)

-- The digits are the only characters of a printed number.
abbrev pub digits : String
digits = "0123456789"

all_chars-if :
    (p : ℕ → Bool) (b : Bool) (x y : String)
    → all_chars p x ≡ true
    → all_chars p y ≡ true
    → all_chars p (if b then x else y) ≡ true
all_chars-if p true x y h k = h
all_chars-if p false x y h k = k

all_chars-digit : (p : ℕ → Bool) (d : ℕ) → all_chars p digits ≡ true → all_chars p (digit d) ≡ true
unfolding all_chars digit
all_chars-digit p d h = all_chars-if p (d == 0) "0" _ (ground arith) (
    all_chars-if p (d == 1) "1" _ (ground arith) (
      all_chars-if p (d == 2) "2" _ (ground arith) (
        all_chars-if p (d == 3) "3" _ (ground arith) (
          all_chars-if p (d == 4) "4" _ (ground arith) (
            all_chars-if p (d == 5) "5" _ (ground arith) (
              all_chars-if p (d == 6) "6" _ (ground arith) (
                all_chars-if p (d == 7) "7" _ (ground arith)
                  (all_chars-if p (d == 8) "8" _ (ground arith) (ground arith)))))))))

pub all_chars-append :
    (p : ℕ → Bool) (x y : String) → all_chars p (append x y) ≡ (all_chars p x && all_chars p y)
unfolding all_chars
all_chars-append p nil y = grind append_laws
all_chars-append p (cons c x) y = grind (append_laws, all_chars-append p x y)

all_chars-decimal :
    (p : ℕ → Bool) (f n : ℕ) → all_chars p digits ≡ true → all_chars p (decimal f n) ≡ true
unfolding decimal all_chars
all_chars-decimal p zero n h = refl
all_chars-decimal p (suc f) n h = all_chars-if p (ltb n 10) _ _ (all_chars-digit p n h) (
    rw (all_chars-append p (decimal f (n / 10)) (digit (n % 10)), all_chars-decimal p f (n / 10) h)
      (all_chars-digit p (n % 10) h))

pub all_chars-to_string :
    (p : ℕ → Bool) (n : ℕ) → all_chars p digits ≡ true → all_chars p (to_string n) ≡ true
unfolding to_string
all_chars-to_string p n h = all_chars-decimal p (suc n) n h
