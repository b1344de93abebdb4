-- ===== src/Base/Slices.antt =====
-- The operations on `&str` that cut a text and put it together again: `replace`, `trim`, `trim_end`,
-- `ends_with` and `rfind`.
use Prim.Native.Char.{Char, code}
use Prim.Native.Nat.{ℕ}
use Prim.Native.String.{String, [] as nil, ◌∷◌ as cons, ◌++◌ as append}
use text.Mathlib.Text.{◌==◌ as str_eq}
use text.Mathlib.TextLemmas.{nil-append, cons-append}
use mathlib.Core.Path.{◌≡◌, refl, ◌∙◌, sym, ap, subst}
use mathlib.Core.Bool.{Bool, true, false, ◌&&◌, ◌||◌}
use mathlib.Core.Logic.{inl, inr}
use mathlib.Core.Option.{Option, none, some}
use native.Mathlib.Omega.{arith}
use cockpitctl.Base.Tests.{leb, ◌==◌, if◌then◌else◌, Bool-cases, Option-cases}
use cockpitctl.Base.Text.{is_empty, begins_with, contains, append_laws}

-- `s.replace(c, t)` for a character `c`
unfoldable pub replace : ℕ → String → String → String
replace c t nil = nil
replace c t (cons d s) =
    let rest = replace c t s in if code d == c then append t rest else cons d rest

-- `char::is_whitespace`: the characters with the Unicode property `White_Space`.
unfoldable pub is_whitespace : ℕ → Bool
is_whitespace c =
    leb 9 c && leb c 13
    || c == 32
    || c == 133
    || c == 160
    || c == 5760
    || leb 8192 c && leb c 8202
    || c == 8232
    || c == 8233
    || c == 8239
    || c == 8287
    || c == 12288

unfoldable pub trim_start : String → String
unfolding is_whitespace
trim_start nil = nil
trim_start (cons c s) = let rest = trim_start s in if is_whitespace (code c) then rest else cons c s

unfoldable pub trim_end : String → String
unfolding is_whitespace is_empty
trim_end nil = nil
trim_end (cons c s) =
    let rest = trim_end s in if is_empty rest && is_whitespace (code c) then nil else cons c rest

unfoldable pub trim : String → String
unfolding trim_start trim_end
trim s = trim_end (trim_start s)

-- `s.ends_with(t)`
unfoldable pub ends_with : String → String → Bool
ends_with nil t = str_eq nil t
ends_with (cons c s) t = str_eq (cons c s) t || ends_with s t

grow : Char → Option (String × String) → Option (String × String) → Option (String × String)
grow c here none = here
grow c here (some (head, tail)) = some (cons c head, tail)

-- `s.split_at(s.rfind(t)?)` for a text `t` that is not empty
unfoldable pub split_last : String → String → Option (String × String)
unfolding grow begins_with
split_last t nil = none
split_last t (cons c s) =
    grow c (if begins_with (cons c s) t then some (nil, cons c s) else none) (split_last t s)

pub replace-append :
    (c : ℕ) (t x y : String) → replace c t (append x y) ≡ append (replace c t x) (replace c t y)
unfolding replace
replace-append c t nil y = grind append_laws
replace-append c t (cons d x) y = grind (append_laws, replace-append c t x y)

pub ends_with-append : (x y t : String) → ends_with y t ≡ true → ends_with (append x y) t ≡ true
unfolding ends_with
ends_with-append nil y t h = rw (nil-append y) h
ends_with-append (cons c x) y t h = grind (append_laws, ends_with-append x y t h)

-- Where the last occurrence is followed by none, text in front of it does not change it.
pub split_last-append :
    (t x y : String) → split_last t y ≡ some ("", y) → split_last t (append x y) ≡ some (x, y)
unfolding split_last
split_last-append t nil y h = rw (nil-append y) h
split_last-append t (cons c x) y h = grind (append_laws, split_last-append t x y h)

-- The parts of a text that is cut at an occurrence which is the last.
abbrev pub IsCut : String → String → String × String → Type 0
IsCut t s p = (s ≡ append p.0 p.1) × (split_last t p.1 ≡ some ("", p.1))

pub split_last-IsCut : (t s : String) {p : String × String} → split_last t s ≡ some p → IsCut t s p
unfolding split_last grow
split_last-IsCut t nil h = cc
split_last-IsCut t (cons c s) {p} h = elim (Option-cases (split_last t s)) [
  | inl e ↦ elim (Bool-cases (begins_with (cons c s) t)) [
    | inl b ↦
        let q : ("", cons c s) ≡ p = cc in
        subst (IsCut t (cons c s)) q (sym (nil-append (cons c s)), rw (e, b) refl)
    | inr b ↦ cc
  ]
  | inr (r, e) ↦
      let q : (cons c r.0, r.1) ≡ p = cc in
      let (below, last) = split_last-IsCut t s {p = r} e in
      subst (IsCut t (cons c s)) q (ap (cons c) below ∙ sym (cons-append c r.0 r.1), last)
]

-- A text that contains another is cut at its last occurrence.
pub contains-split_last :
    (t s : String)
    → contains "" t ≡ false
    → contains s t ≡ true
    → (p : String × String) × (split_last t s ≡ some p)
unfolding contains split_last grow
contains-split_last t nil h k = cc
contains-split_last t (cons c s) h k = elim (Option-cases (split_last t s)) [
  | inl e ↦ elim (Bool-cases (begins_with (cons c s) t)) [
    | inl b ↦ (("", cons c s), rw (e, b) refl)
    | inr b ↦ let (p, f) = contains-split_last t s h (ground (arith, k, b)) in cc
  ]
  | inr (r, e) ↦ ((cons c r.0, r.1), rw e refl)
]
