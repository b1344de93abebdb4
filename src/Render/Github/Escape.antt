-- ===== src/Render/Github/Escape.antt =====
-- `gh_escape` of crates/cockpitctl-render/src/lib.rs: three passes over the text.
use Prim.Native.Char.{Char, code}
use Prim.Native.String.{[] as nil, ◌∷◌ as cons, ◌++◌ as append}
use text.Mathlib.TextLemmas.{cons-append, nil-append}
use text.Mathlib.TextEquality.{Char-path}
use cockpitctl.Base.{
  ◌≡◌, refl, sym, ap, ap₂, ◌∙◌, ℕ, String, Bool, true, not, Bool-cases, inl, inr, ◌||◌, arith, ◌==◌,
  all_chars, replace, replace-append, all_chars-append, if◌then◌else◌,
}
use cockpitctl.Render.Github.{gh_escape}

append_one : (c : Char) (s : String) → append (cons c nil) s ≡ cons c s
append_one c s = cons-append c nil s ∙ ap (cons c) (nil-append s)

-- What stands for one character, if every character is replaced at once.
hide : Char → String
hide c =
    if code c == b'%'
    then "%25"
    else if code c == b'\n'
    then "%0A"
    else if code c == b'\r'
    then "%0D"
    else cons c nil

pub one_pass : String → String
unfolding hide
one_pass nil = nil
one_pass (cons c s) = append (hide c) (one_pass s)

gh_escape-append : (x y : String) → gh_escape (append x y) ≡ append (gh_escape x) (gh_escape y)
unfolding gh_escape
gh_escape-append x y =
    rw
      (
        replace-append b'%' "%25" x y,
        replace-append b'\n' "%0A" (replace b'%' "%25" x) (replace b'%' "%25" y),
        replace-append b'\r' "%0D" (replace b'\n' "%0A" (replace b'%' "%25" x))
            (replace b'\n' "%0A" (replace b'%' "%25" y)),
      )
      refl

gh_escape_char : (c : Char) → gh_escape (cons c nil) ≡ hide c
unfolding gh_escape hide replace
gh_escape_char c = elim (Bool-cases (code c == b'%')) [
  | inl h ↦ rw h refl
  | inr h ↦ rw h (elim (Bool-cases (code c == b'\n')) [
    | inl k ↦ rw k refl
    | inr k ↦ rw k (elim (Bool-cases (code c == b'\r')) [ inl j ↦ rw j refl | inr j ↦ rw j refl ])
  ])
]

pub gh_escape-one_pass : (s : String) → gh_escape s ≡ one_pass s
unfolding one_pass gh_escape replace
gh_escape-one_pass nil = refl
gh_escape-one_pass (cons c s) =
    ap gh_escape (sym (append_one c s))
    ∙ gh_escape-append (cons c nil) s
    ∙ ap₂ append (gh_escape_char c) (gh_escape-one_pass s)

-- Reads an escaped text back: `k` is 0 between the escapes, 1 behind `%`, 2 behind `%0` and 3 behind
-- `%2`.
read : ℕ → String → String
read k nil = nil
read k (cons c s) =
    let next = λ (j : ℕ). read j s in
    if k == 0
    then (if code c == b'%' then read 1 s else cons c (read 0 s))
    else if k == 1
    then (if code c == b'0' then read 2 s else read 3 s)
    else if k == 2
    then append (if code c == b'A' then "\n" else "\r") (read 0 s)
    else append "%" (read 0 s)

append_three :
    (a b c : Char) (s : String)
    → append (cons a (cons b (cons c nil))) s ≡ cons a (cons b (cons c s))
append_three a b c s =
    cons-append a (cons b (cons c nil)) s
    ∙ ap (cons a) (cons-append b (cons c nil) s ∙ ap (cons b) (append_one c s))

-- Reading an escape gives the character `d` that it stands for.
read_escape :
    (c d : Char) (e s : String)
    → read 0 e ≡ append (cons d nil) (read 0 s)
    → code d ≡ code c
    → read 0 e ≡ cons c (read 0 s)
read_escape c d e s h k =
    h ∙ append_one d (read 0 s) ∙ ap (λ x. cons x (read 0 s)) (Char-path d c k)

read-hide : (c : Char) (s : String) → read 0 (append (hide c) s) ≡ cons c (read 0 s)
unfolding read hide
read-hide c s = elim (Bool-cases (code c == b'%')) [
  | inl h ↦ rw h (
      read_escape c "%" (append "%25" s) s (ap (read 0) (append_three "%" "2" "5" s))
        (ground arith))
  | inr h ↦ rw h (elim (Bool-cases (code c == b'\n')) [
    | inl k ↦ rw k (
        read_escape c "\n" (append "%0A" s) s (ap (read 0) (append_three "%" "0" "A" s))
          (ground arith))
    | inr k ↦ rw k (elim (Bool-cases (code c == b'\r')) [
      | inl j ↦ rw j (
          read_escape c "\r" (append "%0D" s) s (ap (read 0) (append_three "%" "0" "D" s))
            (ground arith))
      | inr j ↦ rw j (ap (read 0) (append_one c s) ∙ rw h refl)
    ])
  ])
]

read-one_pass : (s : String) → read 0 (one_pass s) ≡ s
unfolding one_pass read
read-one_pass nil = refl
read-one_pass (cons c s) = read-hide c (one_pass s) ∙ ap (cons c) (read-one_pass s)

-- Texts that are escaped to the same text are the same.
pub gh_escape-injective : (s t : String) → gh_escape s ≡ gh_escape t → s ≡ t
gh_escape-injective s t h =
    sym (read-one_pass s)
    ∙ ap (read 0) (sym (gh_escape-one_pass s) ∙ h ∙ gh_escape-one_pass t)
    ∙ read-one_pass t

-- Neither a line feed nor a carriage return.
abbrev pub is_inline : ℕ → Bool
is_inline c = not (c == b'\n' || c == b'\r')

hide_inline : (c : Char) → all_chars is_inline (hide c) ≡ true
unfolding hide all_chars
hide_inline c = elim (Bool-cases (code c == b'%')) [
  | inl h ↦ rw h refl
  | inr h ↦ rw h (elim (Bool-cases (code c == b'\n')) [
    | inl k ↦ rw k refl
    | inr k ↦
        rw k (elim (Bool-cases (code c == b'\r')) [
          | inl j ↦ rw j refl
          | inr j ↦ rw j (rw (k, j) refl)
        ])
  ])
]

one_pass_inline : (s : String) → all_chars is_inline (one_pass s) ≡ true
unfolding one_pass all_chars
one_pass_inline nil = refl
one_pass_inline (cons c s) =
    rw (all_chars-append is_inline (hide c) (one_pass s), hide_inline c) (one_pass_inline s)

pub gh_escape_inline : (s : String) → all_chars is_inline (gh_escape s) ≡ true
gh_escape_inline s = rw gh_escape-one_pass (one_pass_inline s)
