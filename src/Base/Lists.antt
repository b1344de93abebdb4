-- ===== src/Base/Lists.antt =====
-- Lists measured by native numbers, and the slice and iterator operations that the crates use:
-- `len`, `truncate`, `iter().filter`, `iter().any`, `contains`.
use Prim.Native.Nat.{ℕ, zero, suc, ◌+◌, ◌≤◌, ◌<◌, min}
use mathlib.Core.Path.{◌≡◌, refl, sym, ap}
use mathlib.Core.Logic.{◌↔◌, inl, inr}
use mathlib.Core.Bool.{Bool, true, false, ◌||◌}
use mathlib.Core.List.{List, [], ◌∷◌, ◌++◌, map, Mem, Pairwise, mem-cons, mem-cons_of_mem}
use mathlib.Core.List.{not-mem-nil, Mem-prop}
use mathlib.Core.Logic.Or
use native.Mathlib.Omega.{arith}
use cockpitctl.Base.Tests.{if◌then◌else◌, Bool-cases}

module _ {ℓ} {A : Type ℓ} where
  abbrev pub length : List A → ℕ
  length [] = 0
  length (x ∷ xs) = suc (length xs)

  abbrev pub take : ℕ → List A → List A
  take zero xs = []
  take (suc n) [] = []
  take (suc n) (x ∷ xs) = x ∷ take n xs

  abbrev pub drop : ℕ → List A → List A
  drop zero xs = xs
  drop (suc n) [] = []
  drop (suc n) (x ∷ xs) = drop n xs

  abbrev pub filter : (A → Bool) → List A → List A
  filter p [] = []
  filter p (x ∷ xs) = let rest = filter p xs in if p x then x ∷ rest else rest

  abbrev pub any : (A → Bool) → List A → Bool
  any p [] = false
  any p (x ∷ xs) = p x || any p xs

  pub length-append : (xs ys : List A) → length (xs ++ ys) ≡ length xs + length ys
  length-append [] ys = omega arith
  length-append (x ∷ xs) ys = omega (arith, length-append xs ys)

  pub length-take : (n : ℕ) (xs : List A) → length (take n xs) ≡ min n (length xs)
  length-take zero xs = omega arith
  length-take (suc n) [] = omega arith
  length-take (suc n) (x ∷ xs) = omega (arith, length-take n xs)

  pub take_all : (n : ℕ) (xs : List A) → length xs ≤ n → take n xs ≡ xs
  take_all zero [] h = refl
  take_all zero (x ∷ xs) h = absurd (omega arith)
  take_all (suc n) [] h = refl
  take_all (suc n) (x ∷ xs) h = ground (arith, take_all n xs)

  pub mem-take : (n : ℕ) {xs : List A} {a : A} → Mem a (take n xs) → Mem a xs
  mem-take zero m = absurd (not-mem-nil m)
  mem-take (suc n) {xs = []} m = m
  mem-take (suc n) {xs = x ∷ xs} {a} m =
      Or.elim Mem-prop (mem-cons.0 m) (λ e. mem-cons.1 (Or.inl e))
        (λ r. mem-cons_of_mem x (mem-take n {xs = xs} r))

  pub mem-drop : (n : ℕ) (xs : List A) {a : A} → Mem a (drop n xs) → Mem a xs
  mem-drop zero xs m = m
  mem-drop (suc n) [] m = m
  mem-drop (suc n) (x ∷ xs) m = mem-cons_of_mem x (mem-drop n xs m)

  pub take-append-drop : (n : ℕ) (xs : List A) → take n xs ++ drop n xs ≡ xs
  take-append-drop zero xs = refl
  take-append-drop (suc n) [] = refl
  take-append-drop (suc n) (x ∷ xs) = rw (take-append-drop n xs)

  pub mem-drop-lt : (n : ℕ) (xs : List A) {a : A} → Mem a (drop n xs) → n < length xs
  mem-drop-lt zero [] m = absurd (not-mem-nil m)
  mem-drop-lt zero (x ∷ xs) m = omega arith
  mem-drop-lt (suc n) [] m = absurd (not-mem-nil m)
  mem-drop-lt (suc n) (x ∷ xs) m = omega (arith, mem-drop-lt n xs m)

  pub Pairwise-take {κ} :
      {R : A → A → Type κ} (n : ℕ) {xs : List A} → Pairwise R xs → Pairwise R (take n xs)
  Pairwise-take zero s = Pairwise.nil
  Pairwise-take (suc n) Pairwise.nil = Pairwise.nil
  Pairwise-take (suc n) (Pairwise.cons {l = l} below s) =
      Pairwise.cons (λ a m. below a (mem-take n m)) (Pairwise-take n s)

  pub length-filter-le : (p : A → Bool) (xs : List A) → length (filter p xs) ≤ length xs
  length-filter-le p [] = omega arith
  length-filter-le p (x ∷ xs) = ground (arith, length-filter-le p xs)

  pub filter-append :
      (p : A → Bool) (xs ys : List A) → filter p (xs ++ ys) ≡ filter p xs ++ filter p ys
  filter-append p [] ys = refl
  filter-append p (x ∷ xs) ys = ground (arith, filter-append p xs ys)

  pub mem-filter :
      (p : A → Bool) (xs : List A) {a : A} → Mem a (filter p xs) ↔ (Mem a xs × (p a ≡ true))
  mem-filter p [] = (λ m. absurd (not-mem-nil m), λ (m, _). m)
  mem-filter p (x ∷ xs) {a} = elim (Bool-cases (p x)) [
    | inl h ↦ rw h (
      λ m.
          Or.elim (Σ_prop p) (mem-cons.0 m) (λ e. (mem-cons.1 (Or.inl e), rw e h))
            (λ r. (mem-cons_of_mem x ((mem-filter p xs).0 r).0, ((mem-filter p xs).0 r).1)),
      λ (m, q).
          Or.elim Mem-prop (mem-cons.0 m) (λ e. mem-cons.1 (Or.inl e))
            (λ r. mem-cons_of_mem x ((mem-filter p xs).1 (r, q))),
    )
    | inr h ↦ rw h (
      λ m. (mem-cons_of_mem x ((mem-filter p xs).0 m).0, ((mem-filter p xs).0 m).1),
      λ (m, q).
          Or.elim Mem-prop (mem-cons.0 m) (λ e. absurd (let e' : p x ≡ p a = ap p (sym e) in cc))
            (λ r. (mem-filter p xs).1 (r, q)),
    )
  ]
    where
      Σ_prop : (p : A → Bool) → IsProp (Mem a (x ∷ xs) × (p a ≡ true))
      Σ_prop p = hlevel

module _ {ℓ κ} {A : Type ℓ} {B : Type κ} where
  pub map-take : (f : A → B) (n : ℕ) (xs : List A) → map f (take n xs) ≡ take n (map f xs)
  map-take f zero xs = refl
  map-take f (suc n) [] = refl
  map-take f (suc n) (x ∷ xs) = rw (map-take f n xs)

  pub length-map : (xs : List A) (f : A → B) → length (map f xs) ≡ length xs
  length-map [] f = refl
  length-map (x ∷ xs) f = ground (arith, length-map xs f)
