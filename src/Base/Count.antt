-- ===== src/Base/Count.antt =====
-- How many elements pass a test. A rearrangement does not change it.
use Prim.Native.Nat.{ℕ, ◌+◌, ◌≤◌}
use mathlib.Core.Path.{◌≡◌, refl, ◌∙◌}
use mathlib.Core.Bool.{Bool, true, false}
use mathlib.Core.Logic.{∥∥₁_elim, inl, inr}
use mathlib.Core.List.{List, [], ◌∷◌, ◌++◌, Perm, Permᴰ}
use mathlib.Core.List.Perm
use native.Mathlib.Nat.{ℕ_set}
use native.Mathlib.Omega.{arith}
use cockpitctl.Base.Tests.{◌==◌, if◌then◌else◌, Bool-cases}
use cockpitctl.Base.Lists.{length, filter, any}

module _ {ℓ} {A : Type ℓ} (p : A → Bool) where
  -- `iter().filter(p).count()`
  abbrev pub count : List A → ℕ
  count [] = 0
  count (x ∷ xs) = (if p x then 1 else 0) + count xs

  pub count-append : (xs ys : List A) → count (xs ++ ys) ≡ count xs + count ys
  count-append [] ys = omega arith
  count-append (x ∷ xs) ys = omega (arith, count-append xs ys)

  count-permᴰ : {xs ys : List A} → Permᴰ xs ys → count xs ≡ count ys
  count-permᴰ Permᴰ.nil = refl
  count-permᴰ (Permᴰ.cons e r) = cc (e, count-permᴰ r)
  count-permᴰ (Permᴰ.swap {a = a} {b = b} {l = l} e f) = rw (← e, ← f) (omega arith)
  count-permᴰ (Permᴰ.trans r s) = count-permᴰ r ∙ count-permᴰ s

  pub count-perm : {xs ys : List A} → Perm xs ys → count xs ≡ count ys
  count-perm r = ∥∥₁_elim r (ℕ_set _ _) count-permᴰ

  pub count-le-length : (xs : List A) → count xs ≤ length xs
  count-le-length [] = omega arith
  count-le-length (x ∷ xs) = ground (arith, count-le-length xs)

  pub length-filter : (xs : List A) → length (filter p xs) ≡ count xs
  length-filter [] = refl
  length-filter (x ∷ xs) = ground (arith, length-filter xs)

  pub any-count : (xs : List A) → any p xs ≡ (if count xs == 0 then false else true)
  any-count [] = refl
  any-count (x ∷ xs) = ground (arith, any-count xs)

module _ {ℓ} {A : Type ℓ} (p : A → Bool) where
  filter_cons :
      (x : A) (xs ys : List A)
      → Perm (filter p xs) (filter p ys)
      → Perm (filter p (x ∷ xs)) (filter p (x ∷ ys))
  filter_cons x xs ys r = elim (Bool-cases (p x)) [ inl h ↦ rw h (Perm.cons x r) | inr h ↦ rw h r ]

  filter_swap : (x y : A) (l : List A) → Perm (filter p (x ∷ y ∷ l)) (filter p (y ∷ x ∷ l))
  filter_swap x y l = elim (Bool-cases (p x)) [
    | inl h ↦ elim (Bool-cases (p y)) [
      | inl k ↦ rw (h, k) (Perm.swap y x (filter p l))
      | inr k ↦ rw (h, k) Perm.rfl
    ]
    | inr h ↦ rw h Perm.rfl
  ]

  filter-permᴰ : {xs ys : List A} → Permᴰ xs ys → Perm (filter p xs) (filter p ys)
  filter-permᴰ Permᴰ.nil = Perm.rfl
  filter-permᴰ (Permᴰ.cons {a = a} e r) = rw (← e) (filter_cons a _ _ (filter-permᴰ r))
  filter-permᴰ (Permᴰ.swap {a = a} {b = b} {l = l} e f) = rw (← e, ← f) (filter_swap a b l)
  filter-permᴰ (Permᴰ.trans r s) = Perm.trans (filter-permᴰ r) (filter-permᴰ s)

  pub filter-perm : {xs ys : List A} → Perm xs ys → Perm (filter p xs) (filter p ys)
  filter-perm r = ∥∥₁_elim r squash₁ filter-permᴰ

pub length-perm {ℓ} : {A : Type ℓ} {xs ys : List A} → Perm xs ys → length xs ≡ length ys
length-perm {A} {xs} {ys} r = omega (arith, all xs, all ys, count-perm (λ (_ : A). true) r)
  where
    all : (l : List A) → count (λ _. true) l ≡ length l
    all [] = refl
    all (x ∷ l) = omega (arith, all l)
