-- ===== src/Base/Sort.antt =====
-- `slice::sort_by`: a stable sort. The standard library promises a stable ascending rearrangement;
-- insertion from the right computes it.
use mathlib.Core.Path.{◌≡◌, refl}
use mathlib.Core.Bool.{Bool, true, Bool-set}
use mathlib.Core.List.{List, [], ◌∷◌, Mem, Perm, Pairwise, mem-cons, mem-cons_self, not-mem-nil}
use mathlib.Core.List.Perm
use mathlib.Core.Logic.Or
use mathlib.Core.Logic.{inl, inr}
use native.Mathlib.Omega.{arith}
use cockpitctl.Base.Tests.{if◌then◌else◌, Bool-cases}
use cockpitctl.Base.Order.{Cmp, IsOrder, le_of, is_eq, le_total, le_trans}
use cockpitctl.Base.Lists.{filter}

module _ {ℓ} {A : Type ℓ} (cmp : Cmp A) where
  -- Before the first element that is not below `x`.
  unfoldable pub insert_sorted : A → List A → List A
  insert_sorted x [] = x ∷ []
  insert_sorted x (y ∷ ys) = if le_of (cmp x y) then x ∷ y ∷ ys else y ∷ insert_sorted x ys

  unfoldable pub sort_by : List A → List A
  unfolding insert_sorted
  sort_by [] = []
  sort_by (x ∷ xs) = insert_sorted x (sort_by xs)

  abbrev pub IsSorted : List A → Type ℓ
  IsSorted = Pairwise (λ a b. le_of (cmp a b) ≡ true)

  insert_sorted-perm : (x : A) (xs : List A) → Perm (insert_sorted x xs) (x ∷ xs)
  unfolding insert_sorted
  insert_sorted-perm x [] = Perm.rfl
  insert_sorted-perm x (y ∷ ys) = elim (Bool-cases (le_of (cmp x y))) [
    | inl h ↦ rw h Perm.rfl
    | inr h ↦ rw h (Perm.trans (Perm.cons y (insert_sorted-perm x ys)) (Perm.swap x y ys))
  ]

  -- Sorting loses and invents nothing.
  pub sort_by-perm : (xs : List A) → Perm (sort_by xs) xs
  unfolding sort_by
  sort_by-perm [] = Perm.rfl
  sort_by-perm (x ∷ xs) =
      Perm.trans (insert_sorted-perm x (sort_by xs)) (Perm.cons x (sort_by-perm xs))

module _ {ℓ} {A : Type ℓ} {cmp : Cmp A} (o : IsOrder cmp) where
  below_insert :
      (x y : A) (ys : List A)
      → le_of (cmp y x) ≡ true
      → ((z : A) → Mem z ys → le_of (cmp y z) ≡ true)
      → (z : A) → Mem z (insert_sorted cmp x ys)
      → le_of (cmp y z) ≡ true
  below_insert x y ys h below z m =
      Or.elim (Bool-set _ _) (mem-cons.0 ((Perm.mem_iff (insert_sorted-perm cmp x ys)).0 m))
        (λ e. rw e h) (below z)

  insert_sorted-IsSorted :
      (x : A) (xs : List A) → IsSorted cmp xs → IsSorted cmp (insert_sorted cmp x xs)
  unfolding insert_sorted
  insert_sorted-IsSorted x [] s = Pairwise.cons (λ z m. absurd (not-mem-nil m)) Pairwise.nil
  insert_sorted-IsSorted x (y ∷ ys) (Pairwise.cons below s) = elim (Bool-cases (le_of (cmp x y))) [
    | inl h ↦ rw h (
        Pairwise.cons
          (λ z m.
            Or.elim (Bool-set _ _) (mem-cons.0 m) (λ e. rw e h)
              (λ r. le_trans o x y z h (below z r)))
          (Pairwise.cons below s))
    | inr h ↦ rw h (
        Pairwise.cons (below_insert x y ys (le_total o x y h) below)
          (insert_sorted-IsSorted x ys s))
  ]

  -- The result ascends.
  pub sort_by-IsSorted : (xs : List A) → IsSorted cmp (sort_by cmp xs)
  unfolding sort_by
  sort_by-IsSorted [] = Pairwise.nil
  sort_by-IsSorted (x ∷ xs) = insert_sorted-IsSorted x (sort_by cmp xs) (sort_by-IsSorted xs)

  abbrev same_as : A → A → Bool
  same_as k a = is_eq (cmp k a)

  filter-insert_sorted :
      (k x : A) (xs : List A)
      → filter (same_as k) (insert_sorted cmp x xs) ≡ filter (same_as k) (x ∷ xs)
  unfolding insert_sorted
  filter-insert_sorted k x [] = refl
  filter-insert_sorted k x (y ∷ ys) =
      ground (arith, filter-insert_sorted k x ys, o.eq_left k x y, o.flip x y, o.flip k y)

  -- The sort is stable: elements that compare equal keep their order.
  pub filter-sort_by :
      (k : A) (xs : List A) → filter (same_as k) (sort_by cmp xs) ≡ filter (same_as k) xs
  unfolding sort_by
  filter-sort_by k [] = refl
  filter-sort_by k (x ∷ xs) =
      ground (arith, filter-insert_sorted k x (sort_by cmp xs), filter-sort_by k xs)

  insert_sorted-head :
      (x : A) (xs : List A) → IsSorted cmp (x ∷ xs) → insert_sorted cmp x xs ≡ x ∷ xs
  unfolding insert_sorted
  insert_sorted-head x [] s = refl
  insert_sorted-head x (y ∷ ys) (Pairwise.cons below s) = rw (below y mem-cons_self)

  -- A list that ascends already is left as it is.
  pub sort_by_sorted : (xs : List A) → IsSorted cmp xs → sort_by cmp xs ≡ xs
  unfolding sort_by
  sort_by_sorted [] s = refl
  sort_by_sorted (x ∷ xs) (Pairwise.cons below s) =
      rw (sort_by_sorted xs s) (insert_sorted-head x xs (Pairwise.cons below s))
