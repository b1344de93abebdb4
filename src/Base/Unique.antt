-- ===== src/Base/Unique.antt =====
-- Where a comparison tells all values apart, the result of a sort depends only on what is sorted
-- and not on the order in which it came.
use mathlib.Core.Path.{◌≡◌, refl, ap₂, sym, ◌∙◌}
use mathlib.Core.Bool.{true}
use mathlib.Core.List.{
  List, [], ◌∷◌, map, Mem, Perm, Pairwise, mem-cons, mem-cons_self, not-mem-nil,
}
use mathlib.Core.List.Perm
use mathlib.Core.List.Pairwise
use Prim.Native.Nat.{ℕ, zero, suc, eq, compare}
use Prim.Native.String.{compare as string_compare}
use text.Mathlib.TextEquality.{path_by_compare}
use mathlib.Core.Logic.Or
use native.Mathlib.Omega.{arith}
use cockpitctl.Base.Order.{Cmp, on, IsOrder, le_of, cmp_self}
use cockpitctl.Base.Lists.{take, drop, mem-drop}
use cockpitctl.Base.Sort.{sort_by, insert_sorted, IsSorted, sort_by-IsSorted, sort_by-perm}
use mathlib.Core.Bool.{Bool-set}

-- Values that compare equal are equal.
abbrev pub IsAntisym {ℓ} : {A : Type ℓ} → Cmp A → Type ℓ
IsAntisym {A} cmp = (a b : A) → cmp a b ≡ eq → a ≡ b

pub string_compare-IsAntisym : IsAntisym string_compare
string_compare-IsAntisym = path_by_compare

pub compare-IsAntisym : IsAntisym compare
compare-IsAntisym a b h = ground arith

module _ {ℓ} {A : Type ℓ} {cmp : Cmp A} (o : IsOrder cmp) where
  le_head : {a b : A} {l : List A} → IsSorted cmp (a ∷ l) → Mem b (a ∷ l) → le_of (cmp a b) ≡ true
  le_head {a} {b} (Pairwise.cons below s) m =
      Or.elim (Bool-set _ _) (mem-cons.0 m) (λ e. rw (e, cmp_self o a)) (below b)

  module _ (antisym : IsAntisym cmp) where
    heads_eq : {a b : A} → le_of (cmp a b) ≡ true → le_of (cmp b a) ≡ true → a ≡ b
    heads_eq {a} {b} h k = antisym a b (ground (arith, o.flip a b))

    sorted_unique : (l r : List A) → IsSorted cmp l → IsSorted cmp r → Perm l r → l ≡ r
    sorted_unique [] r _ _ p = Perm.nil-eq p
    sorted_unique (a ∷ l) [] _ _ p = Perm.eq-nil p
    sorted_unique (a ∷ l) (b ∷ r) sl sr p =
        let heads : a ≡ b =
          heads_eq (le_head sl ((Perm.mem_iff p).1 mem-cons_self))
            (le_head sr ((Perm.mem_iff p).0 mem-cons_self)) in
        let tails : Perm l r = Perm.cons_inv (Perm.trans p (Perm.cons' (sym heads) Perm.rfl)) in
        ap₂ ◌∷◌ heads (sorted_unique l r (Pairwise.of_cons sl) (Pairwise.of_cons sr) tails)

    pub sort_by_unique : {l r : List A} → Perm l r → sort_by cmp l ≡ sort_by cmp r
    sort_by_unique {l} {r} p =
        sorted_unique _ _ (sort_by-IsSorted o l) (sort_by-IsSorted o r)
          (Perm.trans (sort_by-perm cmp l) (Perm.trans p (Perm.symm (sort_by-perm cmp r))))

  -- What a truncation keeps of an ascending list is not above what it drops.
  pub take-le-drop :
      (n : ℕ) (l : List A) {a b : A}
      → IsSorted cmp l
      → Mem a (take n l)
      → Mem b (drop n l)
      → le_of (cmp a b) ≡ true
  take-le-drop zero l s m k = absurd (not-mem-nil m)
  take-le-drop (suc n) [] s m k = absurd (not-mem-nil m)
  take-le-drop (suc n) (x ∷ l) {a} {b} (Pairwise.cons below s) m k =
      Or.elim (Bool-set _ _) (mem-cons.0 m) (λ e. rw e (below b (mem-drop n l k)))
        (λ r. take-le-drop n l s r k)

module _ {ℓ κ} {A : Type ℓ} {B : Type κ} (f : A → B) (cmp : Cmp B) where
  map-insert_sorted :
      (x : A) (l : List A)
      → map f (insert_sorted (on f cmp) x l) ≡ insert_sorted cmp (f x) (map f l)
  unfolding insert_sorted
  map-insert_sorted x [] = refl
  map-insert_sorted x (y ∷ l) = ground (arith, map-insert_sorted x l)

  pub map-sort_by : (l : List A) → map f (sort_by (on f cmp) l) ≡ sort_by cmp (map f l)
  unfolding sort_by
  map-sort_by [] = refl
  map-sort_by (x ∷ l) = cc (map-insert_sorted x (sort_by (on f cmp) l), map-sort_by l)

  -- The keys of the sorted list do not depend on the order of the list that is sorted.
  pub sort_by-keys_unique :
      IsOrder cmp
      → IsAntisym cmp
      → {l r : List A} → Perm l r
      → map f (sort_by (on f cmp) l) ≡ map f (sort_by (on f cmp) r)
  sort_by-keys_unique o antisym {l} {r} p =
      map-sort_by l ∙ sort_by_unique o antisym (Perm.map f p) ∙ sym (map-sort_by r)
