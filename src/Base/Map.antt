-- ===== src/Base/Map.antt =====
-- `std::collections::BTreeMap` and `BTreeSet`: association lists in ascending order of their keys.
-- A key that is inserted again keeps its place and takes the new value.
use Prim.Native.Nat.{lt, eq, gt}
use mathlib.Core.Path.{◌≡◌, refl}
use mathlib.Core.Bool.{Bool, true, false, ◌||◌, ◌&&◌}
use mathlib.Core.Option.{Option, none, some}
use mathlib.Core.List.{List, [], ◌∷◌, map}
use mathlib.Core.Logic.{inl, inr}
use native.Mathlib.Omega.{arith}
use cockpitctl.Base.Tests.{if◌then◌else◌, Option-cases}
use cockpitctl.Base.Order.{Cmp, IsOrder, is_eq, is_lt, eq_right}

abbrev pub BTreeMap {ℓ κ} : Type ℓ → Type κ → Type (ℓ ⊔ κ)
BTreeMap K V = List (K × V)

module _ {ℓ κ} {K : Type ℓ} {V : Type κ} (cmp : Cmp K) where
  unfoldable pub get : K → BTreeMap K V → Option V
  get k [] = none
  get k ((j, v) ∷ m) = if is_eq (cmp k j) then some v else get k m

  unfoldable pub contains_key : K → BTreeMap K V → Bool
  unfolding get
  contains_key k m = elim (get k m) [ none ↦ false | some _ ↦ true ]

  unfoldable pub insert : K → V → BTreeMap K V → BTreeMap K V
  insert k v [] = (k, v) ∷ []
  insert k v ((j, w) ∷ m) = elim (cmp k j) [
    | lt ↦ (k, v) ∷ (j, w) ∷ m
    | eq ↦ (j, v) ∷ m
    | gt ↦ (j, w) ∷ insert k v m
  ]

  -- `entry(k).or_insert_with(|| v)`
  unfoldable pub or_insert : K → V → BTreeMap K V → BTreeMap K V
  or_insert k v m = elim (get k m) [ none ↦ insert k v m | some _ ↦ m ]

abbrev pub keys {ℓ κ} : {K : Type ℓ} {V : Type κ} → BTreeMap K V → List K
keys m = map (λ e. e.0) m

module _ {ℓ} {K : Type ℓ} (cmp : Cmp K) where
  -- Every element is above `k`.
  abbrev pub above : K → List K → Bool
  above k [] = true
  above k (j ∷ l) = is_lt (cmp k j) && above k l

  -- Each element is above those before it.
  abbrev pub ascends : List K → Bool
  ascends [] = true
  ascends (k ∷ l) = above k l && ascends l

-- The first of two options.
abbrev pub or_else {ℓ} : {A : Type ℓ} → Option A → Option A → Option A
or_else none b = b
or_else (some a) b = some a

module _ {ℓ} {K : Type ℓ} {cmp : Cmp K} (o : IsOrder cmp) where
  above_lower : (k j : K) (l : List K) → cmp k j ≡ lt → above cmp j l ≡ true → above cmp k l ≡ true
  above_lower k j [] h s = refl
  above_lower k j (i ∷ l) h s = ground (arith, above_lower k j l h, o.lt_trans k j i h)

module _ {ℓ κ} {K : Type ℓ} {V : Type κ} {cmp : Cmp K} (o : IsOrder cmp) where
  -- Keys that compare equal have the same entry.
  get_eq : (j k : K) (m : BTreeMap K V) → is_eq (cmp j k) ≡ true → get cmp j m ≡ get cmp k m
  unfolding get
  get_eq j k [] h = refl
  get_eq j k ((i, w) ∷ m) h = ground (arith, get_eq j k m, o.eq_left j k i)

  pub get-insert :
      (k j : K) (v : V) (m : BTreeMap K V)
      → get cmp j (insert cmp k v m) ≡ (if is_eq (cmp j k) then some v else get cmp j m)
  unfolding get insert
  get-insert k j v [] = refl
  get-insert k j v ((i, w) ∷ m) =
      ground (arith, get-insert k j v m, eq_right o j k i, o.eq_left j k i)

  pub contains-insert :
      (k j : K) (v : V) (m : BTreeMap K V)
      → contains_key cmp j (insert cmp k v m) ≡ (is_eq (cmp j k) || contains_key cmp j m)
  unfolding contains_key
  contains-insert k j v m = ground (arith, get-insert k j v m)

  -- An entry takes a value only where there was none.
  pub get-or_insert :
      (k j : K) (v : V) (m : BTreeMap K V)
      → get cmp j (or_insert cmp k v m)
        ≡ or_else (get cmp j m) (if is_eq (cmp j k) then some v else none)
  unfolding or_insert
  get-or_insert k j v m = elim (Option-cases (get cmp k m)) [
    | inl e ↦ ground (arith, get-insert k j v m, get_eq j k m, e)
    | inr (w, e) ↦ ground (arith, get_eq j k m, e)
  ]

  above-insert :
      (i k : K) (v : V) (m : BTreeMap K V)
      → above cmp i (keys (insert cmp k v m)) ≡ (is_lt (cmp i k) && above cmp i (keys m))
  unfolding insert
  above-insert i k v [] = refl
  above-insert i k v ((j, w) ∷ m) = ground (arith, above-insert i k v m, eq_right o i k j)

  pub ascends-insert :
      (k : K) (v : V) (m : BTreeMap K V)
      → ascends cmp (keys m) ≡ true
      → ascends cmp (keys (insert cmp k v m)) ≡ true
  unfolding insert
  ascends-insert k v [] s = refl
  ascends-insert k v ((j, w) ∷ m) s =
      ground
        (arith, ascends-insert k v m, above-insert j k v m, above_lower o k j (keys m), o.flip k j)

  pub ascends-or_insert :
      (k : K) (v : V) (m : BTreeMap K V)
      → ascends cmp (keys m) ≡ true
      → ascends cmp (keys (or_insert cmp k v m)) ≡ true
  unfolding or_insert
  ascends-or_insert k v m s = ground (arith, ascends-insert k v m s)

abbrev pub BTreeSet {ℓ} : Type ℓ → Type ℓ
BTreeSet K = BTreeMap K (Unit {0})
