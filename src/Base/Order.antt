-- ===== src/Base/Order.antt =====
-- `std::cmp::Ordering`, `Ordering::then`, and total preorders given by a comparison function, as
-- `sort_by`, `sort_by_key` and the derived `Ord` of a struct (field by field) use them.
use Prim.Native.String.{String, compare as string_compare, [] as nil, ◌∷◌ as cons}
use Prim.Native.String.compare.{nil-nil, nil-cons, cons-nil, cons-cons}
use Prim.Native.Nat.{compare, Ordering, lt, eq, gt}
use text.Mathlib.TextEquality.{path_by_compare}
use mathlib.Core.Path.{◌≡◌, refl, ap}
use mathlib.Core.Option.{Option, none, some}
use mathlib.Core.Bool.{Bool, true, false}
use native.Mathlib.Omega.{arith}

abbrev pub swap : Ordering → Ordering
swap lt = gt
swap eq = eq
swap gt = lt

-- `Ordering::then`
abbrev pub then_by : Ordering → Ordering → Ordering
then_by lt o = lt
then_by eq o = o
then_by gt o = gt

abbrev pub Cmp {ℓ} : Type ℓ → Type ℓ
Cmp A = A → A → Ordering

abbrev pub le_of : Ordering → Bool
le_of gt = false
le_of _ = true

abbrev pub is_eq : Ordering → Bool
is_eq eq = true
is_eq _ = false

abbrev pub is_lt : Ordering → Bool
is_lt lt = true
is_lt _ = false

-- A comparison that is a total preorder.
pub record IsOrder {ℓ} {A : Type ℓ} (cmp : Cmp A) : Type ℓ where
  pub flip : (a b : A) → cmp b a ≡ swap (cmp a b)
  pub lt_trans : (a b c : A) → cmp a b ≡ lt → cmp b c ≡ lt → cmp a c ≡ lt
  pub eq_left : (a b c : A) → cmp a b ≡ eq → cmp a c ≡ cmp b c

-- Compares by a key.
abbrev pub on {ℓ κ} : {A : Type ℓ} {B : Type κ} → (A → B) → Cmp B → Cmp A
on f cmp a b = cmp (f a) (f b)

-- The derived order of `Option`: `None` is below `Some`.
abbrev pub option_cmp {ℓ} : {A : Type ℓ} → Cmp A → Cmp (Option A)
option_cmp cmp none none = eq
option_cmp cmp none (some b) = lt
option_cmp cmp (some a) none = gt
option_cmp cmp (some a) (some b) = cmp a b

-- Compares by the first, and on a tie by the second.
abbrev pub lex {ℓ} : {A : Type ℓ} → Cmp A → Cmp A → Cmp A
lex c d a b = then_by (c a b) (d a b)

module _ {ℓ} {A : Type ℓ} {cmp : Cmp A} (o : IsOrder cmp) where
  pub cmp_self : (a : A) → cmp a a ≡ eq
  cmp_self a = ground (arith, o.flip a a)

  pub eq_right : (a b c : A) → cmp b c ≡ eq → cmp a b ≡ cmp a c
  eq_right a b c h = ground (arith, o.flip b a, o.flip c a, o.eq_left b c a h)

  pub le_total : (a b : A) → le_of (cmp a b) ≡ false → le_of (cmp b a) ≡ true
  le_total a b h = ground (arith, o.flip a b)

  pub le_trans :
      (a b c : A) → le_of (cmp a b) ≡ true → le_of (cmp b c) ≡ true → le_of (cmp a c) ≡ true
  le_trans a b c p q = ground (arith, o.lt_trans a b c, o.eq_left a b c, eq_right a b c)

pub IsOrder-on {ℓ κ} :
    {A : Type ℓ} {B : Type κ} (f : A → B) {cmp : Cmp B} → IsOrder cmp → IsOrder (on f cmp)
IsOrder-on f o = record {
  flip = λ a b. o.flip (f a) (f b);
  lt_trans = λ a b c. o.lt_trans (f a) (f b) (f c);
  eq_left = λ a b c. o.eq_left (f a) (f b) (f c);
}

module _ {ℓ} {A : Type ℓ} {cmp : Cmp A} (o : IsOrder cmp) where
  option_cmp-flip : (x y : Option A) → option_cmp cmp y x ≡ swap (option_cmp cmp x y)
  option_cmp-flip none none = refl
  option_cmp-flip none (some b) = refl
  option_cmp-flip (some a) none = refl
  option_cmp-flip (some a) (some b) = o.flip a b

  option_cmp-lt_trans :
      (x y z : Option A)
      → option_cmp cmp x y ≡ lt
      → option_cmp cmp y z ≡ lt
      → option_cmp cmp x z ≡ lt
  option_cmp-lt_trans none y none h k = ground arith
  option_cmp-lt_trans none y (some c) h k = refl
  option_cmp-lt_trans (some a) none z h k = cc
  option_cmp-lt_trans (some a) (some b) none h k = cc
  option_cmp-lt_trans (some a) (some b) (some c) h k = o.lt_trans a b c h k

  option_cmp-eq_left :
      (x y z : Option A) → option_cmp cmp x y ≡ eq → option_cmp cmp x z ≡ option_cmp cmp y z
  option_cmp-eq_left none none z h = refl
  option_cmp-eq_left none (some b) z h = cc
  option_cmp-eq_left (some a) none z h = cc
  option_cmp-eq_left (some a) (some b) none h = refl
  option_cmp-eq_left (some a) (some b) (some c) h = o.eq_left a b c h

  pub IsOrder-option : IsOrder (option_cmp cmp)
  IsOrder-option = record {
    flip = option_cmp-flip;
    lt_trans = option_cmp-lt_trans;
    eq_left = option_cmp-eq_left;
  }

module _ {ℓ} {A : Type ℓ} {c d : Cmp A} (p : IsOrder c) (q : IsOrder d) where
  lex-flip : (x y : A) → lex c d y x ≡ swap (lex c d x y)
  lex-flip x y = ground (arith, p.flip x y, q.flip x y)

  lex-lt_trans : (x y z : A) → lex c d x y ≡ lt → lex c d y z ≡ lt → lex c d x z ≡ lt
  lex-lt_trans x y z h k =
      ground (arith, p.lt_trans x y z, p.eq_left x y z, eq_right p x y z, q.lt_trans x y z)

  lex-eq_left : (x y z : A) → lex c d x y ≡ eq → lex c d x z ≡ lex c d y z
  lex-eq_left x y z h = ground (arith, p.eq_left x y z, q.eq_left x y z)

  pub IsOrder-lex : IsOrder (lex c d)
  IsOrder-lex = record { flip = lex-flip; lt_trans = lex-lt_trans; eq_left = lex-eq_left }

pub compare-IsOrder : IsOrder compare
compare-IsOrder = record {
  flip = λ a b. ground arith;
  lt_trans = λ a b c h k. ground arith;
  eq_left = λ a b c h. ground arith;
}

string_compare-flip : (s t : String) → string_compare t s ≡ swap (string_compare s t)
string_compare-flip nil nil = ground (arith, nil-nil)
string_compare-flip nil (cons d t) = ground (arith, nil-cons d t, cons-nil d t)
string_compare-flip (cons c s) nil = ground (arith, nil-cons c s, cons-nil c s)
string_compare-flip (cons c s) (cons d t) =
    ground (arith, cons-cons c d s t, cons-cons d c t s, string_compare-flip s t)

string_compare-lt_trans :
    (s t u : String) → string_compare s t ≡ lt → string_compare t u ≡ lt → string_compare s u ≡ lt
string_compare-lt_trans s nil nil h k = ground (arith, nil-nil)
string_compare-lt_trans nil nil (cons e u) h k = ground (arith, nil-nil)
string_compare-lt_trans (cons c s) nil (cons e u) h k = ground (arith, cons-nil c s)
string_compare-lt_trans s (cons d t) nil h k = ground (arith, cons-nil d t)
string_compare-lt_trans nil (cons d t) (cons e u) h k = nil-cons e u
string_compare-lt_trans (cons c s) (cons d t) (cons e u) h k =
    ground (
      arith,
      cons-cons c d s t,
      cons-cons d e t u,
      cons-cons c e s u,
      string_compare-lt_trans s t u,
    )

pub string_compare-IsOrder : IsOrder string_compare
string_compare-IsOrder = record {
  flip = string_compare-flip;
  lt_trans = string_compare-lt_trans;
  eq_left = λ s t u h. ap (λ x. string_compare x u) (path_by_compare s t h);
}
