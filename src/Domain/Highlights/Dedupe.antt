-- ===== src/Domain/Highlights/Dedupe.antt =====
-- The deduplication by fingerprint in `select_highlights` of crates/cockpitctl-domain/src/lib.rs.
use mathlib.Core.List.{Nodup, Sublist, mem-cons, not-mem-nil, mem-map, nil-sublist}
use mathlib.Core.List.Sublist
use mathlib.Core.Bool.{Bool-set, false≢true}
use mathlib.Core.HLevel.{⊥_prop}
use mathlib.Core.Logic.Or
use mathlib.Core.Logic.{∥∥₁_elim}
use cockpitctl.Base.{
  String, ◌≡◌, refl, sym, ap, ◌∙◌, Bool, true, false, Bool-cases, inl, inr, List, [], ◌∷◌, map, Mem,
  Pairwise, arith, any, string_compare, string_compare-IsOrder, is_eq, cmp_self, str_eq,
  if◌then◌else◌,
}
use cockpitctl.Base.Map
use cockpitctl.Base.Map.{BTreeSet, get-insert}
use cockpitctl.Types.Findings.{Highlight}
use cockpitctl.Domain.Highlights.{fingerprint_of, normalize, dedupe}

-- A fingerprint that is in the set.
abbrev seen_in : BTreeSet String → String → Bool
seen_in seen fp = Map.contains_key string_compare fp seen

seen_in-insert :
    (fp other : String) (seen : BTreeSet String)
    → seen_in (Map.insert string_compare fp tt seen) other
      ≡ (if is_eq (string_compare other fp) then true else seen_in seen other)
unfolding Map.contains_key
seen_in-insert fp other seen =
    ground (arith, get-insert {V = Unit {0}} string_compare-IsOrder fp other tt seen)

is_eq_self : (s : String) → is_eq (string_compare s s) ≡ true
is_eq_self s = rw (cmp_self string_compare-IsOrder s)

module _ {V : Type 0} (sha256_hex : String → String) where
  abbrev fp_of : Highlight V → String
  fp_of = fingerprint_of sha256_hex

  fp_of-normalize : (h : Highlight V) → fp_of (normalize sha256_hex h) ≡ fp_of h
  unfolding normalize
  fp_of-normalize h = refl

  -- What is pushed was not seen before.
  dedupe-unseen :
      (seen : BTreeSet String) (l : List (Highlight V)) {x : Highlight V}
      → Mem x (dedupe sha256_hex seen l)
      → seen_in seen (fp_of x) ≡ false
  unfolding dedupe
  dedupe-unseen seen [] m = absurd (not-mem-nil m)
  dedupe-unseen seen (h ∷ l) {x} m = elim (Bool-cases (seen_in seen (fp_of h))) [
    | inl old ↦ dedupe-unseen seen l (rw old at m)
    | inr new ↦
        Or.elim (Bool-set _ _) (mem-cons.0 (rw new at m)) (λ e. rw (e, fp_of-normalize h) new)
          (λ r. ground (
            arith,
            dedupe-unseen (Map.insert string_compare (fp_of h) tt seen) l r,
            seen_in-insert (fp_of h) (fp_of x) seen,
          ))
  ]

  -- The fingerprints of what is pushed are all different.
  pub dedupe-Nodup :
      (seen : BTreeSet String) (l : List (Highlight V))
      → Nodup (map fp_of (dedupe sha256_hex seen l))
  unfolding dedupe
  dedupe-Nodup seen [] = Pairwise.nil
  dedupe-Nodup seen (h ∷ l) = elim (Bool-cases (seen_in seen (fp_of h))) [
    | inl old ↦ rw old (dedupe-Nodup seen l)
    | inr new ↦ rw new (
        Pairwise.cons
          (λ fp m e. ∥∥₁_elim (mem-map.0 m) ⊥_prop (λ (x, mx, ex). fresh x mx (e ∙ sym ex)))
          (dedupe-Nodup (Map.insert string_compare (fp_of h) tt seen) l))
  ]
    where
      fresh :
          (x : Highlight V)
          → Mem x (dedupe sha256_hex (Map.insert string_compare (fp_of h) tt seen) l)
          → fp_of (normalize sha256_hex h) ≡ fp_of x
          → ⊥
      fresh x mx e = ground (
        arith,
        dedupe-unseen (Map.insert string_compare (fp_of h) tt seen) l mx,
        seen_in-insert (fp_of h) (fp_of x) seen,
        fp_of-normalize h,
        is_eq_self (fp_of x),
      )

  -- What is pushed are candidates with their fingerprint filled in, in the candidates' order.
  pub dedupe-Sublist :
      (seen : BTreeSet String) (l : List (Highlight V))
      → Sublist (dedupe sha256_hex seen l) (map (normalize sha256_hex) l)
  unfolding dedupe
  dedupe-Sublist seen [] = nil-sublist []
  dedupe-Sublist seen (h ∷ l) = elim (Bool-cases (seen_in seen (fp_of h))) [
    | inl old ↦ rw old (Sublist.cons _ (dedupe-Sublist seen l))
    | inr new ↦
        rw new
          (Sublist.cons-cons _ (dedupe-Sublist (Map.insert string_compare (fp_of h) tt seen) l))
  ]

  -- Each candidate's fingerprint was seen or is pushed.
  pub dedupe-covers :
      (seen : BTreeSet String) (l : List (Highlight V)) {h : Highlight V}
      → Mem h l
      → seen_in seen (fp_of h) ≡ false
      → any (λ x. str_eq (fp_of x) (fp_of h)) (dedupe sha256_hex seen l) ≡ true
  unfolding dedupe
  dedupe-covers seen [] m new = absurd (not-mem-nil m)
  dedupe-covers seen (x ∷ l) {h} m new = elim (Bool-cases (seen_in seen (fp_of x))) [
    | inl old ↦ rw old (
        Or.elim (Bool-set _ _) (mem-cons.0 m) (λ e. absurd (false≢true (sym (rw e at new) ∙ old)))
          (λ r. dedupe-covers seen l r new))
    | inr fresh ↦ rw fresh (
        Or.elim (Bool-set _ _) (mem-cons.0 m)
          (λ e. ground (arith, ap fp_of e, fp_of-normalize x, is_eq_self (fp_of x)))
          (λ r. ground (
            arith,
            dedupe-covers (Map.insert string_compare (fp_of x) tt seen) l r,
            seen_in-insert (fp_of x) (fp_of h) seen,
            fp_of-normalize x,
            string_compare-IsOrder.flip (fp_of x) (fp_of h),
          )))
  ]
