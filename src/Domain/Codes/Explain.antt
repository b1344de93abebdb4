-- ===== src/Domain/Codes/Explain.antt =====
-- The lookup of an explanation in crates/cockpitctl-domain/src/lib.rs.
use cockpitctl.Base.{
  ◌≡◌, refl, String, Bool, false, Bool-cases, none, some, List, [], ◌∷◌, any, str_eq, eq_iff, subst,
  arith, Mem, inl, inr,
}
use mathlib.Core.List.{mem-cons_self, mem-cons_of_mem}
use cockpitctl.Domain.Codes.{CodeExplanation, all_codes, find_code, explain_code}

has_code : String → CodeExplanation → Bool
has_code code e = str_eq e.code code

find_code-some :
    (code : String) (l : List CodeExplanation) (e : CodeExplanation)
    → find_code code l ≡ some e
    → Mem e l × (e.code ≡ code)
unfolding find_code
find_code-some code [] e h = cc
find_code-some code (x ∷ l) e h = elim (Bool-cases (str_eq x.code code)) [
  | inl t ↦
      let h' : some x ≡ some e = rw t at h in
      let same : x ≡ e = cc in
      (
        subst (λ y. Mem y (x ∷ l)) same mem-cons_self,
        subst (λ (y : CodeExplanation). y.code ≡ code) same ((eq_iff x.code code).0 t),
      )
  | inr t ↦ let rest = find_code-some code l e (rw t at h) in (mem-cons_of_mem x rest.0, rest.1)
]

find_code-none :
    (code : String) (l : List CodeExplanation)
    → find_code code l ≡ none
    → any (λ e. str_eq e.code code) l ≡ false
unfolding find_code
find_code-none code [] h = refl
find_code-none code (x ∷ l) h = ground (arith, find_code-none code l)

-- An explanation that is found is one of those listed and has the code that was asked for; if none
-- is found, no explanation that is listed has it.
pub explain_code_lem :
    (code : String)
    → ((e : CodeExplanation) → explain_code code ≡ some e → Mem e all_codes × (e.code ≡ code))
      × (explain_code code ≡ none → any (λ e. str_eq e.code code) all_codes ≡ false)
unfolding explain_code
explain_code_lem code = (find_code-some code all_codes, find_code-none code all_codes)
