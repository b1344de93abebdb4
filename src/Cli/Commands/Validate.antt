-- ===== src/Cli/Commands/Validate.antt =====
-- When `validate` of crates/cockpitctl-cli/src/main.rs accepts a file.
use cockpitctl.Base.{
  ◌≡◌, refl, ◌↔◌, inl, inr, Bool-cases, String, Bool, true, any, Option, List, [], ◌∷◌,
}
use cockpitctl.Ingest.Ports.{Bytes}
use cockpitctl.Ingest.Result.{ok, Always, Always-eq}
use cockpitctl.Io.Schema.{Schemas, validate_receipt}
use cockpitctl.Cli.Commands.{schema_candidates, first_valid, validations, validate_strict}

module _ {J C : Type 0} (s : Schemas J C) (is_sensor is_cockpit : Bytes → Bool)
    (schema_hint : J → Option String) where
  -- The value has no error for one of the schemas.
  abbrev pub some_valid : J → List (String × C) → Bool
  some_valid value candidates = any (λ c. s.is_valid c.1 value) candidates

  first_valid-some_valid :
      (value : J) (candidates : List (String × C)) (bytes : Bytes) (errors : List String)
      → s.from_slice bytes ≡ ok value
      → Always
          (λ n. some_valid value candidates ≡ true)
          (first_valid s is_sensor is_cockpit schema_hint
            (validations s is_sensor is_cockpit schema_hint candidates bytes)
            errors)
  unfolding first_valid validations validate_receipt
  first_valid-some_valid value [] bytes errors e = tt
  first_valid-some_valid value ((label, c) ∷ rest) bytes errors e =
      elim (Bool-cases (s.is_valid c value)) [
        | inl h ↦ rw (e, h) refl
        | inr h ↦ rw (e, h) (first_valid-some_valid value rest bytes _ e)
      ]

  some_valid-first_valid :
      (value : J) (candidates : List (String × C)) (bytes : Bytes) (errors : List String)
      → s.from_slice bytes ≡ ok value
      → some_valid value candidates ≡ true
      → first_valid s is_sensor is_cockpit schema_hint
          (validations s is_sensor is_cockpit schema_hint candidates bytes)
          errors
        ≡ ok 0
  unfolding first_valid validations validate_receipt
  some_valid-first_valid value [] bytes errors e k = cc
  some_valid-first_valid value ((label, c) ∷ rest) bytes errors e k =
      elim (Bool-cases (s.is_valid c value)) [
        | inl h ↦ rw (e, h) refl
        | inr h ↦
            let k' : some_valid value rest ≡ true = rw h at k in
            rw (e, h) (some_valid-first_valid value rest bytes _ e k')
      ]

  -- In a build with the feature, and where the file is JSON and the schemas for its hint can be
  -- loaded, strict validation succeeds exactly if one of those schemas has no error for it.
  pub validate_strict-some_valid :
      {value : J} {candidates : List (String × C)} (bytes : Bytes)
      → s.from_slice bytes ≡ ok value
      → schema_candidates s is_sensor is_cockpit schema_hint (schema_hint value) ≡ ok candidates
      → (validate_strict s is_sensor is_cockpit schema_hint true bytes ≡ ok 0)
        ↔ (some_valid value candidates ≡ true)
  unfolding validate_strict
  validate_strict-some_valid {value} {candidates} bytes e k =
      rw (e, k)
        (
          λ h.
              Always-eq (λ n. some_valid value candidates ≡ true)
                (first_valid s is_sensor is_cockpit schema_hint
                  (validations s is_sensor is_cockpit schema_hint candidates bytes) [])
                (first_valid-some_valid value candidates bytes [] e) h,
          λ h. some_valid-first_valid value candidates bytes [] e h,
        )
