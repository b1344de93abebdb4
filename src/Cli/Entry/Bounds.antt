-- ===== src/Cli/Entry/Bounds.antt =====
-- The exit codes of the process of crates/cockpitctl-cli/src/main.rs.
use cockpitctl.Base.{
  ap, ◌⊎◌, ◌%◌, ◌^◌, arith, concat, ◌||◌, ◌≡◌, refl, inl, inr, Bool-cases, ℕ, ◌≤◌, String, Bool,
  true, false, any, Option, List, [], ◌∷◌, ◌++◌, if◌then◌else◌,
}
use cockpitctl.Domain.Verdict.Worst.{blocks}
use cockpitctl.Ingest.Ports.{Bytes, SchemaValidationResult, valid, invalid}
use cockpitctl.Ingest.Result.{Result, ok, err, ◌>>=◌, context}
use cockpitctl.Io.Layout.{Files}
use cockpitctl.Io.Schema.{Schemas}
use cockpitctl.Io.Sink.{Disk, and_then, within}
use cockpitctl.Cli.Commands.{
  schema_candidates, validations, cmd_explain, cmd_init, cmd_validate, first_valid,
  format_schema_errors, validate_lax, validate_strict,
}
use cockpitctl.Cli.Ingest.{Environment, cmd_ingest}
use cockpitctl.Cli.Ingest.Exit.{cmd_ingest-exit_code}
use cockpitctl.Cli.Entry.{
  Commands, ingest, init, validate, explain, Extras, code_of, run, main_entry, main,
}

-- The exit code of a run that ends with this result is at most 2.
abbrev IsSmall : {W : Type 0} → Result ℕ × W → Type 0
unfolding code_of
IsSmall m = (code_of m).0 ≤ 2

ok-IsSmall : {W : Type 0} (w : W) → IsSmall (ok 0, w)
unfolding code_of
ok-IsSmall w = ground arith

err-IsSmall : {W : Type 0} (e : List String) (w : W) → IsSmall (err e, w)
unfolding code_of
err-IsSmall e w = ground arith

from_ok :
    {W : Type 0} (m : Result ℕ × W) → ((code : ℕ) (w : W) → m ≡ (ok code, w) → code ≤ 2) → IsSmall m
unfolding code_of
from_ok (ok code, w) h = h code w refl
from_ok (err e, w) h = ground arith

-- A result and what follows it.
bind-IsSmall :
    {A W : Type 0} (m : Result A) (f : A → Result ℕ) (w : W)
    → ((a : A) → IsSmall (f a, w))
    → IsSmall (m >>= f, w)
unfolding code_of
bind-IsSmall (ok a) f w h = h a
bind-IsSmall (err e) f w h = ground arith

if_IsSmall :
    {W : Type 0} (b : Bool) (m n : Result ℕ) (w : W)
    → IsSmall (m, w)
    → IsSmall (n, w)
    → IsSmall (if b then m else n, w)
if_IsSmall true m n w h k = h
if_IsSmall false m n w h k = k

verdict_small : (b : Bool) → (if b then 2 else 0) ≤ 2
verdict_small true = ground arith
verdict_small false = ground arith

module _ {J C W : Type 0} (s : Schemas J C) (is_sensor is_cockpit : Bytes → Bool)
    (schema_hint : J → Option String) (w : W) where
  first_valid-IsSmall :
      (l : List (String × Result SchemaValidationResult)) (errors : List String)
      → IsSmall (first_valid s is_sensor is_cockpit schema_hint l errors, w)
  unfolding first_valid code_of
  first_valid-IsSmall [] errors = ground arith
  first_valid-IsSmall ((label, err e) ∷ rest) errors = ground arith
  first_valid-IsSmall ((label, ok valid) ∷ rest) errors = ground arith
  first_valid-IsSmall ((label, ok (invalid errs)) ∷ rest) errors =
      first_valid-IsSmall rest (errors ++ format_schema_errors label errs ∷ [])

  validate_strict-IsSmall :
      (feature_schema : Bool) (bytes : Bytes)
      → IsSmall (validate_strict s is_sensor is_cockpit schema_hint feature_schema bytes, w)
  unfolding validate_strict
  validate_strict-IsSmall true bytes =
      bind-IsSmall (context "parse JSON input" (s.from_slice bytes)) _ w (λ value.
        bind-IsSmall (schema_candidates s is_sensor is_cockpit schema_hint (schema_hint value)) _ w
          (λ candidates.
            first_valid-IsSmall (validations s is_sensor is_cockpit schema_hint candidates bytes)
              []))
  validate_strict-IsSmall false bytes =
      if_IsSmall (is_sensor bytes || is_cockpit bytes) (ok 0) _ w (ok-IsSmall w) (err-IsSmall _ w)

  validate-IsSmall :
      {P : Type 0} (fs : Files P) (feature_schema : Bool) (input : P) (lax : Bool)
      → IsSmall (cmd_validate s is_sensor is_cockpit schema_hint fs feature_schema input lax, w)
  unfolding cmd_validate validate_lax
  validate-IsSmall fs feature_schema input lax =
      bind-IsSmall (context (concat ("read " ∷ fs.display input ∷ [])) (fs.read input)) _ w
        (λ bytes.
          if_IsSmall lax (validate_lax s is_sensor is_cockpit schema_hint bytes)
            (validate_strict s is_sensor is_cockpit schema_hint feature_schema bytes) w
            (if_IsSmall (is_sensor bytes || is_cockpit bytes) (ok 0) _ w (ok-IsSmall w)
              (err-IsSmall _ w))
            (validate_strict-IsSmall feature_schema bytes))

written-IsSmall : {A W : Type 0} (m : Result A × W) → IsSmall (and_then m (λ _ w. (ok 0, w)))
unfolding code_of
written-IsSmall (ok a, w) = ground arith
written-IsSmall (err e, w) = ground arith

explain-IsSmall : {W : Type 0} (code : String) (w : W) → IsSmall (cmd_explain code, w)
unfolding cmd_explain code_of
explain-IsSmall code w = ground arith

init-IsSmall :
    {P W : Type 0} (fs : Files P) (disk : Disk P W) (example : String) (path : P) (w : W)
    → IsSmall (cmd_init fs disk example path w)
unfolding cmd_init code_of
init-IsSmall fs disk example path w = elim (Bool-cases (fs.exists path)) [
  | inl h ↦ rw h (ground arith)
  | inr h ↦ rw h (written-IsSmall (within _ (disk.write path (disk.as_bytes example) w)))
]

abbrev cast : {W : Type 0} → ℕ × W → ℕ × W
cast (code, w) = (code % 2 ^ 8, w)

ends :
    {W : Type 0} (m : Result ℕ × W)
    → IsSmall m
    → ((code : ℕ) × (w' : W) × (m ≡ (ok code, w')) × (cast (code_of m) ≡ (code, w')) × (code ≤ 2))
      ⊎ ((e : List String) × (w' : W) × (m ≡ (err e, w')) × (cast (code_of m) ≡ (1, w')))
unfolding code_of
ends (ok code, w) small =
    let same : code % 256 ≡ code = omega (arith, small) in
    inl (code, w, refl, ap (λ n. (n, w)) same, small)
ends (err e, w) small = inr (e, w, refl, refl)

module _ {V P W J C : Type 0} (env : Environment V P W J C) (extras : Extras J) where
  run-IsSmall : (cli : Commands P) (w : W) → IsSmall (run env extras cli w)
  unfolding run
  run-IsSmall (ingest inputs) w = from_ok (cmd_ingest env inputs w) (λ code w' h.
      let (cfg, result, ran, e) = cmd_ingest-exit_code env inputs w h in
      rw e (verdict_small (any (blocks result.report.policy.warn_is_fail) result.report.sensors)))
  run-IsSmall (init path) w = init-IsSmall env.adapters.fs env.adapters.disk extras.example path w
  run-IsSmall (validate input strict lax) w =
      validate-IsSmall env.schemas extras.is_sensor extras.is_cockpit extras.schema_hint w
        env.adapters.fs env.feature_schema input lax
  run-IsSmall (explain code) w = explain-IsSmall code w

  -- The process ends with the state and the exit code of the command that ran, and that code is at most
  -- 2, so that the cast from `i32` to `u8` does not change it; or the command failed, and the process ends
  -- with the command's state and the exit code 1.
  pub main-exit_code :
      (cli : Commands P) (w : W)
      → ((code : ℕ) × (w' : W) × (run env extras cli w ≡ (ok code, w'))
          × (main env extras cli w ≡ (code, w'))
          × (code ≤ 2))
        ⊎ ((e : List String) × (w' : W) × (run env extras cli w ≡ (err e, w'))
            × (main env extras cli w ≡ (1, w')))
  unfolding main main_entry
  main-exit_code cli w = ends (run env extras cli w) (run-IsSmall cli w)
