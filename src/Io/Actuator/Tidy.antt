-- ===== src/Io/Actuator/Tidy.antt =====
-- The lists of the result of crates/cockpitctl-io-buildfix/src/lib.rs.
use mathlib.Core.List.{mem-cons, mem-cons_self, mem-cons_of_mem}
use mathlib.Core.Logic.Or
use mathlib.Core.Bool.{Bool-set}
use cockpitctl.Base.{
  ◌≡◌, refl, sym, ap, ◌∙◌, inl, inr, Bool-cases, ℕ, String, Bool, true, false, List, [], ◌∷◌, Mem,
  Pairwise, any, any-count, count-perm, arith, concat, str_eq, eq_iff, lt, le_of, string_compare,
  string_compare-IsOrder, string_compare-IsAntisym, cmp_self, eq_right, ◌==◌, if◌then◌else◌,
  sort_by, sort_by-perm, sort_by-IsSorted, IsSorted,
}
use cockpitctl.Base.Map
use cockpitctl.Types.Config.{BuildfixActuatorConfig}
use cockpitctl.Types.Fixes.{BuildfixApplyRequest, BuildfixActuatorResult}
use cockpitctl.Ingest.Ports.{Bytes}
use cockpitctl.Ingest.Result.{
  Result, ok, context, Always, Always->>=, Always-bind, Always-context, Always-self, Always-eq,
}
use cockpitctl.Io.Hooks.{Process, Exit}
use cockpitctl.Io.Actuator.{
  dedup, sort_dedup, tidy, actuator_output, run_command, run_buildfix_actuator,
}

-- The text is one of the list.
abbrev pub has : String → List String → Bool
has s = any (λ t. str_eq s t)

has-dedup : (s : String) (l : List String) → has s (dedup l) ≡ has s l
unfolding dedup
has-dedup s [] = refl
has-dedup s (x ∷ []) = refl
has-dedup s (x ∷ y ∷ rest) = ground (arith, has-dedup s (y ∷ rest), eq_iff x y)

has-sort_dedup : (s : String) (l : List String) → has s (sort_dedup l) ≡ has s l
unfolding sort_dedup
has-sort_dedup s l =
    has-dedup s (sort_by string_compare l)
    ∙ (any-count (λ t. str_eq s t) (sort_by string_compare l)
        ∙ ap (λ n. if n == 0 then false else true)
            (count-perm (λ t. str_eq s t) (sort_by-perm string_compare l))
        ∙ sym (any-count (λ t. str_eq s t) l))

less :
    (a b c : String)
    → string_compare a b ≡ lt
    → le_of (string_compare b c) ≡ true
    → string_compare a c ≡ lt
less a b c h k =
    ground (arith, string_compare-IsOrder.lt_trans a b c, eq_right string_compare-IsOrder a b c)

above-dedup :
    (x : String) (l : List String)
    → ((z : String) → Mem z l → string_compare x z ≡ lt)
    → Map.above string_compare x (dedup l) ≡ true
unfolding dedup
above-dedup x [] f = refl
above-dedup x (y ∷ []) f = rw (f y mem-cons_self) refl
above-dedup x (y ∷ z ∷ rest) f =
    ground (arith, f y mem-cons_self, above-dedup x (z ∷ rest) (λ w m. f w (mem-cons_of_mem y m)))

below_head :
    {y : String} {rest : List String}
    → IsSorted string_compare (y ∷ rest)
    → (z : String) → Mem z (y ∷ rest)
    → le_of (string_compare y z) ≡ true
below_head {y} (Pairwise.cons below s) z m =
    Or.elim (Bool-set _ _) (mem-cons.0 m) (λ e. rw (e, cmp_self string_compare-IsOrder y) refl)
      (below z)

ascends-dedup :
    (l : List String) → IsSorted string_compare l → Map.ascends string_compare (dedup l) ≡ true
unfolding dedup
ascends-dedup [] s = refl
ascends-dedup (x ∷ []) s = refl
ascends-dedup (x ∷ y ∷ rest) (Pairwise.cons below s) = elim (Bool-cases (str_eq x y)) [
  | inl h ↦ rw h (ascends-dedup (y ∷ rest) s)
  | inr h ↦
      let le : le_of (string_compare x y) ≡ true = below y mem-cons_self in
      let first : string_compare x y ≡ lt =
        ground (arith, le, string_compare-IsAntisym x y, eq_iff x y) in
      rw
        (
          h,
          above-dedup x (y ∷ rest) (λ z m. less x y z first (below_head s z m)),
          ascends-dedup (y ∷ rest) s,
        )
        refl
]

-- Strictly ascending, with the members of the list that is given.
abbrev pub IsTidied : List String → List String → Type 0
IsTidied l r = (Map.ascends string_compare r ≡ true) × ((s : String) → has s r ≡ has s l)

sort_dedup-IsTidied : (l : List String) → IsTidied l (sort_dedup l)
unfolding sort_dedup
sort_dedup-IsTidied l = (
  ascends-dedup (sort_by string_compare l) (sort_by-IsSorted string_compare-IsOrder l),
  λ s. has-sort_dedup s l,
)

-- Where a result comes from: a child that exited with success, and either wrote nothing, or wrote a
-- result with the same members in each list.
abbrev pub IsReported :
    (Bytes → Result BuildfixActuatorResult) → Bytes → BuildfixActuatorResult → Type 0
IsReported from_slice [] r = r ≡ record { applied_fix_ids = []; skipped_fix_ids = []; errors = [] }
IsReported from_slice (b ∷ rest) r =
    (raw : BuildfixActuatorResult) × (from_slice (b ∷ rest) ≡ ok raw)
    × IsTidied raw.applied_fix_ids r.applied_fix_ids
    × IsTidied raw.skipped_fix_ids r.skipped_fix_ids
    × IsTidied raw.errors r.errors

module _ (process : Process) (to_vec : BuildfixApplyRequest → Result Bytes)
    (from_slice : Bytes → Result BuildfixActuatorResult) (actuator : BuildfixActuatorConfig) where
  abbrev pub IsOutcome : BuildfixActuatorResult → Type 0
  IsOutcome r =
      (child : ℕ) × (status : String) × (stdout : Bytes) × (process.wait_timeout child
          actuator.timeout_ms
        ≡ ok (Exit.exited true status stdout))
      × IsReported from_slice stdout r

  output-IsOutcome :
      (child : ℕ) (exit : Exit)
      → process.wait_timeout child actuator.timeout_ms ≡ ok exit
      → Always IsOutcome (actuator_output process to_vec from_slice actuator exit)
  unfolding actuator_output tidy
  output-IsOutcome child Exit.timed_out e = tt
  output-IsOutcome child (Exit.exited false status stdout) e = tt
  output-IsOutcome child (Exit.exited true status []) e = (child, status, [], e, refl)
  output-IsOutcome child (Exit.exited true status (b ∷ rest)) e =
      Always-bind (λ raw. from_slice (b ∷ rest) ≡ ok raw) IsOutcome
        (context "parse buildfix actuator output JSON" (from_slice (b ∷ rest))) _
        (Always-context _ _ (from_slice (b ∷ rest)) (Always-self (from_slice (b ∷ rest))))
        (λ raw k. (
          child,
          status,
          b ∷ rest,
          e,
          (
            raw,
            k,
            sort_dedup-IsTidied raw.applied_fix_ids,
            sort_dedup-IsTidied raw.skipped_fix_ids,
            sort_dedup-IsTidied raw.errors,
          ),
        ))

  run_command-IsOutcome :
      (request : BuildfixApplyRequest) (parts : List String)
      → Always IsOutcome (run_command process to_vec from_slice actuator request parts)
  unfolding run_command
  run_command-IsOutcome request [] = tt
  run_command-IsOutcome request (command ∷ args) =
      Always->>= IsOutcome
        (context "serialize buildfix apply request for actuator" (to_vec request)) _
        (λ payload.
          Always->>= IsOutcome
            (context (concat ("spawn buildfix actuator `" ∷ actuator.command ∷ "`" ∷ []))
              (process.spawn (command ∷ args)))
            _
            (λ child.
              Always->>= IsOutcome
                (context "write buildfix apply request to actuator stdin"
                  (process.write_stdin child payload))
                _
                (λ _.
                  Always-bind (λ exit. process.wait_timeout child actuator.timeout_ms ≡ ok exit)
                    IsOutcome
                    (context "wait for buildfix actuator"
                      (process.wait_timeout child actuator.timeout_ms))
                    _
                    (Always-context _ _ (process.wait_timeout child actuator.timeout_ms)
                      (Always-self (process.wait_timeout child actuator.timeout_ms)))
                    (output-IsOutcome child))))

  -- A result comes from a child that exited with success in time. If the child wrote nothing, the
  -- result is empty; else it is what the child wrote, each list sorted and without duplicates.
  pub run_buildfix_actuator-IsOutcome :
      (request : BuildfixApplyRequest) {r : BuildfixActuatorResult}
      → run_buildfix_actuator process to_vec from_slice actuator request ≡ ok r
      → IsOutcome r
  unfolding run_buildfix_actuator
  run_buildfix_actuator-IsOutcome request e =
      Always-eq IsOutcome (run_buildfix_actuator process to_vec from_slice actuator request)
        (run_command-IsOutcome request (process.split_whitespace actuator.command)) e
