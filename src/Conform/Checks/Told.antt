-- ===== src/Conform/Checks/Told.antt =====
-- When the checks of crates/cockpitctl-conform/src/checks.rs that concern the verdict, the tokens and the
-- order find nothing.
use Prim.Native.String.{String}
use mathlib.Core.Option.{bind}
use cockpitctl.Base.{
  ◌≡◌, refl, ap, ap₂, ◌∙◌, ℕ, ◌+◌, Bool, true, false, ◌&&◌, ◌||◌, ◌==◌, leb, not, arith, none, some,
  inl, inr, Option-cases, List, [], ◌∷◌, map, any, str_eq, is_empty, all_chars, le_of,
}
use cockpitctl.Base.Map.{BTreeMap}
use cockpitctl.Types.Run.{Capability}
use cockpitctl.Types.Findings.{Finding, SensorReport}
use cockpitctl.Types.Ranks.{severity_rank, FindingSortKey, sort_key_cmp}
use cockpitctl.Render.Sections.{no_items}
use cockpitctl.Conform.Checks.{
  is_valid_reason_token, reason_violations, capability_violations, check_reason_tokens,
  check_tool_error_identity, ordering_key, out_of_order, check_ordering,
}
use cockpitctl.Conform.Checks.Clean.{all, no_items-append, no_items-when, no_items-each_at}
use cockpitctl.Conform.Checks.Ordering.{neighbours}

-- The text is not empty, and has lower case letters, digits and underscores only.
abbrev pub is_token : String → Bool
is_token s =
    not (is_empty s)
    && all_chars (λ b. leb b'a' b && leb b b'z' || leb b'0' b && leb b b'9' || b == b'_') s

-- The capability has no reason, or one that is a token.
abbrev pub has_token : String × Capability → Bool
has_token entry = elim entry.1.reason [ none ↦ true | some reason ↦ is_token reason ]

-- Each reason of the verdict and of a capability is a token.
abbrev pub tokens_formed : {V : Type 0} → SensorReport V → Bool
tokens_formed report = all is_token report.verdict.reasons && all has_token report.run.capabilities

-- The finding that stands for an error of the tool.
abbrev pub is_tool_error : {V : Type 0} → Finding V → Bool
is_tool_error f =
    elim f.check_id [ none ↦ false | some c ↦ str_eq c "tool.runtime" ]
    && str_eq f.code "runtime_error"

-- If a reason says that the tool failed, then some finding does.
abbrev pub error_identified : {V : Type 0} → SensorReport V → Bool
error_identified report =
    not (any (λ r. str_eq r "tool_error") report.verdict.reasons)
    || any is_tool_error report.findings

-- No neighbour stands before the one in front of it.
abbrev pub ascending : List FindingSortKey → Bool
ascending [] = true
ascending (a ∷ []) = true
ascending (a ∷ b ∷ rest) = le_of (sort_key_cmp a b) && ascending (b ∷ rest)

reason_violations-token :
    (debug : String → String) (label : String) (i : ℕ) (reason : String)
    → no_items (reason_violations debug label i reason) ≡ is_token reason
unfolding reason_violations is_valid_reason_token
reason_violations-token debug label i reason = grind (arith, no_items-when)

capability_violations-token :
    (debug : String → String) (label : String) (l : BTreeMap String Capability)
    → no_items (capability_violations debug label l) ≡ all has_token l
unfolding capability_violations is_valid_reason_token
capability_violations-token debug label [] = refl
capability_violations-token debug label ((name, cap) ∷ rest) = elim (Option-cases cap.reason) [
  | inl e ↦ rw e (capability_violations-token debug label rest)
  | inr (reason, e) ↦
      rw e (
        grind (arith, no_items-append, no_items-when, capability_violations-token debug label rest))
]

module _ {V : Type 0} (report : SensorReport V) where
  pub check_reason_tokens-token :
      (debug : String → String) → no_items (check_reason_tokens debug report) ≡ tokens_formed report
  unfolding check_reason_tokens
  check_reason_tokens-token debug = grind (
    arith,
    no_items-append,
    no_items-each_at (reason_violations debug "verdict.reasons") is_token
        (reason_violations-token debug "verdict.reasons") 0 report.verdict.reasons,
    capability_violations-token debug "capabilities." report.run.capabilities,
  )

  pub check_tool_error_identity-identified :
      no_items (check_tool_error_identity report) ≡ error_identified report
  unfolding check_tool_error_identity
  check_tool_error_identity-identified = grind (arith, no_items-when)

out_of_order-ascending :
    (i : ℕ) (l : List FindingSortKey) → no_items (out_of_order i l) ≡ ascending l
unfolding out_of_order
out_of_order-ascending i [] = refl
out_of_order-ascending i (a ∷ []) = refl
out_of_order-ascending i (a ∷ b ∷ rest) =
    neighbours a b _ (out_of_order (i + 1) (b ∷ rest))
    ∙ ap (λ x. le_of (sort_key_cmp a b) && x) (out_of_order-ascending (i + 1) (b ∷ rest))

-- The severity, the sensor, the path or the empty text, the line or 0, the code and the message.
abbrev pub told_key : {V : Type 0} → String → Finding V → FindingSortKey
told_key sensor_id f = record {
  severity_rank = severity_rank f.severity;
  sensor_id = sensor_id;
  path = elim f.location [ none ↦ "" | some loc ↦ elim loc.path [ none ↦ "" | some p ↦ p ] ];
  line = elim f.location [ none ↦ 0 | some loc ↦ elim loc.line [ none ↦ 0 | some n ↦ n ] ];
  code = f.code;
  message = f.message;
}

ordering_key-told_key :
    {V : Type 0} (sensor_id : String) (f : Finding V)
    → ordering_key sensor_id f ≡ told_key sensor_id f
unfolding ordering_key bind
ordering_key-told_key sensor_id f = elim (Option-cases f.location) [
  | inl e ↦ rw e refl
  | inr (loc, e) ↦ elim (Option-cases loc.path) [
    | inl p ↦ elim (Option-cases loc.line) [
      | inl l ↦ rw (e, p, l) refl
      | inr (n, l) ↦ rw (e, p, l) refl
    ]
    | inr (q, p) ↦ elim (Option-cases loc.line) [
      | inl l ↦ rw (e, p, l) refl
      | inr (n, l) ↦ rw (e, p, l) refl
    ]
  ]
]

keys_lem :
    {V : Type 0} (sensor_id : String) (l : List (Finding V))
    → map (ordering_key sensor_id) l ≡ map (told_key sensor_id) l
keys_lem sensor_id [] = refl
keys_lem sensor_id (f ∷ l) = ap₂ ◌∷◌ (ordering_key-told_key sensor_id f) (keys_lem sensor_id l)

pub check_ordering-ascending :
    {V : Type 0} (report : SensorReport V) (sensor_id : String)
    → no_items (check_ordering report sensor_id)
      ≡ ascending (map (told_key sensor_id) report.findings)
unfolding check_ordering
check_ordering-ascending report sensor_id =
    out_of_order-ascending 1 (map (ordering_key sensor_id) report.findings)
    ∙ ap ascending (keys_lem sensor_id report.findings)
