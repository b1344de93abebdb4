-- ===== src/Conform/Checks.antt =====
-- crates/cockpitctl-conform/src/checks.rs. `debug` is the format `{:?}` of a text.
pub mod Clean
pub mod Ordering
pub mod Told
use Prim.Native.Char.{code}
use Prim.Native.String.{String, [] as nil, ◌∷◌ as cons}
use mathlib.Core.Option.{get_or, bind}
use cockpitctl.Base.{
  ℕ, ◌+◌, ◌-◌, Bool, true, false, ◌&&◌, ◌||◌, not, ◌==◌, leb, str_eq, is_some, is_lt, Option, none,
  some, List, [], ◌∷◌, ◌++◌, map, any, all_chars, begins_with, contains, is_empty, concat,
  to_string, if◌then◌else◌,
}
use cockpitctl.Base.Map.{BTreeMap}
use cockpitctl.Types.Enums.{Presence}
use cockpitctl.Types.Run.{Capability}
use cockpitctl.Types.Findings.{Location, Finding, ArtifactPointer, SensorReport}
use cockpitctl.Types.Reports.{SensorSummary, CockpitReport}
use cockpitctl.Types.Ranks.{severity_rank, FindingSortKey, sort_key_cmp}
use cockpitctl.Types.SensorId.{is_id_byte}

abbrev pub is_token_byte : ℕ → Bool
is_token_byte b = leb b'a' b && leb b b'z' || leb b'0' b && leb b b'9' || b == b'_'

unfoldable pub is_valid_reason_token : String → Bool
unfolding is_empty all_chars
is_valid_reason_token s = not (is_empty s) && all_chars is_token_byte s

-- A violation, if the test holds.
abbrev pub when : Bool → String → List String
when b message = if b then message ∷ [] else []

-- A violation at an index.
abbrev pub at : String → ℕ → String → String
at what i rest = concat (what ∷ "[" ∷ to_string i ∷ "]" ∷ rest ∷ [])

-- The violations of each element, at its index, counted from `i`.
abbrev pub each_at {ℓ} : {A : Type ℓ} → (ℕ → A → List String) → ℕ → List A → List String
each_at check i [] = []
each_at check i (a ∷ rest) = check i a ++ each_at check (i + 1) rest

unfoldable pub is_rooted : String → Bool
unfolding begins_with
is_rooted path = begins_with path "/" || begins_with path "\\"

-- `path.as_bytes()[0].is_ascii_alphabetic() && path.as_bytes()[1] == b':'`, with two bytes at least
unfoldable pub has_drive : String → Bool
has_drive nil = false
has_drive (cons c nil) = false
has_drive (cons c (cons d s)) =
    (leb b'A' (code c) && leb (code c) b'Z' || leb b'a' (code c) && leb (code c) b'z')
    && code d == b':'

unfoldable pub path_violations : ℕ → String → List String
unfolding is_rooted has_drive contains concat to_string
path_violations i path =
    (if is_rooted path
      then at "finding" i (concat (": absolute path (starts with / or \\): " ∷ path ∷ [])) ∷ []
      else when (has_drive path)
          (at "finding" i (concat (": absolute path (drive letter): " ∷ path ∷ []))))
    ++ when (contains path "..")
        (at "finding" i (concat (": path traversal (contains ..): " ∷ path ∷ [])))
    ++ when (contains path "\\") (at "finding" i (concat (": backslash in path: " ∷ path ∷ [])))

unfoldable pub finding_violations : {V : Type 0} → ℕ → Finding V → List String
unfolding path_violations bind
finding_violations i f = elim (bind f.location (λ (l : Location). l.path)) [
  | none ↦ []
  | some path ↦ path_violations i path
]

unfoldable pub check_path_hygiene : {V : Type 0} → SensorReport V → List String
unfolding finding_violations
check_path_hygiene report = each_at finding_violations 0 report.findings

unfoldable pub ordering_key : {V : Type 0} → String → Finding V → FindingSortKey
unfolding bind
ordering_key sensor_id f = record {
  severity_rank = severity_rank f.severity;
  sensor_id = sensor_id;
  path = get_or (bind f.location (λ (l : Location). l.path)) "";
  line = get_or (bind f.location (λ (l : Location). l.line)) 0;
  code = f.code;
  message = f.message;
}

-- The violations of neighbours; `i` is the index of the second.
unfoldable pub out_of_order : ℕ → List FindingSortKey → List String
unfolding concat to_string
out_of_order i [] = []
out_of_order i (a ∷ []) = []
out_of_order i (a ∷ b ∷ rest) =
    when (is_lt (sort_key_cmp b a)) (
      concat (
        "finding["
        ∷ to_string i
        ∷ "] is out of order (severity_rank="
        ∷ to_string b.severity_rank
        ∷ ", code="
        ∷ b.code
        ∷ ") < finding["
        ∷ to_string (i - 1)
        ∷ "] (severity_rank="
        ∷ to_string a.severity_rank
        ∷ ", code="
        ∷ a.code
        ∷ ")"
        ∷ []))
    ++ out_of_order (i + 1) (b ∷ rest)

unfoldable pub check_ordering : {V : Type 0} → SensorReport V → String → List String
unfolding ordering_key out_of_order
check_ordering report sensor_id = out_of_order 1 (map (ordering_key sensor_id) report.findings)

unfoldable pub check_tool_error_identity : {V : Type 0} → SensorReport V → List String
check_tool_error_identity report =
    if not (any (λ r. str_eq r "tool_error") report.verdict.reasons)
    then []
    else when
        (not (
          any
            (λ (f : Finding _).
              elim f.check_id [ none ↦ false | some c ↦ str_eq c "tool.runtime" ]
              && str_eq f.code "runtime_error")
            report.findings))
        "verdict.reasons contains \"tool_error\" but no finding has check_id=\"tool.runtime\" + code=\"runtime_error\""

unfoldable pub artifact_violations : ℕ → ArtifactPointer → List String
unfolding is_empty contains is_rooted has_drive concat to_string
artifact_violations i artifact =
    when (is_empty artifact.id) (at "artifacts" i ": id is empty")
    ++ (if is_empty artifact.path
        then at "artifacts" i ": path is empty" ∷ []
        else (when (contains artifact.path "..")
              (at "artifacts" i (concat (": path contains \"..\": " ∷ artifact.path ∷ [])))
            ++ when (is_rooted artifact.path) (
                at "artifacts" i
                  (concat (": path is absolute (starts with / or \\): " ∷ artifact.path ∷ [])))
            ++ when (has_drive artifact.path) (
                at "artifacts" i
                  (concat (": path is absolute (drive letter): " ∷ artifact.path ∷ [])))))
    ++ when (is_empty artifact.mime) (at "artifacts" i ": mime is empty")

unfoldable pub check_artifact_pointers : {V : Type 0} → SensorReport V → List String
unfolding artifact_violations
check_artifact_pointers report = each_at artifact_violations 0 report.artifacts

-- `Debug` of `Presence`
presence_name : Presence → String
presence_name Presence.present = "Present"
presence_name Presence.missing = "Missing"
presence_name Presence.invalid = "Invalid"

is_missing : Presence → Bool
is_missing Presence.missing = true
is_missing _ = false

unfoldable pub presence_violations : ℕ → SensorSummary → List String
unfolding concat to_string presence_name is_missing
presence_violations i sensor =
    when (is_some sensor.missing_policy_applied && not (is_missing sensor.presence)) (
      concat (
        "sensors["
        ∷ to_string i
        ∷ "] ("
        ∷ sensor.id
        ∷ "): missing_policy_applied is set but presence is "
        ∷ presence_name sensor.presence
        ∷ ", expected \"missing\""
        ∷ []))

unfoldable pub check_presence_semantics : {V : Type 0} → CockpitReport V → List String
unfolding presence_violations
check_presence_semantics report = each_at presence_violations 0 report.sensors

module _ (debug : String → String) where
  invalid_token : String → String
  unfolding concat
  invalid_token reason = concat (": invalid token " ∷ debug reason ∷ [])

  -- The reasons of a verdict; `label` stands in front of the index.
  unfoldable pub reason_violations : String → ℕ → String → List String
  unfolding is_valid_reason_token concat to_string invalid_token
  reason_violations label i reason =
      when (not (is_valid_reason_token reason)) (at label i (invalid_token reason))

  unfoldable pub capability_violations : String → BTreeMap String Capability → List String
  unfolding is_valid_reason_token concat invalid_token
  capability_violations label [] = []
  capability_violations label ((name, cap) ∷ rest) =
      elim cap.reason [
        | none ↦ []
        | some reason ↦
            when (not (is_valid_reason_token reason))
              (concat (label ∷ name ∷ ".reason" ∷ invalid_token reason ∷ []))
      ]
      ++ capability_violations label rest

  unfoldable pub check_reason_tokens : {V : Type 0} → SensorReport V → List String
  unfolding reason_violations capability_violations
  check_reason_tokens report =
      each_at (reason_violations "verdict.reasons") 0 report.verdict.reasons
      ++ capability_violations "capabilities." report.run.capabilities

  unfoldable pub check_sensor_id_format : String → List String
  unfolding is_empty all_chars is_id_byte concat
  check_sensor_id_format sensor_id =
      when (not (not (is_empty sensor_id) && all_chars is_id_byte sensor_id))
        (concat ("sensor_id " ∷ debug sensor_id ∷ " does not match [a-zA-Z0-9_-]+" ∷ []))

  unfoldable pub sensor_reason_violations : ℕ → SensorSummary → List String
  unfolding reason_violations concat to_string
  sensor_reason_violations si sensor =
      each_at (reason_violations (at "sensors" si ".verdict.reasons")) 0 sensor.verdict.reasons

  unfoldable pub check_cockpit_reason_tokens : {V : Type 0} → CockpitReport V → List String
  unfolding reason_violations sensor_reason_violations capability_violations
  check_cockpit_reason_tokens report =
      each_at (reason_violations "verdict.reasons") 0 report.verdict.reasons
      ++ each_at sensor_reason_violations 0 report.sensors
      ++ capability_violations "run.capabilities." report.run.capabilities

unfoldable pub check_determinism : String → String → Option String
check_determinism actual expected =
    if not (str_eq actual expected) then some "report does not match golden file" else none
