-- ===== src/Ingest/Examine.antt =====
-- The body of the loop over the expected sensors in `IngestUseCase::execute`: what one sensor adds to
-- the summaries and to the highlight candidates.
pub mod Identity
pub mod Isolation
pub mod Total
pub mod Rejected
use mathlib.Core.Option.{get_or}
use cockpitctl.Base.{
  String, Bool, true, false, not, Option, none, some, List, [], ◌∷◌, ◌++◌, any, str_eq,
  string_compare, concat, if◌then◌else◌,
}
use cockpitctl.Base.Map
use cockpitctl.Types.Enums.{MissingPolicy, SchemaValidation}
use cockpitctl.Types.Findings.{SensorReport, Highlight}
use cockpitctl.Types.Config.{SensorPolicy, CockpitConfig}
use cockpitctl.Types.Reports.{SensorSummary}
use cockpitctl.Types.Defaults.{default_sensor_policy}
use cockpitctl.Types.SensorId.{is_valid_sensor_id}
use cockpitctl.Domain.Synthesize.{
  synthesize_missing_sensor, synthesize_invalid_sensor, synthesize_schema_violation_sensor,
  synthesize_path_traversal_highlight, synthesize_path_traversal_sensor,
  synthesize_receipt_oversized_sensor,
}
use cockpitctl.Domain.Summarize.{summarize_sensor_report}
use cockpitctl.Ingest.Result.{Result, ok, ◌>>=◌}
use cockpitctl.Ingest.Ports.{
  Bytes, ReportRead, CommentRead, SchemaValidationResult, Parsed, Ports, Codec,
}

-- One iteration pushes one summary and some highlights.
abbrev pub Examined : Type 0 → Type 0
Examined V = SensorSummary × List (Highlight V)

-- `cfg.sensors.get(&sensor_id).cloned().unwrap_or_default()`
unfoldable pub policy_of : CockpitConfig → String → SensorPolicy
policy_of cfg sensor_id =
    get_or (Map.get string_compare sensor_id cfg.sensors) default_sensor_policy

unfoldable pub is_strict : SchemaValidation → Bool
is_strict SchemaValidation.strict = true
is_strict SchemaValidation.lax = false

-- The label that the policy requires is absent from the request.
unfoldable pub label_gated : List String → Option String → Bool
label_gated labels none = false
label_gated labels (some label) = not (any (λ l. str_eq l label) labels)

option_list : {A : Type 0} → Option A → List A
option_list none = []
option_list (some a) = a ∷ []

module _ {V : Type 0} where
  -- `summary` is pushed, and the highlight if there is one.
  push_option : SensorSummary × Option (Highlight V) → Examined V
  unfolding option_list
  push_option (summary, h) = (summary, option_list h)

  push_one : SensorSummary × Highlight V → Examined V
  push_one (summary, h) = (summary, h ∷ [])

  -- The comment's path, and the highlight for an unsafe one.
  unfoldable pub comment_of : String → CommentRead → Option String × List (Highlight V)
  comment_of sensor_id (CommentRead.present p) = (some p, [])
  comment_of sensor_id CommentRead.missing = (none, [])
  comment_of sensor_id CommentRead.unsafe_path = (
    none,
    synthesize_path_traversal_highlight sensor_id
          (concat ("artifacts/" ∷ sensor_id ∷ "/comment.md" ∷ [])) (some "comment.md")
        ∷ [],
  )

module _ {V : Type 0} (ports : Ports V) (codec : Codec V) (cfg : CockpitConfig) (strict : Bool)
    (sensor_id : String) (policy : SensorPolicy) (comment_path : Option String) where
  examine_decoded : Parsed (SensorReport V) → Examined V
  unfolding push_option
  examine_decoded (Parsed.parsed report) =
      summarize_sensor_report sensor_id (ports.report_path sensor_id) comment_path policy report
        cfg.policy.max_per_sensor_findings
  examine_decoded (Parsed.malformed e) =
      push_option
        (synthesize_invalid_sensor sensor_id policy (ports.report_path sensor_id) comment_path e)

  -- `serde_json::from_slice::<SensorReport>` and what follows
  unfoldable pub examine_parsed : Bytes → Examined V
  unfolding examine_decoded
  examine_parsed bytes = examine_decoded (codec.parse_report bytes)

  examine_validated : Bytes → SchemaValidationResult → Examined V
  unfolding examine_parsed
  examine_validated bytes SchemaValidationResult.valid = examine_parsed bytes
  examine_validated bytes (SchemaValidationResult.invalid errors) = push_option (
      synthesize_schema_violation_sensor sensor_id policy (ports.report_path sensor_id) comment_path
        errors)

  -- The validator is asked in strict mode alone.
  unfoldable pub validate : Bytes → Result SchemaValidationResult
  validate bytes = if strict then ports.validate_receipt bytes else ok SchemaValidationResult.valid

  unfoldable pub examine_read : ReportRead → Result (Examined V)
  unfolding examine_validated validate push_option push_one
  examine_read ReportRead.missing = ok (
      push_option
        (synthesize_missing_sensor sensor_id policy (ports.report_path sensor_id) comment_path))
  examine_read ReportRead.unsafe_path = ok (
      push_one (
        synthesize_path_traversal_sensor sensor_id policy (ports.report_path sensor_id) comment_path
          (some "report.json")))
  examine_read (ReportRead.oversized size cap) = ok (
      push_one (
        synthesize_receipt_oversized_sensor sensor_id policy (ports.report_path sensor_id)
          comment_path size cap))
  examine_read (ReportRead.bytes bytes) = do
    checked ← validate bytes
    ok (examine_validated bytes checked)

module _ {V : Type 0} (ports : Ports V) (codec : Codec V) (cfg : CockpitConfig) (strict : Bool)
    (labels : List String) where
  -- The highlights that an earlier stage pushed come first.
  after_notes : List (Highlight V) → Examined V → Examined V
  after_notes notes (summary, highlights) = (summary, notes ++ highlights)

  -- A sensor whose id is valid, after its comment was looked for.
  examine_gated : String → SensorPolicy → Option String → Result (Examined V)
  unfolding examine_read
  examine_gated sensor_id policy comment_path =
      if label_gated labels policy.require_label
      then ok (
        (synthesize_missing_sensor {V = V} sensor_id
            (record policy { missing = MissingPolicy.skip }) (ports.report_path sensor_id)
            comment_path).0,
        [],
      )
      else do
        read ← ports.read_report_bytes sensor_id
        examine_read ports codec cfg strict sensor_id policy comment_path read

  examine_valid : String → SensorPolicy → Result (Examined V)
  unfolding examine_gated after_notes comment_of
  examine_valid sensor_id policy = do
    found ← ports.comment_path_if_present sensor_id
    let comment = comment_of {V = V} sensor_id found
    examined ← examine_gated sensor_id policy comment.0
    ok (after_notes comment.1 examined)

  unfoldable pub examine : String → Result (Examined V)
  unfolding examine_valid push_one
  examine sensor_id =
      let policy = policy_of cfg sensor_id in
      if not (is_valid_sensor_id sensor_id)
      then ok (
          push_one (
            synthesize_path_traversal_sensor sensor_id policy (ports.report_path sensor_id) none
              none))
      else examine_valid sensor_id policy
