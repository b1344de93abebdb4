-- ===== src/Ingest/Examine/Identity.antt =====
-- What the summary of an examined sensor takes from the configuration, on every branch.
use cockpitctl.Base.{◌≡◌, refl, String, Bool, Bool-cases, Option, List, inl, inr}
use cockpitctl.Types.Findings.{SensorReport}
use cockpitctl.Types.Config.{SensorPolicy, CockpitConfig}
use cockpitctl.Types.Reports.{SensorSummary}
use cockpitctl.Types.SensorId.{is_valid_sensor_id}
use cockpitctl.Domain.Synthesize.{
  synthesize_missing_sensor, synthesize_invalid_sensor, synthesize_schema_violation_sensor,
  synthesize_path_traversal_sensor, synthesize_receipt_oversized_sensor,
}
use cockpitctl.Domain.Summarize.{summarize_sensor_report}
use cockpitctl.Ingest.Result.{ok, ◌>>=◌, Always, Always->>=, Always-bind}
use cockpitctl.Ingest.Ports.{Bytes, ReportRead, SchemaValidationResult, Parsed, Ports, Codec}
use cockpitctl.Ingest.Examine.{
  Examined, policy_of, label_gated, push_option, push_one, examine_validated, validate,
  examine_read, examine_gated, examine_decoded, after_notes, examine_valid, examine, comment_of,
}

-- The summary is of this sensor, and it blocks as the policy says.
abbrev pub IsOf : String → SensorPolicy → SensorSummary → Type 0
IsOf sensor_id policy s = (s.id ≡ sensor_id) × (s.blocking ≡ policy.blocking)

module _ {V : Type 0} (ports : Ports V) (codec : Codec V) (cfg : CockpitConfig) (strict : Bool)
    (sensor_id : String) (policy : SensorPolicy) (comment_path : Option String) where
  examine_decoded-IsOf :
      (r : Parsed (SensorReport V))
      → IsOf sensor_id policy
          (examine_decoded ports codec cfg strict sensor_id policy comment_path r).0
  unfolding examine_decoded synthesize_invalid_sensor summarize_sensor_report
  examine_decoded-IsOf (Parsed.parsed report) = (refl, refl)
  examine_decoded-IsOf (Parsed.malformed e) = (refl, refl)

  examine_validated-IsOf :
      (bytes : Bytes) (c : SchemaValidationResult)
      → IsOf sensor_id policy
          (examine_validated ports codec cfg strict sensor_id policy comment_path bytes c).0
  unfolding examine_validated synthesize_schema_violation_sensor
  examine_validated-IsOf bytes SchemaValidationResult.valid =
      examine_decoded-IsOf (codec.parse_report bytes)
  examine_validated-IsOf bytes (SchemaValidationResult.invalid errors) = (refl, refl)

  examine_read-IsOf :
      (read : ReportRead)
      → Always
          (λ e. IsOf sensor_id policy e.0)
          (examine_read ports codec cfg strict sensor_id policy comment_path read)
  unfolding examine_read push_option push_one synthesize_missing_sensor
      synthesize_path_traversal_sensor synthesize_receipt_oversized_sensor
  examine_read-IsOf ReportRead.missing = (refl, refl)
  examine_read-IsOf ReportRead.unsafe_path = (refl, refl)
  examine_read-IsOf (ReportRead.oversized size cap) = (refl, refl)
  examine_read-IsOf (ReportRead.bytes bytes) =
      Always->>= (λ e. IsOf sensor_id policy e.0)
        (validate ports codec cfg strict sensor_id policy comment_path bytes)
        (λ c. ok (examine_validated ports codec cfg strict sensor_id policy comment_path bytes c))
        (examine_validated-IsOf bytes)

module _ {V : Type 0} (ports : Ports V) (codec : Codec V) (cfg : CockpitConfig) (strict : Bool)
    (labels : List String) (sensor_id : String) where
  abbrev IsIts : Examined V → Type 0
  IsIts e = IsOf sensor_id (policy_of cfg sensor_id) e.0

  examine_gated-IsOf :
      (comment_path : Option String)
      → Always IsIts (
          examine_gated ports codec cfg strict labels sensor_id
            (policy_of cfg sensor_id)
            comment_path)
  unfolding examine_gated synthesize_missing_sensor
  examine_gated-IsOf comment_path =
      let policy = policy_of cfg sensor_id in
      elim (Bool-cases (label_gated labels policy.require_label)) [
        | inl h ↦ rw h (refl, refl)
        | inr h ↦ rw h (
            Always->>= IsIts (ports.read_report_bytes sensor_id)
              (examine_read ports codec cfg strict sensor_id policy comment_path)
              (examine_read-IsOf ports codec cfg strict sensor_id policy comment_path))
      ]

  examine_valid-IsOf :
      Always IsIts (examine_valid ports codec cfg strict labels sensor_id (policy_of cfg sensor_id))
  unfolding examine_valid after_notes
  examine_valid-IsOf =
      let policy = policy_of cfg sensor_id in
      Always->>= IsIts (ports.comment_path_if_present sensor_id)
        (λ found.
          examine_gated ports codec cfg strict labels sensor_id policy
            (comment_of {V = V} sensor_id found).0
          >>= (λ e.
              ok (after_notes ports codec cfg strict labels (comment_of sensor_id found).1 e)))
        (λ found.
          Always-bind IsIts IsIts
            (examine_gated ports codec cfg strict labels sensor_id policy
              (comment_of {V = V} sensor_id found).0)
            (λ e. ok (after_notes ports codec cfg strict labels (comment_of sensor_id found).1 e))
            (examine_gated-IsOf (comment_of {V = V} sensor_id found).0) (λ e h. h))

  pub examine-IsOf : Always IsIts (examine ports codec cfg strict labels sensor_id)
  unfolding examine push_one synthesize_path_traversal_sensor
  examine-IsOf = elim (Bool-cases (is_valid_sensor_id sensor_id)) [
    | inl h ↦ rw h examine_valid-IsOf
    | inr h ↦ rw h (refl, refl)
  ]
