-- ===== src/Ingest/Examine/Rejected.antt =====
-- Receipts that crates/cockpitctl-ingest/src/lib.rs rejects, and their summaries.
use cockpitctl.Base.{
  ◌≡◌, refl, sym, String, Bool, true, false, Bool-cases, Option, List, inl, inr, subst,
}
use cockpitctl.Types.Enums.{VerdictStatus, MissingPolicy}
use cockpitctl.Types.Findings.{SensorReport}
use cockpitctl.Types.Config.{SensorPolicy, CockpitConfig}
use cockpitctl.Types.Reports.{SensorSummary}
use cockpitctl.Types.SensorId.{is_valid_sensor_id}
use cockpitctl.Domain.Synthesize.{
  synthesize_missing_sensor, synthesize_invalid_sensor, synthesize_schema_violation_sensor,
  synthesize_path_traversal_sensor, synthesize_receipt_oversized_sensor,
}
use cockpitctl.Ingest.Result.{Result, ok, ◌>>=◌, Always, Always->>=, Always-bind}
use cockpitctl.Ingest.Ports.{
  Bytes, ReportRead, CommentRead, SchemaValidationResult, Parsed, Ports, Codec,
}
use cockpitctl.Ingest.Examine.{
  Examined, policy_of, label_gated, push_option, push_one, examine_decoded, examine_validated,
  validate, examine_read, examine_gated, after_notes, examine_valid, examine, comment_of,
}

abbrev is_malformed : {A : Type 0} → Parsed A → Bool
is_malformed (Parsed.parsed a) = false
is_malformed (Parsed.malformed e) = true

abbrev fails_missing : MissingPolicy → Bool
fails_missing MissingPolicy.fail = true
fails_missing _ = false

-- The receipt is unsafe, too large or no JSON of the expected form, or it is missing where the policy
-- has that fail.
abbrev pub is_rejected : {V : Type 0} → Codec V → SensorPolicy → ReportRead → Bool
is_rejected codec policy ReportRead.missing = fails_missing policy.missing
is_rejected codec policy ReportRead.unsafe_path = true
is_rejected codec policy (ReportRead.oversized size limit) = true
is_rejected codec policy (ReportRead.bytes b) = is_malformed (codec.parse_report b)

abbrev pub IsFailing : SensorSummary → Type 0
IsFailing s = s.verdict.status ≡ VerdictStatus.fail

module _ {V : Type 0} (ports : Ports V) (codec : Codec V) (cfg : CockpitConfig) (strict : Bool)
    (sensor_id : String) (policy : SensorPolicy) (comment_path : Option String) where
  examine_decoded-IsFailing :
      (r : Parsed (SensorReport V))
      → is_malformed r ≡ true
      → IsFailing (examine_decoded ports codec cfg strict sensor_id policy comment_path r).0
  unfolding examine_decoded push_option synthesize_invalid_sensor
  examine_decoded-IsFailing (Parsed.parsed report) h = cc
  examine_decoded-IsFailing (Parsed.malformed e) h = refl

  examine_validated-IsFailing :
      (b : Bytes) (c : SchemaValidationResult)
      → is_malformed (codec.parse_report b) ≡ true
      → IsFailing (examine_validated ports codec cfg strict sensor_id policy comment_path b c).0
  unfolding examine_validated push_option synthesize_schema_violation_sensor
  examine_validated-IsFailing b SchemaValidationResult.valid h =
      examine_decoded-IsFailing (codec.parse_report b) h
  examine_validated-IsFailing b (SchemaValidationResult.invalid errors) h = refl

  missing-IsFailing :
      (m : MissingPolicy)
      → fails_missing m ≡ true
      → IsFailing
          (synthesize_missing_sensor {V = V} sensor_id
            (record policy { missing = m })
            (ports.report_path sensor_id)
            comment_path).0
  unfolding synthesize_missing_sensor
  missing-IsFailing MissingPolicy.skip h = cc
  missing-IsFailing MissingPolicy.warn h = cc
  missing-IsFailing MissingPolicy.fail h = refl

  examine_read-IsFailing :
      (read : ReportRead)
      → is_rejected codec policy read ≡ true
      → Always
          (λ e. IsFailing e.0)
          (examine_read ports codec cfg strict sensor_id policy comment_path read)
  unfolding examine_read push_option push_one synthesize_path_traversal_sensor
      synthesize_receipt_oversized_sensor
  examine_read-IsFailing ReportRead.missing h = missing-IsFailing policy.missing h
  examine_read-IsFailing ReportRead.unsafe_path h = refl
  examine_read-IsFailing (ReportRead.oversized size limit) h = refl
  examine_read-IsFailing (ReportRead.bytes b) h =
      Always->>= (λ e. IsFailing e.0)
        (validate ports codec cfg strict sensor_id policy comment_path b)
        (λ c. ok (examine_validated ports codec cfg strict sensor_id policy comment_path b c))
        (λ c. examine_validated-IsFailing b c h)

module _ {V : Type 0} (ports : Ports V) (codec : Codec V) (cfg : CockpitConfig) (strict : Bool)
    (labels : List String) (sensor_id : String) where
  -- The label gate does not skip the sensor, and the receipt that is read is rejected.
  abbrev pub IsRejected : Type 0
  IsRejected =
      (label_gated labels (policy_of cfg sensor_id).require_label ≡ false)
      × (read : ReportRead) × (ports.read_report_bytes sensor_id ≡ ok read)
      × (is_rejected codec (policy_of cfg sensor_id) read ≡ true)

  abbrev Failing : Examined V → Type 0
  Failing e = IsFailing e.0

  examine_gated-IsFailing :
      (comment_path : Option String)
      → IsRejected
      → Always Failing (
          examine_gated ports codec cfg strict labels sensor_id
            (policy_of cfg sensor_id)
            comment_path)
  unfolding examine_gated
  examine_gated-IsFailing comment_path (gate, read, is_read, rejected) =
      let after : ReportRead → Result (Examined V) =
        examine_read ports codec cfg strict sensor_id (policy_of cfg sensor_id) comment_path in
      rw gate (
        subst (λ m. Always Failing (m >>= after)) (sym is_read)
          (examine_read-IsFailing ports codec cfg strict sensor_id (policy_of cfg sensor_id)
            comment_path read rejected))

  examine_valid-IsFailing :
      IsRejected
      → Always Failing
          (examine_valid ports codec cfg strict labels sensor_id (policy_of cfg sensor_id))
  unfolding examine_valid after_notes
  examine_valid-IsFailing h =
      let gated : CommentRead → Result (Examined V) = λ found.
        examine_gated ports codec cfg strict labels sensor_id (policy_of cfg sensor_id)
          (comment_of {V = V} sensor_id found).0 in
      let noted : CommentRead → Examined V → Result (Examined V) = λ found e.
        ok (after_notes ports codec cfg strict labels (comment_of {V = V} sensor_id found).1 e) in
      Always->>= Failing (ports.comment_path_if_present sensor_id)
        (λ found. gated found >>= noted found)
        (λ found.
          Always-bind Failing Failing (gated found) (noted found)
            (examine_gated-IsFailing (comment_of {V = V} sensor_id found).0 h) (λ e k. k))

  -- The summary of a sensor whose receipt is rejected fails.
  pub examine-IsFailing :
      IsRejected → Always Failing (examine ports codec cfg strict labels sensor_id)
  unfolding examine push_one synthesize_path_traversal_sensor
  examine-IsFailing h = elim (Bool-cases (is_valid_sensor_id sensor_id)) [
    | inl v ↦ rw v (examine_valid-IsFailing h)
    | inr v ↦ rw v refl
  ]
