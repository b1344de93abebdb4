-- ===== src/Domain/Outcome/Synthesized.antt =====
-- What the synthesized summaries of crates/cockpitctl-domain/src/lib.rs have in common.
use cockpitctl.Base.{◌≡◌, refl, ℕ, String, Option, none, some, List, [], ◌∷◌}
use cockpitctl.Types.Enums.{MissingPolicy}
use cockpitctl.Types.Findings.{Finding, Highlight}
use cockpitctl.Types.Config.{SensorPolicy}
use cockpitctl.Types.Reports.{SensorSummary}
use cockpitctl.Domain.Counts.{compute_counts}
use cockpitctl.Domain.Outcome.{compute_policy_outcome}
use cockpitctl.Domain.Synthesize.{
  synthesize_missing_sensor, synthesize_invalid_sensor, synthesize_schema_violation_sensor,
  synthesize_receipt_oversized_sensor,
}

abbrev pub findings_of : {V : Type 0} → Option (Highlight V) → List (Finding V)
findings_of none = []
findings_of (some h) = h.finding ∷ []

-- The outcome is the policy's for the status, and the counts are those of the findings.
abbrev pub IsConsistent : {V : Type 0} → SensorPolicy → SensorSummary → List (Finding V) → Type 0
IsConsistent policy s findings =
    (s.policy_outcome ≡ some (compute_policy_outcome policy.blocking s.verdict.status))
    × (s.verdict.counts ≡ compute_counts findings)

module _ (V : Type 0) (sensor_id : String) (policy : SensorPolicy) (report_path : String)
    (comment_path : Option String) where
  missing-IsConsistent :
      (m : MissingPolicy)
      → (let r =
            synthesize_missing_sensor {V = V} sensor_id
              (record policy { missing = m })
              report_path
              comment_path in
          IsConsistent policy r.0 (findings_of r.1))
  unfolding synthesize_missing_sensor
  missing-IsConsistent MissingPolicy.skip = (refl, refl)
  missing-IsConsistent MissingPolicy.warn = (refl, refl)
  missing-IsConsistent MissingPolicy.fail = (refl, refl)

  -- In the summaries of a missing, an unreadable, a nonconforming and an oversized receipt the outcome
  -- is the policy's for the status, and the counts are those of the highlights made with them.
  pub synthesized-IsConsistent :
      (error : String) (errors : List String) (size cap : ℕ)
      → (let m = synthesize_missing_sensor {V = V} sensor_id policy report_path comment_path in
          let i =
            synthesize_invalid_sensor {V = V} sensor_id policy report_path comment_path error in
          let v =
            synthesize_schema_violation_sensor {V = V} sensor_id policy report_path comment_path
              errors in
          let o =
            synthesize_receipt_oversized_sensor {V = V} sensor_id policy report_path comment_path
              size cap in
          IsConsistent policy m.0 (findings_of m.1)
          × IsConsistent policy i.0 (findings_of i.1)
          × IsConsistent policy v.0 (findings_of v.1)
          × IsConsistent policy o.0 (o.1.finding ∷ []))
  unfolding synthesize_invalid_sensor synthesize_schema_violation_sensor
      synthesize_receipt_oversized_sensor
  synthesized-IsConsistent error errors size cap =
      (missing-IsConsistent policy.missing, (refl, refl), (refl, refl), (refl, refl))
