-- ===== src/Ingest/Examine/Total.antt =====
-- When an examination of crates/cockpitctl-ingest/src/lib.rs has a result.
use cockpitctl.Base.{◌≡◌, refl, sym, subst, String, Bool, Bool-cases, Option, List, inl, inr}
use cockpitctl.Types.Config.{SensorPolicy, CockpitConfig}
use cockpitctl.Types.SensorId.{is_valid_sensor_id}
use cockpitctl.Ingest.Result.{Result, ok, ◌>>=◌}
use cockpitctl.Ingest.Ports.{Bytes, ReportRead, CommentRead, SchemaValidationResult, Ports, Codec}
use cockpitctl.Ingest.Examine.{
  Examined, policy_of, label_gated, examine_validated, validate, examine_read, examine_gated,
  after_notes, examine_valid, examine, comment_of,
}

-- There is a value.
abbrev pub IsOk : {A : Type 0} → Result A → Type 0
IsOk {A} m = (a : A) × (m ≡ ok a)

pub IsOk->>= :
    {A B : Type 0} (m : Result A) (f : A → Result B)
    → IsOk m
    → ((a : A) → IsOk (f a))
    → IsOk (m >>= f)
IsOk->>= m f (a, e) h = subst (λ x. IsOk (x >>= f)) (sym e) (h a)

module _ {V : Type 0} (ports : Ports V) (codec : Codec V) (cfg : CockpitConfig) (strict : Bool)
    (labels : List String) (reads : (id : String) → IsOk (ports.read_report_bytes id))
    (comments : (id : String) → IsOk (ports.comment_path_if_present id))
    (validates : (b : Bytes) → IsOk (ports.validate_receipt b)) where
  module _ (sensor_id : String) (policy : SensorPolicy) (c : Option String) where
    validate-IsOk : (b : Bytes) → IsOk (validate ports codec cfg strict sensor_id policy c b)
    unfolding validate
    validate-IsOk b = elim (Bool-cases strict) [
      | inl h ↦ rw h (validates b)
      | inr h ↦ rw h (SchemaValidationResult.valid, refl)
    ]

    examine_read-IsOk :
        (read : ReportRead) → IsOk (examine_read ports codec cfg strict sensor_id policy c read)
    unfolding examine_read
    examine_read-IsOk ReportRead.missing = (_, refl)
    examine_read-IsOk ReportRead.unsafe_path = (_, refl)
    examine_read-IsOk (ReportRead.oversized size cap) = (_, refl)
    examine_read-IsOk (ReportRead.bytes b) =
        IsOk->>= (validate ports codec cfg strict sensor_id policy c b)
          (λ checked. ok (examine_validated ports codec cfg strict sensor_id policy c b checked))
          (validate-IsOk b) (λ checked. (_, refl))

    examine_gated-IsOk : IsOk (examine_gated ports codec cfg strict labels sensor_id policy c)
    unfolding examine_gated
    examine_gated-IsOk = elim (Bool-cases (label_gated labels policy.require_label)) [
      | inl h ↦ rw h (_, refl)
      | inr h ↦ rw h (
          IsOk->>= (ports.read_report_bytes sensor_id)
            (examine_read ports codec cfg strict sensor_id policy c) (reads sensor_id)
            examine_read-IsOk)
    ]

  examine_valid-IsOk :
      (sensor_id : String) (policy : SensorPolicy)
      → IsOk (examine_valid ports codec cfg strict labels sensor_id policy)
  unfolding examine_valid
  examine_valid-IsOk sensor_id policy =
      let gated : CommentRead → Result (Examined V) = λ found.
        examine_gated ports codec cfg strict labels sensor_id policy
          (comment_of {V = V} sensor_id found).0 in
      let noted : CommentRead → Examined V → Result (Examined V) = λ found e.
        ok (after_notes ports codec cfg strict labels (comment_of {V = V} sensor_id found).1 e) in
      IsOk->>= (ports.comment_path_if_present sensor_id) (λ found. gated found >>= noted found)
        (comments sensor_id)
        (λ found.
          IsOk->>= (gated found) (noted found)
            (examine_gated-IsOk sensor_id policy (comment_of {V = V} sensor_id found).0)
            (λ e. (_, refl)))

  -- Where the ports answer, an examination has a summary, whatever the receipt holds.
  pub examine-IsOk : (sensor_id : String) → IsOk (examine ports codec cfg strict labels sensor_id)
  unfolding examine
  examine-IsOk sensor_id = elim (Bool-cases (is_valid_sensor_id sensor_id)) [
    | inl h ↦ rw h (examine_valid-IsOk sensor_id (policy_of cfg sensor_id))
    | inr h ↦ rw h (_, refl)
  ]
