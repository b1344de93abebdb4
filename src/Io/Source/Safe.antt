-- ===== src/Io/Source/Safe.antt =====
-- What the reads of `FsReceiptSource` in crates/cockpitctl-io/src/lib.rs reach.
use cockpitctl.Base.{
  ◌≡◌, inl, inr, Bool-cases, Option-cases, ℕ, ◌≤◌, String, true, false, some, [], ◌∷◌, ltb, arith,
  concat,
}
use cockpitctl.Types.SensorId.{is_valid_sensor_id}
use cockpitctl.Ingest.Ports.{Bytes, ReportRead, PlanRead}
use cockpitctl.Ingest.Result.{
  ok, context, Always, Always-bind, Always-eq, Always-self, Always-context,
}
use cockpitctl.Io.Layout.{Files, report_file, plan_file}
use cockpitctl.Io.Source.{
  FsReceiptSource, is_safe_path, read_capped, read_report_bytes, read_plan_bytes,
}

module _ {P : Type 0} (fs : Files P) (source : FsReceiptSource P) where
  -- The file is below the artifacts directory once its links are resolved, and no larger than the
  -- cap; and these are its bytes.
  abbrev pub IsContained : P → Bytes → Type 0
  IsContained p b =
      ((canonical : P) × (fs.canonicalize p ≡ some canonical)
        × (fs.starts_with canonical source.artifacts_root ≡ true))
      × ((size : ℕ) × (fs.len p ≡ ok size) × (size ≤ source.layout.max_receipt_bytes))
      × (fs.read p ≡ ok b)

  resolved :
      (p : P)
      → is_safe_path fs source p ≡ true
      → (canonical : P) × (fs.canonicalize p ≡ some canonical)
        × (fs.starts_with canonical source.artifacts_root ≡ true)
  unfolding is_safe_path
  resolved p h = elim (Option-cases (fs.canonicalize p)) [
    | inl e ↦ absurd (let h' : false ≡ true = rw (is_safe_path, e) at h in cc)
    | inr (c, e) ↦ (c, e, rw (is_safe_path, e) at h)
  ]

  read_capped-Always :
      {A : Type 0} (Q : A → Type 0) (label : String) (p : P) (oversized : ℕ → ℕ → A)
      (bytes : Bytes → A)
      → is_safe_path fs source p ≡ true
      → ((s c : ℕ) → Q (oversized s c))
      → ((b : Bytes) → IsContained p b → Q (bytes b))
      → Always Q (read_capped fs source label p oversized bytes)
  unfolding read_capped
  read_capped-Always Q label p oversized bytes safe over under =
      Always-bind (λ s. fs.len p ≡ ok s) Q (fs.len p) _ (Always-self (fs.len p))
        (λ size e. elim (Bool-cases (ltb source.layout.max_receipt_bytes size)) [
          | inl h ↦ rw h (over size source.layout.max_receipt_bytes)
          | inr h ↦ rw h (
              Always-bind (λ b. fs.read p ≡ ok b) Q
                (context (concat (label ∷ fs.display p ∷ [])) (fs.read p)) _
                (Always-context _ _ (fs.read p) (Always-self (fs.read p)))
                (λ b r. under b (resolved p safe, (size, e, ground arith), r)))
        ])

  abbrev ReportContained : String → ReportRead → Type 0
  ReportContained sensor_id (ReportRead.bytes b) =
      (is_valid_sensor_id sensor_id ≡ true) × IsContained (report_file fs source.layout sensor_id) b
  ReportContained sensor_id _ = Unit

  abbrev PlanContained : String → PlanRead → Type 0
  PlanContained sensor_id (PlanRead.bytes b) =
      (is_valid_sensor_id sensor_id ≡ true) × IsContained (plan_file fs source.layout sensor_id) b
  PlanContained sensor_id _ = Unit

  read_report_bytes-Always :
      (sensor_id : String)
      → Always (ReportContained sensor_id) (read_report_bytes fs source sensor_id)
  unfolding read_report_bytes
  read_report_bytes-Always sensor_id =
      let p : P = report_file fs source.layout sensor_id in
      elim (Bool-cases (is_valid_sensor_id sensor_id)) [
        | inr v ↦ rw v tt
        | inl v ↦ elim (Bool-cases (fs.exists p)) [
          | inr x ↦ rw (v, x) tt
          | inl x ↦ elim (Bool-cases (is_safe_path fs source p)) [
            | inr s ↦ rw (v, x, s) tt
            | inl s ↦
                rw (v, x, s)
                  (read_capped-Always (ReportContained sensor_id) "read receipt " p
                    ReportRead.oversized ReportRead.bytes s (λ _ _. tt) (λ b c. (v, c)))
          ]
        ]
      ]

  read_plan_bytes-Always :
      (sensor_id : String) → Always (PlanContained sensor_id) (read_plan_bytes fs source sensor_id)
  unfolding read_plan_bytes
  read_plan_bytes-Always sensor_id =
      let p : P = plan_file fs source.layout sensor_id in
      elim (Bool-cases (is_valid_sensor_id sensor_id)) [
        | inr v ↦ rw v tt
        | inl v ↦ elim (Bool-cases (fs.exists p)) [
          | inr x ↦ rw (v, x) tt
          | inl x ↦ elim (Bool-cases (is_safe_path fs source p)) [
            | inr s ↦ rw (v, x, s) tt
            | inl s ↦
                rw (v, x, s)
                  (read_capped-Always (PlanContained sensor_id) "read plan " p PlanRead.oversized
                    PlanRead.bytes s (λ _ _. tt) (λ b c. (v, c)))
          ]
        ]
      ]

  -- The bytes of a receipt are those of the sensor's file, for a valid sensor id, a file whose
  -- resolved path is below the artifacts directory, and a size within the cap.
  pub read_report_bytes-IsContained :
      (sensor_id : String) {b : Bytes}
      → read_report_bytes fs source sensor_id ≡ ok (ReportRead.bytes b)
      → (is_valid_sensor_id sensor_id ≡ true)
        × IsContained (report_file fs source.layout sensor_id) b
  read_report_bytes-IsContained sensor_id h =
      Always-eq (ReportContained sensor_id) (read_report_bytes fs source sensor_id)
        (read_report_bytes-Always sensor_id) h

  -- The same of the bytes of a plan.
  pub read_plan_bytes-IsContained :
      (sensor_id : String) {b : Bytes}
      → read_plan_bytes fs source sensor_id ≡ ok (PlanRead.bytes b)
      → (is_valid_sensor_id sensor_id ≡ true) × IsContained (plan_file fs source.layout sensor_id) b
  read_plan_bytes-IsContained sensor_id h =
      Always-eq (PlanContained sensor_id) (read_plan_bytes fs source sensor_id)
        (read_plan_bytes-Always sensor_id) h
