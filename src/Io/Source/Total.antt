-- ===== src/Io/Source/Total.antt =====
-- When the adapters of crates/cockpitctl-io/src/lib.rs that read have an answer.
use cockpitctl.Base.{
  true, false, ℕ, ◌≡◌, refl, String, Bool, not, ltb, List, [], ◌∷◌, map, concat, if◌then◌else◌,
}
use cockpitctl.Types.SensorId.{is_valid_sensor_id}
use cockpitctl.Ingest.Ports.{Bytes, ReportRead, CommentRead, PlanRead}
use cockpitctl.Ingest.Result.{Result, ok, context}
use cockpitctl.Ingest.Examine.Total.{IsOk, IsOk->>=}
use cockpitctl.Ingest.Execute.Total.{context-IsOk}
use cockpitctl.Io.Layout.{Files, FsLayout, DirEntry, report_file, comment_file, plan_file}
use cockpitctl.Io.Source.{
  FsReceiptSource, Candidates, candidate, collect, discovered_sensors, is_safe_path, read_capped,
  read_report_bytes, comment_path_if_present, read_plan_bytes,
}

-- The artifacts directory, if it exists, and all its entries can be listed; and the receipts and the plans
-- that exist under a sensor id have a length and can be read.
abbrev pub IsReadable : {P : Type 0} → Files P → FsLayout P → Type 0
IsReadable {P} fs layout =
    (fs.exists layout.artifacts_dir ≡ true
      → (l : List (DirEntry P)) × (fs.read_dir layout.artifacts_dir ≡ ok (map ok l)))
    × ((id : String)
        → is_valid_sensor_id id ≡ true
        → fs.exists (report_file fs layout id) ≡ true
        → IsOk (fs.len (report_file fs layout id)) × IsOk (fs.read (report_file fs layout id)))
    × ((id : String)
        → is_valid_sensor_id id ≡ true
        → fs.exists (plan_file fs layout id) ≡ true
        → IsOk (fs.len (plan_file fs layout id)) × IsOk (fs.read (plan_file fs layout id)))

if-IsOk : {A : Type 0} (b : Bool) (m n : Result A) → IsOk m → IsOk n → IsOk (if b then m else n)
if-IsOk true m n h k = h
if-IsOk false m n h k = k

-- The second branch is taken where the test fails.
unless-IsOk :
    {A : Type 0} (b : Bool) (m n : Result A)
    → IsOk m
    → (b ≡ true → IsOk n)
    → IsOk (if not b then m else n)
unless-IsOk true m n h k = k refl
unless-IsOk false m n h k = h

module _ {P : Type 0} (fs : Files P) (source : FsReceiptSource P)
    (readable : IsReadable fs source.layout) where
  collect-IsOk :
      (layout : FsLayout P) (c : Candidates) (l : List (DirEntry P))
      → IsOk (collect fs layout c (map ok l))
  unfolding collect
  collect-IsOk layout c [] = (c, refl)
  collect-IsOk layout c (e ∷ l) = collect-IsOk layout (candidate fs layout e c) l

  pub discovered_sensors-IsOk : IsOk (discovered_sensors fs source)
  unfolding discovered_sensors
  discovered_sensors-IsOk =
      unless-IsOk (fs.exists source.layout.artifacts_dir) _ _ (_, refl)
        (λ x.
          let (l, e) = readable.0 x in
          rw e (
            IsOk->>= (collect fs source.layout (record { out = []; invalid = [] }) (map ok l)) _
              (collect-IsOk source.layout (record { out = []; invalid = [] }) l) (λ c. (_, refl))))

  read_capped-IsOk :
      {A : Type 0} (label : String) (p : P) (oversized : ℕ → ℕ → A) (bytes : Bytes → A)
      → IsOk (fs.len p) × IsOk (fs.read p)
      → IsOk (read_capped fs source label p oversized bytes)
  unfolding read_capped
  read_capped-IsOk label p oversized bytes (size, content) = IsOk->>= (fs.len p) _ size (λ n.
      if-IsOk (ltb source.layout.max_receipt_bytes n) _ _ (_, refl)
        (IsOk->>= (context (concat (label ∷ fs.display p ∷ [])) (fs.read p)) _
          (context-IsOk _ (fs.read p) content) (λ b. (_, refl))))

  pub read_report_bytes-IsOk : (id : String) → IsOk (read_report_bytes fs source id)
  unfolding read_report_bytes
  read_report_bytes-IsOk id =
      unless-IsOk (is_valid_sensor_id id) _ _ (ReportRead.unsafe_path, refl)
        (λ v.
          unless-IsOk (fs.exists (report_file fs source.layout id)) _ _ (ReportRead.missing, refl)
            (λ x.
              unless-IsOk (is_safe_path fs source (report_file fs source.layout id)) _ _
                (ReportRead.unsafe_path, refl)
                (λ _.
                  read_capped-IsOk "read receipt " _ ReportRead.oversized ReportRead.bytes
                    (readable.1 id v x))))

  pub comment_path_if_present-IsOk : (id : String) → IsOk (comment_path_if_present fs source id)
  unfolding comment_path_if_present
  comment_path_if_present-IsOk id =
      if-IsOk (not (is_valid_sensor_id id)) _ _ (CommentRead.unsafe_path, refl)
        (if-IsOk (fs.exists (comment_file fs source.layout id)) _ _
          (if-IsOk (not (is_safe_path fs source (comment_file fs source.layout id))) _ _
            (CommentRead.unsafe_path, refl) (_, refl))
          (CommentRead.missing, refl))

  pub read_plan_bytes-IsOk : (id : String) → IsOk (read_plan_bytes fs source id)
  unfolding read_plan_bytes
  read_plan_bytes-IsOk id =
      unless-IsOk (is_valid_sensor_id id) _ _ (PlanRead.missing, refl)
        (λ v.
          unless-IsOk (fs.exists (plan_file fs source.layout id)) _ _ (PlanRead.missing, refl)
            (λ x.
              unless-IsOk (is_safe_path fs source (plan_file fs source.layout id)) _ _
                (PlanRead.missing, refl)
                (λ _.
                  read_capped-IsOk "read plan " _ PlanRead.oversized PlanRead.bytes
                    (readable.2 id v x))))
