-- ===== src/Io/Source.antt =====
-- `FsReceiptSource` and `FsPolicySource` of crates/cockpitctl-io/src/lib.rs.
pub mod Total
pub mod Discover
pub mod Safe
use cockpitctl.Base.{
  ℕ, String, Bool, true, false, not, str_eq, Option, none, some, List, [], ◌∷◌, ◌++◌, ltb, length,
  take, concat, string_compare, sort_by, if◌then◌else◌,
}
use cockpitctl.Types.SensorId.{is_valid_sensor_id}
use cockpitctl.Types.Config.{CockpitConfig}
use cockpitctl.Ingest.Ports.{
  Bytes, DiscoveredSensors, ReportRead, CommentRead, PlanRead, Parsed, parsed, malformed,
}
use cockpitctl.Ingest.Result.{Result, ok, err, ◌>>=◌, context}
use cockpitctl.Io.Layout.{
  Files, FsLayout, DirEntry, report_file, comment_file, plan_file, canonicalize_root,
}

pub record FsReceiptSource (P : Type 0) : Type 0 where
  pub layout : FsLayout P
  pub artifacts_root : P

-- What the loop over the directory has collected.
pub record Candidates : Type 0 where
  pub out : List String
  pub invalid : List String

module _ {P : Type 0} (fs : Files P) where
  unfoldable pub new_receipt_source : FsLayout P → FsReceiptSource P
  unfolding canonicalize_root
  new_receipt_source layout = record {
    layout = layout;
    artifacts_root = canonicalize_root fs layout.artifacts_dir;
  }

  -- One round of the loop over the directory.
  unfoldable pub candidate : FsLayout P → DirEntry P → Candidates → Candidates
  unfolding report_file is_valid_sensor_id
  candidate layout entry c =
      if not (fs.is_dir entry.path)
      then c
      else if str_eq entry.file_name "cockpit"
      then c
      else if not (is_valid_sensor_id entry.file_name)
      then record c { invalid = c.invalid ++ entry.file_name ∷ [] }
      else if fs.exists (report_file fs layout entry.file_name)
      then record c { out = c.out ++ entry.file_name ∷ [] }
      else c

  unfoldable pub collect : FsLayout P → Candidates → List (Result (DirEntry P)) → Result Candidates
  unfolding candidate
  collect layout c [] = ok c
  collect layout c (err e ∷ rest) = err e
  collect layout c (ok entry ∷ rest) = collect layout (candidate layout entry c) rest

  unfoldable pub listed_sensors : FsLayout P → Candidates → DiscoveredSensors
  listed_sensors layout c =
      let out = sort_by string_compare c.out in
      let truncated = ltb layout.max_receipts (length out) in
      record {
        sensors = if truncated then take layout.max_receipts out else out;
        truncated = truncated;
        total_found = length out;
        invalid_sensor_ids = sort_by string_compare c.invalid;
      }

  unfoldable pub discovered_sensors : FsReceiptSource P → Result DiscoveredSensors
  unfolding collect listed_sensors concat
  discovered_sensors source =
      let layout = source.layout in
      if not (fs.exists layout.artifacts_dir)
      then ok (record { sensors = []; truncated = false; total_found = 0; invalid_sensor_ids = [] })
      else (context (concat ("read artifacts dir " ∷ fs.display layout.artifacts_dir ∷ []))
            (fs.read_dir layout.artifacts_dir)
          >>= (λ entries. collect layout (record { out = []; invalid = [] }) entries)
          >>= (λ c. ok (listed_sensors layout c)))

  unfoldable pub is_safe_path : FsReceiptSource P → P → Bool
  is_safe_path source path = elim (fs.canonicalize path) [
    | none ↦ false
    | some canonical ↦ fs.starts_with canonical source.artifacts_root
  ]

  -- The size, then the bytes; `label` names the file in an error.
  read_capped : {A : Type 0} → FsReceiptSource P → String → P → (ℕ → ℕ → A) → (Bytes → A) → Result A
  unfolding concat
  read_capped source label p oversized bytes =
      let limit = source.layout.max_receipt_bytes in
      fs.len p >>= λ size.
      if ltb limit size
      then ok (oversized size limit)
      else (context (concat (label ∷ fs.display p ∷ [])) (fs.read p) >>= λ b. ok (bytes b))

  unfoldable pub read_report_bytes : FsReceiptSource P → String → Result ReportRead
  unfolding report_file is_safe_path read_capped is_valid_sensor_id
  read_report_bytes source sensor_id =
      let p = report_file fs source.layout sensor_id in
      if not (is_valid_sensor_id sensor_id)
      then ok ReportRead.unsafe_path
      else if not (fs.exists p)
      then ok ReportRead.missing
      else if not (is_safe_path source p)
      then ok ReportRead.unsafe_path
      else read_capped source "read receipt " p ReportRead.oversized ReportRead.bytes

  unfoldable pub report_path : FsReceiptSource P → String → String
  unfolding concat
  report_path source sensor_id = concat ("artifacts/" ∷ sensor_id ∷ "/report.json" ∷ [])

  unfoldable pub comment_path_if_present : FsReceiptSource P → String → Result CommentRead
  unfolding comment_file is_safe_path is_valid_sensor_id concat
  comment_path_if_present source sensor_id =
      let p = comment_file fs source.layout sensor_id in
      if not (is_valid_sensor_id sensor_id)
      then ok CommentRead.unsafe_path
      else if fs.exists p
      then (if not (is_safe_path source p)
          then ok CommentRead.unsafe_path
          else ok (CommentRead.present (concat ("artifacts/" ∷ sensor_id ∷ "/comment.md" ∷ []))))
      else ok CommentRead.missing

  unfoldable pub read_plan_bytes : FsReceiptSource P → String → Result PlanRead
  unfolding plan_file is_safe_path read_capped is_valid_sensor_id
  read_plan_bytes source sensor_id =
      let p = plan_file fs source.layout sensor_id in
      if not (is_valid_sensor_id sensor_id)
      then ok PlanRead.missing
      else if not (fs.exists p)
      then ok PlanRead.missing
      else if not (is_safe_path source p)
      then ok PlanRead.missing
      else read_capped source "read plan " p PlanRead.oversized PlanRead.bytes

  -- `FsPolicySource::load_config`; `from_str` is `toml::from_str`.
  unfoldable pub load_config :
      (from_str : String → Result CockpitConfig) → FsLayout P → Result (Option CockpitConfig)
  unfolding concat
  load_config from_str layout =
      let p = layout.config_path in
      if not (fs.exists p)
      then ok none
      else (context (concat ("read config " ∷ fs.display p ∷ [])) (fs.read_to_string p) >>= λ txt.
          context (concat ("parse TOML " ∷ fs.display p ∷ [])) (from_str txt) >>= λ cfg.
          ok (some cfg))
