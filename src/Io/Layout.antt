-- ===== src/Io/Layout.antt =====
-- `FsLayout` of crates/cockpitctl-io/src/lib.rs, and what the crate uses of `std::fs` and
-- `std::path`. `P` is `PathBuf`. The answers of the file system do not change during a run.
use cockpitctl.Base.{ℕ, ◌*◌, String, Bool, Option, none, some, List, if◌then◌else◌}
use cockpitctl.Ingest.Ports.{Bytes}
use cockpitctl.Ingest.Result.{Result}

-- A directory entry: its name and its path.
pub record DirEntry (P : Type 0) : Type 0 where
  pub file_name : String
  pub path : P

pub record Files (P : Type 0) : Type 0 where
  pub join : P → String → P
  pub join_path : P → P → P
  pub from : String → P
  pub display : P → String
  pub starts_with : P → P → Bool
  pub is_absolute : P → Bool
  pub current_dir : Option P
  pub exists : P → Bool
  pub is_dir : P → Bool
  pub canonicalize : P → Option P
  pub len : P → Result ℕ
  pub read : P → Result Bytes
  pub read_to_string : P → Result String
  pub read_dir : P → Result (List (Result (DirEntry P)))

pub record FsLayout (P : Type 0) : Type 0 where
  pub artifacts_dir : P
  pub out_dir : P
  pub config_path : P
  pub max_receipt_bytes : ℕ
  pub max_receipts : ℕ

abbrev pub default_max_receipts : ℕ
default_max_receipts = 100

module _ {P : Type 0} (fs : Files P) where
  unfoldable pub new_layout : P → P → FsLayout P
  new_layout artifacts_dir config_path = record {
    artifacts_dir = artifacts_dir;
    out_dir = fs.join artifacts_dir "cockpit";
    config_path = config_path;
    max_receipt_bytes = 2 * 1024 * 1024;
    max_receipts = default_max_receipts;
  }

  unfoldable pub sensor_dir : FsLayout P → String → P
  sensor_dir layout sensor_id = fs.join layout.artifacts_dir sensor_id

  unfoldable pub report_file : FsLayout P → String → P
  unfolding sensor_dir
  report_file layout sensor_id = fs.join (sensor_dir layout sensor_id) "report.json"

  unfoldable pub comment_file : FsLayout P → String → P
  unfolding sensor_dir
  comment_file layout sensor_id = fs.join (sensor_dir layout sensor_id) "comment.md"

  unfoldable pub plan_file : FsLayout P → String → P
  unfolding sensor_dir
  plan_file layout sensor_id = fs.join (sensor_dir layout sensor_id) "plan.json"

  unfoldable pub sarif_report_file : FsLayout P → P
  sarif_report_file layout = fs.join layout.out_dir "sarif.json"

  unfoldable pub cockpit_report_file : FsLayout P → P
  cockpit_report_file layout = fs.join layout.out_dir "report.json"

  unfoldable pub cockpit_comment_file : FsLayout P → P
  cockpit_comment_file layout = fs.join layout.out_dir "comment.md"

  unfoldable pub absolute_path : P → P
  absolute_path path =
      if fs.is_absolute path
      then path
      else fs.join_path (elim fs.current_dir [ none ↦ fs.from "." | some d ↦ d ]) path

  unfoldable pub canonicalize_root : P → P
  unfolding absolute_path
  canonicalize_root path =
      if fs.exists path
      then elim (fs.canonicalize path) [ none ↦ absolute_path path | some p ↦ p ]
      else absolute_path path

unfoldable pub with_max_receipts : {P : Type 0} → FsLayout P → ℕ → FsLayout P
with_max_receipts layout max = record layout { max_receipts = max }

unfoldable pub with_max_receipt_bytes : {P : Type 0} → FsLayout P → ℕ → FsLayout P
with_max_receipt_bytes layout max = record layout { max_receipt_bytes = max }
