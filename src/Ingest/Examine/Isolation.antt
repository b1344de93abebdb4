-- ===== src/Ingest/Examine/Isolation.antt =====
-- Which readings an examination in crates/cockpitctl-ingest/src/lib.rs depends on.
use cockpitctl.Base.{◌≡◌, refl, String, Bool, true, Bool-cases, List, inl, inr}
use cockpitctl.Types.Config.{CockpitConfig}
use cockpitctl.Types.SensorId.{is_valid_sensor_id}
use cockpitctl.Ingest.Result.{Result}
use cockpitctl.Ingest.Ports.{ReportRead, CommentRead, Ports, Codec}
use cockpitctl.Ingest.Examine.{
  examine_decoded, examine_validated, validate, examine_read, examine_gated, after_notes,
  examine_valid, examine, examine_parsed,
}

-- The ports with other answers to the reading of a receipt and of a comment.
abbrev pub with_reads :
    {V : Type 0} → Ports V → (String → Result ReportRead) → (String → Result CommentRead) → Ports V
with_reads ports reports comments = record ports {
  read_report_bytes = reports;
  comment_path_if_present = comments;
}

module _ {V : Type 0} (ports : Ports V) (codec : Codec V) (cfg : CockpitConfig) (strict : Bool)
    (labels : List String) where
  -- If only the answers to readings of receipts and comments change, an examination of a valid id
  -- finds the same where those of that id stay the same, and one of an id that is not valid always
  -- finds the same.
  pub examine-reads :
      (reports : String → Result ReportRead) (comments : String → Result CommentRead)
      (sensor_id : String)
      → (is_valid_sensor_id sensor_id ≡ true
          → reports sensor_id ≡ ports.read_report_bytes sensor_id)
      → (is_valid_sensor_id sensor_id ≡ true
          → comments sensor_id ≡ ports.comment_path_if_present sensor_id)
      → examine (with_reads ports reports comments) codec cfg strict labels sensor_id
        ≡ examine ports codec cfg strict labels sensor_id
  unfolding examine examine_valid examine_gated examine_read examine_validated examine_parsed
      examine_decoded validate after_notes
  examine-reads reports comments sensor_id hr hc =
      elim (Bool-cases (is_valid_sensor_id sensor_id)) [
        | inl h ↦ rw (h, hr h, hc h) refl
        | inr h ↦ rw h refl
      ]
