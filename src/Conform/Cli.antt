-- ===== src/Conform/Cli.antt =====
-- crates/conformctl/src/main.rs: the commands `check` and `check-dir`. What they print is left out.
pub mod Directory
use cockpitctl.Base.{
  String, Bool, true, false, ◌&&◌, ◌||◌, not, str_eq, is_some, Option, none, some, List, [], ◌∷◌,
  ◌++◌, concat, to_string, length, string_compare, on, sort_by, if◌then◌else◌,
}
use mathlib.Core.Option.{get_or}
use cockpitctl.Render.Sections.{no_items}
use cockpitctl.Ingest.Result.{Result, ok, err, ◌>>=◌, context}
use cockpitctl.Io.Layout.{Files, DirEntry}
use cockpitctl.Conform.Checks.{check_determinism}
use cockpitctl.Conform.Single.{
  ConformChecks, ConformResult, Violation, Json, is_pass, conform_single, validate_cockpit_schema,
  check_cockpit_extended,
}

-- The flags of the command, each on if `all` is.
unfoldable pub checks_with_all : Bool → ConformChecks → ConformChecks
checks_with_all all c = record {
  path_hygiene = c.path_hygiene || all;
  ordering = c.ordering || all;
  reason_lint = c.reason_lint || all;
  survivability = c.survivability || all;
  tool_error_identity = c.tool_error_identity || all;
  sensor_id_format = c.sensor_id_format || all;
  artifact_pointers = c.artifact_pointers || all;
}

-- What `check_dir` has found so far: a label for each name, and whether something failed.
pub record Scan : Type 0 where
  pub results : List (String × String)
  pub had_failure : Bool

abbrev pub passed : String → String → Scan → Scan
passed name label s = record s { results = s.results ++ (name, label) ∷ [] }

abbrev pub failed : String → String → Scan → Scan
failed name label s = record { results = s.results ++ (name, label) ∷ []; had_failure = true }

module _ {V J C P : Type 0} (json : Json V J C) (fs : Files P) where
  -- The comparison with a golden file, if there is one.
  golden_check : Option P → String → Result (Unit {0})
  unfolding concat check_determinism
  golden_check none content = ok tt
  golden_check (some golden_path) content =
      context (concat ("read golden " ∷ fs.display golden_path ∷ []))
        (fs.read_to_string golden_path)
      >>= λ golden.
          if is_some (check_determinism content golden)
          then err ("determinism check failed: report differs from golden" ∷ [])
          else ok tt

  unfoldable pub check : P → Option P → Option String → ConformChecks → Bool → Result (Unit {0})
  unfolding concat to_string checks_with_all golden_check conform_single is_pass
  check report golden sensor_id flags all =
      if (flags.ordering || all) && not (is_some sensor_id)
      then err ("--ordering requires --sensor-id" ∷ [])
      else (context (concat ("read " ∷ fs.display report ∷ [])) (fs.read_to_string report)
          >>= λ content. golden_check golden content >>= λ _.
              conform_single json content (get_or sensor_id "unknown") (checks_with_all all flags)
              >>= λ result.
                  if not (is_pass result)
                  then err (
                      concat (
                        "conformance failed with "
                        ∷ to_string (length result.violations)
                        ∷ " violation(s)"
                        ∷ [])
                      ∷ [])
                  else ok tt)

  -- `filter_map(|e| e.ok())`, and the entries that are directories
  unfoldable pub directories : List (Result (DirEntry P)) → List (DirEntry P)
  directories [] = []
  directories (err e ∷ rest) = directories rest
  directories (ok entry ∷ rest) =
      let others = directories rest in if fs.is_dir entry.path then entry ∷ others else others

  unfoldable pub judged : String → Result ConformResult → Scan → Scan
  unfolding is_pass
  judged name (err e) s = failed name "FAIL" s
  judged name (ok result) s = if is_pass result then passed name "PASS" s else failed name "FAIL" s

  unfoldable pub read_and_judged : ConformChecks → String → Result String → Scan → Scan
  unfolding judged conform_single
  read_and_judged checks name (err e) s = failed name "FAIL (read error)" s
  read_and_judged checks name (ok content) s =
      judged name (conform_single json content name checks) s

  -- One round of the loop over the directories.
  unfoldable pub scan_entry : ConformChecks → Bool → DirEntry P → Scan → Scan
  unfolding read_and_judged
  scan_entry checks allow_missing_report entry s =
      let name = entry.file_name in
      let report_path = fs.join entry.path "report.json" in
      if str_eq name "cockpit"
      then s
      else if not (fs.exists report_path)
      then (if allow_missing_report
          then passed name "skip (no report.json)" s
          else failed name "FAIL (no report.json)" s)
      else read_and_judged checks name (fs.read_to_string report_path) s

  unfoldable pub scan_entries : ConformChecks → Bool → List (DirEntry P) → Scan → Scan
  unfolding scan_entry
  scan_entries checks allow_missing_report [] s = s
  scan_entries checks allow_missing_report (entry ∷ rest) s =
      scan_entries checks allow_missing_report rest (scan_entry checks allow_missing_report entry s)

  -- The violations of the extended checks of the cockpit's report.
  cockpit_extended : ConformChecks → Bool → String → Result (List Violation)
  unfolding check_cockpit_extended
  cockpit_extended checks presence_semantics content =
      if checks.reason_lint || presence_semantics
      then check_cockpit_extended json content checks.reason_lint presence_semantics
      else ok []

  unfoldable pub scan_cockpit : ConformChecks → Bool → P → Scan → Result Scan
  unfolding concat validate_cockpit_schema cockpit_extended
  scan_cockpit checks presence_semantics dir s =
      let cockpit_report = fs.join (fs.join dir "cockpit") "report.json" in
      if not (fs.exists cockpit_report)
      then ok (passed "cockpit" "skip (not found)" s)
      else (context (concat ("read " ∷ fs.display cockpit_report ∷ []))
            (fs.read_to_string cockpit_report)
          >>= λ content. validate_cockpit_schema json content >>= λ schema_violations.
              if not (no_items schema_violations)
              then ok (failed "cockpit" "FAIL" s)
              else (cockpit_extended checks presence_semantics content >>= λ violations. ok (
                  if no_items violations
                  then passed "cockpit" "PASS" s
                  else failed "cockpit" "FAIL" s)))

  unfoldable pub check_dir : P → Bool → ConformChecks → Bool → Bool → Result (Unit {0})
  unfolding concat directories scan_entries scan_cockpit
  check_dir dir validate_cockpit checks allow_missing_report presence_semantics =
      if not (fs.exists dir)
      then err (concat ("artifacts directory does not exist: " ∷ fs.display dir ∷ []) ∷ [])
      else (context (concat ("read dir " ∷ fs.display dir ∷ [])) (fs.read_dir dir) >>= λ entries.
          let sorted =
            sort_by (on (λ (e : DirEntry P). e.file_name) string_compare) (directories entries) in
          let scan =
            scan_entries checks allow_missing_report sorted
              (record { results = []; had_failure = false }) in
          (if validate_cockpit then scan_cockpit checks presence_semantics dir scan else ok scan)
          >>= λ s.
              if s.had_failure
              then err ("conform-dir: one or more sensors failed conformance checks" ∷ [])
              else ok tt)
