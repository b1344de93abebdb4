-- ===== src/Tests/Conform.antt =====
-- A receipt that passes every check, and a directory of it.
use mathlib.Core.List.{Mem}
use cockpitctl.Base.{◌≡◌, ◌↔◌, refl, String, true, false, none, some, [], ◌∷◌}
use cockpitctl.Types.Findings.{Finding, SensorReport}
use cockpitctl.Ingest.Result.{ok, err}
use cockpitctl.Types.Ranks.{severity_rank}
use cockpitctl.Io.Layout.{DirEntry}
use cockpitctl.Io.Samples.{fs, lint_dir}
use cockpitctl.Domain.Samples.{V₀, finding_a, finding_b, exact_receipt}
use cockpitctl.Domain.Findings.{sort_findings}
use cockpitctl.Conform.Checks.{check_ordering}
use cockpitctl.Conform.Checks.Ordering.{has_line, check_ordering-sort_findings}
use cockpitctl.Conform.Single.{ConformChecks, Json, is_pass, conform_single}
use cockpitctl.Conform.Single.Pass.{IsConformant, conform_single-IsConformant}
use cockpitctl.Conform.Cli.{directories, check_dir}
use cockpitctl.Conform.Cli.Directory.{all-mem, is_accepted, check_dir-accepted}

abbrev receipt : SensorReport V₀
receipt = record exact_receipt { findings = finding_b ∷ finding_a ∷ [] }

abbrev json : Json V₀ (Unit {0}) (Unit {0})
json = record {
  from_str = λ s. ok tt;
  validator_for = λ schema. ok tt;
  iter_errors = λ validator value. [];
  to_sensor_report = λ value. ok receipt;
  parse_cockpit_report = λ s. err ("no report" ∷ []);
  debug = λ s. s;
  sensor_report_schema = "{}";
  cockpit_report_schema = "{}";
}

abbrev every_check : ConformChecks
every_check = record {
  path_hygiene = true;
  ordering = true;
  reason_lint = true;
  survivability = true;
  tool_error_identity = true;
  sensor_id_format = true;
  artifact_pointers = true;
}

passing_run : conform_single json "{}" "lint" every_check ≡ ok (record { violations = [] })
unfolding conform_single severity_rank
passing_run = refl

conform_single-IsConformant_example : IsConformant json "{}" "lint" every_check
unfolding is_pass
conform_single-IsConformant_example =
    conform_single-IsConformant json "{}" "lint" every_check passing_run refl

check_dir-accepted_example :
    (check_dir json fs "artifacts" false every_check false false ≡ ok tt) ↔ (
      (entry : DirEntry String)
      → Mem entry (directories json fs (ok lint_dir ∷ []))
      → is_accepted json fs every_check false entry ≡ true)
check_dir-accepted_example =
    check_dir-accepted json fs every_check false "artifacts" false (ok lint_dir ∷ []) refl refl

abbrev located : Finding V₀
located = record finding_a {
  location = some (record { path = some "src/a.rs"; line = some 3; col = none });
}

abbrev unsorted : SensorReport V₀
unsorted = record exact_receipt {
  findings = located ∷ (record located { severity = finding_b.severity }) ∷ [];
}

check_ordering-sort_findings_example :
    check_ordering (record unsorted { findings = sort_findings "lint" unsorted.findings }) "lint"
    ≡ []
check_ordering-sort_findings_example =
    check_ordering-sort_findings unsorted "lint" ((all-mem has_line unsorted.findings).0 refl)
