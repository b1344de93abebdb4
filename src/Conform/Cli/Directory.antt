-- ===== src/Conform/Cli/Directory.antt =====
-- When `check-dir` of crates/conformctl/src/main.rs succeeds.
use mathlib.Core.List.{mem-cons, mem-cons_self, mem-cons_of_mem, not-mem-nil}
use mathlib.Core.List.Perm
use mathlib.Core.Logic.Or
use mathlib.Core.Bool.{Bool-set}
use cockpitctl.Base.{
  ◌≡◌, refl, ◌↔◌, String, Bool, true, false, ◌||◌, not, str_eq, arith, List, [], ◌∷◌, Mem, on,
  string_compare, sort_by, sort_by-perm, if◌then◌else◌,
}
use cockpitctl.Ingest.Result.{Result, ok, err}
use cockpitctl.Io.Layout.{Files, DirEntry}
use cockpitctl.Conform.Checks.Clean.{all}
use cockpitctl.Conform.Single.{ConformChecks, ConformResult, Json, is_pass, conform_single}
use cockpitctl.Conform.Cli.{
  Scan, directories, judged, read_and_judged, scan_entry, scan_entries, check_dir,
}

pub all-mem :
    {A : Type 0} (p : A → Bool) (l : List A) → (all p l ≡ true) ↔ ((a : A) → Mem a l → p a ≡ true)
all-mem p [] = (λ _ a m. absurd (not-mem-nil m), λ _. refl)
all-mem p (x ∷ l) = (
  λ h a m.
      Or.elim (Bool-set _ _) (mem-cons.0 m)
        (λ e. rw e (let q : p x ≡ true = ground (arith, h) in q))
        (λ r. (all-mem p l).0 (ground (arith, h)) a r),
  λ f. rw (f x mem-cons_self) ((all-mem p l).1 (λ a m. f a (mem-cons_of_mem x m))),
)

module _ {V J C P : Type 0} (json : Json V J C) (fs : Files P) (checks : ConformChecks)
    (allow_missing_report : Bool) where
  abbrev pub result_passes : Result ConformResult → Bool
  result_passes (err e) = false
  result_passes (ok r) = is_pass r

  abbrev pub content_passes : String → Result String → Bool
  content_passes name (err e) = false
  content_passes name (ok content) = result_passes (conform_single json content name checks)

  -- The directory is the cockpit's own; or it has no report, and that is allowed; or its report can be
  -- read and passes the checks under the directory's name.
  abbrev pub is_accepted : DirEntry P → Bool
  is_accepted entry =
      str_eq entry.file_name "cockpit"
      || (if not (fs.exists (fs.join entry.path "report.json"))
          then allow_missing_report
          else content_passes entry.file_name
              (fs.read_to_string (fs.join entry.path "report.json")))

  judged-failure :
      (name : String) (r : Result ConformResult) (s : Scan)
      → (judged json fs name r s).had_failure ≡ (s.had_failure || not (result_passes r))
  unfolding judged
  judged-failure name (err e) s = ground arith
  judged-failure name (ok r) s = ground arith

  read-failure :
      (name : String) (c : Result String) (s : Scan)
      → (read_and_judged json fs checks name c s).had_failure
        ≡ (s.had_failure || not (content_passes name c))
  unfolding read_and_judged
  read-failure name (err e) s = ground arith
  read-failure name (ok c) s = judged-failure name (conform_single json c name checks) s

  scan_entry-failure :
      (entry : DirEntry P) (s : Scan)
      → (scan_entry json fs checks allow_missing_report entry s).had_failure
        ≡ (s.had_failure || not (is_accepted entry))
  unfolding scan_entry
  scan_entry-failure entry s =
      ground (
        arith,
        read-failure entry.file_name (fs.read_to_string (fs.join entry.path "report.json")) s,
      )

  scan_entries-failure :
      (l : List (DirEntry P)) (s : Scan)
      → (scan_entries json fs checks allow_missing_report l s).had_failure
        ≡ (s.had_failure || not (all is_accepted l))
  unfolding scan_entries
  scan_entries-failure [] s = ground arith
  scan_entries-failure (entry ∷ l) s = ground (
    arith,
    scan_entries-failure l (scan_entry json fs checks allow_missing_report entry s),
    scan_entry-failure entry s,
  )

  refuse_lem :
      (b : Bool)
      → ((if b
            then err ("conform-dir: one or more sensors failed conformance checks" ∷ [])
            else ok tt)
          ≡ ok (tt {0}))
        ↔ (b ≡ false)
  refuse_lem true = (λ h. cc, λ h. cc)
  refuse_lem false = (λ _. refl, λ _. refl)

  -- Without the check of the cockpit's own report, and for a directory that exists and can be listed,
  -- the command succeeds exactly if every directory in it is accepted.
  pub check_dir-accepted :
      (dir : P) (presence_semantics : Bool) (entries : List (Result (DirEntry P)))
      → fs.exists dir ≡ true
      → fs.read_dir dir ≡ ok entries
      → (check_dir json fs dir false checks allow_missing_report presence_semantics ≡ ok tt) ↔ (
          (entry : DirEntry P) → Mem entry (directories json fs entries) → is_accepted entry ≡ true)
  unfolding check_dir
  check_dir-accepted dir presence_semantics entries h e =
      let sorted : List (DirEntry P) =
        sort_by (on (λ (e : DirEntry P). e.file_name) string_compare)
          (directories json fs entries) in
      let perm =
        sort_by-perm (on (λ (e : DirEntry P). e.file_name) string_compare)
          (directories json fs entries) in
      let scan : Scan =
        scan_entries json fs checks allow_missing_report sorted
          (record { results = []; had_failure = false }) in
      let failure = scan_entries-failure sorted (record { results = []; had_failure = false }) in
      let members = all-mem is_accepted sorted in
      rw (h, e)
        (
          λ q entry m.
              members.0 (let k = (refuse_lem scan.had_failure).0 q in ground (arith, k, failure))
                entry ((Perm.mem_iff perm).1 m),
          λ f. (refuse_lem scan.had_failure).1 (
              let k = members.1 (λ entry m. f entry ((Perm.mem_iff perm).0 m)) in
              ground (arith, k, failure)),
        )
