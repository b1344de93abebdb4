-- ===== src/Conform/Checks/Clean.antt =====
-- When the checks of crates/cockpitctl-conform/src/checks.rs find nothing.
use Prim.Native.String.{String}
use cockpitctl.Base.{
  ◌≡◌, refl, ℕ, ◌+◌, Bool, true, false, ◌&&◌, not, arith, none, some, inl, inr, Option-cases, List,
  [], ◌∷◌, ◌++◌, contains, is_empty,
}
use cockpitctl.Types.SensorId.{is_valid_sensor_id, is_valid_sensor_id_lem}
use cockpitctl.Types.Findings.{Finding, ArtifactPointer, SensorReport}
use cockpitctl.Render.Sections.{no_items}
use cockpitctl.Conform.Checks.{
  each_at, when, is_rooted, has_drive, path_violations, finding_violations, check_path_hygiene,
  artifact_violations, check_artifact_pointers, check_sensor_id_format,
}

-- Every element passes.
abbrev pub all {ℓ} : {A : Type ℓ} → (A → Bool) → List A → Bool
all p [] = true
all p (a ∷ l) = p a && all p l

pub no_items-append : {A : Type 0} (l r : List A) → no_items (l ++ r) ≡ (no_items l && no_items r)
no_items-append [] r = refl
no_items-append (a ∷ l) r = refl

pub no_items-when : (b : Bool) (message : String) → no_items (when b message) ≡ not b
no_items-when true message = refl
no_items-when false message = refl

-- No element has a violation, at whatever index.
pub no_items-each_at :
    {A : Type 0} (check : ℕ → A → List String) (p : A → Bool)
    → ((i : ℕ) (a : A) → no_items (check i a) ≡ p a)
    → (i : ℕ) (l : List A) → no_items (each_at check i l) ≡ all p l
no_items-each_at check p h i [] = refl
no_items-each_at check p h i (a ∷ l) =
    rw
      (
        no_items-append (check i a) (each_at check (i + 1) l),
        h i a,
        no_items-each_at check p h (i + 1) l,
      )
      refl

-- Neither from the root or a drive nor with `..` or a backslash.
abbrev pub is_clean : String → Bool
is_clean path =
    not (is_rooted path)
    && not (has_drive path)
    && not (contains path "..")
    && not (contains path "\\")

abbrev pub is_clean_finding : {V : Type 0} → Finding V → Bool
is_clean_finding f = elim f.location [
  | none ↦ true
  | some loc ↦ elim loc.path [ none ↦ true | some path ↦ is_clean path ]
]

path_violations-clean : (i : ℕ) (path : String) → no_items (path_violations i path) ≡ is_clean path
unfolding path_violations
path_violations-clean i path = grind (arith, no_items-append, no_items-when)

finding_violations-clean :
    {V : Type 0} (i : ℕ) (f : Finding V) → no_items (finding_violations i f) ≡ is_clean_finding f
unfolding finding_violations
finding_violations-clean i f = elim (Option-cases f.location) [
  | inl e ↦ rw e refl
  | inr (loc, e) ↦ elim (Option-cases loc.path) [
    | inl k ↦ rw (e, k) refl
    | inr (path, k) ↦ rw (e, k) (path_violations-clean i path)
  ]
]

-- The check of the paths finds nothing exactly if no path of a finding begins at the root or at a
-- drive, contains `..` or contains a backslash.
pub check_path_hygiene-clean :
    {V : Type 0} (report : SensorReport V)
    → no_items (check_path_hygiene report) ≡ all is_clean_finding report.findings
unfolding check_path_hygiene
check_path_hygiene-clean report =
    no_items-each_at finding_violations is_clean_finding finding_violations-clean 0 report.findings

-- A sensor id has no violation exactly if it is a valid sensor id.
pub check_sensor_id_format-valid :
    (debug : String → String) (sensor_id : String)
    → no_items (check_sensor_id_format debug sensor_id) ≡ is_valid_sensor_id sensor_id
unfolding check_sensor_id_format
check_sensor_id_format-valid debug sensor_id = ground (arith, is_valid_sensor_id_lem sensor_id)

-- Every field is there, and the path is neither from the root or a drive nor with `..`.
abbrev pub is_clean_artifact : ArtifactPointer → Bool
is_clean_artifact a =
    not (is_empty a.id)
    && not (is_empty a.path)
    && not (contains a.path "..")
    && not (is_rooted a.path)
    && not (has_drive a.path)
    && not (is_empty a.mime)

artifact_violations-clean :
    (i : ℕ) (a : ArtifactPointer) → no_items (artifact_violations i a) ≡ is_clean_artifact a
unfolding artifact_violations
artifact_violations-clean i a = grind (arith, no_items-append, no_items-when)

-- The check of the artifact pointers finds nothing exactly if every pointer has an id, a path and a
-- media type, and no path begins at the root or at a drive or contains `..`.
pub check_artifact_pointers-clean :
    {V : Type 0} (report : SensorReport V)
    → no_items (check_artifact_pointers report) ≡ all is_clean_artifact report.artifacts
unfolding check_artifact_pointers
check_artifact_pointers-clean report =
    no_items-each_at artifact_violations is_clean_artifact artifact_violations-clean 0
      report.artifacts
