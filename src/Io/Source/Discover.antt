-- ===== src/Io/Source/Discover.antt =====
-- The sensors that `FsReceiptSource` in crates/cockpitctl-io/src/lib.rs discovers.
use mathlib.Core.List.{append_assoc, append-nil}
use mathlib.Core.List.Perm
use cockpitctl.Base.{
  ◌≡◌, refl, sym, ap, ap₂, ◌∙◌, inl, inr, Bool-cases, String, Bool, true, not, ◌&&◌, str_eq, List,
  [], ◌∷◌, ◌++◌, map, filter, length, take, take_all, length-take, filter-perm, ltb, arith, sort_by,
  sort_by_unique, string_compare, string_compare-IsOrder, string_compare-IsAntisym, Perm,
  if◌then◌else◌,
}
use cockpitctl.Types.SensorId.{is_valid_sensor_id}
use cockpitctl.Ingest.Ports.{DiscoveredSensors}
use cockpitctl.Ingest.Result.{ok}
use cockpitctl.Io.Layout.{Files, FsLayout, DirEntry, report_file}
use cockpitctl.Io.Source.{
  FsReceiptSource, Candidates, candidate, collect, listed_sensors, discovered_sensors,
}

module _ {P : Type 0} (fs : Files P) (layout : FsLayout P) where
  -- A directory that is not the cockpit's own.
  abbrev is_candidate : DirEntry P → Bool
  is_candidate e = fs.is_dir e.path && not (str_eq e.file_name "cockpit")

  -- A sensor with a receipt.
  abbrev pub is_sensor : DirEntry P → Bool
  is_sensor e =
      is_candidate e
      && is_valid_sensor_id e.file_name
      && fs.exists (report_file fs layout e.file_name)

  -- A directory whose name is no sensor id.
  abbrev pub is_misnamed : DirEntry P → Bool
  is_misnamed e = is_candidate e && not (is_valid_sensor_id e.file_name)

  abbrev pub names : List (DirEntry P) → List String
  names l = map (λ (e : DirEntry P). e.file_name) l

  candidate_lem :
      (e : DirEntry P) (c : Candidates)
      → candidate fs layout e c ≡ record {
        out = c.out ++ names (filter is_sensor (e ∷ []));
        invalid = c.invalid ++ names (filter is_misnamed (e ∷ []));
      }
  unfolding candidate
  candidate_lem e c =
      let nil = append-nil c.out in
      let nil' = append-nil c.invalid in
      elim (Bool-cases (fs.is_dir e.path)) [
        | inr d ↦ rw (d, nil, nil') refl
        | inl d ↦ elim (Bool-cases (str_eq e.file_name "cockpit")) [
          | inl k ↦ rw (d, k, nil, nil') refl
          | inr k ↦ elim (Bool-cases (is_valid_sensor_id e.file_name)) [
            | inr v ↦ rw (d, k, v, nil) refl
            | inl v ↦ elim (Bool-cases (fs.exists (report_file fs layout e.file_name))) [
              | inl x ↦ rw (d, k, v, x, nil') refl
              | inr x ↦ rw (d, k, v, x, nil, nil') refl
            ]
          ]
        ]
      ]

  names_cons :
      (p : DirEntry P → Bool) (e : DirEntry P) (l : List (DirEntry P))
      → names (filter p (e ∷ l)) ≡ names (filter p (e ∷ [])) ++ names (filter p l)
  names_cons p e l = elim (Bool-cases (p e)) [ inl h ↦ rw h refl | inr h ↦ rw h refl ]

  collect_lem :
      (c : Candidates) (l : List (DirEntry P))
      → collect fs layout c (map ok l)
        ≡ ok (record {
          out = c.out ++ names (filter is_sensor l);
          invalid = c.invalid ++ names (filter is_misnamed l);
        })
  unfolding collect
  collect_lem c [] = rw (append-nil c.out, append-nil c.invalid) refl
  collect_lem c (e ∷ l) =
      ap (λ x. collect fs layout x (map ok l)) (candidate_lem e c)
      ∙ collect_lem
          (record {
            out = c.out ++ names (filter is_sensor (e ∷ []));
            invalid = c.invalid ++ names (filter is_misnamed (e ∷ []));
          })
          l
      ∙ rw
          (
            names_cons is_sensor e l,
            names_cons is_misnamed e l,
            append_assoc c.out (names (filter is_sensor (e ∷ []))) (names (filter is_sensor l)),
            append_assoc c.invalid (names (filter is_misnamed (e ∷ [])))
                (names (filter is_misnamed l)),
          )
          refl

  abbrev found : List (DirEntry P) → Candidates
  found l = record { out = names (filter is_sensor l); invalid = names (filter is_misnamed l) }

  -- What is discovered: the sensors that have a receipt, sorted, no more than the cap; how many there
  -- are; and the misnamed directories, sorted.
  abbrev pub IsDiscovery : List (DirEntry P) → DiscoveredSensors → Type 0
  IsDiscovery l d =
      let sensors = sort_by string_compare (names (filter is_sensor l)) in
      (d.sensors ≡ take layout.max_receipts sensors)
      × (d.total_found ≡ length sensors)
      × (d.truncated ≡ ltb (length d.sensors) d.total_found)
      × (d.invalid_sensor_ids ≡ sort_by string_compare (names (filter is_misnamed l)))

  listed_sensors-IsDiscovery :
      (l : List (DirEntry P)) → IsDiscovery l (listed_sensors fs layout (found l))
  unfolding listed_sensors
  listed_sensors-IsDiscovery l =
      let sensors : List String = sort_by string_compare (names (filter is_sensor l)) in
      let n = length-take layout.max_receipts sensors in
      elim (Bool-cases (ltb layout.max_receipts (length sensors))) [
        | inl h ↦ rw h (refl, refl, ground (arith, n, h), refl)
        | inr h ↦
            let whole : take layout.max_receipts sensors ≡ sensors =
              take_all layout.max_receipts sensors (ground (arith, h)) in
            rw (h, whole) (refl, refl, ground arith, refl)
      ]

module _ {P : Type 0} (fs : Files P) (source : FsReceiptSource P) where
  -- The same file system, with this listing of the artifacts directory.
  abbrev pub listing : List (DirEntry P) → Files P
  listing l = record fs { read_dir = λ _. ok (map ok l) }

  found_perm :
      {l r : List (DirEntry P)} (p : DirEntry P → Bool)
      → Perm l r
      → sort_by string_compare (map (λ (e : DirEntry P). e.file_name) (filter p l))
        ≡ sort_by string_compare (map (λ (e : DirEntry P). e.file_name) (filter p r))
  found_perm p r =
      sort_by_unique string_compare-IsOrder string_compare-IsAntisym (Perm.map _ (filter-perm p r))

  discovered_found :
      (l : List (DirEntry P))
      → fs.exists source.layout.artifacts_dir ≡ true
      → discovered_sensors (listing l) source
        ≡ ok (listed_sensors (listing l) source.layout (found (listing l) source.layout l))
  unfolding discovered_sensors
  discovered_found l h =
      rw (h, collect_lem (listing l) source.layout (record { out = []; invalid = [] }) l) refl

  -- The result, from the two sorted lists.
  abbrev shown : List String → List String → DiscoveredSensors
  shown sensors invalid = record {
    sensors =
        if ltb source.layout.max_receipts (length sensors)
        then take source.layout.max_receipts sensors
        else sensors;
    truncated = ltb source.layout.max_receipts (length sensors);
    total_found = length sensors;
    invalid_sensor_ids = invalid;
  }

  listed_perm :
      {l r : List (DirEntry P)}
      → Perm l r
      → listed_sensors (listing l) source.layout (found (listing l) source.layout l)
        ≡ listed_sensors (listing r) source.layout (found (listing r) source.layout r)
  unfolding listed_sensors report_file
  listed_perm {l} {r} p =
      ap₂ shown (found_perm (is_sensor fs source.layout) p)
        (found_perm (is_misnamed fs source.layout) p)

  -- Where the artifacts directory exists and can be listed, the sensors discovered are those of its
  -- directories, other than the cockpit's own, that are named by a sensor id and have a receipt; they
  -- come sorted and cut to the cap. The total counts those before the cut, and the result is marked
  -- as truncated exactly if some were cut. The names that are no sensor ids are listed beside.
  pub discovered_sensors-IsDiscovery :
      (l : List (DirEntry P))
      → fs.exists source.layout.artifacts_dir ≡ true
      → (d : DiscoveredSensors) × (discovered_sensors (listing l) source ≡ ok d)
        × IsDiscovery (listing l) source.layout l d
  discovered_sensors-IsDiscovery l h = (
    listed_sensors (listing l) source.layout (found (listing l) source.layout l),
    discovered_found l h,
    listed_sensors-IsDiscovery (listing l) source.layout l,
  )

  -- What is discovered does not depend on the order in which the directory is listed.
  pub discovered_sensors-order_free :
      {l r : List (DirEntry P)}
      → Perm l r
      → discovered_sensors (listing l) source ≡ discovered_sensors (listing r) source
  unfolding discovered_sensors
  discovered_sensors-order_free {l} {r} p =
      elim (Bool-cases (fs.exists source.layout.artifacts_dir)) [
        | inr h ↦ rw h refl
        | inl h ↦ discovered_found l h ∙ ap ok (listed_perm p) ∙ sym (discovered_found r h)
      ]
