-- ===== src/Xtask/Sync/Restored.antt =====
-- What the tasks of xtask/src/main.rs that copy files do to the copies.
use mathlib.Core.List.{mem-cons_self, mem-cons_of_mem}
use cockpitctl.Base.{
  ◌≡◌, sym, ap, ◌∙◌, ◌≢◌, inl, inr, Bool-cases, eq_iff, str_eq, String, List, [], ◌∷◌, Mem,
}
use cockpitctl.Ingest.Ports.{Bytes}
use cockpitctl.Ingest.Result.{ok}
use cockpitctl.Io.Sink.{and_then-ok, within-ok, within}
use cockpitctl.Xtask.Sync.{
  Store, schema_files, schema_source, schema_dest, copy_named, copy_schemas, schema_sync_check,
  schema_sync_fix,
}
use cockpitctl.Xtask.Sync.Checked.{InSync, AllInSync, schema_sync_check-InSync}

-- Copying a schema to its copy, where it succeeds, gives the copy the bytes of the schema and changes
-- neither a schema nor another copy: `std::fs::copy`, the files being different ones.
module _ {P W : Type 0} (fs : Store P W)
    (copied : (m : String) (w w' : W)
      → Mem m schema_files
      → fs.copy (schema_source fs m) (schema_dest fs m) w ≡ (ok tt, w')
      → (b : Bytes) × (fs.read w (schema_source fs m) ≡ ok b)
        × (fs.read w' (schema_dest fs m) ≡ ok b))
    (source_kept : (m n : String) (w w' : W)
      → Mem m schema_files
      → Mem n schema_files
      → fs.copy (schema_source fs m) (schema_dest fs m) w ≡ (ok tt, w')
      → fs.read w' (schema_source fs n) ≡ fs.read w (schema_source fs n))
    (dest_kept : (m n : String) (w w' : W)
      → Mem m schema_files
      → Mem n schema_files
      → m ≢ n
      → fs.copy (schema_source fs m) (schema_dest fs m) w ≡ (ok tt, w')
      → fs.read w' (schema_dest fs n) ≡ fs.read w (schema_dest fs n)) where
  abbrev IsSynced : W → String → Type 0
  IsSynced w n = InSync fs w (schema_source fs n) (schema_dest fs n)

  copy-IsSynced :
      (m : String) (w w' : W)
      → Mem m schema_files
      → fs.copy (schema_source fs m) (schema_dest fs m) w ≡ (ok tt, w')
      → IsSynced w' m
  copy-IsSynced m w w' mm h =
      let (b, r, q) = copied m w w' mm h in (b, source_kept m m w w' mm mm h ∙ r, q)

  copy_keeps :
      (m n : String) (w w' : W)
      → Mem m schema_files
      → Mem n schema_files
      → fs.copy (schema_source fs m) (schema_dest fs m) w ≡ (ok tt, w')
      → IsSynced w n
      → IsSynced w' n
  copy_keeps m n w w' mm mn h (b, r, q) = elim (Bool-cases (str_eq m n)) [
    | inl y ↦ rw (sym ((eq_iff m n).0 y)) (copy-IsSynced m w w' mm h)
    | inr d ↦ (
      b,
      source_kept m n w w' mm mn h ∙ r,
      dest_kept m n w w' mm mn (λ e. let k = (eq_iff m n).1 e in cc) h ∙ q,
    )
  ]

  abbrev IsNamed : List String → Type 0
  IsNamed names = (n : String) → Mem n names → Mem n schema_files

  copy_schemas_keeps :
      (names : List String) (n : String) (w w' : W)
      → IsNamed names
      → Mem n schema_files
      → copy_schemas fs names w ≡ (ok tt, w')
      → IsSynced w n
      → IsSynced w' n
  unfolding copy_schemas copy_named
  copy_schemas_keeps [] n w w' sub mn h i = rw (ap (λ r. r.1) h) at i
  copy_schemas_keeps (m ∷ rest) n w w' sub mn h i =
      let (u, w1, c, h1) =
        and_then-ok (copy_named fs (schema_source fs m) (schema_dest fs m) w) _ h in
      let mm = sub m mem-cons_self in
      copy_schemas_keeps rest n w1 w' (λ k q. sub k (mem-cons_of_mem m q)) mn h1
        (copy_keeps m n w w1 mm mn
          (within-ok _ (fs.copy (schema_source fs m) (schema_dest fs m) w) c) i)

  copy_schemas-AllInSync :
      (names : List String) (w w' : W)
      → IsNamed names
      → copy_schemas fs names w ≡ (ok tt, w')
      → AllInSync fs w' names
  unfolding copy_schemas copy_named
  copy_schemas-AllInSync [] w w' sub h = tt
  copy_schemas-AllInSync (m ∷ rest) w w' sub h =
      let (u, w1, c, h1) =
        and_then-ok (copy_named fs (schema_source fs m) (schema_dest fs m) w) _ h in
      let mm = sub m mem-cons_self in
      let sub1 : IsNamed rest = λ k q. sub k (mem-cons_of_mem m q) in
      (
        copy_schemas_keeps rest m w1 w' sub1 mm h1 (
            copy-IsSynced m w w1 mm
              (within-ok _ (fs.copy (schema_source fs m) (schema_dest fs m) w) c)),
        copy_schemas-AllInSync rest w1 w' sub1 h1,
      )

  -- After the schemas were copied without an error, their check succeeds, if copying a schema changes
  -- its copy alone.
  pub schema_sync_fix-schema_sync_check :
      (w w' : W) → schema_sync_fix fs w ≡ (ok tt, w') → schema_sync_check fs w' ≡ ok tt
  unfolding schema_sync_fix
  schema_sync_fix-schema_sync_check w w' h =
      let (u, w1, c, h1) =
        and_then-ok (within _ (fs.create_dir_all (fs.from "crates/cockpitctl-types/schemas") w)) _
          h in
      (schema_sync_check-InSync fs w').1 (copy_schemas-AllInSync schema_files w1 w' (λ n m. m) h1)
