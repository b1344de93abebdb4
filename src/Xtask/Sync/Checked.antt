-- ===== src/Xtask/Sync/Checked.antt =====
-- When the copies of xtask/src/main.rs are in sync.

use cockpitctl.Base.{
  ◌≡◌, refl, sym, ap, ◌∙◌, ◌≢◌, ◌↔◌, inl, inr, Bool-cases, arith, String, true, List, [], ◌∷◌, ◌++◌,
  if◌then◌else◌,
}
use cockpitctl.Render.Sections.{no_items}
use cockpitctl.Ingest.Ports.{Bytes}
use cockpitctl.Ingest.Result.{ok, err, bind-ok, context-ok}
use cockpitctl.Xtask.Sync.{
  Store, schema_files, same_bytes, schema_source, schema_dest, read_named, schema_mismatches,
  schema_sync_check,
}

same_bytes-eq : (s t : Bytes) → same_bytes s t ≡ true → s ≡ t
unfolding same_bytes
same_bytes-eq [] [] h = refl
same_bytes-eq [] (y ∷ t) h = absurd (cc)
same_bytes-eq (x ∷ s) [] h = absurd (cc)
same_bytes-eq (x ∷ s) (y ∷ t) h =
    let e = same_bytes-eq s t (ground (arith, h)) in let k : x ≡ y = ground (arith, h) in cc

same_bytes_refl : (s : Bytes) → same_bytes s s ≡ true
unfolding same_bytes
same_bytes_refl [] = refl
same_bytes_refl (x ∷ s) = ground (arith, same_bytes_refl s)

-- Both files can be read, and have the same bytes.
abbrev pub InSync : {P W : Type 0} → Store P W → W → P → P → Type 0
InSync fs w src dst = (b : Bytes) × (fs.read w src ≡ ok b) × (fs.read w dst ≡ ok b)

pub push-not_nil : {A : Type 0} (l : List A) (x : A) → ◌≢◌ {A = List A} (l ++ x ∷ []) []
push-not_nil [] x h = cc
push-not_nil (y ∷ l) x h = cc

none_left :
    {A : Type 0} (l : List A) (e : List String)
    → (if no_items l then ok tt else err e) ≡ ok (tt {0})
    → l ≡ []
none_left [] e h = refl
none_left (x ∷ l) e h = absurd (cc)

-- The copy of each named schema is in sync.
abbrev pub AllInSync : {P W : Type 0} → Store P W → W → List String → Type 0
AllInSync fs w [] = Unit
AllInSync fs w (name ∷ rest) =
    InSync fs w (schema_source fs name) (schema_dest fs name) × AllInSync fs w rest

module _ {P W : Type 0} (fs : Store P W) where
  read-InSync :
      (w : W) (src dst : P) {s t : Bytes}
      → read_named fs w src ≡ ok s
      → read_named fs w dst ≡ ok t
      → same_bytes s t ≡ true
      → InSync fs w src dst
  unfolding read_named
  read-InSync w src dst {s} {t} h k e = (
    s,
    context-ok _ (fs.read w src) h,
    context-ok _ (fs.read w dst) k ∙ ap ok (sym (same_bytes-eq s t e)),
  )

  mismatches-InSync :
      (w : W) (names acc : List String)
      → schema_mismatches fs w names acc ≡ ok []
      → (acc ≡ []) × AllInSync fs w names
  unfolding schema_mismatches
  mismatches-InSync w [] acc h = (cc, tt)
  mismatches-InSync w (x ∷ rest) acc h =
      let (s, hs, h1) = bind-ok (read_named fs w (schema_source fs x)) _ h in
      let (t, ht, h2) = bind-ok (read_named fs w (schema_dest fs x)) _ h1 in
      let (e, f) = mismatches-InSync w rest (if same_bytes s t then acc else acc ++ x ∷ []) h2 in
      elim (Bool-cases (same_bytes s t)) [
        | inl y ↦ (rw y at e, (read-InSync w (schema_source fs x) (schema_dest fs x) hs ht y, f))
        | inr n ↦ absurd (push-not_nil acc x (rw n at e))
      ]

  InSync-mismatches :
      (w : W) (names : List String) → AllInSync fs w names → schema_mismatches fs w names [] ≡ ok []
  unfolding schema_mismatches read_named
  InSync-mismatches w [] f = refl
  InSync-mismatches w (x ∷ rest) f =
      let (b, hs, ht) = f.0 in rw (hs, ht, same_bytes_refl b) (InSync-mismatches w rest f.1)

  -- The check of the schema copies succeeds exactly if each of the named files can be read in both
  -- places and has the same bytes in both.
  pub schema_sync_check-InSync :
      (w : W) → (schema_sync_check fs w ≡ ok tt) ↔ AllInSync fs w schema_files
  unfolding schema_sync_check
  schema_sync_check-InSync w = (
    λ h.
        let (l, e, k) = bind-ok (schema_mismatches fs w schema_files []) _ h in
        (mismatches-InSync w schema_files [] (e ∙ ap ok (none_left l _ k))).1,
    λ f. rw (InSync-mismatches w schema_files f) refl,
  )
