-- ===== src/Xtask/Schemas/Fixed.antt =====
-- A second run of `validate_schemas` of xtask/src/main.rs with the option to reformat.
use mathlib.Core.List.{mem-cons_self, mem-cons_of_mem}
use cockpitctl.Base.{
  Mem, ◌≡◌, refl, sym, ap, ◌∙◌, ◌⊎◌, inl, inr, Bool-cases, eq_iff, str_eq, ◌||◌, not, String, Bool,
  true, false, Option, none, some, List, [], ◌∷◌, concat,
}
use cockpitctl.Ingest.Result.{Result, ok, err, context, context-ok}
use cockpitctl.Io.Sink.{within-ok, and_then-ok, and_then-pure}
use cockpitctl.Xtask.Sync.Checked.{push-not_nil}
use cockpitctl.Xtask.Schemas.Errors.{parts_lem, files_none}
use cockpitctl.Xtask.Schemas.Valid.{refused-ok}
use cockpitctl.Xtask.Schemas.{
  Tree, SchemaTools, is_json, fix_file, check_meta, check_value, check_text, check_files,
  validate_schemas,
}

-- A file that was written has the text that was written, and any other has that text, if it is the same
-- file under another path, or the one that it had.
module _ {P W J : Type 0} (fs : Tree P W) (tools : SchemaTools J)
    (written : (p : P) (t : String) (w w' : W)
      → fs.write p t w ≡ (ok tt, w')
      → fs.read_to_string w' p ≡ ok t)
    (others : (p q : P) (t : String) (w w' : W)
      → fs.write p t w ≡ (ok tt, w')
      → (fs.read_to_string w' q ≡ ok t) ⊎ (fs.read_to_string w' q ≡ fs.read_to_string w q)) where
  -- The text is that of a schema, as it is printed.
  abbrev IsFormatted : String → Type 0
  IsFormatted t =
      (v : J) × (s : String) × (tools.from_str t ≡ ok v)
      × (tools.meta_error v ≡ none)
      × (tools.to_string_pretty v ≡ ok s)
      × (concat (s ∷ "\n" ∷ []) ≡ t)

  abbrev IsFixed : W → P → Type 0
  IsFixed w p = (t : String) × (fs.read_to_string w p ≡ ok t) × IsFormatted t

  -- The value of the text is parsed back after it was printed, also with a line break after it.
  abbrev IsExact : W → P → Type 0
  IsExact w p =
      (t : String) (v : J) (s : String)
      → fs.read_to_string w p ≡ ok t
      → tools.from_str t ≡ ok v
      → tools.to_string_pretty v ≡ ok s
      → tools.from_str (concat (s ∷ "\n" ∷ [])) ≡ ok v

  abbrev Keeps : W → W → Type 0
  Keeps w w' = (q : P) → (IsFixed w q → IsFixed w' q) × (IsExact w q → IsExact w' q)

  Formatted-IsExact :
      (w : W) (q : P) (t : String) → fs.read_to_string w q ≡ ok t → IsFormatted t → IsExact w q
  Formatted-IsExact w q t r (v, s, p, m, printed, same) t' v' s' r' p' printed' =
      let et : t' ≡ t = cc in
      let ev : v' ≡ v = let k = rw et at p' in cc in
      let es : s' ≡ s = let k = rw ev at printed' in cc in rw (es, ev, same) p

  fix_file-IsFixed :
      (path : P) (content : String) (value : J) (w w' : W)
      → fs.read_to_string w path ≡ ok content
      → tools.from_str content ≡ ok value
      → tools.meta_error value ≡ none
      → IsExact w path
      → fix_file fs tools path content value w ≡ (ok tt, w')
      → IsFixed w' path × Keeps w w'
  unfolding fix_file
  fix_file-IsFixed path content value w w' r p m x h =
      let (s, e, h1) = and_then-pure (context _ (tools.to_string_pretty value)) w _ h in
      let printed = context-ok _ (tools.to_string_pretty value) e in
      let t = concat (s ∷ "\n" ∷ []) in
      let form : IsFormatted t = (value, s, x content value s r p printed, m, printed, refl) in
      elim (Bool-cases (str_eq t content)) [
        | inl y ↦
            let same = ap (λ k. k.1) (rw y at h1) in
            rw (sym same) (
              (content, r, (value, s, p, m, printed, (eq_iff t content).0 y)),
              λ q. (λ k. k, λ k. k),
            )
        | inr n ↦
            let done = within-ok _ (fs.write path t w) (rw n at h1) in
            (
              (t, written path t w w' done, form),
              λ q. elim (others path q t w w' done) [
                | inl e ↦ (λ k. (t, e, form), λ k. Formatted-IsExact w' q t e form)
                | inr e ↦ (λ k. (k.0, e ∙ k.1, k.2), λ k t1 v1 s1 r1. k t1 v1 s1 (sym e ∙ r1))
              ],
            )
      ]

  -- What a step does that adds no error.
  abbrev Succeeds : P → List String → W → W → Type 0
  Succeeds path errors w w' = (errors ≡ []) × IsFixed w' path × Keeps w w'

  meta-Succeeds :
      (path : P) (content : String) (value : J) (e : Option String) (errors : List String)
      (w w' : W)
      → fs.read_to_string w path ≡ ok content
      → tools.from_str content ≡ ok value
      → tools.meta_error value ≡ e
      → IsExact w path
      → check_meta fs tools true path content value e errors w ≡ (ok [], w')
      → Succeeds path errors w w'
  unfolding check_meta
  meta-Succeeds path content value (some e) errors w w' r p m x h =
      absurd (push-not_nil errors _ (parts_lem h).0)
  meta-Succeeds path content value none errors w w' r p m x h =
      let (u, w1, c, h1) = and_then-ok (fix_file fs tools path content value w) _ h in
      let (e, same) = parts_lem h1 in
      let (k, l) = fix_file-IsFixed path content value w w1 r p m x c in rw (sym same) (e, k, l)

  value-Succeeds :
      (path : P) (content : String) (v : Result J) (errors : List String) (w w' : W)
      → fs.read_to_string w path ≡ ok content
      → tools.from_str content ≡ v
      → IsExact w path
      → check_value fs tools true path content v errors w ≡ (ok [], w')
      → Succeeds path errors w w'
  unfolding check_value
  value-Succeeds path content (err e) errors w w' r p x h =
      absurd (push-not_nil errors _ (parts_lem h).0)
  value-Succeeds path content (ok value) errors w w' r p x h =
      meta-Succeeds path content value (tools.meta_error value) errors w w' r p refl x h

  text-Succeeds :
      (path : P) (t : Result String) (errors : List String) (w w' : W)
      → fs.read_to_string w path ≡ t
      → IsExact w path
      → check_text fs tools true path t errors w ≡ (ok [], w')
      → Succeeds path errors w w'
  unfolding check_text
  text-Succeeds path (err e) errors w w' r x h = absurd (push-not_nil errors _ (parts_lem h).0)
  text-Succeeds path (ok content) errors w w' r x h =
      value-Succeeds path content (tools.from_str content) errors w w' r refl x h

  abbrev is_skipped : P → Bool
  is_skipped path = not (is_json fs tools path) || not (fs.is_file path)

  abbrev AllFixed : W → List (Result P) → Type 0
  AllFixed w [] = Unit
  AllFixed w (err e ∷ rest) = AllFixed w rest
  AllFixed w (ok path ∷ rest) = (is_skipped path ≡ false → IsFixed w path) × AllFixed w rest

  -- The files to come are exact.
  abbrev AllExact : W → List (Result P) → Type 0
  AllExact w l = (q : P) → Mem (ok q) l → IsExact w q

  files-AllFixed :
      (l : List (Result P)) (errors : List String) (w w' : W)
      → AllExact w l
      → check_files fs tools true l errors w ≡ (ok [], w')
      → AllFixed w' l × Keeps w w'
  unfolding check_files
  files-AllFixed [] errors w w' x h =
      let (_, same) = parts_lem h in rw (sym same) (tt, λ q. (λ k. k, λ k. k))
  files-AllFixed (err e ∷ rest) errors w w' x h =
      files-AllFixed rest errors w w' (λ q m. x q (mem-cons_of_mem (err e) m)) h
  files-AllFixed (ok path ∷ rest) errors w w' x h = elim (Bool-cases (is_skipped path)) [
    | inl y ↦
        let (f, k) =
          files-AllFixed rest errors w w' (λ q m. x q (mem-cons_of_mem (ok path) m)) (rw y at h) in
        ((λ n. absurd (cc), f), k)
    | inr n ↦
        let (errors1, w1, c, h1) =
          and_then-ok (check_text fs tools true path (fs.read_to_string w path) errors w) _
            (rw n at h) in
        let e1 = files_none fs tools rest errors1 w1 w' h1 in
        let (e, p, k) =
          text-Succeeds path (fs.read_to_string w path) errors w w1 refl (x path mem-cons_self)
            (c ∙ ap (λ l. (ok l, w1)) e1) in
        let (f, k1) =
          files-AllFixed rest errors1 w1 w' (λ q m. (k q).1 (x q (mem-cons_of_mem (ok path) m)))
            h1 in
        (((λ _. (k1 path).0 p), f), λ q. (λ z. (k1 q).0 ((k q).0 z), λ z. (k1 q).1 ((k q).1 z)))
  ]

  text-IsFixed :
      (path : P) (w : W)
      → IsFixed w path
      → check_text fs tools true path (fs.read_to_string w path) [] w ≡ (ok [], w)
  unfolding check_text check_value check_meta fix_file
  text-IsFixed path w (t, r, (v, s, p, m, printed, same)) =
      rw (r, p, m, printed, (eq_iff (concat (s ∷ "\n" ∷ [])) t).1 same) refl

  AllFixed-check_files :
      (l : List (Result P)) (w : W) → AllFixed w l → check_files fs tools true l [] w ≡ (ok [], w)
  unfolding check_files
  AllFixed-check_files [] w f = refl
  AllFixed-check_files (err e ∷ rest) w f = AllFixed-check_files rest w f
  AllFixed-check_files (ok path ∷ rest) w f = elim (Bool-cases (is_skipped path)) [
    | inl y ↦ rw y (AllFixed-check_files rest w f.1)
    | inr n ↦ rw (n, text-IsFixed path w (f.0 n)) (AllFixed-check_files rest w f.1)
  ]

  -- After a run with the option to reformat that succeeds, another such run succeeds and leaves the files
  -- as they are, if what is written is read back, no other file is changed by a write, and the value of
  -- each file of the directory, once printed, is parsed back as it was; that excludes files with a
  -- number that the parser rounds.
  pub validate_schemas_idempotent :
      (dir : P) (w w' : W)
      → ((p : P) (t : String) (v : J) (s : String)
          → Mem (ok p) (fs.walk dir)
          → fs.read_to_string w p ≡ ok t
          → tools.from_str t ≡ ok v
          → tools.to_string_pretty v ≡ ok s
          → tools.from_str (concat (s ∷ "\n" ∷ [])) ≡ ok v)
      → validate_schemas fs tools dir true w ≡ (ok tt, w')
      → validate_schemas fs tools dir true w' ≡ (ok tt, w')
  unfolding validate_schemas
  validate_schemas_idempotent dir w w' x h = elim (Bool-cases (fs.exists dir)) [
    | inr n ↦ absurd (let k = rw n at h in cc)
    | inl y ↦
        let (errors, w1, c, h1) =
          and_then-ok (check_files fs tools true (fs.walk dir) [] w) _ (rw y at h) in
        let (e, same) = refused-ok errors _ w1 w' h1 in
        let (f, _) =
          files-AllFixed (fs.walk dir) [] w w' (λ q m t v s. x q t v s m) (rw (e, same) at c) in
        rw (y, AllFixed-check_files (fs.walk dir) w' f) refl
  ]
