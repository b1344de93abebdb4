-- ===== src/Xtask/Schemas/Valid.antt =====
-- When `validate_schemas` of xtask/src/main.rs accepts a directory without the option to reformat.
use mathlib.Core.List.{append-nil, append_assoc}
use cockpitctl.Base.{
  ◌≡◌, refl, sym, ap, ◌∙◌, ◌↔◌, inl, inr, Bool-cases, ◌&&◌, ◌||◌, not, is_some, String, Bool, true,
  false, Option, none, some, List, [], ◌∷◌, ◌++◌, if◌then◌else◌,
}
use cockpitctl.Render.Sections.{no_items}
use cockpitctl.Ingest.Result.{Result, ok, err}
use cockpitctl.Conform.Checks.Clean.{all}
use cockpitctl.Xtask.Schemas.{
  Tree, SchemaTools, is_json, check_meta, check_value, check_text, check_files, validate_schemas,
}

no_items-append : {A : Type 0} (l m : List A) → no_items (l ++ m) ≡ (no_items l && no_items m)
no_items-append [] m = refl
no_items-append (x ∷ l) m = refl

abbrev pub refused : {W : Type 0} → List String → List String → W → Result (Unit {0}) × W
refused l e w = if no_items l then (ok tt, w) else (err e, w)

refused_lem :
    {W : Type 0} (l e : List String) (w : W)
    → ((refused l e w).1 ≡ w) × (((refused l e w).0 ≡ ok tt) ↔ (no_items l ≡ true))
refused_lem [] e w = (refl, (λ _. refl, λ _. refl))
refused_lem (x ∷ l) e w = (refl, (λ h. cc, λ h. cc))

pub refused-ok :
    {W : Type 0} (l e : List String) (w w' : W) → refused l e w ≡ (ok tt, w') → (l ≡ []) × (w ≡ w')
refused-ok [] e w w' h = (refl, ap (λ k. k.1) h)
refused-ok (x ∷ l) e w w' h = absurd (let k = ap (λ k. k.0) h in cc)

module _ {P W J : Type 0} (fs : Tree P W) (tools : SchemaTools J) where
  abbrev pub value_valid : Result J → Bool
  value_valid (err e) = false
  value_valid (ok value) = not (is_some (tools.meta_error value))

  abbrev pub text_valid : Result String → Bool
  text_valid (err e) = false
  text_valid (ok content) = value_valid (tools.from_str content)

  -- A file whose name does not end in .json, or one that can be read, parsed, and is a schema.
  abbrev pub entry_valid : W → Result P → Bool
  entry_valid w (err e) = true
  entry_valid w (ok path) =
      (not (is_json fs tools path) || not (fs.is_file path))
      || text_valid (fs.read_to_string w path)

  -- What a step adds to the errors.
  abbrev Adds : List String → W → Bool → Result (List String) × W → Type 0
  Adds errors w b m = (more : List String) × (m ≡ (ok (errors ++ more), w)) × (no_items more ≡ b)

  meta-Adds :
      (path : P) (content : String) (value : J) (e : Option String) (errors : List String) (w : W)
      → Adds errors w (not (is_some e)) (check_meta fs tools false path content value e errors w)
  unfolding check_meta
  meta-Adds path content value none errors w = ([], rw (append-nil errors) refl, refl)
  meta-Adds path content value (some e) errors w = (_ ∷ [], refl, refl)

  value-Adds :
      (path : P) (content : String) (r : Result J) (errors : List String) (w : W)
      → Adds errors w (value_valid r) (check_value fs tools false path content r errors w)
  unfolding check_value
  value-Adds path content (err e) errors w = (_ ∷ [], refl, refl)
  value-Adds path content (ok value) errors w =
      meta-Adds path content value (tools.meta_error value) errors w

  text-Adds :
      (path : P) (r : Result String) (errors : List String) (w : W)
      → Adds errors w (text_valid r) (check_text fs tools false path r errors w)
  unfolding check_text
  text-Adds path (err e) errors w = (_ ∷ [], refl, refl)
  text-Adds path (ok content) errors w = value-Adds path content (tools.from_str content) errors w

  files-Adds :
      (l : List (Result P)) (errors : List String) (w : W)
      → Adds errors w (all (entry_valid w) l) (check_files fs tools false l errors w)
  unfolding check_files
  files-Adds [] errors w = ([], rw (append-nil errors) refl, refl)
  files-Adds (err e ∷ rest) errors w = files-Adds rest errors w
  files-Adds (ok path ∷ rest) errors w =
      elim (Bool-cases (not (is_json fs tools path) || not (fs.is_file path))) [
        | inl y ↦ rw y (files-Adds rest errors w)
        | inr n ↦
            let (more, e, k) = text-Adds path (fs.read_to_string w path) errors w in
            let (others, e2, k2) = files-Adds rest (errors ++ more) w in
            rw (n, e)
              (
                more ++ others,
                e2 ∙ ap (λ l. (ok l, w)) (append_assoc errors more others),
                rw (no_items-append more others, k, k2) refl,
              )
      ]

  -- Without reformatting, the task writes nothing, and for a directory that exists it succeeds exactly if
  -- each JSON file in it can be read, parsed as JSON, and is a valid schema.
  pub validate_schemas-entry_valid :
      (dir : P) (w : W)
      → fs.exists dir ≡ true
      → ((validate_schemas fs tools dir false w).1 ≡ w)
        × (((validate_schemas fs tools dir false w).0 ≡ ok tt)
            ↔ (all (entry_valid w) (fs.walk dir) ≡ true))
  unfolding validate_schemas
  validate_schemas-entry_valid dir w h =
      let (errors, e, k) = files-Adds (fs.walk dir) [] w in
      rw (h, e, sym k) (refused_lem errors _ w)
