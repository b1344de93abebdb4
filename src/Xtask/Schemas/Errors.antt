-- ===== src/Xtask/Schemas/Errors.antt =====
-- Runs of `validate_schemas` of xtask/src/main.rs with the option to reformat that end without an error.
use cockpitctl.Base.{
  ◌≡◌, ap, ◌∙◌, inl, inr, Bool-cases, ◌||◌, not, String, true, Option, none, some, List, [], ◌∷◌,
}
use cockpitctl.Ingest.Result.{Result, ok, err}
use cockpitctl.Io.Sink.{and_then-ok}
use cockpitctl.Xtask.Sync.Checked.{push-not_nil}
use cockpitctl.Xtask.Schemas.{
  Tree, SchemaTools, is_json, fix_file, check_meta, check_value, check_text, check_files,
}

pub parts_lem :
    {A W : Type 0} {a b : A} {w w' : W}
    → ◌≡◌ {A = Result A × W} (ok a, w) (ok b, w')
    → (a ≡ b) × (w ≡ w')
parts_lem {A} {W} {a} {b} {w} {w'} h =
    let e : ◌≡◌ {A = Result A} (ok a) (ok b) = ap (λ k. k.0) h in (cc, ap (λ k. k.1) h)

module _ {P W J : Type 0} (fs : Tree P W) (tools : SchemaTools J) where
  -- A step that ends without an error began without one.
  meta_none :
      (path : P) (content : String) (value : J) (e : Option String) (errors : List String)
      (w w' : W)
      → check_meta fs tools true path content value e errors w ≡ (ok [], w')
      → errors ≡ []
  unfolding check_meta
  meta_none path content value (some e) errors w w' h =
      absurd (push-not_nil errors _ (parts_lem h).0)
  meta_none path content value none errors w w' h =
      let (u, w1, c, h1) = and_then-ok (fix_file fs tools path content value w) _ h in
      (parts_lem h1).0

  value_none :
      (path : P) (content : String) (v : Result J) (errors : List String) (w w' : W)
      → check_value fs tools true path content v errors w ≡ (ok [], w')
      → errors ≡ []
  unfolding check_value
  value_none path content (err e) errors w w' h = absurd (push-not_nil errors _ (parts_lem h).0)
  value_none path content (ok value) errors w w' h =
      meta_none path content value (tools.meta_error value) errors w w' h

  text_none :
      (path : P) (t : Result String) (errors : List String) (w w' : W)
      → check_text fs tools true path t errors w ≡ (ok [], w')
      → errors ≡ []
  unfolding check_text
  text_none path (err e) errors w w' h = absurd (push-not_nil errors _ (parts_lem h).0)
  text_none path (ok content) errors w w' h =
      value_none path content (tools.from_str content) errors w w' h

  pub files_none :
      (l : List (Result P)) (errors : List String) (w w' : W)
      → check_files fs tools true l errors w ≡ (ok [], w')
      → errors ≡ []
  unfolding check_files
  files_none [] errors w w' h = (parts_lem h).0
  files_none (err e ∷ rest) errors w w' h = files_none rest errors w w' h
  files_none (ok path ∷ rest) errors w w' h =
      elim (Bool-cases (not (is_json fs tools path) || not (fs.is_file path))) [
        | inl y ↦ files_none rest errors w w' (rw y at h)
        | inr n ↦
            let (errors1, w1, c, h1) =
              and_then-ok (check_text fs tools true path (fs.read_to_string w path) errors w) _
                (rw n at h) in
            text_none path (fs.read_to_string w path) errors w w1
              (c ∙ ap (λ l. (ok l, w1)) (files_none rest errors1 w1 w' h1))
      ]
