-- ===== src/Xtask/Samples.antt =====
-- Test data for the modules of xtask/src/main.rs: a file system in which every file exists, a path being
-- a directory and a name.
use cockpitctl.Base.{
  ◌≡◌, refl, sym, ap, ◌≢◌, inl, inr, Bool-cases, eq_iff, str_eq, ◌&&◌, String, Bool, none, some,
  true, [], ◌∷◌, if◌then◌else◌,
}
use cockpitctl.Ingest.Ports.{Bytes}
use cockpitctl.Ingest.Result.{ok}
use cockpitctl.Xtask.Schemas.{Tree, SchemaTools}
use cockpitctl.Xtask.Sync.{Store, schema_source, schema_dest}

abbrev pub Place : Type 0
Place = String × String

abbrev pub Content : Type 0
Content = Place → Bytes

abbrev is_place : Place → Place → Bool
is_place p q = str_eq p.0 q.0 && str_eq p.1 q.1

abbrev pub store : Store Place Content
store = record {
  from = λ s. (s, "");
  join = λ p s. (p.0, s);
  parent = λ p. none;
  display = λ p. p.1;
  read = λ w p. ok (w p);
  create_dir_all = λ p w. (ok tt, w);
  copy = λ src dst w. (ok tt, λ p. if is_place p dst then w src else w p);
}

-- The one file with content is the schema of receipts.
abbrev pub content : Content
content p =
    if str_eq p.0 "contracts/schemas" && str_eq p.1 "sensor.report.v1.json" then 1 ∷ [] else []

pub copy_reads :
    (m : String) (w w' : Content)
    → store.copy (schema_source store m) (schema_dest store m) w ≡ (ok tt, w')
    → (b : Bytes) × (store.read w (schema_source store m) ≡ ok b)
      × (store.read w' (schema_dest store m) ≡ ok b)
copy_reads m w w' h =
    let e = (eq_iff m m).1 refl in
    rw (sym (ap (λ r. r.1) h)) (w (schema_source store m), refl, rw e refl)

pub copy_source :
    (m n : String) (w w' : Content)
    → store.copy (schema_source store m) (schema_dest store m) w ≡ (ok tt, w')
    → store.read w' (schema_source store n) ≡ store.read w (schema_source store n)
copy_source m n w w' h = rw (sym (ap (λ r. r.1) h)) refl

pub copy_dest :
    (m n : String) (w w' : Content)
    → m ≢ n
    → store.copy (schema_source store m) (schema_dest store m) w ≡ (ok tt, w')
    → store.read w' (schema_dest store n) ≡ store.read w (schema_dest store n)
copy_dest m n w w' d h = elim (Bool-cases (str_eq n m)) [
  | inl y ↦ absurd (d (sym ((eq_iff n m).0 y)))
  | inr e ↦ rw (sym (ap (λ r. r.1) h), e) refl
]

-- A directory with one file, whose text is the state, and a library that prints every value as `{}`.
abbrev pub tree : Tree String String
tree = record {
  join = λ p s. s;
  display = λ p. p;
  exists = λ p. true;
  walk = λ p. ok "a.json" ∷ [];
  extension = λ p. some "json";
  is_file = λ p. true;
  read_to_string = λ w p. ok w;
  write = λ p t w. (ok tt, t);
}

abbrev pub tools : SchemaTools (Unit {0})
tools = record {
  from_str = λ s. ok tt;
  to_string_pretty = λ v. ok "{}";
  get_str = λ v key. some key;
  meta_error = λ v. none;
}
