-- ===== src/Io/Samples.antt =====
-- Test data for the modules of crates/cockpitctl-io/src/lib.rs: a file system in which everything
-- exists, and a process that answers at once.
use Prim.Native.String.{◌++◌ as append}
use cockpitctl.Base.{
  String, true, none, some, [], ◌∷◌, begins_with, begins_with-append, ◌≡◌, refl, Bool, false, not,
  ◌||◌,
}
use cockpitctl.Ingest.Result.{ok}
use cockpitctl.Io.Layout.{Files, FsLayout, DirEntry}
use cockpitctl.Io.Source.{FsReceiptSource}
use cockpitctl.Io.Sink.{Disk}
use cockpitctl.Io.Hooks.{Process, Exit}

abbrev pub lint_dir : DirEntry String
lint_dir = record { file_name = "lint"; path = "artifacts/lint" }

abbrev pub misnamed_dir : DirEntry String
misnamed_dir = record { file_name = "a sensor"; path = "artifacts/a sensor" }

abbrev pub fs : Files String
fs = record {
  join = λ p s. append p (append "/" s);
  join_path = λ p q. append p (append "/" q);
  from = λ s. s;
  display = λ p. p;
  starts_with = begins_with;
  is_absolute = λ p. true;
  current_dir = none;
  exists = λ p. true;
  is_dir = λ p. true;
  canonicalize = some;
  len = λ p. ok 3;
  read = λ p. ok (1 ∷ 2 ∷ 3 ∷ []);
  read_to_string = λ p. ok "{}";
  read_dir = λ p. ok (ok lint_dir ∷ []);
}

abbrev pub layout : FsLayout String
layout = record {
  artifacts_dir = "artifacts";
  out_dir = "artifacts/cockpit";
  config_path = "cockpit.toml";
  max_receipt_bytes = 10;
  max_receipts = 1;
}

abbrev pub source : FsReceiptSource String
source = record { layout = layout; artifacts_root = "artifacts" }

abbrev pub process : Process
process = record {
  split_whitespace = λ s. s ∷ [];
  spawn = λ l. ok 0;
  write_stdin = λ child input. ok tt;
  wait_timeout = λ child ms. ok (Exit.exited true "0" (1 ∷ []));
}

-- Whether a path is not in the output directory.
abbrev is_outside : String → Bool
is_outside p = not (begins_with p "artifacts/cockpit")

-- The state is whether something outside the output directory was written to.
abbrev pub disk : Disk String Bool
disk = record {
  create_dir_all = λ p w. (ok tt, w);
  write = λ p content w. (ok tt, w || is_outside p);
  as_bytes = λ s. [];
}

abbrev pub remove_file : String → Bool → Bool
remove_file p w = w || is_outside p

pub inside :
    (name : String) (w : Bool) → w ≡ false → remove_file (fs.join layout.out_dir name) w ≡ false
inside name w h = rw (h, begins_with-append layout.out_dir (append "/" name)) refl
