-- ===== src/Io/Sink.antt =====
-- `FsOutputSink` of crates/cockpitctl-io/src/lib.rs. `W` is what is written to.
pub mod Total
use cockpitctl.Base.{◌≡◌, refl, String, Bool, ◌||◌, [], ◌∷◌, contains, concat, if◌then◌else◌}
use cockpitctl.Ingest.Ports.{Bytes, OutputSink}
use cockpitctl.Ingest.Result.{Result, ok, err, context}
use cockpitctl.Io.Layout.{Files, FsLayout, cockpit_report_file, cockpit_comment_file}

-- `fs::create_dir_all` and `fs::write`; `as_bytes` is `str::as_bytes`.
pub record Disk (P W : Type 0) : Type 0 where
  pub create_dir_all : P → W → Result (Unit {0}) × W
  pub write : P → Bytes → W → Result (Unit {0}) × W
  pub as_bytes : String → Bytes

-- The next write, if the one before it succeeded.
abbrev pub and_then : {A B W : Type 0} → Result A × W → (A → W → Result B × W) → Result B × W
and_then (ok a, w) next = next a w
and_then (err e, w) next = (err e, w)

abbrev pub within : {A W : Type 0} → String → Result A × W → Result A × W
within message (r, w) = (context message r, w)

-- A chain that succeeds: its first part did, and then the rest.
pub and_then-ok :
    {A B W : Type 0} (m : Result A × W) (next : A → W → Result B × W) {b : B} {w' : W}
    → and_then m next ≡ (ok b, w')
    → (a : A) × (w : W) × (m ≡ (ok a, w)) × (next a w ≡ (ok b, w'))
and_then-ok (ok a, w) next h = (a, w, refl, h)
and_then-ok (err e, w) next h = absurd (cc)

pub within-ok :
    {A W : Type 0} (message : String) (m : Result A × W) {a : A} {w : W}
    → within message m ≡ (ok a, w)
    → m ≡ (ok a, w)
within-ok message (ok a, w) h = h
within-ok message (err e, w) h = absurd (cc)

-- A first part that leaves the state as it is.
pub and_then-pure :
    {A B W : Type 0} (r : Result A) (w : W) (next : A → W → Result B × W) {b : B} {w' : W}
    → and_then (r, w) next ≡ (ok b, w')
    → (a : A) × (r ≡ ok a) × (next a w ≡ (ok b, w'))
and_then-pure (ok a) w next h = (a, refl, h)
and_then-pure (err e) w next h = absurd (cc)

-- The name may lead out of the output directory.
unfoldable pub is_unsafe_name : String → Bool
unfolding contains
is_unsafe_name name = contains name ".." || contains name "/" || contains name "\\"

module _ {P W : Type 0} (fs : Files P) (disk : Disk P W) where
  -- Creates the output directory, and writes the file.
  unfoldable pub write_into : FsLayout P → String → P → Bytes → W → Result (Unit {0}) × W
  unfolding concat
  write_into layout label p content w =
      and_then
        (within (concat ("create out dir " ∷ fs.display layout.out_dir ∷ []))
          (disk.create_dir_all layout.out_dir w))
        (λ _ w'. within (concat (label ∷ fs.display p ∷ [])) (disk.write p content w'))

  unfoldable pub write_cockpit_report : FsLayout P → String → W → Result (Unit {0}) × W
  unfolding write_into cockpit_report_file
  write_cockpit_report layout json =
      write_into layout "write " (cockpit_report_file fs layout) (disk.as_bytes json)

  unfoldable pub write_cockpit_comment : FsLayout P → String → W → Result (Unit {0}) × W
  unfolding write_into cockpit_comment_file
  write_cockpit_comment layout md =
      write_into layout "write " (cockpit_comment_file fs layout) (disk.as_bytes md)

  unfoldable pub write_extra_file : FsLayout P → String → Bytes → W → Result (Unit {0}) × W
  unfolding is_unsafe_name write_into concat
  write_extra_file layout name content w =
      let p = fs.join layout.out_dir name in
      let written = write_into layout "write extra file " p content w in
      if is_unsafe_name name
      then (err (concat ("unsafe extra file name: " ∷ name ∷ []) ∷ []), w)
      else written

  -- The sink of the use case.
  unfoldable pub fs_output_sink : FsLayout P → OutputSink W
  unfolding write_cockpit_report write_cockpit_comment
  fs_output_sink layout = record {
    write_cockpit_report = write_cockpit_report layout;
    write_cockpit_comment = write_cockpit_comment layout;
  }
