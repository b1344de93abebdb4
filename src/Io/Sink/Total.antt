-- ===== src/Io/Sink/Total.antt =====
-- When the writes of `FsOutputSink` of crates/cockpitctl-io/src/lib.rs succeed, and chains of them.
use mathlib.Core.List.{mem-cons_self, mem-cons_of_mem}
use cockpitctl.Base.{
  Bool, Mem, List, true, if◌then◌else◌, ◌≡◌, refl, String, false, [], ◌∷◌, concat,
}
use cockpitctl.Ingest.Ports.{Bytes}
use cockpitctl.Ingest.Result.{Result, ok}
use cockpitctl.Ingest.Examine.Total.{IsOk}
use cockpitctl.Io.Layout.{Files, FsLayout, cockpit_report_file, cockpit_comment_file}
use cockpitctl.Io.Sink.{
  Disk, and_then, within, is_unsafe_name, write_into, write_cockpit_report, write_cockpit_comment,
  write_extra_file,
}

-- There is a result, and the state it ends in has the property.
abbrev pub Ends : {A W : Type 0} → (W → Type 0) → Result A × W → Type 0
Ends {A} {W} Q m = (a : A) × (w : W) × (m ≡ (ok a, w)) × Q w

pub and_then-Ends :
    {A B W : Type 0} (R Q : W → Type 0) (m : Result A × W) (next : A → W → Result B × W)
    → Ends R m
    → ((a : A) (w : W) → R w → Ends Q (next a w))
    → Ends Q (and_then m next)
and_then-Ends R Q m next (a, w, e, r) f = rw e (f a w r)

pub pure-Ends :
    {A B W : Type 0} (Q : W → Type 0) (r : Result A) (w : W) (next : A → W → Result B × W)
    → IsOk r
    → ((a : A) → Ends Q (next a w))
    → Ends Q (and_then (r, w) next)
pure-Ends Q r w next (a, e) f = rw e (f a)

pub within-Ends :
    {A W : Type 0} (Q : W → Type 0) (message : String) (m : Result A × W)
    → Ends Q m
    → Ends Q (within message m)
within-Ends Q message m (a, w, e, q) = rw e (a, w, refl, q)

pub if-Ends :
    {A W : Type 0} (Q : W → Type 0) (b : Bool) (m n : Result A × W)
    → Ends Q m
    → Ends Q n
    → Ends Q (if b then m else n)
if-Ends Q true m n h k = h
if-Ends Q false m n h k = k

-- The files that are written without the hooks and the signature.
abbrev pub written_names : List String
written_names = "report.json" ∷ "comment.md" ∷ "sarif.json" ∷ "buildfix.apply.json" ∷ []

-- In a usable state the output directory can be created, which makes it ready; in a ready one, which is
-- usable too, each of those files can be written in the directory, and then it is still ready.
abbrev pub IsWritable :
    {P W : Type 0} → Files P → Disk P W → FsLayout P → (Usable Ready : W → Type 0) → Type 0
IsWritable {P} {W} fs disk layout Usable Ready =
    ((w : W) → Usable w → Ends Ready (disk.create_dir_all layout.out_dir w))
    × ((name : String) (b : Bytes) (w : W)
        → Mem name written_names
        → Ready w
        → Ends Ready (disk.write (fs.join layout.out_dir name) b w))
    × ((w : W) → Ready w → Usable w)

module _ {P W : Type 0} (fs : Files P) (disk : Disk P W) (layout : FsLayout P)
    (Usable Ready : W → Type 0) (writable : IsWritable fs disk layout Usable Ready) where
  write_into-Ends :
      (label name : String) (content : Bytes) (w : W)
      → Mem name written_names
      → Usable w
      → Ends Ready (write_into fs disk layout label (fs.join layout.out_dir name) content w)
  unfolding write_into
  write_into-Ends label name content w m u =
      and_then-Ends Ready Ready
        (within (concat ("create out dir " ∷ fs.display layout.out_dir ∷ []))
          (disk.create_dir_all layout.out_dir w))
        _ (within-Ends Ready _ (disk.create_dir_all layout.out_dir w) (writable.0 w u))
        (λ _ w1 r.
          within-Ends Ready _ (disk.write (fs.join layout.out_dir name) content w1)
            (writable.1 name content w1 m r))

  pub write_cockpit_report-Ends :
      (json : String) (w : W) → Usable w → Ends Ready (write_cockpit_report fs disk layout json w)
  unfolding write_cockpit_report cockpit_report_file
  write_cockpit_report-Ends json w u = write_into-Ends _ "report.json" _ w mem-cons_self u

  pub write_cockpit_comment-Ends :
      (md : String) (w : W) → Usable w → Ends Ready (write_cockpit_comment fs disk layout md w)
  unfolding write_cockpit_comment cockpit_comment_file
  write_cockpit_comment-Ends md w u =
      write_into-Ends _ "comment.md" _ w (mem-cons_of_mem _ mem-cons_self) u

  pub write_extra_file-Ends :
      (name : String) (content : Bytes) (w : W)
      → is_unsafe_name name ≡ false
      → Mem name written_names
      → Usable w
      → Ends Ready (write_extra_file fs disk layout name content w)
  unfolding write_extra_file
  write_extra_file-Ends name content w h m u = rw h (write_into-Ends _ name _ w m u)
