-- ===== src/Io/Hooks/Run.antt =====
-- What `run_hooks` of crates/cockpitctl-io-hooks/src/lib.rs returns and writes.
use Prim.Native.String.{String}
use mathlib.Core.List.{append_assoc, append-nil, mem-cons_self, mem-cons_of_mem}
use cockpitctl.Base.{◌≡◌, refl, false, Mem, List, [], ◌∷◌, ◌++◌, sort_by}
use cockpitctl.Types.Config.{HookConfig}
use cockpitctl.Ingest.Ports.{Bytes}
use cockpitctl.Ingest.Result.{Result, ok, err}
use cockpitctl.Io.Layout.{Files, FsLayout}
use cockpitctl.Io.Sink.{Disk, is_unsafe_name, write_into, write_extra_file}
use cockpitctl.Io.Hooks.{
  Process, CommentSection, OutputFile, PostProcessOutput, section_cmp, run_single_hook, write_files,
  after_hook, run_each, run_hooks,
}

-- The sections of an outcome.
abbrev pub sections_of : Result PostProcessOutput → List CommentSection
sections_of (err e) = []
sections_of (ok output) = output.comment_sections

module _ (process : Process) (as_bytes : String → Bytes)
    (from_slice : Bytes → Result PostProcessOutput) where
  -- The sections of the hooks that succeed, in the hooks' order.
  abbrev pub contributed : List HookConfig → String → List CommentSection
  contributed [] report_json = []
  contributed (hook ∷ rest) report_json =
      sections_of (run_single_hook process as_bytes from_slice hook report_json)
      ++ contributed rest report_json

  -- A file of a hook that succeeds.
  abbrev pub IsOutput : List HookConfig → String → OutputFile → Type 0
  IsOutput hooks report_json f =
      (hook : HookConfig) × (output : PostProcessOutput) × Mem hook hooks
      × (run_single_hook process as_bytes from_slice hook report_json ≡ ok output)
      × Mem f output.files

  module _ {W : Type 0} (write : String → Bytes → W → Result (Unit {0}) × W) (Usable : W → Type 0)
      (IsWritten : OutputFile → Type 0)
      (writes : (f : OutputFile) (w : W)
        → IsWritten f
        → Usable w
        → (w' : W) × (write f.name f.content w ≡ (ok tt, w')) × Usable w') where
    write_files_ok :
        (l : List OutputFile) (w : W)
        → ((f : OutputFile) → Mem f l → IsWritten f)
        → Usable w
        → (w' : W) × (write_files write l w ≡ (ok tt, w')) × Usable w'
    unfolding write_files
    write_files_ok [] w g u = (w, refl, u)
    write_files_ok (f ∷ l) w g u =
        let (w1, e, u1) = writes f w (g f mem-cons_self) u in
        let (w2, k, u2) = write_files_ok l w1 (λ x m. g x (mem-cons_of_mem f m)) u1 in
        (w2, rw e k, u2)

    after_hook_ok :
        (r : Result PostProcessOutput) (sections : List CommentSection) (w : W)
        → ((o : PostProcessOutput) (f : OutputFile) → r ≡ ok o → Mem f o.files → IsWritten f)
        → Usable w
        → (w' : W) × (after_hook write r sections w ≡ (ok (sections ++ sections_of r), w'))
          × Usable w'
    unfolding after_hook
    after_hook_ok (err e) sections w g u = (w, rw (append-nil sections) refl, u)
    after_hook_ok (ok output) sections w g u =
        let (w1, e, u1) = write_files_ok output.files w (λ f m. g output f refl m) u in
        (w1, rw e refl, u1)

    run_each_ok :
        (hooks : List HookConfig) (report_json : String) (sections : List CommentSection) (w : W)
        → ((f : OutputFile) → IsOutput hooks report_json f → IsWritten f)
        → Usable w
        → (w' : W) × (run_each process as_bytes from_slice write hooks report_json sections w
            ≡ (ok (sections ++ contributed hooks report_json), w'))
    unfolding run_each
    run_each_ok [] report_json sections w g u = (w, rw (append-nil sections) refl)
    run_each_ok (hook ∷ rest) report_json sections w g u =
        let r : Result PostProcessOutput =
          run_single_hook process as_bytes from_slice hook report_json in
        let (w1, e, u1) =
          after_hook_ok r sections w (λ o f k m. g f (hook, o, mem-cons_self, k, m)) u in
        let (w2, k) =
          run_each_ok rest report_json (sections ++ sections_of r) w1
            (λ f x. g f (x.0, x.1, mem-cons_of_mem hook x.2, x.3, x.4)) u1 in
        (w2, rw (e, k, append_assoc sections (sections_of r) (contributed rest report_json)) refl)

  module _ {P W : Type 0} (fs : Files P) (disk : Disk P W) (layout : FsLayout P)
      (hooks : List HookConfig) (report_json : String) (Usable Ready : W → Type 0)
      (create : (w : W)
        → Usable w
        → (w' : W) × (disk.create_dir_all layout.out_dir w ≡ (ok tt, w')) × Ready w')
      (put : (f : OutputFile) (w : W)
        → IsOutput hooks report_json f
        → Ready w
        → (w' : W) × (disk.write (fs.join layout.out_dir f.name) f.content w ≡ (ok tt, w'))
          × Usable w')
      (safe : (f : OutputFile) → IsOutput hooks report_json f → is_unsafe_name f.name ≡ false) where
    write_extra_file_ok :
        (f : OutputFile) (w : W)
        → IsOutput hooks report_json f
        → Usable w
        → (w' : W) × (write_extra_file fs disk layout f.name f.content w ≡ (ok tt, w')) × Usable w'
    unfolding write_extra_file write_into
    write_extra_file_ok f w i u =
        let (w1, e, r) = create w u in
        let (w2, k, u2) = put f w1 i r in rw (safe f i, e, k) (w2, refl, u2)

    -- With the sink that writes to the output directory, and where that can be created, the files of the
    -- hooks that succeed have safe names and can be written there, the result is the sections of the
    -- hooks that succeed, sorted by order and name; a hook that fails contributes nothing and stops no
    -- other.
    pub run_hooks-contributed :
        (w : W)
        → Usable w
        → (w' : W) × (run_hooks process as_bytes from_slice
              (write_extra_file fs disk layout)
              hooks
              report_json
              w
            ≡ (ok (sort_by section_cmp (contributed hooks report_json)), w'))
    unfolding run_hooks
    run_hooks-contributed w u =
        let (w1, e) =
          run_each_ok (write_extra_file fs disk layout) Usable (IsOutput hooks report_json)
            write_extra_file_ok hooks report_json [] w (λ f i. i) u in
        (w1, rw e refl)
