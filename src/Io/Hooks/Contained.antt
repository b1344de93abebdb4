-- ===== src/Io/Hooks/Contained.antt =====
-- What the hooks of crates/cockpitctl-io-hooks/src/lib.rs can write through the sink of
-- crates/cockpitctl-io/src/lib.rs.
use Prim.Native.String.{String}
use cockpitctl.Base.{◌≡◌, inl, inr, Bool-cases, false, List, [], ◌∷◌}
use cockpitctl.Types.Config.{HookConfig}
use cockpitctl.Ingest.Ports.{Bytes}
use cockpitctl.Ingest.Result.{Result, ok, err}
use cockpitctl.Io.Layout.{Files, FsLayout}
use cockpitctl.Io.Sink.{Disk, and_then, within, is_unsafe_name, write_into, write_extra_file}
use cockpitctl.Io.Hooks.{
  Process, CommentSection, OutputFile, PostProcessOutput, run_single_hook, write_files, after_hook,
  run_each, run_hooks,
}

-- What the first write keeps and the next keeps, both together keep.
pub and_then_keeps :
    {A B W : Type 0} (I : W → Type 0) (m : Result A × W) (next : A → W → Result B × W)
    → I m.1
    → ((a : A) (w : W) → I w → I (next a w).1)
    → I (and_then m next).1
and_then_keeps I (ok a, w) next h k = k a w h
and_then_keeps I (err e, w) next h k = h

-- `I` holds of the state before, and keeps holding when the output directory is created and when a
-- file with a safe name is written into it.
module _ {P W : Type 0} (fs : Files P) (disk : Disk P W) (layout : FsLayout P) (I : W → Type 0)
    (creates : (w : W) → I w → I (disk.create_dir_all layout.out_dir w).1)
    (writes : (name : String) (content : Bytes) (w : W)
      → is_unsafe_name name ≡ false
      → I w
      → I (disk.write (fs.join layout.out_dir name) content w).1) where
  pub write_extra_file_keeps :
      (name : String) (content : Bytes) (w : W)
      → I w
      → I (write_extra_file fs disk layout name content w).1
  unfolding write_extra_file write_into
  write_extra_file_keeps name content w h = elim (Bool-cases (is_unsafe_name name)) [
    | inl u ↦ rw u h
    | inr u ↦ rw u (
        and_then_keeps I (within _ (disk.create_dir_all layout.out_dir w)) _ (creates w h)
          (λ _ w' k. writes name content w' u k))
  ]

  write_files_keeps :
      (l : List OutputFile) (w : W) → I w → I (write_files (write_extra_file fs disk layout) l w).1
  unfolding write_files
  write_files_keeps [] w h = h
  write_files_keeps (f ∷ l) w h =
      and_then_keeps I (write_extra_file fs disk layout f.name f.content w) _
        (write_extra_file_keeps f.name f.content w h) (λ _ w' k. write_files_keeps l w' k)

  after_hook_keeps :
      (r : Result PostProcessOutput) (sections : List CommentSection) (w : W)
      → I w
      → I (after_hook (write_extra_file fs disk layout) r sections w).1
  unfolding after_hook
  after_hook_keeps (err e) sections w h = h
  after_hook_keeps (ok output) sections w h =
      and_then_keeps I (write_files (write_extra_file fs disk layout) output.files w) _
        (write_files_keeps output.files w h) (λ _ w' k. k)

  module _ (process : Process) (as_bytes : String → Bytes)
      (from_slice : Bytes → Result PostProcessOutput) where
    run_each_keeps :
        (hooks : List HookConfig) (report_json : String) (sections : List CommentSection) (w : W)
        → I w
        → I
            (run_each process as_bytes from_slice
              (write_extra_file fs disk layout)
              hooks
              report_json
              sections
              w).1
    unfolding run_each
    run_each_keeps [] report_json sections w h = h
    run_each_keeps (hook ∷ rest) report_json sections w h =
        and_then_keeps I
          (after_hook (write_extra_file fs disk layout)
            (run_single_hook process as_bytes from_slice hook report_json) sections w)
          _
          (after_hook_keeps (run_single_hook process as_bytes from_slice hook report_json) sections
            w h)
          (λ all w' k. run_each_keeps rest report_json all w' k)

    -- Whatever holds before, and is kept by the creation of the output directory and by every write into
    -- it under a safe name, holds after the hooks have run, in whatever way they end.
    pub run_hooks_keeps :
        (hooks : List HookConfig) (report_json : String) (w : W)
        → I w
        → I
            (run_hooks process as_bytes from_slice
              (write_extra_file fs disk layout)
              hooks
              report_json
              w).1
    unfolding run_hooks
    run_hooks_keeps hooks report_json w h =
        and_then_keeps I
          (run_each process as_bytes from_slice (write_extra_file fs disk layout) hooks report_json
            [] w)
          _ (run_each_keeps hooks report_json [] w h) (λ _ w' k. k)
