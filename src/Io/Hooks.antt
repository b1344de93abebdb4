-- ===== src/Io/Hooks.antt =====
-- crates/cockpitctl-io-hooks/src/lib.rs. The child process is a parameter: what the crate uses of it
-- is whether it can be started and takes its input, and its exit and output.
pub mod Run
pub mod Contained
use Prim.Native.String.{String, compare as string_compare}
use cockpitctl.Base.{
  ℕ, Bool, true, false, List, [], ◌∷◌, ◌++◌, concat, to_string, Cmp, on, lex, sort_by, compare, ◌+◌,
}
use cockpitctl.Base.Int.{ℤ, pos_part, neg_part}
use cockpitctl.Types.Config.{HookConfig}
use cockpitctl.Ingest.Ports.{Bytes}
use cockpitctl.Ingest.Result.{Result, ok, err, ◌>>=◌, context}
use cockpitctl.Io.Sink.{and_then}

pub record CommentSection : Type 0 where
  pub name : String
  pub content : String
  pub order : ℤ

pub record OutputFile : Type 0 where
  pub name : String
  pub content : Bytes

pub record PostProcessOutput : Type 0 where
  pub comment_sections : List CommentSection
  pub files : List OutputFile

-- How a child ended: in time, with its status and what it wrote; or not in time.
pub data Exit : Type 0 where
  exited : (success : Bool) (status : String) (stdout : Bytes) → Exit
  timed_out : Exit

-- What is used of `std::process` and `wait_timeout`: the words of a command line, the start of the
-- first of them, the write to its input, and the wait. A child is a number here.
pub record Process : Type 0 where
  pub split_whitespace : String → List String
  pub spawn : List String → Result ℕ
  pub write_stdin : ℕ → Bytes → Result (Unit {0})
  pub wait_timeout : ℕ → ℕ → Result Exit

-- The order of `i32`.
abbrev pub compare_ℤ : Cmp ℤ
compare_ℤ a b = compare (pos_part a + neg_part b) (pos_part b + neg_part a)

abbrev pub section_cmp : Cmp CommentSection
section_cmp = lex (on (λ s. s.order) compare_ℤ) (on (λ s. s.name) string_compare)

-- `write_extra_file` is that of the sink.
module _ {W : Type 0} (write_extra_file : String → Bytes → W → Result (Unit {0}) × W) where
  unfoldable pub write_files : List OutputFile → W → Result (Unit {0}) × W
  write_files [] w = (ok tt, w)
  write_files (f ∷ rest) w =
      and_then (write_extra_file f.name f.content w) (λ _ w'. write_files rest w')

  -- What a hook's outcome does to the sections so far and to what is written.
  unfoldable pub after_hook :
      Result PostProcessOutput → List CommentSection → W → Result (List CommentSection) × W
  unfolding write_files
  after_hook (err e) sections w = (ok sections, w)
  after_hook (ok output) sections w =
      and_then (write_files output.files w) (λ _ w'. (ok (sections ++ output.comment_sections), w'))

-- `from_slice` is `serde_json::from_slice` at `PostProcessOutput`.
module _ (process : Process) (as_bytes : String → Bytes)
    (from_slice : Bytes → Result PostProcessOutput) where
  hook_message : String → HookConfig → String → String
  unfolding concat
  hook_message front hook back = concat (front ∷ " `" ∷ hook.name ∷ "`" ∷ back ∷ [])

  hook_output : HookConfig → Exit → Result PostProcessOutput
  unfolding hook_message concat to_string
  hook_output hook Exit.timed_out = err (
      hook_message "hook" hook
        (concat (" timed out after " ∷ to_string hook.timeout_ms ∷ "ms" ∷ []))
      ∷ [])
  hook_output hook (Exit.exited false status stdout) =
      err (hook_message "hook" hook (concat (" exited with status " ∷ status ∷ [])) ∷ [])
  hook_output hook (Exit.exited true status stdout) =
      context (hook_message "parse hook" hook " output") (from_slice stdout)

  run_parts : HookConfig → String → List String → Result PostProcessOutput
  unfolding hook_message hook_output
  run_parts hook report_json [] = err (hook_message "hook" hook " has empty command" ∷ [])
  run_parts hook report_json (command ∷ args) =
      context (hook_message "spawn hook" hook "") (process.spawn (command ∷ args)) >>= λ child.
      context (hook_message "write stdin for hook" hook "")
        (process.write_stdin child (as_bytes report_json))
      >>= λ _.
          context (hook_message "wait for hook" hook "")
            (process.wait_timeout child hook.timeout_ms)
          >>= λ exit. hook_output hook exit

  unfoldable pub run_single_hook : HookConfig → String → Result PostProcessOutput
  unfolding run_parts
  run_single_hook hook report_json =
      run_parts hook report_json (process.split_whitespace hook.command)

  module _ {W : Type 0} (write_extra_file : String → Bytes → W → Result (Unit {0}) × W) where
    unfoldable pub run_each :
        List HookConfig → String → List CommentSection → W → Result (List CommentSection) × W
    unfolding run_single_hook after_hook
    run_each [] report_json sections w = (ok sections, w)
    run_each (hook ∷ rest) report_json sections w =
        and_then (after_hook write_extra_file (run_single_hook hook report_json) sections w)
          (λ all w'. run_each rest report_json all w')

    unfoldable pub run_hooks : List HookConfig → String → W → Result (List CommentSection) × W
    unfolding run_each
    run_hooks hooks report_json w =
        and_then (run_each hooks report_json [] w)
          (λ sections w'. (ok (sort_by section_cmp sections), w'))
