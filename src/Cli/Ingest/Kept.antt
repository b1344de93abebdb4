-- ===== src/Cli/Ingest/Kept.antt =====
-- What a run of `cmd_ingest` in crates/cockpitctl-cli/src/main.rs does to the world outside: a step
-- relation, and the run as a sequence of its steps.
use cockpitctl.Base.{
  ◌≡◌, refl, inl, inr, Bool-cases, String, false, Option, none, some, List, [], ◌∷◌, contains,
  concat,
}
use cockpitctl.Types.Config.{BuildfixPolicy, CockpitConfig}
use cockpitctl.Ingest.Ports.{Bytes, IngestResult}
use cockpitctl.Ingest.Result.{context}
use cockpitctl.Render.Comment.{blocking_map}
use cockpitctl.Render.Github.{render_github_annotations}
use cockpitctl.Sarif.{cockpit_report_to_sarif_json}
use cockpitctl.Io.Sink.{is_unsafe_name, fs_output_sink}
use cockpitctl.Ingest.Execute.Kept.{execute_keeps}
use cockpitctl.Io.Hooks.Contained.{and_then_keeps}
use cockpitctl.Cli.Options.{effective_buildfix, effective_policy_signing}
use cockpitctl.Cli.Stages.Kept.{report_keeps, comment_keeps, after_ingest_keeps}
use cockpitctl.Cli.Ingest.{
  OutputFormat, cockpit, sarif, IngestInputs, Environment, println_each, pre_config, layout_of,
  request, validator, ports_of, run_use_case, annotate, write_sarif, sarif_stage, trend_stage,
  buildfix_switch, signing_switch, hooks_switch, finish, cmd_ingest,
}

module _ {V P W J C : Type 0} (env : Environment V P W J C) (out_dir : P) where
  -- What a run may do: create the output directory, write a file with a safe name in it or remove one,
  -- and print.
  pub data Step : W → W → Type 0 where
    create : (w : W) → Step w (env.adapters.disk.create_dir_all out_dir w).1
    write_file :
        (name : String) (content : Bytes) (w : W)
        → is_unsafe_name name ≡ false
        → Step w (env.adapters.disk.write (env.adapters.fs.join out_dir name) content w).1
    remove_file :
        (name : String) (w : W)
        → is_unsafe_name name ≡ false
        → Step w (env.adapters.remove_file (env.adapters.fs.join out_dir name) w)
    print : (line : String) (w : W) → Step w (env.println line w)
    print_error : (text : String) (w : W) → Step w (env.eprint text w)

  pub data Reach (v : W) : W → Type 0 where
    here : Reach v v
    next : {w x : W} → Reach v w → Step w x → Reach v x

  -- What every step keeps holds of whatever can be reached.
  pub Reach_keeps :
      (I : W → Type 0) → ((w x : W) → Step w x → I w → I x) → {v w : W} → Reach v w → I v → I w
  Reach_keeps I k here h = h
  Reach_keeps I k (next r s) h = k _ _ s (Reach_keeps I k r h)

sarif_name : is_unsafe_name "sarif.json" ≡ false
unfolding is_unsafe_name contains
sarif_name = refl

pub println_each_keeps :
    {W : Type 0} (println : String → W → W) (I : W → Type 0)
    → ((line : String) (w : W) → I w → I (println line w))
    → (lines : List String) (w : W) → I w
    → I (println_each println lines w)
unfolding println_each
println_each_keeps println I k [] w h = h
println_each_keeps println I k (line ∷ lines) w h =
    println_each_keeps println I k lines (println line w) (k line w h)

module _ {V P W J C : Type 0} (env : Environment V P W J C) (inputs : IngestInputs P) (v : W) where
  abbrev out_dir : P
  out_dir = env.adapters.fs.join inputs.artifacts "cockpit"

  abbrev Reached : W → Type 0
  Reached w = Reach env out_dir v w

  creates : (w : W) → Reached w → Reached (env.adapters.disk.create_dir_all out_dir w).1
  creates w h = next h (create w)

  writes :
      (name : String) (content : Bytes) (w : W)
      → is_unsafe_name name ≡ false
      → Reached w
      → Reached (env.adapters.disk.write (env.adapters.fs.join out_dir name) content w).1
  writes name content w s h = next h (write_file name content w s)

  removes :
      (name : String) (w : W)
      → is_unsafe_name name ≡ false
      → Reached w
      → Reached (env.adapters.remove_file (env.adapters.fs.join out_dir name) w)
  removes name w s h = next h (remove_file name w s)

  run_use_case_reaches :
      (cfg : CockpitConfig) (w : W)
      → Reached w
      → Reached (run_use_case env inputs (layout_of env inputs cfg) w).1
  unfolding run_use_case layout_of fs_output_sink
  run_use_case_reaches cfg w h =
      and_then_keeps Reached (validator env inputs, w) _ h
        (λ validate w1 h1.
          execute_keeps
            (fs_output_sink env.adapters.fs env.adapters.disk (layout_of env inputs cfg)) Reached
            (report_keeps env.adapters (layout_of env inputs cfg) cfg Reached creates writes
              removes)
            (comment_keeps env.adapters (layout_of env inputs cfg) cfg Reached creates writes
              removes)
            (ports_of env inputs (layout_of env inputs cfg) validate) env.codec (request env inputs)
            w1 h1)

  annotate_reaches :
      (cfg : CockpitConfig) (result : IngestResult V) (w : W)
      → Reached w
      → Reached (annotate env inputs cfg result w)
  unfolding annotate
  annotate_reaches cfg result w h = elim (Bool-cases inputs.github_annotations) [
    | inr n ↦ rw n h
    | inl y ↦ rw y (
        println_each_keeps env.println Reached (λ line w1 k. next k (print line w1))
          (render_github_annotations result.report.highlights cfg
            (blocking_map [] result.report.sensors)).lines
          w h)
  ]

  sarif_stage_reaches :
      (format : OutputFormat) (result : IngestResult V) (w : W)
      → Reached w
      → Reached (sarif_stage env inputs format result w).1
  unfolding sarif_stage write_sarif
  sarif_stage_reaches cockpit result w h = h
  sarif_stage_reaches sarif result w h =
      and_then_keeps Reached
        (context "render SARIF" (cockpit_report_to_sarif_json env.sarif_to_string result.report), w)
        _ h (λ json w1 h1. writes "sarif.json" (env.adapters.disk.as_bytes json) w1 sarif_name h1)

  trend_stage_reaches :
      (baseline : Option P) (result : IngestResult V) (w : W)
      → Reached w
      → Reached (trend_stage env inputs baseline result w).1
  unfolding trend_stage
  trend_stage_reaches none result w h = h
  trend_stage_reaches (some path) result w h =
      and_then_keeps Reached
        (
          context (concat ("read baseline " ∷ env.adapters.fs.display path ∷ []))
              (env.adapters.fs.read path),
          w,
        )
        _ h
        (λ bytes w1 h1.
          and_then_keeps Reached
            (
              context (concat ("parse baseline " ∷ env.adapters.fs.display path ∷ []))
                  (env.report_from_slice bytes),
              w1,
            )
            _ h1 (λ baseline w2 h2. next h2 (print_error _ w2)))

  finish_reaches :
      (cfg : CockpitConfig) (buildfix : BuildfixPolicy) (result : IngestResult V) (w : W)
      → Reached w
      → Reached (finish env inputs cfg buildfix result w).1
  unfolding finish layout_of
  finish_reaches cfg buildfix result w h =
      and_then_keeps Reached
        (sarif_stage env inputs inputs.format result (annotate env inputs cfg result w)) _
        (sarif_stage_reaches inputs.format result (annotate env inputs cfg result w)
          (annotate_reaches cfg result w h))
        (λ _ w1 h1.
          and_then_keeps Reached (trend_stage env inputs inputs.baseline result w1) _
            (trend_stage_reaches inputs.baseline result w1 h1)
            (λ _ w2 h2.
              after_ingest_keeps env.adapters (layout_of env inputs cfg) cfg Reached creates writes
                removes (buildfix_switch env inputs) (signing_switch env inputs)
                (hooks_switch env inputs) inputs.options buildfix
                (effective_policy_signing inputs.options cfg.policy_signing) result w2 h2))

-- A run of `ingest`, in whatever way it ends, reaches its final state in steps that create the output
-- directory, write or remove files with safe names in it, or print. What child processes do by
-- themselves is not part of the state.
pub cmd_ingest_reaches :
    {V P W J C : Type 0} (env : Environment V P W J C) (inputs : IngestInputs P) (w : W)
    → Reach env (env.adapters.fs.join inputs.artifacts "cockpit") w (cmd_ingest env inputs w).1
unfolding cmd_ingest
cmd_ingest_reaches env inputs w =
    and_then_keeps (Reached env inputs w) (pre_config env inputs, w) _ here
      (λ cfg w1 h1.
        and_then_keeps (Reached env inputs w) (effective_buildfix inputs.options cfg.buildfix, w1) _
          h1
          (λ buildfix w2 h2.
            and_then_keeps (Reached env inputs w)
              (run_use_case env inputs (layout_of env inputs cfg) w2) _
              (run_use_case_reaches env inputs w cfg w2 h2)
              (λ result w3 h3. finish_reaches env inputs w cfg buildfix result w3 h3)))
