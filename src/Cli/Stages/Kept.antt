-- ===== src/Cli/Stages/Kept.antt =====
-- Where `cmd_ingest` of crates/cockpitctl-cli/src/main.rs writes after the use case.
use cockpitctl.Base.{
  ◌≡◌, refl, String, false, ◌&&◌, ◌||◌, not, inl, inr, Bool-cases, Option, none, some, is_some,
  List, [], ◌∷◌, contains, if◌then◌else◌,
}
use cockpitctl.Types.Config.{BuildfixPolicy, PolicySigningConfig, CockpitConfig}
use cockpitctl.Ingest.Ports.{Bytes, IngestResult}
use cockpitctl.Ingest.Result.{Result, context}
use cockpitctl.Render.Sections.{no_items}
use cockpitctl.Signing.{load_policy_signing_key, sign_policy_snapshot}
use cockpitctl.Io.Layout.{FsLayout, cockpit_report_file, cockpit_comment_file}
use cockpitctl.Io.Sink.{
  within, is_unsafe_name, write_into, write_extra_file, write_cockpit_report, write_cockpit_comment,
}
use cockpitctl.Io.Hooks.{CommentSection, run_hooks}
use cockpitctl.Io.Hooks.Contained.{and_then_keeps, write_extra_file_keeps, run_hooks_keeps}
use cockpitctl.Cli.Options.{IngestOptions, buildfix_apply_requested}
use cockpitctl.Cli.Stages.{
  Adapters, Switch, write_again, with_entry, without_entry, publish, withdraw, apply_stage,
  buildfix_stage, sign_with, sign_stage, signing_stage, augment, hooks_stage, after_ingest,
}

safe_names :
    (is_unsafe_name "report.json" ≡ false)
    × (is_unsafe_name "comment.md" ≡ false)
    × (is_unsafe_name "buildfix.apply.json" ≡ false)
    × (is_unsafe_name "policy.signature.json" ≡ false)
unfolding is_unsafe_name contains
safe_names = (refl, refl, refl, refl)

-- `I` keeps holding when the output directory is created, and when a file with a safe name is written
-- in it or removed from it.
module _ {V P W : Type 0} (a : Adapters V P W) (layout : FsLayout P) (cfg : CockpitConfig)
    (I : W → Type 0) (creates : (w : W) → I w → I (a.disk.create_dir_all layout.out_dir w).1)
    (writes : (name : String) (content : Bytes) (w : W)
      → is_unsafe_name name ≡ false
      → I w
      → I (a.disk.write (a.fs.join layout.out_dir name) content w).1)
    (removes : (name : String) (w : W)
      → is_unsafe_name name ≡ false
      → I w
      → I (a.remove_file (a.fs.join layout.out_dir name) w)) where
  pub report_keeps :
      (json : String) (w : W) → I w → I (write_cockpit_report a.fs a.disk layout json w).1
  unfolding write_cockpit_report write_into cockpit_report_file
  report_keeps json w h =
      and_then_keeps I (within _ (a.disk.create_dir_all layout.out_dir w)) _ (creates w h)
        (λ _ w1 k. writes "report.json" (a.disk.as_bytes json) w1 safe_names.0 k)

  pub comment_keeps :
      (md : String) (w : W) → I w → I (write_cockpit_comment a.fs a.disk layout md w).1
  unfolding write_cockpit_comment write_into cockpit_comment_file
  comment_keeps md w h =
      and_then_keeps I (within _ (a.disk.create_dir_all layout.out_dir w)) _ (creates w h)
        (λ _ w1 k. writes "comment.md" (a.disk.as_bytes md) w1 safe_names.1 k)

  write_again_keeps :
      (serialize why : String) (result : IngestResult V) (w : W)
      → I w
      → I (write_again a layout cfg serialize why result w).1
  unfolding write_again
  write_again_keeps serialize why result w h =
      and_then_keeps I (context serialize (a.report_to_string result.report), w) _ h
        (λ json w1 h1.
          and_then_keeps I (within _ (write_cockpit_report a.fs a.disk layout _ w1)) _
            (report_keeps _ w1 h1)
            (λ _ w2 h2.
              and_then_keeps I (within _ (write_cockpit_comment a.fs a.disk layout _ w2)) _
                (comment_keeps _ w2 h2) (λ _ w3 h3. h3)))

  publish_keeps :
      (key file serialize why : String) (value : V) (sidecar : Result String)
      (result : IngestResult V) (w : W)
      → I w
      → I (publish a layout cfg key file serialize why value sidecar result w).1
  unfolding publish
  publish_keeps key file serialize why value sidecar result w h =
      and_then_keeps I (sidecar, w) _ h
        (λ text w1 h1.
          and_then_keeps I (within _ (write_extra_file a.fs a.disk layout file _ w1)) _
            (write_extra_file_keeps a.fs a.disk layout I creates writes file _ w1 h1)
            (λ _ w2 h2.
              write_again_keeps serialize why (with_entry a layout cfg key value result) w2 h2))

  withdraw_keeps :
      (file why : String) (result : IngestResult V) (w : W)
      → is_unsafe_name file ≡ false
      → I w
      → I (withdraw a layout cfg file why result w).1
  unfolding withdraw
  withdraw_keeps file why result w s h =
      and_then_keeps I (write_again a layout cfg "serialize cockpit report" why result w) _
        (write_again_keeps "serialize cockpit report" why result w h)
        (λ r w1 h1. removes file w1 s h1)

  apply_stage_keeps :
      (effective : BuildfixPolicy) (result : IngestResult V) (w : W)
      → I w
      → I (apply_stage a layout cfg effective result w).1
  unfolding apply_stage
  apply_stage_keeps effective result w h =
      and_then_keeps I (context "serialize buildfix apply summary" (a.apply_to_value _), w) _ h
        (λ value w1 h1.
          publish_keeps "_buildfix_apply" "buildfix.apply.json"
            "serialize cockpit report (buildfix apply)" "(buildfix apply)" value
            (context "serialize buildfix sidecar" (a.apply_to_string _)) result w1 h1)

  buildfix_stage_keeps :
      (switch : Switch) (opts : IngestOptions) (effective : BuildfixPolicy)
      (result : IngestResult V) (w : W)
      → I w
      → I (buildfix_stage a layout cfg switch opts effective result w).1
  unfolding buildfix_stage
  buildfix_stage_keeps switch opts effective result w h =
      elim (Bool-cases (is_some result.buildfix || buildfix_apply_requested opts effective)) [
        | inr n ↦ rw n h
        | inl y ↦ elim (Bool-cases (switch.available && switch.enabled)) [
          | inl s ↦ rw (y, s) (apply_stage_keeps effective result w h)
          | inr s ↦
              rw (y, s)
                (withdraw_keeps "buildfix.apply.json"
                  (if switch.available then "(buildfix disabled)" else "(buildfix unavailable)")
                  (without_entry a layout cfg "_buildfix_apply"
                    (without_entry a layout cfg "_buildfix" result))
                  w safe_names.2 h)
        ]
      ]

  sign_with_keeps :
      (effective : PolicySigningConfig) (result : IngestResult V) (loaded : Option Bytes) (w : W)
      → I w
      → I (sign_with a layout cfg effective result loaded w).1
  unfolding sign_with
  sign_with_keeps effective result none w h = h
  sign_with_keeps effective result (some key) w h =
      and_then_keeps I
        (
          context "sign policy snapshot" (
              sign_policy_snapshot a.digest a.encode a.policy_to_vec result.report.policy
                effective.algorithm key effective.key_id),
          w,
        )
        _ h
        (λ signature w1 h1.
          and_then_keeps I
            (context "serialize policy signature evidence" (a.signature_to_value signature), w1) _
            h1
            (λ value w2 h2.
              publish_keeps "_policy_signature" "policy.signature.json"
                "serialize cockpit report (policy signing)" "(policy signing)" value
                (context "serialize policy signature sidecar" (a.signature_to_string signature))
                result w2 h2))

  sign_stage_keeps :
      (effective : PolicySigningConfig) (result : IngestResult V) (w : W)
      → I w
      → I (sign_stage a layout cfg effective result w).1
  unfolding sign_stage
  sign_stage_keeps effective result w h =
      and_then_keeps I
        (context "load policy signing key" (load_policy_signing_key a.read a.var effective), w) _ h
        (λ loaded w1 h1. sign_with_keeps effective result loaded w1 h1)

  signing_stage_keeps :
      (switch : Switch) (effective : PolicySigningConfig) (result : IngestResult V) (w : W)
      → I w
      → I (signing_stage a layout cfg switch effective result w).1
  unfolding signing_stage
  signing_stage_keeps switch effective result w h = elim (Bool-cases effective.enabled) [
    | inr n ↦ rw n h
    | inl y ↦ elim (Bool-cases (switch.available && switch.enabled)) [
      | inl s ↦ rw (y, s) (sign_stage_keeps effective result w h)
      | inr s ↦
          rw (y, s)
            (withdraw_keeps "policy.signature.json"
              (if switch.available
                then "(policy signing disabled)"
                else "(policy signing unavailable)")
              (without_entry a layout cfg "_policy_signature" result) w safe_names.3 h)
    ]
  ]

  augment_keeps :
      (result : IngestResult V) (sections : List CommentSection) (w : W)
      → I w
      → I (augment a layout cfg result sections w).1
  unfolding augment
  augment_keeps result [] w h = h
  augment_keeps result (s ∷ sections) w h = comment_keeps _ w h

  hooks_stage_keeps :
      (switch : Switch) (result : IngestResult V) (w : W)
      → I w
      → I (hooks_stage a layout cfg switch result w).1
  unfolding hooks_stage
  hooks_stage_keeps switch result w h =
      elim (Bool-cases (switch.available && switch.enabled && not (no_items cfg.hooks))) [
        | inr n ↦ rw n h
        | inl y ↦ rw y (
            and_then_keeps I
              (context "serialize report for hooks" (a.report_to_string result.report), w) _ h
              (λ json w1 h1.
                and_then_keeps I
                  (within "run hooks" (
                    run_hooks a.process a.disk.as_bytes a.hook_output
                      (write_extra_file a.fs a.disk layout) cfg.hooks json w1))
                  _
                  (run_hooks_keeps a.fs a.disk layout I creates writes a.process a.disk.as_bytes
                    a.hook_output cfg.hooks json w1 h1)
                  (λ sections w2 h2.
                    and_then_keeps I (augment a layout cfg result sections w2) _
                      (augment_keeps result sections w2 h2) (λ _ w3 h3. h3))))
      ]

  -- Whatever holds before, and is kept by the creation of the output directory and by writing and
  -- removing files with safe names in it, holds after the application of fixes, the signature and the
  -- hooks, in whatever way they end.
  pub after_ingest_keeps :
      (buildfix signing hooks : Switch) (opts : IngestOptions) (effective_buildfix : BuildfixPolicy)
      (effective_signing : PolicySigningConfig) (result : IngestResult V) (w : W)
      → I w
      → I
          (after_ingest a layout cfg buildfix signing hooks opts effective_buildfix
            effective_signing result w).1
  unfolding after_ingest
  after_ingest_keeps buildfix signing hooks opts effective_buildfix effective_signing result w h =
      and_then_keeps I (buildfix_stage a layout cfg buildfix opts effective_buildfix result w) _
        (buildfix_stage_keeps buildfix opts effective_buildfix result w h)
        (λ r1 w1 h1.
          and_then_keeps I (signing_stage a layout cfg signing effective_signing r1 w1) _
            (signing_stage_keeps signing effective_signing r1 w1 h1)
            (λ r2 w2 h2.
              and_then_keeps I (hooks_stage a layout cfg hooks r2 w2) _
                (hooks_stage_keeps hooks r2 w2 h2) (λ _ w3 h3. h3)))
