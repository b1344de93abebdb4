-- ===== src/Cli/Stages.antt =====
-- What `cmd_ingest` of crates/cockpitctl-cli/src/main.rs does after the use case: the automatic
-- application of fixes, the signature of the policy, and the hooks.
pub mod Kept
pub mod Total
pub mod Exit
use Prim.Native.String.{◌++◌ as append}
use cockpitctl.Base.{
  ℕ, String, Bool, true, false, ◌&&◌, ◌||◌, not, is_some, Option, none, some, List, [], ◌∷◌, map,
  if◌then◌else◌,
}
use cockpitctl.Types.Config.{
  BuildfixActuatorConfig, BuildfixPolicy, PolicySigningConfig, CockpitConfig,
}
use cockpitctl.Types.Fixes.{BuildfixApplyRequest, BuildfixActuatorResult, BuildfixApplySummary}
use cockpitctl.Types.Hints.{PolicySignatureEvidence}
use cockpitctl.Types.Reports.{PolicySnapshot, CockpitReport}
use cockpitctl.Ingest.Ports.{Bytes, IngestResult}
use cockpitctl.Ingest.Result.{Result, ok, err, context}
use cockpitctl.Render.Sections.{no_items}
use cockpitctl.Render.Append.{append_comment_sections}
use cockpitctl.Render.Comment.{Payloads, render_comment}
use cockpitctl.Io.Actuator.{run_buildfix_actuator}
use cockpitctl.Signing.{load_policy_signing_key, sign_policy_snapshot}
use cockpitctl.Io.Layout.{Files, FsLayout}
use cockpitctl.Io.Sink.{
  Disk, and_then, within, write_extra_file, write_cockpit_report, write_cockpit_comment,
}
use cockpitctl.Io.Hooks.{Process, CommentSection, PostProcessOutput, run_hooks}
use cockpitctl.Cli.Options.{IngestOptions, buildfix_apply_requested}
use cockpitctl.Cli.Apply.{apply_summary}

-- What the stages use: files, processes, the environment, `serde_json`, `sha2` and `hex`, and the
-- payloads of a report. `insert` and `remove` change a value that is an object, and no other;
-- what `remove_file` returns is ignored.
pub record Adapters (V P W : Type 0) : Type 0 where
  pub fs : Files P
  pub disk : Disk P W
  pub remove_file : P → W → W
  pub process : Process
  pub hook_output : Bytes → Result PostProcessOutput
  pub payloads : Payloads V
  pub request_to_vec : BuildfixApplyRequest → Result Bytes
  pub result_from_slice : Bytes → Result BuildfixActuatorResult
  pub read : String → Result Bytes
  pub var : String → Result Bytes
  pub digest : Bytes → Bytes
  pub encode : Bytes → String
  pub policy_to_vec : PolicySnapshot → Result Bytes
  pub report_to_string : CockpitReport V → Result String
  pub apply_to_value : BuildfixApplySummary → Result V
  pub apply_to_string : BuildfixApplySummary → Result String
  pub signature_to_value : PolicySignatureEvidence → Result V
  pub signature_to_string : PolicySignatureEvidence → Result String
  pub empty_object : V
  pub insert : String → V → V → V
  pub remove : String → V → V

-- Whether the build has a feature, and whether the run does.
pub record Switch : Type 0 where
  pub available : Bool
  pub enabled : Bool

abbrev no_key : String
no_key =
    "policy signing enabled but no key configured; set [policy_signing].key_path, [policy_signing].key_env, --policy-sign-key-path, or --policy-sign-key-env"

module _ {V P W : Type 0} (a : Adapters V P W) (layout : FsLayout P) (cfg : CockpitConfig) where
  -- Renders the comment again, and writes the report and the comment.
  unfoldable pub write_again : String → String → IngestResult V → W → Result (IngestResult V) × W
  unfolding write_cockpit_report write_cockpit_comment render_comment
  write_again serialize why result w =
      let comment_md = render_comment a.payloads result.report cfg in
      and_then (context serialize (a.report_to_string result.report), w)
        (λ json w1.
          and_then
            (within (append "write cockpit report " why)
              (write_cockpit_report a.fs a.disk layout (append json "\n") w1))
            (λ _ w2.
              and_then
                (within (append "write cockpit comment " why)
                  (write_cockpit_comment a.fs a.disk layout comment_md w2))
                (λ _ w3. (ok (record result { comment_md = comment_md }), w3))))

  unfoldable pub with_entry : String → V → IngestResult V → IngestResult V
  with_entry key value result = record result {
    report = record result.report {
      payload =
          some (
            a.insert key value (elim result.report.payload [ none ↦ a.empty_object | some v ↦ v ]));
    };
  }

  unfoldable pub without_entry : String → IngestResult V → IngestResult V
  without_entry key result = record result {
    report = record result.report {
      payload = elim result.report.payload [ none ↦ none | some v ↦ some (a.remove key v) ];
    };
  }

  -- Writes the sidecar and, with the entry in the report, the report and the comment.
  unfoldable pub publish :
      String
      → String
      → String
      → String
      → V
      → Result String
      → IngestResult V
      → W
      → Result (IngestResult V) × W
  unfolding with_entry write_again write_extra_file
  publish key file serialize why value sidecar result w =
      and_then (sidecar, w)
        (λ text w1.
          and_then
            (within (append "write " file)
              (write_extra_file a.fs a.disk layout file (a.disk.as_bytes (append text "\n")) w1))
            (λ _ w2. write_again serialize why (with_entry key value result) w2))

  -- Writes the report and the comment, and removes the sidecar.
  unfoldable pub withdraw : String → String → IngestResult V → W → Result (IngestResult V) × W
  unfolding write_again
  withdraw file why result w =
      and_then (write_again "serialize cockpit report" why result w)
        (λ r w1. (ok r, a.remove_file (a.fs.join layout.out_dir file) w1))

  unfoldable pub apply_stage : BuildfixPolicy → IngestResult V → W → Result (IngestResult V) × W
  unfolding apply_summary publish run_buildfix_actuator
  apply_stage effective result w =
      let summary =
        apply_summary (run_buildfix_actuator a.process a.request_to_vec a.result_from_slice)
          effective result.buildfix in
      and_then (context "serialize buildfix apply summary" (a.apply_to_value summary), w)
        (λ value w1.
          publish "_buildfix_apply" "buildfix.apply.json"
            "serialize cockpit report (buildfix apply)" "(buildfix apply)" value
            (context "serialize buildfix sidecar" (a.apply_to_string summary)) result w1)

  unfoldable pub buildfix_stage :
      Switch → IngestOptions → BuildfixPolicy → IngestResult V → W → Result (IngestResult V) × W
  unfolding apply_stage withdraw without_entry buildfix_apply_requested
  buildfix_stage switch opts effective result w =
      if not (is_some result.buildfix || buildfix_apply_requested opts effective)
      then (ok result, w)
      else if switch.available && switch.enabled
      then apply_stage effective result w
      else withdraw "buildfix.apply.json"
          (if switch.available then "(buildfix disabled)" else "(buildfix unavailable)")
          (without_entry "_buildfix_apply" (without_entry "_buildfix" result)) w

  -- Signs with the key that was loaded, if there is one.
  unfoldable pub sign_with :
      PolicySigningConfig → IngestResult V → Option Bytes → W → Result (IngestResult V) × W
  unfolding sign_policy_snapshot publish
  sign_with effective result none w = (err (no_key ∷ []), w)
  sign_with effective result (some key) w =
      and_then
        (
          context "sign policy snapshot" (
              sign_policy_snapshot a.digest a.encode a.policy_to_vec result.report.policy
                effective.algorithm key effective.key_id),
          w,
        )
        (λ signature w1.
          and_then
            (context "serialize policy signature evidence" (a.signature_to_value signature), w1)
            (λ value w2.
              publish "_policy_signature" "policy.signature.json"
                "serialize cockpit report (policy signing)" "(policy signing)" value
                (context "serialize policy signature sidecar" (a.signature_to_string signature))
                result w2))

  unfoldable pub sign_stage : PolicySigningConfig → IngestResult V → W → Result (IngestResult V) × W
  unfolding load_policy_signing_key sign_with
  sign_stage effective result w =
      and_then
        (context "load policy signing key" (load_policy_signing_key a.read a.var effective), w)
        (λ loaded w1. sign_with effective result loaded w1)

  unfoldable pub signing_stage :
      Switch → PolicySigningConfig → IngestResult V → W → Result (IngestResult V) × W
  unfolding sign_stage withdraw without_entry
  signing_stage switch effective result w =
      if not effective.enabled
      then (ok result, w)
      else if switch.available && switch.enabled
      then sign_stage effective result w
      else withdraw "policy.signature.json"
          (if switch.available then "(policy signing disabled)" else "(policy signing unavailable)")
          (without_entry "_policy_signature" result) w

  -- The comment with the hooks' sections, if there are any.
  unfoldable pub augment : IngestResult V → List CommentSection → W → Result (Unit {0}) × W
  unfolding append_comment_sections write_cockpit_comment
  augment result [] w = (ok tt, w)
  augment result (s ∷ sections) w = within "write augmented cockpit comment" (
      write_cockpit_comment a.fs a.disk layout
        (append_comment_sections result.comment_md
          (map (λ (t : CommentSection). (t.name, t.content)) (s ∷ sections)))
        w)

  unfoldable pub hooks_stage : Switch → IngestResult V → W → Result (IngestResult V) × W
  unfolding run_hooks augment write_extra_file
  hooks_stage switch result w =
      if not (switch.available && switch.enabled && not (no_items cfg.hooks))
      then (ok result, w)
      else and_then (context "serialize report for hooks" (a.report_to_string result.report), w)
          (λ json w1.
            and_then
              (within "run hooks" (
                run_hooks a.process a.disk.as_bytes a.hook_output
                  (write_extra_file a.fs a.disk layout) cfg.hooks json w1))
              (λ sections w2. and_then (augment result sections w2) (λ _ w3. (ok result, w3))))

  -- The stages in their order; the switches are those of buildfix, signing and hooks.
  unfoldable pub after_ingest :
      (buildfix signing hooks : Switch)
      → IngestOptions
      → BuildfixPolicy
      → PolicySigningConfig
      → IngestResult V
      → W
      → Result ℕ × W
  unfolding buildfix_stage signing_stage hooks_stage
  after_ingest buildfix signing hooks opts effective_buildfix effective_signing result w =
      and_then (buildfix_stage buildfix opts effective_buildfix result w) (λ r1 w1.
        and_then (signing_stage signing effective_signing r1 w1)
          (λ r2 w2. and_then (hooks_stage hooks r2 w2) (λ r3 w3. (ok r3.exit_code, w3))))
