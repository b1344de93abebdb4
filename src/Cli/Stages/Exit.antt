-- ===== src/Cli/Stages/Exit.antt =====
-- The exit code after the stages of `cmd_ingest` in crates/cockpitctl-cli/src/main.rs.
use cockpitctl.Base.{
  ◌≡◌, refl, ap, ◌∙◌, ℕ, String, ◌&&◌, ◌||◌, not, inl, inr, Bool-cases, Option, none, some, is_some,
  List, if◌then◌else◌,
}
use cockpitctl.Types.Config.{BuildfixPolicy, PolicySigningConfig, CockpitConfig}
use cockpitctl.Ingest.Ports.{Bytes, IngestResult}
use cockpitctl.Ingest.Result.{Result, ok, err, context, Always, Always-eq}
use cockpitctl.Render.Sections.{no_items}
use cockpitctl.Io.Layout.{FsLayout}
use cockpitctl.Render.Comment.{render_comment}
use cockpitctl.Signing.{load_policy_signing_key, sign_policy_snapshot}
use cockpitctl.Io.Hooks.{run_hooks}
use cockpitctl.Io.Sink.{
  and_then, within, write_extra_file, write_cockpit_report, write_cockpit_comment,
}
use cockpitctl.Cli.Options.{IngestOptions, buildfix_apply_requested}
use cockpitctl.Cli.Stages.{
  Adapters, Switch, write_again, with_entry, without_entry, publish, withdraw, apply_stage,
  buildfix_stage, sign_with, sign_stage, signing_stage, augment, hooks_stage, after_ingest,
}

-- What holds of the value, if there is one.
unfoldable OnOk : {A W : Type 0} → (A → Type 0) → Result A × W → Type 0
OnOk P m = Always P m.0

OnOk-ok : {A W : Type 0} (P : A → Type 0) (a : A) (w : W) → P a → OnOk P (ok a, w)
unfolding OnOk
OnOk-ok P a w h = h

OnOk-err : {A W : Type 0} (P : A → Type 0) (e : List String) (w : W) → OnOk P (err e, w)
unfolding OnOk
OnOk-err P e w = tt

OnOk-and_then :
    {A B W : Type 0} (P : A → Type 0) (Q : B → Type 0) (m : Result A × W)
    (next : A → W → Result B × W)
    → OnOk P m
    → ((a : A) (w : W) → P a → OnOk Q (next a w))
    → OnOk Q (and_then m next)
unfolding OnOk
OnOk-and_then P Q (ok a, w) next h k = k a w h
OnOk-and_then P Q (err e, w) next h k = tt

-- The last write decides.
OnOk-last :
    {A B W : Type 0} (Q : B → Type 0) (m : Result A × W) (next : A → W → Result B × W)
    → ((a : A) (w : W) → OnOk Q (next a w))
    → OnOk Q (and_then m next)
unfolding OnOk
OnOk-last Q (ok a, w) next k = k a w
OnOk-last Q (err e, w) next k = tt

module _ {V P W : Type 0} (a : Adapters V P W) (layout : FsLayout P) (cfg : CockpitConfig) where
  abbrev Keeps : IngestResult V → IngestResult V → Type 0
  Keeps result r = (r.exit_code ≡ result.exit_code) × (r.report.verdict ≡ result.report.verdict)

  commented-Keeps :
      (result : IngestResult V) (md : String) (w : W)
      → OnOk (Keeps result) (ok (record result { comment_md = md }), w)
  commented-Keeps result md w =
      OnOk-ok (Keeps result) (record result { comment_md = md }) w (refl, refl)

  same-Keeps : (result : IngestResult V) (w : W) → OnOk (Keeps result) (ok result, w)
  same-Keeps result w = OnOk-ok (Keeps result) result w (refl, refl)

  write_again-Keeps :
      (serialize why : String) (result : IngestResult V) (w : W)
      → OnOk (Keeps result) (write_again a layout cfg serialize why result w)
  unfolding write_again
  write_again-Keeps serialize why result w =
      OnOk-last (Keeps result) (context serialize (a.report_to_string result.report), w) _
        (λ json w1.
          OnOk-last (Keeps result) (within _ (write_cockpit_report a.fs a.disk layout _ w1)) _
            (λ _ w2.
              OnOk-last (Keeps result) (within _ (write_cockpit_comment a.fs a.disk layout _ w2)) _
                (λ _ w3. commented-Keeps result (render_comment a.payloads result.report cfg) w3)))

  publish-Keeps :
      (key file serialize why : String) (value : V) (sidecar : Result String)
      (result : IngestResult V) (w : W)
      → OnOk (Keeps result) (publish a layout cfg key file serialize why value sidecar result w)
  unfolding publish with_entry
  publish-Keeps key file serialize why value sidecar result w =
      OnOk-last (Keeps result) (sidecar, w) _
        (λ text w1.
          OnOk-last (Keeps result) (within _ (write_extra_file a.fs a.disk layout file _ w1)) _
            (λ _ w2. write_again-Keeps serialize why (with_entry a layout cfg key value result) w2))

  withdraw-Keeps :
      (file why : String) (result : IngestResult V) (w : W)
      → OnOk (Keeps result) (withdraw a layout cfg file why result w)
  unfolding withdraw
  withdraw-Keeps file why result w =
      OnOk-and_then (Keeps result) (Keeps result)
        (write_again a layout cfg "serialize cockpit report" why result w) _
        (write_again-Keeps "serialize cockpit report" why result w)
        (λ r w1 k. OnOk-ok (Keeps result) r _ k)

  apply_stage-Keeps :
      (effective : BuildfixPolicy) (result : IngestResult V) (w : W)
      → OnOk (Keeps result) (apply_stage a layout cfg effective result w)
  unfolding apply_stage
  apply_stage-Keeps effective result w =
      OnOk-last (Keeps result) (context "serialize buildfix apply summary" (a.apply_to_value _), w)
        _
        (λ value w1.
          publish-Keeps "_buildfix_apply" "buildfix.apply.json"
            "serialize cockpit report (buildfix apply)" "(buildfix apply)" value
            (context "serialize buildfix sidecar" (a.apply_to_string _)) result w1)

  buildfix_stage-Keeps :
      (switch : Switch) (opts : IngestOptions) (effective : BuildfixPolicy)
      (result : IngestResult V) (w : W)
      → OnOk (Keeps result) (buildfix_stage a layout cfg switch opts effective result w)
  unfolding buildfix_stage without_entry
  buildfix_stage-Keeps switch opts effective result w =
      elim (Bool-cases (is_some result.buildfix || buildfix_apply_requested opts effective)) [
        | inr n ↦ rw n (same-Keeps result w)
        | inl y ↦ elim (Bool-cases (switch.available && switch.enabled)) [
          | inl s ↦ rw (y, s) (apply_stage-Keeps effective result w)
          | inr s ↦
              rw (y, s)
                (withdraw-Keeps "buildfix.apply.json"
                  (if switch.available then "(buildfix disabled)" else "(buildfix unavailable)")
                  (without_entry a layout cfg "_buildfix_apply"
                    (without_entry a layout cfg "_buildfix" result))
                  w)
        ]
      ]

  sign_with-Keeps :
      (effective : PolicySigningConfig) (result : IngestResult V) (loaded : Option Bytes) (w : W)
      → OnOk (Keeps result) (sign_with a layout cfg effective result loaded w)
  unfolding sign_with
  sign_with-Keeps effective result none w = OnOk-err (Keeps result) _ w
  sign_with-Keeps effective result (some key) w =
      OnOk-last (Keeps result)
        (
          context "sign policy snapshot" (
              sign_policy_snapshot a.digest a.encode a.policy_to_vec result.report.policy
                effective.algorithm key effective.key_id),
          w,
        )
        _
        (λ signature w1.
          OnOk-last (Keeps result)
            (context "serialize policy signature evidence" (a.signature_to_value signature), w1) _
            (λ value w2.
              publish-Keeps "_policy_signature" "policy.signature.json"
                "serialize cockpit report (policy signing)" "(policy signing)" value
                (context "serialize policy signature sidecar" (a.signature_to_string signature))
                result w2))

  signing_stage-Keeps :
      (switch : Switch) (effective : PolicySigningConfig) (result : IngestResult V) (w : W)
      → OnOk (Keeps result) (signing_stage a layout cfg switch effective result w)
  unfolding signing_stage sign_stage without_entry
  signing_stage-Keeps switch effective result w = elim (Bool-cases effective.enabled) [
    | inr n ↦ rw n (same-Keeps result w)
    | inl y ↦ elim (Bool-cases (switch.available && switch.enabled)) [
      | inl s ↦
          rw (y, s)
            (OnOk-last (Keeps result)
              (
                context "load policy signing key" (load_policy_signing_key a.read a.var effective),
                w,
              )
              _ (λ loaded w1. sign_with-Keeps effective result loaded w1))
      | inr s ↦
          rw (y, s)
            (withdraw-Keeps "policy.signature.json"
              (if switch.available
                then "(policy signing disabled)"
                else "(policy signing unavailable)")
              (without_entry a layout cfg "_policy_signature" result) w)
    ]
  ]

  hooks_stage-Keeps :
      (switch : Switch) (result : IngestResult V) (w : W)
      → OnOk (Keeps result) (hooks_stage a layout cfg switch result w)
  unfolding hooks_stage
  hooks_stage-Keeps switch result w =
      elim (Bool-cases (switch.available && switch.enabled && not (no_items cfg.hooks))) [
        | inr n ↦ rw n (same-Keeps result w)
        | inl y ↦ rw y (
            OnOk-last (Keeps result)
              (context "serialize report for hooks" (a.report_to_string result.report), w) _
              (λ json w1.
                OnOk-last (Keeps result)
                  (within "run hooks" (
                    run_hooks a.process a.disk.as_bytes a.hook_output
                      (write_extra_file a.fs a.disk layout) cfg.hooks json w1))
                  _
                  (λ sections w2.
                    OnOk-last (Keeps result) (augment a layout cfg result sections w2)
                      (λ _ w3. (ok result, w3)) (λ _ w3. same-Keeps result w3))))
      ]

  after_ingest-OnOk :
      (buildfix signing hooks : Switch) (opts : IngestOptions) (effective_buildfix : BuildfixPolicy)
      (effective_signing : PolicySigningConfig) (result : IngestResult V) (w : W)
      → OnOk
          (λ code. code ≡ result.exit_code)
          (after_ingest a layout cfg buildfix signing hooks opts effective_buildfix
            effective_signing result w)
  unfolding after_ingest
  after_ingest-OnOk buildfix signing hooks opts effective_buildfix effective_signing result w =
      OnOk-and_then (Keeps result) (λ code. code ≡ result.exit_code)
        (buildfix_stage a layout cfg buildfix opts effective_buildfix result w) _
        (buildfix_stage-Keeps buildfix opts effective_buildfix result w)
        (λ r1 w1 k1.
          OnOk-and_then (Keeps r1) (λ code. code ≡ result.exit_code)
            (signing_stage a layout cfg signing effective_signing r1 w1) _
            (signing_stage-Keeps signing effective_signing r1 w1)
            (λ r2 w2 k2.
              OnOk-and_then (Keeps r2) (λ code. code ≡ result.exit_code)
                (hooks_stage a layout cfg hooks r2 w2) _ (hooks_stage-Keeps hooks r2 w2)
                (λ r3 w3 k3.
                  OnOk-ok (λ code. code ≡ result.exit_code) r3.exit_code w3 (k3.0 ∙ k2.0 ∙ k1.0))))

  -- Where the stages succeed, the exit code is the one of the use case: neither the application of
  -- fixes nor the signature nor a hook changes it.
  pub after_ingest-exit_code :
      (buildfix signing hooks : Switch) (opts : IngestOptions) (effective_buildfix : BuildfixPolicy)
      (effective_signing : PolicySigningConfig) (result : IngestResult V) (w : W) {code : ℕ}
      {w' : W}
      → after_ingest a layout cfg buildfix signing hooks opts effective_buildfix effective_signing
          result w
        ≡ (ok code, w')
      → code ≡ result.exit_code
  unfolding OnOk
  after_ingest-exit_code buildfix signing hooks opts effective_buildfix effective_signing result w
        e =
      Always-eq (λ code. code ≡ result.exit_code)
        (after_ingest a layout cfg buildfix signing hooks opts effective_buildfix effective_signing
          result w).0
        (after_ingest-OnOk buildfix signing hooks opts effective_buildfix effective_signing result
          w)
        (ap (λ m. m.0) e)
