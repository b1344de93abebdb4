-- ===== src/Cli/Stages/Total.antt =====
-- When the stages after the use case in crates/cockpitctl-cli/src/main.rs succeed.
use Prim.Native.String.{◌++◌ as append}
use mathlib.Core.List.{mem-cons_self, mem-cons_of_mem}
use cockpitctl.Base.{
  Mem, List, [], ◌∷◌, ◌≡◌, refl, String, Bool, true, false, ◌&&◌, ◌||◌, not, is_some, arith,
  contains, if◌then◌else◌,
}
use cockpitctl.Types.Config.{BuildfixPolicy, PolicySigningConfig, CockpitConfig}
use cockpitctl.Types.Reports.{CockpitReport}
use cockpitctl.Types.Fixes.{BuildfixApplySummary}
use cockpitctl.Ingest.Ports.{IngestResult}
use cockpitctl.Ingest.Result.{Result, context}
use cockpitctl.Ingest.Examine.Total.{IsOk}
use cockpitctl.Ingest.Execute.Total.{context-IsOk}
use cockpitctl.Render.Sections.{no_items}
use cockpitctl.Render.Comment.{render_comment}
use cockpitctl.Io.Layout.{FsLayout}
use cockpitctl.Io.Actuator.{run_buildfix_actuator}
use cockpitctl.Io.Sink.{
  within, is_unsafe_name, write_extra_file, write_cockpit_report, write_cockpit_comment,
}
use cockpitctl.Io.Sink.Total.{
  Ends, IsWritable, and_then-Ends, pure-Ends, within-Ends, if-Ends, write_cockpit_report-Ends,
  write_cockpit_comment-Ends, write_extra_file-Ends,
}
use cockpitctl.Cli.Options.{IngestOptions, buildfix_apply_requested}
use cockpitctl.Cli.Apply.{apply_summary}
use cockpitctl.Cli.Stages.{
  Adapters, Switch, write_again, without_entry, with_entry, publish, withdraw, apply_stage,
  buildfix_stage, signing_stage, hooks_stage, after_ingest,
}

-- The files that are removed where a feature is switched off.
abbrev pub removed_names : List String
removed_names = "buildfix.apply.json" ∷ "policy.signature.json" ∷ []

apply_name : is_unsafe_name "buildfix.apply.json" ≡ false
unfolding is_unsafe_name contains
apply_name = refl

-- Files can be written and removed, and reports and summaries of fixes be printed.
abbrev pub IsPrinting :
    {V P W : Type 0} → Adapters V P W → FsLayout P → (Usable Ready : W → Type 0) → Type 0
IsPrinting {V} {P} {W} a layout Usable Ready =
    IsWritable a.fs a.disk layout Usable Ready
    × ((name : String) (w : W)
        → Mem name removed_names
        → Ready w
        → Ready (a.remove_file (a.fs.join layout.out_dir name) w))
    × ((r : CockpitReport V) → IsOk (a.report_to_string r))
    × ((s : BuildfixApplySummary) → IsOk (a.apply_to_value s))
    × ((s : BuildfixApplySummary) → IsOk (a.apply_to_string s))

off-Ends :
    {A W : Type 0} (Q : W → Type 0) (b c : Bool) (m n : Result A × W)
    → c ≡ false
    → Ends Q n
    → Ends Q (if b && c then m else n)
off-Ends Q true c m n h k = rw h k
off-Ends Q false c m n h k = k

module _ {V P W : Type 0} (a : Adapters V P W) (layout : FsLayout P) (cfg : CockpitConfig)
    (Usable Ready : W → Type 0) (printing : IsPrinting a layout Usable Ready) where
  abbrev Holds : {A : Type 0} → Result A × W → Type 0
  Holds m = Ends Ready m

  write_again-Holds :
      (serialize why : String) (result : IngestResult V) (w : W)
      → Ready w
      → Holds (write_again a layout cfg serialize why result w)
  unfolding write_again
  write_again-Holds serialize why result w r =
      let md = render_comment a.payloads result.report cfg in
      pure-Ends Ready (context serialize (a.report_to_string result.report)) w _
        (context-IsOk serialize (a.report_to_string result.report) (printing.2 result.report))
        (λ json.
          and_then-Ends Ready Ready
            (within (append "write cockpit report " why)
              (write_cockpit_report a.fs a.disk layout (append json "\n") w))
            _
            (within-Ends Ready _ (write_cockpit_report a.fs a.disk layout (append json "\n") w) (
              write_cockpit_report-Ends a.fs a.disk layout Usable Ready printing.0
                (append json "\n") w (printing.0.2 w r)))
            (λ _ w2 r2.
              and_then-Ends Ready Ready
                (within (append "write cockpit comment " why)
                  (write_cockpit_comment a.fs a.disk layout md w2))
                _
                (within-Ends Ready _ (write_cockpit_comment a.fs a.disk layout md w2) (
                  write_cockpit_comment-Ends a.fs a.disk layout Usable Ready printing.0 md w2
                    (printing.0.2 w2 r2)))
                (λ _ w3 r3. (_, w3, refl, r3))))

  withdraw-Holds :
      (file why : String) (result : IngestResult V) (w : W)
      → Mem file removed_names
      → Ready w
      → Holds (withdraw a layout cfg file why result w)
  unfolding withdraw
  withdraw-Holds file why result w m r =
      and_then-Ends Ready Ready (write_again a layout cfg "serialize cockpit report" why result w) _
        (write_again-Holds "serialize cockpit report" why result w r)
        (λ q w1 r1. (q, _, refl, printing.1 file w1 m r1))

  apply_stage-Holds :
      (effective : BuildfixPolicy) (result : IngestResult V) (w : W)
      → Ready w
      → Holds (apply_stage a layout cfg effective result w)
  unfolding apply_stage publish
  apply_stage-Holds effective result w r =
      let summary =
        apply_summary (run_buildfix_actuator a.process a.request_to_vec a.result_from_slice)
          effective result.buildfix in
      pure-Ends Ready (context "serialize buildfix apply summary" (a.apply_to_value summary)) w _
        (context-IsOk _ (a.apply_to_value summary) (printing.3 summary))
        (λ value.
          pure-Ends Ready (context "serialize buildfix sidecar" (a.apply_to_string summary)) w _
            (context-IsOk _ (a.apply_to_string summary) (printing.4 summary))
            (λ text.
              let content = a.disk.as_bytes (append text "\n") in
              and_then-Ends Ready Ready
                (within "write buildfix.apply.json"
                  (write_extra_file a.fs a.disk layout "buildfix.apply.json" content w))
                _
                (within-Ends Ready _
                  (write_extra_file a.fs a.disk layout "buildfix.apply.json" content w)
                  (write_extra_file-Ends a.fs a.disk layout Usable Ready printing.0
                    "buildfix.apply.json" content w apply_name
                    (mem-cons_of_mem _ (mem-cons_of_mem _ (mem-cons_of_mem _ mem-cons_self)))
                    (printing.0.2 w r)))
                (λ _ w3 r3.
                  write_again-Holds "serialize cockpit report (buildfix apply)" "(buildfix apply)"
                    (with_entry a layout cfg "_buildfix_apply" value result) w3 r3)))

  buildfix_stage-Holds :
      (switch : Switch) (opts : IngestOptions) (effective : BuildfixPolicy)
      (result : IngestResult V) (w : W)
      → Ready w
      → Holds (buildfix_stage a layout cfg switch opts effective result w)
  unfolding buildfix_stage
  buildfix_stage-Holds switch opts effective result w r =
      if-Ends Ready (not (is_some result.buildfix || buildfix_apply_requested opts effective)) _ _
        (result, w, refl, r)
        (if-Ends Ready (switch.available && switch.enabled) _ _
          (apply_stage-Holds effective result w r)
          (withdraw-Holds "buildfix.apply.json" _
            (without_entry a layout cfg "_buildfix_apply"
              (without_entry a layout cfg "_buildfix" result))
            w mem-cons_self r))

  signing_stage-Holds :
      (switch : Switch) (effective : PolicySigningConfig) (result : IngestResult V) (w : W)
      → switch.enabled ≡ false
      → Ready w
      → Holds (signing_stage a layout cfg switch effective result w)
  unfolding signing_stage
  signing_stage-Holds switch effective result w h r =
      if-Ends Ready (not effective.enabled) _ _ (result, w, refl, r)
        (off-Ends Ready switch.available switch.enabled _ _ h (
          withdraw-Holds "policy.signature.json" _
            (without_entry a layout cfg "_policy_signature" result) w
            (mem-cons_of_mem _ mem-cons_self) r))

  hooks_stage-Holds :
      (switch : Switch) (result : IngestResult V) (w : W)
      → switch.enabled ≡ false
      → Ready w
      → Holds (hooks_stage a layout cfg switch result w)
  unfolding hooks_stage
  hooks_stage-Holds switch result w h r =
      let off : not (switch.available && switch.enabled && not (no_items cfg.hooks)) ≡ true =
        ground (arith, h) in
      rw off (result, w, refl, r)

  -- With the signature and the hooks switched off.
  pub after_ingest-Ends :
      (buildfix signing hooks : Switch) (opts : IngestOptions) (effective_buildfix : BuildfixPolicy)
      (effective_signing : PolicySigningConfig) (result : IngestResult V) (w : W)
      → signing.enabled ≡ false
      → hooks.enabled ≡ false
      → Ready w
      → Ends Ready (
          after_ingest a layout cfg buildfix signing hooks opts effective_buildfix effective_signing
            result w)
  unfolding after_ingest
  after_ingest-Ends buildfix signing hooks opts effective_buildfix effective_signing result w s h
        r =
      and_then-Ends Ready Ready
        (buildfix_stage a layout cfg buildfix opts effective_buildfix result w) _
        (buildfix_stage-Holds buildfix opts effective_buildfix result w r)
        (λ q1 w1 r1.
          and_then-Ends Ready Ready (signing_stage a layout cfg signing effective_signing q1 w1) _
            (signing_stage-Holds signing effective_signing q1 w1 s r1)
            (λ q2 w2 r2.
              and_then-Ends Ready Ready (hooks_stage a layout cfg hooks q2 w2) _
                (hooks_stage-Holds hooks q2 w2 h r2) (λ q3 w3 r3. (_, w3, refl, r3))))
