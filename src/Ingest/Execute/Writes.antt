-- ===== src/Ingest/Execute/Writes.antt =====
-- What a run of crates/cockpitctl-ingest/src/lib.rs writes, and when.
use cockpitctl.Base.{inl, inr, ◌⊎◌, List, ◌≡◌, refl, ap, subst, String, [], ◌∷◌, concat, Option}
use cockpitctl.Types.Config.{CockpitConfig}
use cockpitctl.Types.Reports.{CockpitReport}
use cockpitctl.Ingest.Result.{
  Result, ok, err, ◌>>=◌, context, Always, Always-bind, Always->>=, Always-eq, Always-self,
  Always-context,
}
use cockpitctl.Ingest.Ports.{Ports, Codec, OutputSink, IngestRequest, IngestResult}
use cockpitctl.Ingest.Execute.{
  expected_sensors, Prepared, prepare, write_comment, write, execute, conclude, evaluate,
  exit_code_of, with_buildfix, buildfix_summary_of, report_of, highlights_of,
}
use cockpitctl.Ingest.Execute.Steps.{ids, evaluate-Always, gathered-ids}
use mathlib.Core.Option.{get_or}
use cockpitctl.Types.Defaults.{default_config}
use cockpitctl.Types.Fixes.{BuildfixSummary}

-- The report was written, and then the comment.
abbrev pub HasWritten : {W : Type 0} → OutputSink W → String → String → W → W → Type 0
HasWritten {W} sink report comment w w' =
    (w₁ : W) × (sink.write_cockpit_report report w ≡ (ok tt, w₁))
    × (sink.write_cockpit_comment comment w₁ ≡ (ok tt, w'))

module _ {V W : Type 0} (sink : OutputSink W) where
  abbrev finish : Prepared V → Result (Unit {0}) × W → Result (IngestResult V) × W
  finish p (x, w) = (x >>= (λ _. ok p.outcome), w)

  finish-ok :
      (p : Prepared V) (x : Result (Unit {0}) × W) {r : IngestResult V} {w' : W}
      → finish p x ≡ (ok r, w')
      → (p.outcome ≡ r) × (x ≡ (ok tt, w'))
  finish-ok p (ok u, w₂) h = (cc, ap (λ z. (ok tt, z.1)) h)
  finish-ok p (err m, w₂) h = cc

  write_comment-ok :
      (p : Prepared V) (w : W) (x : Result (Unit {0}) × W) {r : IngestResult V} {w' : W}
      → sink.write_cockpit_report p.report_json w ≡ x
      → write_comment sink p x ≡ (ok r, w')
      → (p.outcome ≡ r) × HasWritten sink p.report_json p.outcome.comment_md w w'
  unfolding write_comment
  write_comment-ok p w (ok u, w₁) e h =
      let done = finish-ok p (sink.write_cockpit_comment p.outcome.comment_md w₁) h in
      (done.0, (w₁, e, done.1))
  write_comment-ok p w (err m, w₁) e h = cc

  write-ok :
      (m : Result (Prepared V)) (w : W) {r : IngestResult V} {w' : W}
      → write sink m w ≡ (ok r, w')
      → (p : Prepared V) × (m ≡ ok p)
        × (p.outcome ≡ r)
        × HasWritten sink p.report_json p.outcome.comment_md w w'
  unfolding write
  write-ok (ok p) w h =
      let done = write_comment-ok p w (sink.write_cockpit_report p.report_json w) refl h in
      (p, refl, done.0, done.1)
  write-ok (err e) w h = cc

-- The write of the report failed, or the write of the comment after it.
abbrev pub HasStopped : {W : Type 0} → OutputSink W → String → String → W → W → List String → Type 0
HasStopped {W} sink report comment w w' e =
    (sink.write_cockpit_report report w ≡ (err e, w'))
    ⊎ ((w₁ : W) × (sink.write_cockpit_report report w ≡ (ok tt, w₁))
        × (sink.write_cockpit_comment comment w₁ ≡ (err e, w')))

module _ {V W : Type 0} (sink : OutputSink W) where
  finish-err :
      (p : Prepared V) (x : Result (Unit {0}) × W) {e : List String} {w' : W}
      → finish sink p x ≡ (err e, w')
      → x ≡ (err e, w')
  finish-err p (ok u, w₂) h = cc
  finish-err p (err m, w₂) h = cc

  write_comment-err :
      (p : Prepared V) (w : W) (x : Result (Unit {0}) × W) {e : List String} {w' : W}
      → sink.write_cockpit_report p.report_json w ≡ x
      → write_comment sink p x ≡ (err e, w')
      → HasStopped sink p.report_json p.outcome.comment_md w w' e
  unfolding write_comment
  write_comment-err p w (ok u, w₁) q h =
      inr (w₁, q, finish-err p (sink.write_cockpit_comment p.outcome.comment_md w₁) h)
  write_comment-err p w (err m, w₁) q h = inl (cc)

  write-err :
      (m : Result (Prepared V)) (w : W) {e : List String} {w' : W}
      → write sink m w ≡ (err e, w')
      → ((m ≡ err e) × (w' ≡ w))
        ⊎ ((p : Prepared V) × (m ≡ ok p)
            × HasStopped sink p.report_json p.outcome.comment_md w w' e)
  unfolding write
  write-err (ok p) w h =
      inr (p, refl, write_comment-err p w (sink.write_cockpit_report p.report_json w) refl h)
  write-err (err m) w h = inl (cc, cc)

module _ {V : Type 0} (ports : Ports V) (codec : Codec V) (req : IngestRequest) where
  -- The prepared text is that of the report, and the comment is its rendering.
  abbrev IsPrinted : Prepared V → Type 0
  IsPrinted p =
      (json : String) × (codec.to_string_pretty p.outcome.report ≡ ok json)
      × (p.report_json ≡ concat (json ∷ "\n" ∷ []))

  conclude-IsPrinted :
      (cfg : CockpitConfig) (report : CockpitReport V) (buildfix : Option BuildfixSummary)
      → Always IsPrinted (conclude ports codec req cfg report buildfix)
  unfolding conclude
  conclude-IsPrinted cfg report buildfix =
      let outcome : IngestResult V = record {
        report = report;
        comment_md = ports.render report cfg;
        exit_code = exit_code_of report.verdict.status;
        buildfix = buildfix;
      } in
      let HasJson : String → Type 0 = λ json. codec.to_string_pretty report ≡ ok json in
      Always-bind HasJson IsPrinted
        (context "serialize cockpit report" (codec.to_string_pretty report))
        (λ json. ok (record { outcome = outcome; report_json = concat (json ∷ "\n" ∷ []) }))
        (Always-context HasJson "serialize cockpit report" (codec.to_string_pretty report)
          (Always-self (codec.to_string_pretty report)))
        (λ json h. (json, h, refl))

  prepare-IsPrinted : Always IsPrinted (prepare ports codec req)
  unfolding prepare
  prepare-IsPrinted =
      Always->>= IsPrinted (context "discover sensors" ports.discovered_sensors)
        (λ d.
          context "load cockpit.toml" ports.load_config
          >>= (λ c. evaluate ports codec req d (get_or c default_config)))
        (λ d.
          Always->>= IsPrinted (context "load cockpit.toml" ports.load_config)
            (λ c. evaluate ports codec req d (get_or c default_config))
            (λ c.
              evaluate-Always ports codec req
                (λ g. ids g.sensor_summaries ≡ expected_sensors (get_or c default_config) d.sensors)
                IsPrinted d (get_or c default_config)
                (gathered-ids ports codec req d (get_or c default_config))
                (λ g fixes e.
                  conclude-IsPrinted (get_or c default_config)
                    (with_buildfix codec (buildfix_summary_of fixes) (
                      report_of ports codec req (get_or c default_config) g
                        (highlights_of ports codec req (get_or c default_config) g)))
                    (buildfix_summary_of fixes))))

  -- A run that succeeds has written the text of the report that it returns, ended by a newline, and
  -- then the comment that it returns, and both writes succeeded.
  pub execute-writes :
      {W : Type 0} (sink : OutputSink W) (w : W) (r : IngestResult V) (w' : W)
      → execute ports codec sink req w ≡ (ok r, w')
      → (json : String) × (codec.to_string_pretty r.report ≡ ok json)
        × HasWritten sink (concat (json ∷ "\n" ∷ [])) r.comment_md w w'
  unfolding execute
  execute-writes sink w r w' h =
      let (p, prepared, same, written) = write-ok sink (prepare ports codec req) w h in
      let (json, pretty, text) =
        Always-eq IsPrinted (prepare ports codec req) prepare-IsPrinted prepared in
      (
        json,
        subst (λ (x : IngestResult V). codec.to_string_pretty x.report ≡ ok json) same pretty,
        subst
            (λ (x : IngestResult V). HasWritten sink (concat (json ∷ "\n" ∷ [])) x.comment_md w w')
            same (subst (λ t. HasWritten sink t p.outcome.comment_md w w') text written),
      )

  -- A run that ends in an error has either failed before the first write and left the sink as it was,
  -- or failed in writing the report, or failed in writing the comment after the report was written.
  pub execute-error :
      {W : Type 0} (sink : OutputSink W) (w : W) (e : List String) (w' : W)
      → execute ports codec sink req w ≡ (err e, w')
      → ((prepare ports codec req ≡ err e) × (w' ≡ w))
        ⊎ ((p : Prepared V) × (prepare ports codec req ≡ ok p)
            × HasStopped sink p.report_json p.outcome.comment_md w w' e)
  unfolding execute
  execute-error sink w e w' h = write-err sink (prepare ports codec req) w h
