-- ===== src/Ingest/Execute/Kept.antt =====
-- What the writes of crates/cockpitctl-ingest/src/lib.rs keep.
use cockpitctl.Base.{String}
use cockpitctl.Ingest.Ports.{Ports, Codec, OutputSink, IngestRequest}
use cockpitctl.Ingest.Result.{Result, ok, err}
use cockpitctl.Ingest.Execute.{Prepared, prepare, write_comment, write, execute}

-- What each write of the sink keeps is kept by a run, in whatever way it ends.
module _ {V W : Type 0} (sink : OutputSink W) (I : W → Type 0)
    (report : (json : String) (w : W) → I w → I (sink.write_cockpit_report json w).1)
    (comment : (md : String) (w : W) → I w → I (sink.write_cockpit_comment md w).1) where
  write_comment_keeps :
      (p : Prepared V) (r : Result (Unit {0}) × W) → I r.1 → I (write_comment sink p r).1
  unfolding write_comment
  write_comment_keeps p (err e, w) h = h
  write_comment_keeps p (ok _, w) h = comment p.outcome.comment_md w h

  write_keeps : (p : Result (Prepared V)) (w : W) → I w → I (write sink p w).1
  unfolding write
  write_keeps (err e) w h = h
  write_keeps (ok p) w h =
      write_comment_keeps p (sink.write_cockpit_report p.report_json w) (report p.report_json w h)

  pub execute_keeps :
      (ports : Ports V) (codec : Codec V) (req : IngestRequest) (w : W)
      → I w
      → I (execute ports codec sink req w).1
  unfolding execute
  execute_keeps ports codec req w h = write_keeps (prepare ports codec req) w h
