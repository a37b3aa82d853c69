-- ===== src/ProcessManager/Exact.antt =====
-- src/process_manager.rs: the commands that catching up emits, and those of a failed stream.
use eventfold_es.Prelude.{◌≡◌, refl, sym, ap, ◌∙◌, true, none, some, List, [], ◌++◌, ok, err}
use eventfold_es.Runtime.{Runtime}
use eventfold_es.Command.{CommandEnvelope}
use eventfold_es.Event.{RecordedEvent}
use eventfold_es.Client.{Grpc, subscribe_all_from}
use eventfold_es.Cursor.{Item, consume, consume-append, events_of, failure_of}
use eventfold_es.GlobalLog.{
  IsGlobalLog, IsBehind, is_caught_up, failure_of-caught_up, complete-subscribe,
}
use eventfold_es.Projection.{stream_failed}
use eventfold_es.ProcessManager.{
  ProcessManager, ProcessManagerCheckpoint, ProcessManagerRunner, default_checkpoint,
  process_stream, catch_up,
}
use eventfold_es.ProcessManager.Stream.{
  History, pm_cursor, process_stream-history, ended, consume-emitted,
}

module _ (X : Runtime) (M : ProcessManager X) where
  -- A stream that breaks after some events: the run returns an error and no envelope, but the
  -- checkpoint has moved. A run over the rest then emits less than reading all the events would,
  -- by exactly the envelopes of the events before the break.
  pub failed_stream_drops :
      (c : ProcessManagerCheckpoint X M) (broken later : List (Item X)) (status : X.Status)
      → failure_of broken ≡ some status
      → failure_of later ≡ none
      → (lost out : List (CommandEnvelope X)) × (lost
          ≡ (consume (pm_cursor X M) (c, []) (events_of broken)).1)
        × ((process_stream X M c [] broken).0 ≡ err (stream_failed X status))
        × ((process_stream X M (process_stream X M c [] broken).1 [] later).0 ≡ ok out)
        × ((consume (pm_cursor X M) (c, []) (events_of broken ++ events_of later)).1 ≡ lost ++ out)
  failed_stream_drops c broken later status f g = (
    h.1,
    (consume (pm_cursor X M) (h.0, []) (events_of later)).1,
    refl,
    ap (λ x. x.0) first,
    ap (λ x. (process_stream X M x.1 [] later).0) first
        ∙ ap (λ x. x.0) (process_stream-history X M h.0 [] later)
        ∙ ap (λ e. (ended X M e (consume (pm_cursor X M) (h.0, []) (events_of later))).0) g,
    ap (λ x. x.1)
        (consume-append (pm_cursor X M) (c, []) (events_of broken) (events_of later)
          ∙ consume-emitted X M h.0 h.1 (events_of later)),
  )
    where
      h : History X M
      h = consume (pm_cursor X M) (c, []) (events_of broken)

      first : process_stream X M c [] broken ≡ (err (stream_failed X status), h.0)
      first =
          process_stream-history X M c [] broken
          ∙ ap (λ e. ended X M e (consume (pm_cursor X M) (c, []) (events_of broken))) f

  module _ (G : Grpc X) (L : IsGlobalLog X G) where
    -- A runner with all the envelopes that it has returned so far.
    abbrev pub IsAt : G.W → ProcessManagerRunner X M → List (CommandEnvelope X) → Type 0
    IsAt w runner out =
        IsBehind (pm_cursor X M) (default_checkpoint X M, []) (L.log w) (runner.checkpoint, out)

    -- A catch-up whose stream reports that it has caught up returns exactly the envelopes that are
    -- still missing: if a runner and what it returned before are those of a prefix of the log, then
    -- with the fresh ones they are what reading the whole log once from the start emits.
    pub catch_up-emits :
        (runner : ProcessManagerRunner X M) (out : List (CommandEnvelope X)) (w : G.W)
        (stream : List (Item X))
        → (G.subscribe_all runner.checkpoint.last_global_position w).0 ≡ ok stream
        → is_caught_up stream ≡ true
        → IsAt w runner out
        → (before : List (RecordedEvent X)) × (fresh : List (CommandEnvelope X)) × ((catch_up X M G
              runner w).0.0
            ≡ ok fresh)
          × (((catch_up X M G runner w).0.1.checkpoint, out ++ fresh)
              ≡ consume (pm_cursor X M) (default_checkpoint X M, []) (L.log w ++ before))
    unfolding catch_up subscribe_all_from
    catch_up-emits runner out w stream e done at_log =
        let (before, whole) =
          complete-subscribe (pm_cursor X M) (default_checkpoint X M, []) G L
            (runner.checkpoint, out) w stream e done at_log in
        let seen = consume (pm_cursor X M) (runner.checkpoint, []) (events_of stream) in
        let ran : process_stream X M runner.checkpoint [] stream ≡ (ok seen.1, seen.0) =
          process_stream-history X M runner.checkpoint [] stream
          ∙ ap (λ x. ended X M x seen) (failure_of-caught_up stream done) in
        (
          before,
          seen.1,
          rw (e, catch_up) (ap (λ x. x.0) ran),
          rw (e, catch_up)
              (ap (λ x. (x.1, out ++ seen.1)) ran
                ∙ sym (consume-emitted X M runner.checkpoint out (events_of stream))
                ∙ whole),
        )
