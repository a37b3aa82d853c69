-- ===== src/Projection/Exact.antt =====
-- src/projection.rs: catching up, compared with reading the global log from its start.
use eventfold_es.Prelude.{◌≡◌, ap, true, inl, inr, List, ◌++◌, ok, err, Result-cases}
use eventfold_es.Runtime.{Runtime}
use eventfold_es.Event.{RecordedEvent}
use eventfold_es.Client.{Grpc, subscribe_all_from}
use eventfold_es.Cursor.{Item, consume, events_of}
use eventfold_es.GlobalLog.{
  IsGlobalLog, IsBehind, is_caught_up, IsBehind-grow, IsBehind-subscribe, complete-subscribe,
}
use eventfold_es.Io.{Disk}
use eventfold_es.Projection.{
  Projection, ProjectionRunner, default_checkpoint, process_stream, catch_up,
}
use eventfold_es.Projection.Stream.{projection_cursor, process_stream-consume}

module _ (X : Runtime) (P : Projection X) (G : Grpc X) where
  -- The runner after a subscription that delivered `stream`.
  pub catch_up-checkpoint :
      (runner : ProjectionRunner X P) (w : G.W) (d : Disk X.Bytes) (stream : List (Item X))
      → (G.subscribe_all runner.checkpoint.last_global_position w).0 ≡ ok stream
      → (catch_up X P G runner w d).0.0.1.checkpoint
        ≡ consume (projection_cursor X P) runner.checkpoint (events_of stream)
  unfolding catch_up subscribe_all_from
  catch_up-checkpoint runner w d stream e =
      rw (e, catch_up)
        (let same = ap (λ x. x.1) (process_stream-consume X P runner.checkpoint stream) in
          elim (Result-cases (process_stream X P runner.checkpoint stream).0) [
            | inl (_, o) ↦ rw (o, catch_up) same
            | inr (_, o) ↦ rw (o, catch_up) same
          ])

  pub catch_up-unsubscribed :
      (runner : ProjectionRunner X P) (w : G.W) (d : Disk X.Bytes) (status : X.Status)
      → (G.subscribe_all runner.checkpoint.last_global_position w).0 ≡ err status
      → (catch_up X P G runner w d).0.0.1.checkpoint ≡ runner.checkpoint
  unfolding catch_up subscribe_all_from
  catch_up-unsubscribed runner w d status e = rw (e, catch_up)

  catch_up-world :
      (runner : ProjectionRunner X P) (w : G.W) (d : Disk X.Bytes)
      → (catch_up X P G runner w d).0.1
        ≡ (G.subscribe_all runner.checkpoint.last_global_position w).1
  unfolding catch_up subscribe_all_from
  catch_up-world runner w d =
      elim (Result-cases (G.subscribe_all runner.checkpoint.last_global_position w).0) [
        | inr (st, e) ↦ rw (e, catch_up)
        | inl (stream, e) ↦ elim (Result-cases (process_stream X P runner.checkpoint stream).0) [
          | inl (_, o) ↦ rw (e, o, catch_up)
          | inr (_, o) ↦ rw (e, o, catch_up)
        ]
      ]

  module _ (L : IsGlobalLog X G) where
    abbrev pub IsAt : G.W → ProjectionRunner X P → Type 0
    IsAt w runner =
        IsBehind (projection_cursor X P) (default_checkpoint X P) (L.log w) runner.checkpoint

    -- Whatever a catch-up meets, an unreachable server, a broken stream or a failing disk, a projection
    -- that is the fold, each event once, of a prefix of the log is so again afterwards.
    pub catch_up-IsBehind :
        (runner : ProjectionRunner X P) (w : G.W) (d : Disk X.Bytes)
        → IsAt w runner
        → IsAt (catch_up X P G runner w d).0.1 (catch_up X P G runner w d).0.0.1
    catch_up-IsBehind runner w d h =
        elim (Result-cases (G.subscribe_all runner.checkpoint.last_global_position w).0) [
          | inl (stream, e) ↦
              rw (catch_up-world runner w d, catch_up-checkpoint runner w d stream e)
                (IsBehind-subscribe (projection_cursor X P) (default_checkpoint X P) G L
                  runner.checkpoint w stream e h)
          | inr (st, e) ↦
              let from = runner.checkpoint.last_global_position in
              let (more, g) = L.after_failed_subscribe from w st e in
              rw (catch_up-world runner w d, g, catch_up-unsubscribed runner w d st e)
                (IsBehind-grow (projection_cursor X P) (default_checkpoint X P) (L.log w) more
                  runner.checkpoint h)
        ]

    -- A catch-up whose stream reports that it has caught up leaves a projection that was the fold of
    -- a prefix of the log where a rebuild from the start of the whole log would.
    pub catch_up-rebuild :
        (runner : ProjectionRunner X P) (w : G.W) (d : Disk X.Bytes) (stream : List (Item X))
        → (G.subscribe_all runner.checkpoint.last_global_position w).0 ≡ ok stream
        → is_caught_up stream ≡ true
        → IsAt w runner
        → (before : List (RecordedEvent X)) × ((catch_up X P G runner w d).0.0.1.checkpoint
            ≡ consume (projection_cursor X P) (default_checkpoint X P) (L.log w ++ before))
    catch_up-rebuild runner w d stream e done h =
        let (before, whole) =
          complete-subscribe (projection_cursor X P) (default_checkpoint X P) G L runner.checkpoint
            w stream e done h in
        (before, rw (catch_up-checkpoint runner w d stream e) whole)
