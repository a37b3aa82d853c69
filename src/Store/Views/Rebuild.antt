-- ===== src/Store/Views/Rebuild.antt =====
-- src/store.rs: what a projection's state is when it is read from the store.
use eventfold_es.Prelude.{
  ◌≡◌, ap, ◌∙◌, true, some, List, ◌++◌, Result, ok, err, inl, inr, Result-cases,
}
use eventfold_es.Runtime.{Runtime, entry}
use eventfold_es.Event.{RecordedEvent}
use eventfold_es.Client.{Grpc, subscribe_all_from}
use eventfold_es.Cursor.{Item, consume}
use eventfold_es.GlobalLog.{IsGlobalLog, is_caught_up, failure_of-caught_up}
use eventfold_es.Io.{IoError, Disk}
use eventfold_es.Projection
use eventfold_es.Projection.{
  Projection, ProjectionCheckpoint, ProjectionRunner, default_checkpoint, process_stream,
  save_checkpoint,
}
use eventfold_es.Projection.Stream.{projection_cursor, process_stream-consume, outcome}
use eventfold_es.Projection.Exact.{IsAt, catch_up-rebuild}
use eventfold_es.Store.Views.{AnyOf, erase, Views, projection, downcast_state}

-- A value once a save has succeeded.
unfoldable pub saved_as : {B : Type 0} → Result (Unit {0}) IoError → B → Result B IoError
saved_as (ok _) b = ok b
saved_as (err e) b = err e

module _ (X : Runtime) (P : Projection X) (G : Grpc X) where
  -- What a catch-up that has caught up reports is what its save reports.
  catch_up-saved :
      (runner : ProjectionRunner X P) (w : G.W) (d : Disk X.Bytes) (stream : List (Item X))
      → (G.subscribe_all runner.checkpoint.last_global_position w).0 ≡ ok stream
      → is_caught_up stream ≡ true
      → (Projection.catch_up X P G runner w d).0.0.0
        ≡ (save_checkpoint X P runner.checkpoint_dir
            (Projection.catch_up X P G runner w d).0.0.1.checkpoint
            d).0
  unfolding Projection.catch_up subscribe_all_from
  catch_up-saved runner w d stream e done =
      let ran : (process_stream X P runner.checkpoint stream).0 ≡ ok tt =
        ap (λ x. x.0) (process_stream-consume X P runner.checkpoint stream)
        ∙ ap (outcome X P) (failure_of-caught_up stream done) in
      rw (e, ran, Projection.catch_up)

  module _ (Any : Type 0) (any : AnyOf Any P.State)
      (downcast-into : (s : P.State) → any.downcast (any.into s) ≡ some s) where
    downcast_state-into : (s : P.State) → downcast_state X G Any P any (any.into s) ≡ ok s
    unfolding downcast_state
    downcast_state-into s = rw (downcast-into s, downcast_state)

    projection-registered :
        (v : Views X G Any) (runner : ProjectionRunner X P)
        → entry P.name v.projections ≡ some (erase X G Any P any runner)
        → (projection X G Any P any v).0
          ≡ saved_as
              (Projection.catch_up X P G runner v.world v.disk).0.0.0
              (Projection.catch_up X P G runner v.world v.disk).0.0.1.checkpoint.state
    unfolding projection erase saved_as
    projection-registered v runner e =
        let ran = Projection.catch_up X P G runner v.world v.disk in
        elim (Result-cases ran.0.0.0) [
          | inl (_, o) ↦ rw (e, o, projection) (downcast_state-into ran.0.0.1.checkpoint.state)
          | inr (err_, o) ↦ rw (e, o, projection)
        ]

    -- Reading a registered projection whose runner is the fold of a prefix of the global log, over
    -- a subscription that reports that it has caught up, gives the state that a rebuild from the
    -- start of the whole log gives, or the error of the checkpoint's save.
    pub projection-rebuild :
        (L : IsGlobalLog X G) (v : Views X G Any) (runner : ProjectionRunner X P)
        (stream : List (Item X))
        → entry P.name v.projections ≡ some (erase X G Any P any runner)
        → (G.subscribe_all runner.checkpoint.last_global_position v.world).0 ≡ ok stream
        → is_caught_up stream ≡ true
        → IsAt X P G L v.world runner
        → (before : List (RecordedEvent X)) × (c : ProjectionCheckpoint X P) × (c
            ≡ consume (projection_cursor X P) (default_checkpoint X P) (L.log v.world ++ before))
          × ((projection X G Any P any v).0
              ≡ saved_as (save_checkpoint X P runner.checkpoint_dir c v.disk).0 c.state)
    projection-rebuild L v runner stream e sub done at =
        let (before, whole) = catch_up-rebuild X P G L runner v.world v.disk stream sub done at in
        (
          before,
          (Projection.catch_up X P G runner v.world v.disk).0.0.1.checkpoint,
          whole,
          projection-registered v runner e
              ∙ ap
                  (λ x.
                    saved_as x
                      (Projection.catch_up X P G runner v.world v.disk).0.0.1.checkpoint.state)
                  (catch_up-saved runner v.world v.disk stream sub done),
        )
