-- ===== src/Projection/Stream.antt =====
-- src/projection.rs: a projection as a reader of the global log, and its stream loop.
use eventfold_es.Prelude.{
  ◌+◌, ◌≤◌, ◌<◌, ◌≡◌, refl, true, false, Option, none, some, List, [], ◌∷◌, Result, ok, err, arith,
  ltb, u64_mod, next_u64-eq,
}
use eventfold_es.Runtime.{Runtime}
use eventfold_es.Event.{RecordedEvent}
use eventfold_es.Client.Proto.{Content, event, caught_up}
use eventfold_es.Cursor.{Cursor, Item, consume, events_of, failure_of}
use eventfold_es.Io.{IoError}
use eventfold_es.Projection.{
  Projection, ProjectionCheckpoint, apply_recorded_event, process_stream, stream_failed,
}

module _ (X : Runtime) (P : Projection X) where
  pub skips :
      (c : ProjectionCheckpoint X P) (r : RecordedEvent X)
      → r.global_position < c.last_global_position
      → apply_recorded_event X P c r ≡ c
  unfolding apply_recorded_event
  skips c r h = let e : ltb r.global_position c.last_global_position ≡ true = ground arith in rw e

  pub advances :
      (c : ProjectionCheckpoint X P) (r : RecordedEvent X)
      → c.last_global_position ≤ r.global_position
      → r.global_position + 1 < u64_mod
      → (apply_recorded_event X P c r).last_global_position ≡ r.global_position + 1
  unfolding apply_recorded_event
  advances c r h short =
      let e : ltb r.global_position c.last_global_position ≡ false = ground arith in
      rw e (next_u64-eq r.global_position short)

  abbrev pub projection_cursor : Cursor X (ProjectionCheckpoint X P)
  projection_cursor = record {
    position = λ c. c.last_global_position;
    step = apply_recorded_event X P;
    skips = skips;
    advances = advances;
  }

  abbrev pub outcome : Option X.Status → Result (Unit {0}) IoError
  outcome none = ok tt
  outcome (some status) = err (stream_failed X status)

  step_response :
      (c : ProjectionCheckpoint X P) (o : Option (Content X)) (rest : List (Item X))
      → ((c' : ProjectionCheckpoint X P)
          → process_stream X P c' rest
            ≡ (outcome (failure_of rest), consume projection_cursor c' (events_of rest)))
      → process_stream X P c (ok (record { content = o }) ∷ rest) ≡ (
        outcome (failure_of (ok (record { content = o }) ∷ rest)),
        consume projection_cursor c (events_of (ok (record { content = o }) ∷ rest)),
      )
  unfolding process_stream consume events_of failure_of
  step_response c none rest ih = ih c
  step_response c (some (event r)) rest ih = ih (apply_recorded_event X P c r)
  step_response c (some caught_up) rest ih = refl

  -- The loop reads exactly the events before the first error or the catch-up, keeps what it has
  -- applied in either case, and reports the error.
  pub process_stream-consume :
      (c : ProjectionCheckpoint X P) (items : List (Item X))
      → process_stream X P c items
        ≡ (outcome (failure_of items), consume projection_cursor c (events_of items))
  unfolding process_stream consume events_of failure_of
  process_stream-consume c [] = refl
  process_stream-consume c (err status ∷ rest) = refl
  process_stream-consume c (ok response ∷ rest) =
      step_response c response.content rest (λ c'. process_stream-consume c' rest)
