-- ===== src/ProcessManager/Stream.antt =====
-- src/process_manager.rs: a process manager as a reader of the global log: its checkpoint with
-- all that it has emitted.
use eventfold_es.Prelude.{
  ◌+◌, ◌≤◌, ◌<◌, ◌≡◌, refl, sym, ap, true, false, Option, none, some, List, [], ◌∷◌, ◌++◌,
  append-nil, append_assoc, Result, ok, err, arith, ltb, u64_mod, next_u64-eq,
}
use eventfold_es.Runtime.{Runtime}
use eventfold_es.Command.{CommandEnvelope}
use eventfold_es.Event.{RecordedEvent}
use eventfold_es.Client.Proto.{Content, event, caught_up}
use eventfold_es.Cursor.{Cursor, Item, consume, events_of, failure_of}
use eventfold_es.Io.{IoError}
use eventfold_es.Projection.{stream_failed}
use eventfold_es.ProcessManager.{
  ProcessManager, ProcessManagerCheckpoint, react_recorded_event, process_stream,
}

module _ (X : Runtime) (M : ProcessManager X) where
  -- A checkpoint, and the envelopes emitted on the way to it.
  abbrev pub History : Type 0
  History = ProcessManagerCheckpoint X M × List (CommandEnvelope X)

  unfoldable pub emit : History → RecordedEvent X → History
  emit (c, out) r = let (c', produced) = react_recorded_event X M c r in (c', out ++ produced)

  pub skips :
      (h : History) (r : RecordedEvent X)
      → r.global_position < h.0.last_global_position
      → emit h r ≡ h
  unfolding emit react_recorded_event
  skips (c, out) r h =
      let e : ltb r.global_position c.last_global_position ≡ true = ground arith in
      rw e (ap (λ l. (c, l)) (append-nil out))

  pub advances :
      (h : History) (r : RecordedEvent X)
      → h.0.last_global_position ≤ r.global_position
      → r.global_position + 1 < u64_mod
      → (emit h r).0.last_global_position ≡ r.global_position + 1
  unfolding emit react_recorded_event
  advances (c, out) r h short =
      let e : ltb r.global_position c.last_global_position ≡ false = ground arith in
      rw e (next_u64-eq r.global_position short)

  abbrev pub pm_cursor : Cursor X History
  pm_cursor = record {
    position = λ h. h.0.last_global_position;
    step = emit;
    skips = skips;
    advances = advances;
  }

  abbrev pub outcome :
      Option X.Status → List (CommandEnvelope X) → Result (List (CommandEnvelope X)) IoError
  outcome none out = ok out
  outcome (some status) out = err (stream_failed X status)

  -- What the loop returns, from the error that ended the stream and the history it built.
  abbrev pub ended :
      Option X.Status
      → History
      → Result (List (CommandEnvelope X)) IoError × ProcessManagerCheckpoint X M
  ended failure (c, out) = (outcome failure out, c)

  step_response :
      (c : ProcessManagerCheckpoint X M) (out : List (CommandEnvelope X)) (o : Option (Content X))
      (rest : List (Item X))
      → ((c' : ProcessManagerCheckpoint X M) (out' : List (CommandEnvelope X))
          → process_stream X M c' out' rest
            ≡ ended (failure_of rest) (consume pm_cursor (c', out') (events_of rest)))
      → process_stream X M c out (ok (record { content = o }) ∷ rest)
        ≡ ended
            (failure_of (ok (record { content = o }) ∷ rest))
            (consume pm_cursor (c, out) (events_of (ok (record { content = o }) ∷ rest)))
  unfolding process_stream consume events_of failure_of emit
  step_response c out none rest ih = ih c out
  step_response c out (some (event r)) rest ih =
      let (c', produced) = react_recorded_event X M c r in ih c' (out ++ produced)
  step_response c out (some caught_up) rest ih = refl

  -- The loop reads exactly the events before the first error or the catch-up. Without an error it
  -- returns all envelopes; with one it returns none, and keeps the checkpoint all the same.
  pub process_stream-history :
      (c : ProcessManagerCheckpoint X M) (out : List (CommandEnvelope X)) (items : List (Item X))
      → process_stream X M c out items
        ≡ ended (failure_of items) (consume pm_cursor (c, out) (events_of items))
  unfolding process_stream consume events_of failure_of
  process_stream-history c out [] = refl
  process_stream-history c out (err status ∷ rest) = refl
  process_stream-history c out (ok response ∷ rest) =
      step_response c out response.content rest (λ c' out'. process_stream-history c' out' rest)

  -- What was emitted before stays in front.
  pub consume-emitted :
      (c : ProcessManagerCheckpoint X M) (out : List (CommandEnvelope X))
      (rs : List (RecordedEvent X))
      → consume pm_cursor (c, out) rs
        ≡ ((consume pm_cursor (c, []) rs).0, out ++ (consume pm_cursor (c, []) rs).1)
  unfolding consume emit
  consume-emitted c out [] = ap (λ l. (c, l)) (sym (append-nil out))
  consume-emitted c out (r ∷ rs) =
      let (c', produced) = react_recorded_event X M c r in
      rw (consume-emitted c' (out ++ produced) rs, consume-emitted c' produced rs)
        (ap (λ l. ((consume pm_cursor (c', []) rs).0, l))
          (append_assoc out produced (consume pm_cursor (c', []) rs).1))
