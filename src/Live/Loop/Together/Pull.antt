-- ===== src/Live/Loop/Together/Pull.antt =====
-- src/store.rs: one catch-up among a store's process managers.
use eventfold_es.Prelude.{
  ℕ, zero, suc, ◌≡◌, refl, sym, ap, ◌∙◌, inl, inr, false, Option, none, some, List, [], ◌∷◌, ◌++◌,
  ok, err, length, arith, ◌==◌, Result-cases, Option-cases,
}
use eventfold_es.Runtime.{Runtime}
use eventfold_es.Command.{CommandEnvelope}
use eventfold_es.Event.{RecordedEvent}
use eventfold_es.Client.Proto.{Content, event, caught_up}
use eventfold_es.Live.Fanout.{live_events}
use eventfold_es.Client.{Grpc, subscribe_all_from}
use eventfold_es.Cursor.{Item, consume, events_of, failure_of}
use eventfold_es.ProcessManager.{
  ProcessManager, ProcessManagerCheckpoint, ProcessManagerRunner, process_stream,
}
use eventfold_es.ProcessManager
use eventfold_es.ProcessManager.Stream.{pm_cursor, process_stream-history, ended, consume-emitted}
use eventfold_es.Store.{DynProcessManager, erase_pm}
use eventfold_es.Live.Loop.Together.{catch_up_at}

module _ {X : Runtime} where
  response-prefix :
      (o : Option (Content X)) (rest : List (Item X))
      → ((more : List (RecordedEvent X)) × (live_events rest ≡ events_of rest ++ more))
      → (more : List (RecordedEvent X)) × (live_events (ok (record { content = o }) ∷ rest)
          ≡ events_of (ok (record { content = o }) ∷ rest) ++ more)
  unfolding live_events events_of
  response-prefix none rest ih = ih
  response-prefix (some (event r)) rest (more, e) = (more, ap (λ l. r ∷ l) e)
  response-prefix (some caught_up) rest ih = (live_events rest, refl)

  -- A catch-up stops where the live loop reads on.
  pub events_of-prefix :
      (items : List (Item X))
      → (more : List (RecordedEvent X)) × (live_events items ≡ events_of items ++ more)
  unfolding live_events events_of
  events_of-prefix [] = ([], refl)
  events_of-prefix (err status ∷ rest) = ([], refl)
  events_of-prefix (ok response ∷ rest) =
      response-prefix response.content rest (events_of-prefix rest)

module _ (X : Runtime) (G : Grpc X) where
  -- A catch-up of another process manager leaves one where it is.
  pub catch_up_at_other :
      (n : ℕ) (xs : List (DynProcessManager X G)) (y : DynProcessManager X G)
      (ys : List (DynProcessManager X G)) (w : G.W)
      → (n == length xs) ≡ false
      → (us vs : List (DynProcessManager X G)) × ((catch_up_at X G n (xs ++ y ∷ ys) w).0.1
          ≡ us ++ y ∷ vs)
        × (length us ≡ length xs)
  unfolding catch_up_at
  catch_up_at_other zero [] y ys w h = absurd (ground arith)
  catch_up_at_other zero (x ∷ xs) y ys w h = (_ ∷ xs, ys, refl, refl)
  catch_up_at_other (suc n) [] y ys w h = ([], (catch_up_at X G n ys w).0.1, refl, refl)
  catch_up_at_other (suc n) (x ∷ xs) y ys w h =
      let (us, vs, e, same) = catch_up_at_other n xs y ys w (ground arith) in
      (x ∷ us, vs, ap (λ l. x ∷ l) e, ap suc same)

  module _ (M : ProcessManager X) where
    pub catch_up_at_self :
        (xs : List (DynProcessManager X G)) (runner : ProcessManagerRunner X M)
        (ys : List (DynProcessManager X G)) (w : G.W)
        → catch_up_at X G (length xs) (xs ++ erase_pm X M G runner ∷ ys) w ≡ (
          (
            (ProcessManager.catch_up X M G runner w).0.0,
            xs ++ erase_pm X M G (ProcessManager.catch_up X M G runner w).0.1 ∷ ys,
          ),
          (ProcessManager.catch_up X M G runner w).1,
        )
    unfolding catch_up_at erase_pm
    catch_up_at_self [] runner ys w = refl
    catch_up_at_self (x ∷ xs) runner ys w =
        ap (λ r. ((r.0.0, x ∷ r.0.1), r.1)) (catch_up_at_self xs runner ys w)

    -- A catch-up that returns envelopes has read the events of a stream, and returns all that it has
    -- emitted on them.
    pub catch_up-history :
        (runner : ProcessManagerRunner X M) (out envelopes : List (CommandEnvelope X)) (w : G.W)
        → (ProcessManager.catch_up X M G runner w).0.0 ≡ ok envelopes
        → (stream : List (Item X)) × ((G.subscribe_all runner.checkpoint.last_global_position w).0
            ≡ ok stream)
          × (((ProcessManager.catch_up X M G runner w).0.1.checkpoint, out ++ envelopes)
              ≡ consume (pm_cursor X M) (runner.checkpoint, out) (events_of stream))
    unfolding ProcessManager.catch_up subscribe_all_from
    catch_up-history runner out envelopes w h =
        elim (Result-cases (G.subscribe_all runner.checkpoint.last_global_position w).0) [
          | inr (status, e) ↦ cc (rw (e, ProcessManager.catch_up) at h)
          | inl (stream, e) ↦
              let seen = consume (pm_cursor X M) (runner.checkpoint, []) (events_of stream) in
              let whole = process_stream-history X M runner.checkpoint [] stream in
              let got = rw (e, ProcessManager.catch_up) at h in
              elim (Option-cases (failure_of stream)) [
                | inr (status, f) ↦ cc (whole ∙ ap (λ x. ended X M x seen) f, got)
                | inl f ↦
                    let ran : process_stream X M runner.checkpoint [] stream ≡ (ok seen.1, seen.0) =
                      whole ∙ ap (λ x. ended X M x seen) f in
                    let same : seen.1 ≡ envelopes = cc (ran, got) in
                    (
                      stream,
                      e,
                      rw (e, ProcessManager.catch_up)
                          (rw (ran, ← same)
                            (sym (consume-emitted X M runner.checkpoint out (events_of stream)))),
                    )
              ]
        ]
