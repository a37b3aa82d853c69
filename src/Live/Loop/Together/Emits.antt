-- ===== src/Live/Loop/Together/Emits.antt =====
-- src/live.rs and src/store.rs: what a process manager emits, in the live loop and beside it.
use eventfold_es.Prelude.{
  ℕ, ◌≡◌, sym, ap, ◌∙◌, inl, inr, false, if◌then◌else◌, List, [], ◌++◌, append_assoc, String, ok,
  length, arith, ◌==◌, Bool-cases,
}
use eventfold_es.Runtime.{Runtime}
use eventfold_es.Command.{CommandEnvelope}
use eventfold_es.Event.{RecordedEvent}
use eventfold_es.Client.{Grpc}
use eventfold_es.Cursor.{Item, consume, events_of, from_position}
use eventfold_es.GlobalLog.{IsBehind-consume}
use eventfold_es.ProcessManager
use eventfold_es.ProcessManager.{ProcessManager, default_checkpoint}
use eventfold_es.ProcessManager.Stream.{History, pm_cursor}
use eventfold_es.Store.{Dispatcher, DeadLetters, erase_pm}
use eventfold_es.Live.{LiveConfig, Live}
use eventfold_es.Live.Loop.{
  Phase, connecting, retrying, streaming, dispatching, sleeping, blocked, returned,
}
use eventfold_es.Live.Loop.Emitted.{
  IsFed, IsBehindHistory, IsReadingHistory, Holds, Step-Holds, IsFed-IsBehind,
}
use eventfold_es.Live.Loop.Reading.{IsHistory, IsReading-jump}
use eventfold_es.Live.Loop.Together.{
  catch_up_at, pulled, Joint, loop_steps, pulls, pull_fails, reads, Succeeds, AllSucceed, elsewhere,
  JointRun, at_rest, then_on, emitted_jointly_by, emitted_jointly,
}
use eventfold_es.Live.Loop.Together.Pull.{
  catch_up_at_other, catch_up_at_self, catch_up-history, events_of-prefix,
}

module _ (X : Runtime) (G : Grpc X) (Actors : Type 0) (D : DeadLetters X G)
    (dispatchers : List (String × Dispatcher X G Actors)) (config : LiveConfig)
    (M : ProcessManager X) (history : List (RecordedEvent X)) (n : ℕ)
    (H : IsHistory X G history) where
  behind_jump :
      (h : History X M) (part beyond : List (RecordedEvent X))
      → from_position h.0.last_global_position history ≡ part ++ beyond
      → IsBehindHistory X G Actors D dispatchers config M history n h
      → IsBehindHistory X G Actors D dispatchers config M history n (consume (pm_cursor X M) h part)
  behind_jump h part beyond e f =
      IsBehind-consume (pm_cursor X M) (default_checkpoint X M, []) history h part beyond H.short f
        e

  reading_jump :
      (rest : List (Item X)) (h : History X M) (part beyond : List (RecordedEvent X))
      → from_position h.0.last_global_position history ≡ part ++ beyond
      → IsReadingHistory X G Actors D dispatchers config M history n rest h
      → IsReadingHistory X G Actors D dispatchers config M history n rest
          (consume (pm_cursor X M) h part)
  reading_jump rest h part beyond e f =
      IsReading-jump (pm_cursor X M) (default_checkpoint X M, []) history rest h part beyond H.short
        f e

  -- Whatever the loop is at, its process manager may read on by itself.
  IsFed-jump :
      (p : Phase X) (h : History X M) (part beyond : List (RecordedEvent X))
      → from_position h.0.last_global_position history ≡ part ++ beyond
      → IsFed X G Actors D dispatchers config M history n p h
      → IsFed X G Actors D dispatchers config M history n p (consume (pm_cursor X M) h part)
  IsFed-jump connecting h part beyond e f = behind_jump h part beyond e f
  IsFed-jump retrying h part beyond e f = behind_jump h part beyond e f
  IsFed-jump sleeping h part beyond e f = behind_jump h part beyond e f
  IsFed-jump returned h part beyond e f = behind_jump h part beyond e f
  IsFed-jump blocked h part beyond e f = behind_jump h part beyond e f
  IsFed-jump (streaming rest) h part beyond e f = reading_jump rest h part beyond e f
  IsFed-jump (dispatching work r rest) h part beyond e f = reading_jump rest h part beyond e f

  -- The process manager among those of the loop, where the loop is in a phase.
  abbrev FedIn : Phase X → List (CommandEnvelope X) → Live X G Actors → Type 1
  FedIn p =
      Holds X G Actors D dispatchers config M history n
        (IsFed X G Actors D dispatchers config M history n p)

  other_pulled-FedIn :
      (p : Phase X) (s : Live X G Actors) (m : ℕ) (out : List (CommandEnvelope X))
      → (m == n) ≡ false
      → FedIn p out s
      → FedIn p out (pulled X G Actors D dispatchers config m s)
  other_pulled-FedIn p s m out other (xs, ys, runner, e, i, f) =
      let w = s.outside.world in
      let apart : (m == length xs) ≡ false = rw i other in
      let (us, vs, moved, same) = catch_up_at_other X G m xs (erase_pm X M G runner) ys w apart in
      (us, vs, runner, rw e moved, same ∙ i, f)

  pulled-FedIn :
      (p : Phase X) (s : Live X G Actors) (m : ℕ) (envelopes out : List (CommandEnvelope X))
      → (catch_up_at X G m s.process_managers s.outside.world).0.0 ≡ ok envelopes
      → FedIn p out s
      → FedIn p
          (if m == n then out ++ envelopes else out)
          (pulled X G Actors D dispatchers config m s)
  unfolding erase_pm
  pulled-FedIn p s m envelopes out got (xs, ys, runner, e, i, f) =
      let w = s.outside.world in
      elim (Bool-cases (m == n)) [
        | inr other ↦ rw other (other_pulled-FedIn p s m out other (xs, ys, runner, e, i, f))
        | inl own ↦
            let here : m ≡ length xs = rw i (ground arith) in
            let ran = catch_up_at_self X G M xs runner ys w in
            let mine : (ProcessManager.catch_up X M G runner w).0.0 ≡ ok envelopes =
              sym (ap (λ r. r.0.0) ran) ∙ (rw (e, here) at got) in
            let (stream, subscribed, read) = catch_up-history X G M runner out envelopes w mine in
            let (undelivered, selected) =
              H.delivers runner.checkpoint.last_global_position w stream subscribed in
            let (more, longer) = events_of-prefix stream in
            rw own (
              xs,
              ys,
              (ProcessManager.catch_up X M G runner w).0.1,
              rw (e, here) (ap (λ r. r.0.1) ran),
              i,
              rw read (
                  IsFed-jump p (runner.checkpoint, out) (events_of stream) (more ++ undelivered)
                    (selected
                      ∙ ap (λ l. l ++ undelivered) longer
                      ∙ append_assoc (events_of stream) more undelivered)
                    f),
            )
      ]

  Joint-FedIn :
      {p : Phase X} {d : ℕ} {s : Live X G Actors} {q : Phase X} {e : ℕ} {t : Live X G Actors}
      (out : List (CommandEnvelope X)) (step : Joint X G Actors D dispatchers config p d s q e t)
      → Succeeds X G Actors D dispatchers config n step
      → FedIn p out s
      → FedIn q (emitted_jointly_by X G Actors D dispatchers config n step out) t
  Joint-FedIn out (loop_steps step) k h =
      Step-Holds X G Actors D dispatchers config M history n H out step h
  Joint-FedIn out (pulls p d s m envelopes got) k h = pulled-FedIn p s m envelopes out got h
  Joint-FedIn out (pull_fails p d s m error x) k h = other_pulled-FedIn p s m out k h
  Joint-FedIn out (reads p d s m) k h = h
  Joint-FedIn out (elsewhere p d s o) k h = h

  JointRun-FedIn :
      {p : Phase X} {d : ℕ} {s : Live X G Actors} {q : Phase X} {e : ℕ} {t : Live X G Actors}
      (out : List (CommandEnvelope X)) (run : JointRun X G Actors D dispatchers config p d s q e t)
      → AllSucceed X G Actors D dispatchers config n run
      → FedIn p out s
      → FedIn q (emitted_jointly X G Actors D dispatchers config n run out) t
  JointRun-FedIn out at_rest k h = h
  JointRun-FedIn out (then_on step run) k h =
      JointRun-FedIn (emitted_jointly_by X G Actors D dispatchers config n step out) run k.1
        (Joint-FedIn out step k.0 h)

  -- While the live loop runs, other tasks may make its process managers catch up and read its
  -- projections at any point, and change the server, the disk and the actors: a process manager whose
  -- checkpoint and earlier envelopes are those of reading a prefix of the log once is so in every
  -- state that is reached, with what it has emitted in the loop and to the others, in the order of
  -- emission; what it answers to an event whose fan-out blocks for ever counts, too. No event is answered twice, by the loop and by a catch-up, and none is left out between
  -- them, if each subscription delivers the log in order from where it was asked to, and no catch-up
  -- of that process manager fails.
  pub JointRun-emitted_jointly :
      {d : ℕ} {s : Live X G Actors} {q : Phase X} {e : ℕ} {t : Live X G Actors}
      (out : List (CommandEnvelope X))
      (run : JointRun X G Actors D dispatchers config connecting d s q e t)
      → AllSucceed X G Actors D dispatchers config n run
      → Holds X G Actors D dispatchers config M history n
          (IsBehindHistory X G Actors D dispatchers config M history n)
          out
          s
      → Holds X G Actors D dispatchers config M history n
          (IsBehindHistory X G Actors D dispatchers config M history n)
          (emitted_jointly X G Actors D dispatchers config n run out)
          t
  JointRun-emitted_jointly {q = q} {t = t} out run k h =
      IsFed-IsBehind X G Actors D dispatchers config M history n H q
        (emitted_jointly X G Actors D dispatchers config n run out) t (JointRun-FedIn out run k h)
