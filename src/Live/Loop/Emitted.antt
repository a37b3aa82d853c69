-- ===== src/Live/Loop/Emitted.antt =====
-- src/live.rs, `run_live_loop`: what a process manager emits over all the streams that the loop reads.
use eventfold_es.Prelude.{
  Bool-cases, inl, inr, if◌then◌else◌, ℕ, ◌≤◌, ◌≡◌, refl, ap, ◌∙◌, none, some, List, [], ◌∷◌, ◌++◌,
  String, ok, length,
}
use eventfold_es.Runtime.{Runtime}
use eventfold_es.Command.{CommandEnvelope}
use eventfold_es.Event.{RecordedEvent}
use eventfold_es.Client.{Grpc, subscribe_all_from}
use eventfold_es.Client.Proto.{event, caught_up}
use eventfold_es.Cursor.{Item}
use eventfold_es.GlobalLog.{IsBehind}
use eventfold_es.ProcessManager.{ProcessManager, ProcessManagerRunner, default_checkpoint}
use eventfold_es.ProcessManager.Stream.{History, emit, pm_cursor}
use eventfold_es.Store.{DynProcessManager, Dispatcher, DeadLetters, erase_pm, react_event}
use eventfold_es.Live.{LiveConfig, Live, min_global_position, react_all}
use eventfold_es.Live.Waiting.{reaches, react_one, react_first, react_first-among}
use eventfold_es.Live.Fanout.{live_events, min_global_position-le}
use eventfold_es.Live.Loop.{
  Phase, connecting, retrying, streaming, dispatching, sleeping, returned, saved, fan_out, Step,
  stop_at_top, subscribe_failed, retry, stop_retrying, subscribe, receive, catch_up, blocked,
  block_projection, block_manager, waiting_for_projection, waiting_for_manager, skip, dispatch,
  dispatched, notify, tick_streaming, tick_dispatching, stop_streaming, stop_dispatching,
  end_stream, break_stream, wake, stop_sleeping, Run, here, after,
}
use eventfold_es.Live.Loop.Reactions.{
  react_all-split, react_all-length, at-length, reaction, reaction-at, emitted_by, emitted,
}
use eventfold_es.Live.Loop.Reading.{
  IsHistory, All-among, IsReading, IsReading-IsBehind, IsReading-event, IsReading-other,
  IsReading-begin,
}

module _ (X : Runtime) (G : Grpc X) (Actors : Type 0) (D : DeadLetters X G)
    (dispatchers : List (String × Dispatcher X G Actors)) (config : LiveConfig) where
  module _ (M : ProcessManager X) (history : List (RecordedEvent X)) (n : ℕ) where
    abbrev pub IsBehindHistory : History X M → Type 0
    IsBehindHistory = IsBehind (pm_cursor X M) (default_checkpoint X M, []) history

    abbrev pub IsReadingHistory : List (Item X) → History X M → Type 0
    IsReadingHistory = IsReading (pm_cursor X M) (default_checkpoint X M, []) history

    abbrev pub IsFed : Phase X → History X M → Type 0
    IsFed connecting h = IsBehindHistory h
    IsFed retrying h = IsBehindHistory h
    IsFed (streaming rest) h = IsReadingHistory rest h
    IsFed (dispatching work r rest) h = IsReadingHistory rest h
    IsFed sleeping h = IsBehindHistory h
    IsFed returned h = IsBehindHistory h
    IsFed blocked h = IsBehindHistory h

    -- The process manager has its number among those of the loop, and of its checkpoint and what it
    -- has emitted the predicate holds.
    abbrev pub Holds : (History X M → Type 0) → List (CommandEnvelope X) → Live X G Actors → Type 1
    Holds Φ out s =
        (xs ys : List (DynProcessManager X G)) × (runner : ProcessManagerRunner X M)
        × (s.process_managers ≡ xs ++ (erase_pm X M G runner ∷ ys))
        × (length xs ≡ n)
        × Φ (runner.checkpoint, out)

    Holds-map :
        (Φ Ψ : History X M → Type 0) (out : List (CommandEnvelope X)) (s : Live X G Actors)
        → ((h : History X M) → Φ h → Ψ h)
        → Holds Φ out s
        → Holds Ψ out s
    Holds-map Φ Ψ out s f (xs, ys, runner, e, i, h) =
        (xs, ys, runner, e, i, f (runner.checkpoint, out) h)

    Holds-fan_out :
        (r : RecordedEvent X) (rest : List (Item X)) (out : List (CommandEnvelope X))
        (s : Live X G Actors)
        → Holds (IsReadingHistory (ok (record { content = some (event r) }) ∷ rest)) out s
        → Holds
            (IsReadingHistory rest)
            (out ++ reaction X G Actors D dispatchers config n s.process_managers r)
            (fan_out X G Actors r s)
    unfolding fan_out react_all erase_pm react_event emit
    Holds-fan_out r rest out s (xs, ys, runner, e, i, h) =
        let answer : reaction X G Actors D dispatchers config n s.process_managers r
            ≡ (react_event X M G runner r).1 =
          rw (e, ← i)
            (reaction-at X G Actors D dispatchers config (length xs) _ r (erase_pm X M G runner)
              (at-length xs (erase_pm X M G runner) ys)) in
        (
          (react_all X G r xs).0,
          (react_all X G r ys).0,
          (react_event X M G runner r).0,
          ap (λ l. (react_all X G r l).0) e ∙ react_all-split X G r xs (erase_pm X M G runner ∷ ys),
          react_all-length X G r xs ∙ i,
          rw answer (
              IsReading-event (pm_cursor X M) (default_checkpoint X M, []) history r rest
                (runner.checkpoint, out) h),
        )

    module _ (H : IsHistory X G history) where
      settled :
          (rest : List (Item X)) (h : History X M) → IsReadingHistory rest h → IsBehindHistory h
      settled rest h =
          IsReading-IsBehind (pm_cursor X M) (default_checkpoint X M, []) history rest h H.short

      settle :
          (rest : List (Item X)) (out : List (CommandEnvelope X)) (s : Live X G Actors)
          → Holds (IsReadingHistory rest) out s
          → Holds IsBehindHistory out s
      settle rest out s = Holds-map (IsReadingHistory rest) IsBehindHistory out s (settled rest)

      begin :
          (s : Live X G Actors) (stream : List (Item X)) (out : List (CommandEnvelope X))
          → (G.subscribe_all
              (min_global_position X G s.projections s.process_managers)
              s.outside.world).0
            ≡ ok stream
          → Holds IsBehindHistory out s
          → Holds (IsReadingHistory stream) out s
      unfolding erase_pm
      begin s stream out e (xs, ys, runner, among, i, h) =
          let p = min_global_position X G s.projections s.process_managers in
          let below = (min_global_position-le X G s.projections s.process_managers).1 in
          let le : p ≤ runner.checkpoint.last_global_position =
            All-among (λ (q : DynProcessManager X G). p ≤ q.position q.self) s.process_managers xs
              (erase_pm X M G runner) ys among below in
          let (undelivered, selected) = H.delivers p s.outside.world stream e in
          (
            xs,
            ys,
            runner,
            among,
            i,
            IsReading-begin (pm_cursor X M) (default_checkpoint X M, []) history p stream
                (runner.checkpoint, out) undelivered selected le h,
          )

      pass :
          (item : Item X) (rest : List (Item X)) (out : List (CommandEnvelope X))
          (s : Live X G Actors)
          → live_events (item ∷ rest) ≡ live_events rest
          → Holds (IsReadingHistory (item ∷ rest)) out s
          → Holds (IsReadingHistory rest) out s
      pass item rest out s same =
          Holds-map (IsReadingHistory (item ∷ rest)) (IsReadingHistory rest) out s λ c h.
            IsReading-other (pm_cursor X M) (default_checkpoint X M, []) history (item ∷ rest) rest
              c same h

      -- A fan-out that is never finished has given the event to the process manager or not.
      Holds-waiting :
          (m : ℕ) (r : RecordedEvent X) (rest : List (Item X)) (out : List (CommandEnvelope X))
          (s : Live X G Actors)
          → Holds (IsReadingHistory (ok (record { content = some (event r) }) ∷ rest)) out s
          → Holds IsBehindHistory
              (if reaches m n
                then out ++ reaction X G Actors D dispatchers config n s.process_managers r
                else out)
              (waiting_for_manager X G Actors m r s)
      unfolding waiting_for_manager react_one erase_pm react_event emit
      Holds-waiting m r rest out s (xs, ys, runner, e, i, h) =
          let item : Item X = ok (record { content = some (event r) }) in
          let answer : reaction X G Actors D dispatchers config n s.process_managers r
              ≡ (react_event X M G runner r).1 =
            rw (e, ← i)
              (reaction-at X G Actors D dispatchers config (length xs) _ r (erase_pm X M G runner)
                (at-length xs (erase_pm X M G runner) ys)) in
          let (xs', ys', q, l) = react_first-among X G m r xs (erase_pm X M G runner) ys in
          let listed = ap (react_first X G m r) e ∙ q in
          elim (Bool-cases (reaches m n)) [
            | inl c ↦ rw c (
              xs',
              ys',
              (react_event X M G runner r).0,
              rw (i, c) at listed,
              l ∙ i,
              rw answer (
                  settled rest _ (
                    IsReading-event (pm_cursor X M) (default_checkpoint X M, []) history r rest
                      (runner.checkpoint, out) h)),
            )
            | inr c ↦ rw c (
              xs',
              ys',
              runner,
              rw (i, c) at listed,
              l ∙ i,
              settled (item ∷ rest) (runner.checkpoint, out) h,
            )
          ]

      pub Step-Holds :
          {p : Phase X} {d : ℕ} {s : Live X G Actors} {q : Phase X} {e : ℕ} {t : Live X G Actors}
          (out : List (CommandEnvelope X)) (step : Step X G Actors D dispatchers config p d s q e t)
          → Holds (IsFed p) out s
          → Holds (IsFed q) (emitted_by X G Actors D dispatchers config n step out) t
      unfolding saved subscribe_all_from live_events waiting_for_projection
      Step-Holds out (receive d s r rest) h = Holds-fan_out r rest out s h
      Step-Holds out (subscribe d s stream x) h = begin s stream out x h
      Step-Holds out (block_projection m d s r rest lt) h =
          settle (ok (record { content = some (event r) }) ∷ rest) out s h
      Step-Holds out (block_manager m d s r rest lt) h = Holds-waiting m r rest out s h
      Step-Holds out (catch_up d s rest) h =
          pass (ok (record { content = some caught_up })) rest out s refl h
      Step-Holds out (skip d s rest) h = pass (ok (record { content = none })) rest out s refl h
      Step-Holds out (stop_streaming d s rest) h = settle rest out s h
      Step-Holds out (stop_dispatching d s work r rest) h = settle rest out s h
      Step-Holds out (end_stream d s) h = settle [] out s h
      Step-Holds out (break_stream d s status rest) h = settle _ out s h
      Step-Holds out (stop_at_top d s) h = h
      Step-Holds out (subscribe_failed d s status x) h = h
      Step-Holds out (retry d s) h = h
      Step-Holds out (stop_retrying d s) h = h
      Step-Holds out (dispatch d s e es path work r rest) h = h
      Step-Holds out (dispatched d s path work r rest) h = h
      Step-Holds out (notify listened d s r rest) h = h
      Step-Holds out (tick_streaming d s rest) h = h
      Step-Holds out (tick_dispatching d s work r rest) h = h
      Step-Holds out (wake d s) h = h
      Step-Holds out (stop_sleeping d s) h = h

      pub IsFed-IsBehind :
          (p : Phase X) (out : List (CommandEnvelope X)) (s : Live X G Actors)
          → Holds (IsFed p) out s
          → Holds IsBehindHistory out s
      IsFed-IsBehind connecting out s h = h
      IsFed-IsBehind retrying out s h = h
      IsFed-IsBehind (streaming rest) out s h = settle rest out s h
      IsFed-IsBehind (dispatching work r rest) out s h = settle rest out s h
      IsFed-IsBehind sleeping out s h = h
      IsFed-IsBehind returned out s h = h
      IsFed-IsBehind blocked out s h = h

      Run-Holds :
          {p : Phase X} {d : ℕ} {s : Live X G Actors} {q : Phase X} {e : ℕ} {t : Live X G Actors}
          (out : List (CommandEnvelope X)) (run : Run X G Actors D dispatchers config p d s q e t)
          → Holds (IsFed p) out s
          → Holds (IsFed q) (emitted X G Actors D dispatchers config n run out) t
      Run-Holds out here h = h
      Run-Holds out (after step run) h =
          Run-Holds (emitted_by X G Actors D dispatchers config n step out) run
            (Step-Holds out step h)

      -- However often the loop reconnects, a process manager whose checkpoint and earlier envelopes
      -- are those of reading a prefix of the log once is so in every state that the loop reaches,
      -- with what it has emitted since: no event makes it emit twice, and none that it has passed is
      -- left out, if each subscription delivers the log in order from where it was asked to.
      pub Run-emitted_IsBehind :
          {d : ℕ} {s : Live X G Actors} {q : Phase X} {e : ℕ} {t : Live X G Actors}
          (out : List (CommandEnvelope X))
          (run : Run X G Actors D dispatchers config connecting d s q e t)
          → Holds IsBehindHistory out s
          → Holds IsBehindHistory (emitted X G Actors D dispatchers config n run out) t
      Run-emitted_IsBehind {q = q} {t = t} out run h =
          IsFed-IsBehind q (emitted X G Actors D dispatchers config n run out) t
            (Run-Holds out run h)
