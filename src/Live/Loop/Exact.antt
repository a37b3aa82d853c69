-- ===== src/Live/Loop/Exact.antt =====
-- src/live.rs, `run_live_loop`: a projection over all the streams that the loop reads.
use eventfold_es.Prelude.{
  Bool-cases, inl, inr, length, ℕ, ◌≤◌, ◌≡◌, refl, ap, ◌∙◌, none, some, List, [], ◌∷◌, ◌++◌, String,
  ok,
}
use eventfold_es.Runtime.{Runtime}
use eventfold_es.Event.{RecordedEvent}
use eventfold_es.Client.{Grpc, subscribe_all_from}
use eventfold_es.Client.Proto.{event, caught_up}
use eventfold_es.Cursor.{Item}
use eventfold_es.GlobalLog.{IsBehind}
use eventfold_es.Projection.{Projection, ProjectionRunner, ProjectionCheckpoint, default_checkpoint}
use eventfold_es.Projection.Stream.{projection_cursor}
use eventfold_es.Store.{Dispatcher, DeadLetters}
use eventfold_es.Live.{
  DynProjection, LiveConfig, Live, apply_event, erase_projection, min_global_position, apply_one,
  apply_to_all,
}
use eventfold_es.Live.Waiting.{reaches, apply_first, apply_first-among}
use eventfold_es.Live.Fanout.{live_events, apply_to_all-split, min_global_position-le}
use eventfold_es.Live.Loop.{
  Phase, connecting, retrying, streaming, dispatching, sleeping, returned, saved, fan_out, Step,
  stop_at_top, subscribe_failed, retry, stop_retrying, subscribe, receive, catch_up, blocked,
  block_projection, block_manager, waiting_for_projection, waiting_for_manager, skip, dispatch,
  dispatched, notify, tick_streaming, tick_dispatching, stop_streaming, stop_dispatching,
  end_stream, break_stream, wake, stop_sleeping, Run, here, after,
}
use eventfold_es.Live.Loop.Reading.{
  IsHistory, All-among, IsReading, IsReading-IsBehind, IsReading-event, IsReading-other,
  IsReading-begin,
}

module _ (X : Runtime) (G : Grpc X) (Actors : Type 0) (D : DeadLetters X G)
    (dispatchers : List (String × Dispatcher X G Actors)) (config : LiveConfig) (P : Projection X)
    (history : List (RecordedEvent X)) where
  abbrev pub IsBehindHistory : ProjectionCheckpoint X P → Type 0
  IsBehindHistory = IsBehind (projection_cursor X P) (default_checkpoint X P) history

  abbrev pub IsReadingHistory : List (Item X) → ProjectionCheckpoint X P → Type 0
  IsReadingHistory = IsReading (projection_cursor X P) (default_checkpoint X P) history

  abbrev pub IsFed : Phase X → ProjectionCheckpoint X P → Type 0
  IsFed connecting c = IsBehindHistory c
  IsFed retrying c = IsBehindHistory c
  IsFed (streaming rest) c = IsReadingHistory rest c
  IsFed (dispatching work r rest) c = IsReadingHistory rest c
  IsFed sleeping c = IsBehindHistory c
  IsFed returned c = IsBehindHistory c
  IsFed blocked c = IsBehindHistory c

  -- The projection is among those of the loop, at a checkpoint of which the predicate holds.
  abbrev pub Holds : (ProjectionCheckpoint X P → Type 0) → Live X G Actors → Type 1
  Holds Φ s =
      (xs ys : List (DynProjection X G)) × (runner : ProjectionRunner X P) × (s.projections
        ≡ xs ++ (erase_projection X P G runner ∷ ys))
      × Φ runner.checkpoint

  Holds-map :
      (Φ Ψ : ProjectionCheckpoint X P → Type 0) (s : Live X G Actors)
      → ((c : ProjectionCheckpoint X P) → Φ c → Ψ c)
      → Holds Φ s
      → Holds Ψ s
  Holds-map Φ Ψ s f (xs, ys, runner, e, h) = (xs, ys, runner, e, f runner.checkpoint h)

  Holds-fan_out :
      (r : RecordedEvent X) (rest : List (Item X)) (s : Live X G Actors)
      → Holds (IsReadingHistory (ok (record { content = some (event r) }) ∷ rest)) s
      → Holds (IsReadingHistory rest) (fan_out X G Actors r s)
  unfolding fan_out apply_to_all apply_one erase_projection apply_event
  Holds-fan_out r rest s (xs, ys, runner, e, h) = (
    apply_to_all X G r xs,
    apply_to_all X G r ys,
    apply_event X P runner r,
    ap (apply_to_all X G r) e ∙ apply_to_all-split X G r xs (erase_projection X P G runner ∷ ys),
    IsReading-event (projection_cursor X P) (default_checkpoint X P) history r rest
        runner.checkpoint h,
  )

  module _ (H : IsHistory X G history) where
    settle :
        (rest : List (Item X)) (s : Live X G Actors)
        → Holds (IsReadingHistory rest) s
        → Holds IsBehindHistory s
    settle rest s = Holds-map (IsReadingHistory rest) IsBehindHistory s λ c h.
        IsReading-IsBehind (projection_cursor X P) (default_checkpoint X P) history rest c H.short h

    begin :
        (s : Live X G Actors) (stream : List (Item X))
        → (G.subscribe_all
            (min_global_position X G s.projections s.process_managers)
            s.outside.world).0
          ≡ ok stream
        → Holds IsBehindHistory s
        → Holds (IsReadingHistory stream) s
    unfolding erase_projection
    begin s stream e (xs, ys, runner, among, h) =
        let p = min_global_position X G s.projections s.process_managers in
        let below = (min_global_position-le X G s.projections s.process_managers).0 in
        let le : p ≤ runner.checkpoint.last_global_position =
          All-among (λ (q : DynProjection X G). p ≤ q.position q.self) s.projections xs
            (erase_projection X P G runner) ys among below in
        let (undelivered, selected) = H.delivers p s.outside.world stream e in
        (
          xs,
          ys,
          runner,
          among,
          IsReading-begin (projection_cursor X P) (default_checkpoint X P) history p stream
              runner.checkpoint undelivered selected le h,
        )

    pass :
        (item : Item X) (rest : List (Item X)) (s : Live X G Actors)
        → live_events (item ∷ rest) ≡ live_events rest
        → Holds (IsReadingHistory (item ∷ rest)) s
        → Holds (IsReadingHistory rest) s
    pass item rest s same =
        Holds-map (IsReadingHistory (item ∷ rest)) (IsReadingHistory rest) s λ c h.
          IsReading-other (projection_cursor X P) (default_checkpoint X P) history (item ∷ rest)
            rest c same h

    -- A fan-out that is never finished has given the event to the projection or not.
    Holds-waiting :
        (n : ℕ) (r : RecordedEvent X) (rest : List (Item X)) (s : Live X G Actors)
        → Holds (IsReadingHistory (ok (record { content = some (event r) }) ∷ rest)) s
        → Holds IsBehindHistory (waiting_for_projection X G Actors n r s)
    unfolding waiting_for_projection apply_one erase_projection apply_event
    Holds-waiting n r rest s (xs, ys, runner, e, h) =
        let K = projection_cursor X P in
        let start = default_checkpoint X P in
        let item : Item X = ok (record { content = some (event r) }) in
        let (xs', ys', q) = apply_first-among X G n r xs (erase_projection X P G runner) ys in
        let listed = ap (apply_first X G n r) e ∙ q in
        elim (Bool-cases (reaches n (length xs))) [
          | inl c ↦ (
            xs',
            ys',
            apply_event X P runner r,
            rw c at listed,
            IsReading-IsBehind K start history rest (apply_event X P runner r).checkpoint H.short
                (IsReading-event K start history r rest runner.checkpoint h),
          )
          | inr c ↦ (
            xs',
            ys',
            runner,
            rw c at listed,
            IsReading-IsBehind K start history (item ∷ rest) runner.checkpoint H.short h,
          )
        ]

    pub Step-Holds :
        {p : Phase X} {d : ℕ} {s : Live X G Actors} {q : Phase X} {e : ℕ} {t : Live X G Actors}
        → Step X G Actors D dispatchers config p d s q e t
        → Holds (IsFed p) s
        → Holds (IsFed q) t
    unfolding saved subscribe_all_from live_events waiting_for_manager fan_out
    Step-Holds (subscribe d s stream x) h = begin s stream x h
    Step-Holds (receive d s r rest) h = Holds-fan_out r rest s h
    Step-Holds (block_projection n d s r rest lt) h = Holds-waiting n r rest s h
    Step-Holds (block_manager n d s r rest lt) h =
        settle rest (fan_out X G Actors r s) (Holds-fan_out r rest s h)
    Step-Holds (catch_up d s rest) h = pass (ok (record { content = some caught_up })) rest s refl h
    Step-Holds (skip d s rest) h = pass (ok (record { content = none })) rest s refl h
    Step-Holds (stop_streaming d s rest) h = settle rest s h
    Step-Holds (stop_dispatching d s work r rest) h = settle rest s h
    Step-Holds (end_stream d s) h = settle [] s h
    Step-Holds (break_stream d s status rest) h = settle _ s h
    Step-Holds (stop_at_top d s) h = h
    Step-Holds (subscribe_failed d s status x) h = h
    Step-Holds (retry d s) h = h
    Step-Holds (stop_retrying d s) h = h
    Step-Holds (dispatch d s e es path work r rest) h = h
    Step-Holds (dispatched d s path work r rest) h = h
    Step-Holds (notify listened d s r rest) h = h
    Step-Holds (tick_streaming d s rest) h = h
    Step-Holds (tick_dispatching d s work r rest) h = h
    Step-Holds (wake d s) h = h
    Step-Holds (stop_sleeping d s) h = h

    pub IsFed-IsBehind :
        (p : Phase X) (s : Live X G Actors) → Holds (IsFed p) s → Holds IsBehindHistory s
    IsFed-IsBehind connecting s h = h
    IsFed-IsBehind retrying s h = h
    IsFed-IsBehind (streaming rest) s h = settle rest s h
    IsFed-IsBehind (dispatching work r rest) s h = settle rest s h
    IsFed-IsBehind sleeping s h = h
    IsFed-IsBehind returned s h = h
    IsFed-IsBehind blocked s h = h

    Run-Holds :
        {p : Phase X} {d : ℕ} {s : Live X G Actors} {q : Phase X} {e : ℕ} {t : Live X G Actors}
        → Run X G Actors D dispatchers config p d s q e t
        → Holds (IsFed p) s
        → Holds (IsFed q) t
    Run-Holds here h = h
    Run-Holds (after step run) h = Run-Holds run (Step-Holds step h)

    -- However often the loop reconnects, and whatever ticks, shutdown and dispatch do in between, a
    -- projection that is the fold, each event once, of a prefix of the log is so in every state that
    -- the loop reaches, if each subscription delivers the log in order from where it was asked to.
    pub Run-IsBehind :
        {d : ℕ} {s : Live X G Actors} {q : Phase X} {e : ℕ} {t : Live X G Actors}
        → Run X G Actors D dispatchers config connecting d s q e t
        → Holds IsBehindHistory s
        → Holds IsBehindHistory t
    Run-IsBehind {q = q} {t = t} run h = IsFed-IsBehind q t (Run-Holds run h)
