-- ===== src/Live/Fanout.antt =====
-- src/live.rs: the theorems on the subscription position and on the fan-out to projections.
use eventfold_es.Prelude.{
  Bool, ℕ, ◌≤◌, ◌≡◌, refl, ap, ◌∙◌, true, Option, none, some, List, [], ◌∷◌, ◌++◌, String, ok, err,
  arith, All,
}
use Prim.Native.Nat.{min}
use eventfold_es.Runtime.{Runtime}
use eventfold_es.Event.{RecordedEvent}
use eventfold_es.Client.{Grpc}
use eventfold_es.Client.Proto.{Content, event, caught_up}
use eventfold_es.Cursor.{Item, IsShort, consume, consume-from_position, from_position}
use eventfold_es.Projection.{Projection, ProjectionRunner}
use eventfold_es.Projection.Stream.{projection_cursor}
use eventfold_es.Store.{DynProcessManager, Dispatcher, DeadLetters}
use eventfold_es.Live.{
  DynProjection, Live, apply_event, erase_projection, min_projections, min_managers,
  min_global_position, apply_one, apply_to_all, handle_event, process_stream_with_dispatch,
}
use eventfold_es.Actor.Execute.{u64_max}

module _ (X : Runtime) (G : Grpc X) where
  min_projections-le : (m : ℕ) (ps : List (DynProjection X G)) → min_projections X G m ps ≤ m
  unfolding min_projections
  min_projections-le m [] = omega arith
  min_projections-le m (p ∷ ps) = omega (arith, min_projections-le (min m (p.position p.self)) ps)

  min_managers-le : (m : ℕ) (ps : List (DynProcessManager X G)) → min_managers X G m ps ≤ m
  unfolding min_managers
  min_managers-le m [] = omega arith
  min_managers-le m (p ∷ ps) = omega (arith, min_managers-le (min m (p.position p.self)) ps)

  min_projections-below :
      (n m : ℕ) (ps : List (DynProjection X G))
      → n ≤ min_projections X G m ps
      → All (λ p. n ≤ p.position p.self) ps
  unfolding min_projections
  min_projections-below n m [] h = tt
  min_projections-below n m (p ∷ ps) h = (
    omega (arith, min_projections-le (min m (p.position p.self)) ps),
    min_projections-below n (min m (p.position p.self)) ps h,
  )

  min_managers-below :
      (n m : ℕ) (ps : List (DynProcessManager X G))
      → n ≤ min_managers X G m ps
      → All (λ p. n ≤ p.position p.self) ps
  unfolding min_managers
  min_managers-below n m [] h = tt
  min_managers-below n m (p ∷ ps) h = (
    omega (arith, min_managers-le (min m (p.position p.self)) ps),
    min_managers-below n (min m (p.position p.self)) ps h,
  )

  from-le :
      (projections : List (DynProjection X G)) (pms : List (DynProcessManager X G))
      → min_global_position X G projections pms
        ≤ min_managers X G (min_projections X G u64_max projections) pms
  unfolding min_global_position
  from-le projections pms = ground arith

  -- The position that the live loop subscribes from is at most the position of every projection
  -- and of every process manager.
  pub min_global_position-le :
      (projections : List (DynProjection X G)) (pms : List (DynProcessManager X G))
      → All (λ p. min_global_position X G projections pms ≤ p.position p.self) projections
        × All (λ p. min_global_position X G projections pms ≤ p.position p.self) pms
  min_global_position-le projections pms =
      let le = from-le projections pms in
      let m = min_projections X G u64_max projections in
      (
        min_projections-below _ u64_max projections (omega (arith, le, min_managers-le m pms)),
        min_managers-below _ m pms le,
      )

-- The events of a live stream, which goes on behind a `CaughtUp`.
unfoldable pub live_events : {X : Runtime} → List (Item X) → List (RecordedEvent X)
live_events [] = []
live_events (err status ∷ rest) = []
live_events (ok response ∷ rest) =
    let later = live_events rest in
    elim response.content [ none ↦ later | some (event r) ↦ r ∷ later | some caught_up ↦ later ]

module _ (X : Runtime) where
  -- All events, one after another, to all projections.
  pub feed :
      (G : Grpc X) → List (RecordedEvent X) → List (DynProjection X G) → List (DynProjection X G)
  feed G [] ps = ps
  feed G (r ∷ rs) ps = feed G rs (apply_to_all X G r ps)

  pub apply_to_all-split :
      (G : Grpc X) (r : RecordedEvent X) (xs ys : List (DynProjection X G))
      → apply_to_all X G r (xs ++ ys) ≡ apply_to_all X G r xs ++ apply_to_all X G r ys
  unfolding apply_to_all
  apply_to_all-split G r [] ys = refl
  apply_to_all-split G r (x ∷ xs) ys =
      ap (λ l. apply_one X G r x ∷ l) (apply_to_all-split G r xs ys)

  module _ (P : Projection X) (G : Grpc X) where
    -- A projection among others is fed as it would be alone.
    feed-erase :
        (rs : List (RecordedEvent X)) (xs ys : List (DynProjection X G))
        (runner : ProjectionRunner X P)
        → feed G rs (xs ++ (erase_projection X P G runner ∷ ys))
          ≡ feed G rs xs
            ++ (erase_projection X P G (record runner {
              checkpoint = consume (projection_cursor X P) runner.checkpoint rs;
            })
                ∷ feed G rs ys)
    unfolding feed consume apply_to_all apply_one erase_projection apply_event
    feed-erase [] xs ys runner = refl
    feed-erase (r ∷ rs) xs ys runner =
        ap (feed G rs) (apply_to_all-split G r xs (erase_projection X P G runner ∷ ys))
        ∙ feed-erase rs (apply_to_all X G r xs) (apply_to_all X G r ys) (apply_event X P runner r)

module _ (X : Runtime) (G : Grpc X) (Actors : Type 0) (D : DeadLetters X G)
    (dispatchers : List (String × Dispatcher X G Actors)) (listened : RecordedEvent X → Bool) where
  response-feed :
      (o : Option (Content X)) (rest : List (Item X)) (s : Live X G Actors)
      → ((s' : Live X G Actors)
          → (process_stream_with_dispatch X G Actors D dispatchers listened rest s').1.projections
            ≡ feed X G (live_events rest) s'.projections)
      → (process_stream_with_dispatch X G Actors D dispatchers listened
          (ok (record { content = o }) ∷ rest)
          s).1.projections
        ≡ feed X G (live_events (ok (record { content = o }) ∷ rest)) s.projections
  unfolding process_stream_with_dispatch live_events feed handle_event
  response-feed none rest s ih = ih s
  response-feed (some (event r)) rest s ih = ih (handle_event X G Actors D dispatchers listened r s)
  response-feed (some caught_up) rest s ih = ih (record s { is_caught_up = true })

  -- Dispatch does not disturb the fan-out: the projections are fed the stream's events in order.
  pub projections-feed :
      (items : List (Item X)) (s : Live X G Actors)
      → (process_stream_with_dispatch X G Actors D dispatchers listened items s).1.projections
        ≡ feed X G (live_events items) s.projections
  unfolding process_stream_with_dispatch live_events feed
  projections-feed [] s = refl
  projections-feed (err status ∷ rest) s = refl
  projections-feed (ok response ∷ rest) s =
      response-feed response.content rest s (projections-feed rest)

  -- A projection among those of the live loop, whose stream delivers the events of a log from a
  -- position that the projection has passed, ends where applying the log to it would bring it,
  -- whatever the dispatch does: what is delivered again is not applied again.
  pub live_projection_exact :
      (P : Projection X) (runner : ProjectionRunner X P) (xs ys : List (DynProjection X G))
      (s : Live X G Actors) (items : List (Item X)) (p : ℕ) (log : List (RecordedEvent X))
      → s.projections ≡ xs ++ (erase_projection X P G runner ∷ ys)
      → p ≤ runner.checkpoint.last_global_position
      → live_events items ≡ from_position p log
      → IsShort X log
      → (xs' ys' : List (DynProjection X G)) × ((process_stream_with_dispatch X G Actors D
            dispatchers listened items s).1.projections
          ≡ xs'
            ++ (erase_projection X P G (record runner {
              checkpoint = consume (projection_cursor X P) runner.checkpoint log;
            })
                ∷ ys'))
  live_projection_exact P runner xs ys s items p log among le delivered short = (
    feed X G (live_events items) xs,
    feed X G (live_events items) ys,
    projections-feed items s
        ∙ ap (feed X G (live_events items)) among
        ∙ feed-erase X P G (live_events items) xs ys runner
        ∙ ap
            (λ c.
              feed X G (live_events items) xs
              ++ (erase_projection X P G (record runner { checkpoint = c })
                  ∷ feed X G (live_events items) ys))
            (ap (consume (projection_cursor X P) runner.checkpoint) delivered
              ∙ consume-from_position (projection_cursor X P) p runner.checkpoint log le short),
  )
