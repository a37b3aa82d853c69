-- ===== src/Live/Order.antt =====
-- src/live.rs: the projections are a hash map, whose iteration order is not known. What the loop
-- does, seen without that order.
use mathlib.Core.List.{Perm, foldr, map}
use mathlib.Core.List.Perm
use mathlib.Core.Quot
use mathlib.Core.Quot.{Quot, Quot-set}
use native.Mathlib.Nat.{ℕ_set}
use Prim.Native.Nat.{min}
use eventfold_es.Prelude.{
  Bool, ℕ, ◌≡◌, refl, sym, ap, ◌∙◌, Bool, true, ◌==◌, if◌then◌else◌, Option, none, some, List, [],
  ◌∷◌, String, ok, err, arith,
}
use eventfold_es.Actor.Execute.{u64_max}
use eventfold_es.Runtime.{Runtime}
use eventfold_es.Event.{RecordedEvent}
use eventfold_es.Client.{Grpc}
use eventfold_es.Client.Proto.{Content, event, caught_up}
use eventfold_es.Cursor.{Item}
use eventfold_es.Projection.{stream_failed}
use eventfold_es.Store.{DynProcessManager, Outside, Dispatcher, DeadLetters}
use eventfold_es.Live.{
  DynProjection, Live, StreamOutcome, ended, error, min_projections, min_managers,
  min_global_position, apply_one, apply_to_all, send_position, react_all, dispatch_live_work,
  handle_event, process_stream_with_dispatch,
}

module _ (X : Runtime) (G : Grpc X) where
  abbrev lower : DynProjection X G → ℕ → ℕ
  lower p n = min (p.position p.self) n

  min_projections-min :
      (a m : ℕ) (ps : List (DynProjection X G))
      → min_projections X G (min m a) ps ≡ min a (min_projections X G m ps)
  unfolding min_projections
  min_projections-min a m [] = omega arith
  min_projections-min a m (p ∷ ps) =
      ap (λ (n : ℕ). min_projections X G n ps) (omega arith)
      ∙ min_projections-min a (min m (p.position p.self)) ps

  min_projections-foldr :
      (m : ℕ) (ps : List (DynProjection X G)) → min_projections X G m ps ≡ foldr lower m ps
  unfolding min_projections
  min_projections-foldr m [] = refl
  min_projections-foldr m (p ∷ ps) =
      min_projections-min (p.position p.self) m ps ∙ ap (lower p) (min_projections-foldr m ps)

  min_projections-Perm :
      {ps qs : List (DynProjection X G)} (m : ℕ)
      → Perm ps qs
      → min_projections X G m ps ≡ min_projections X G m qs
  min_projections-Perm {ps} {qs} m h =
      min_projections-foldr m ps
      ∙ Perm.foldr-eq ℕ_set lower (λ a b n. omega arith) h m
      ∙ sym (min_projections-foldr m qs)

  -- The minimum, from that of the projections.
  abbrev from_minimum : List (DynProcessManager X G) → ℕ → ℕ
  from_minimum pms m =
      let min_pos = min_managers X G m pms in if min_pos == u64_max then 0 else min_pos

  min_global_position-Perm :
      (pms : List (DynProcessManager X G)) (ps qs : List (DynProjection X G))
      → Perm ps qs
      → min_global_position X G ps pms ≡ min_global_position X G qs pms
  unfolding min_global_position
  min_global_position-Perm pms ps qs h = ap (from_minimum pms) (min_projections-Perm u64_max h)

  apply_to_all-map :
      (r : RecordedEvent X) (ps : List (DynProjection X G))
      → apply_to_all X G r ps ≡ map (apply_one X G r) ps
  unfolding apply_to_all
  apply_to_all-map r [] = refl
  apply_to_all-map r (p ∷ ps) = ap (λ l. apply_one X G r p ∷ l) (apply_to_all-map r ps)

  apply_to_all-Perm :
      (r : RecordedEvent X) (ps qs : List (DynProjection X G))
      → Perm ps qs
      → Perm (apply_to_all X G r ps) (apply_to_all X G r qs)
  apply_to_all-Perm r ps qs h =
      rw (apply_to_all-map r ps, apply_to_all-map r qs) (Perm.map (apply_one X G r) h)

-- What the loop holds of the store, without the order of the projections.
pub record View (X : Runtime) (G : Grpc X) (Actors : Type 0) : Type 1 where
  pub projections : Quot (Perm {A = DynProjection X G})
  pub process_managers : List (DynProcessManager X G)
  pub outside : Outside X G Actors
  pub is_caught_up : Bool
  pub position : ℕ

module _ (X : Runtime) (G : Grpc X) (Actors : Type 0) where
  abbrev pub view : Live X G Actors → View X G Actors
  view s = record {
    projections = Quot.mk s.projections;
    process_managers = s.process_managers;
    outside = s.outside;
    is_caught_up = s.is_caught_up;
    position = s.position;
  }

  -- The position to subscribe from, the fan-out of one event, and the loop over a stream, of a view.
  view_position : View X G Actors → ℕ
  view_position v =
      Quot.lift ℕ_set (λ ps. min_global_position X G ps v.process_managers)
        (min_global_position-Perm X G v.process_managers) v.projections

  feed_view :
      RecordedEvent X → Quot (Perm {A = DynProjection X G}) → Quot (Perm {A = DynProjection X G})
  feed_view r =
      Quot.lift Quot-set (λ ps. Quot.mk (apply_to_all X G r ps))
        (λ ps qs h. Quot.sound (apply_to_all-Perm X G r ps qs h))

  module _ (D : DeadLetters X G) (dispatchers : List (String × Dispatcher X G Actors))
      (listened : RecordedEvent X → Bool) where
    handle_view : RecordedEvent X → View X G Actors → View X G Actors
    unfolding feed_view
    handle_view r v =
        let (pms, work) = react_all X G r v.process_managers in
        record {
          projections = feed_view r v.projections;
          process_managers = pms;
          outside = dispatch_live_work X G Actors D dispatchers work v.outside;
          is_caught_up = v.is_caught_up;
          position = send_position (listened r) r.global_position v.position;
        }

    pub process_view : List (Item X) → View X G Actors → StreamOutcome × View X G Actors
    process_view [] v = (ended, v)
    process_view (err status ∷ rest) v = (error (stream_failed X status), v)
    process_view (ok response ∷ rest) v = elim response.content [
      | some (event r) ↦ process_view rest (handle_view r v)
      | some caught_up ↦ process_view rest (record v { is_caught_up = true })
      | none ↦ process_view rest v
    ]

    abbrev pub view_result : StreamOutcome × Live X G Actors → StreamOutcome × View X G Actors
    view_result (outcome, s) = (outcome, view s)

    response-view :
        (o : Option (Content X)) (rest : List (Item X)) (s : Live X G Actors)
        → ((s' : Live X G Actors)
            → view_result (process_stream_with_dispatch X G Actors D dispatchers listened rest s')
              ≡ process_view rest (view s'))
        → view_result (
            process_stream_with_dispatch X G Actors D dispatchers listened
              (ok (record { content = o }) ∷ rest)
              s)
          ≡ process_view (ok (record { content = o }) ∷ rest) (view s)
    unfolding process_stream_with_dispatch process_view handle_event handle_view
    response-view none rest s ih = ih s
    response-view (some (event r)) rest s ih =
        ih (handle_event X G Actors D dispatchers listened r s)
    response-view (some caught_up) rest s ih = ih (record s { is_caught_up = true })

    -- The loop over a stream is one on views: its outcome, its dispatches, its process managers and
    -- signals, and the projections up to order, do not depend on the order of the projections.
    pub process-view :
        (items : List (Item X)) (s : Live X G Actors)
        → view_result (process_stream_with_dispatch X G Actors D dispatchers listened items s)
          ≡ process_view items (view s)
    unfolding process_stream_with_dispatch process_view
    process-view [] s = refl
    process-view (err status ∷ rest) s = refl
    process-view (ok response ∷ rest) s = response-view response.content rest s (process-view rest)

    -- Two states of the live loop that differ only in the order of the projections subscribe from the
    -- same position, and over any stream come to the same outcome and to states that again differ
    -- only in that order: the same commands are dispatched to the same effect.
    pub order_is_irrelevant :
        (items : List (Item X)) (s t : Live X G Actors)
        → view s ≡ view t
        → (min_global_position X G s.projections s.process_managers
            ≡ min_global_position X G t.projections t.process_managers)
          × ((process_stream_with_dispatch X G Actors D dispatchers listened items s).0
              ≡ (process_stream_with_dispatch X G Actors D dispatchers listened items t).0)
          × (view (process_stream_with_dispatch X G Actors D dispatchers listened items s).1
              ≡ view (process_stream_with_dispatch X G Actors D dispatchers listened items t).1)
    unfolding view_position
    order_is_irrelevant items s t h =
        let same = process-view items s ∙ ap (process_view items) h ∙ sym (process-view items t) in
        (ap view_position h, ap (λ p. p.0) same, ap (λ p. p.1) same)
