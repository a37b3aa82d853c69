-- ===== src/Actor/Service.antt =====
-- src/actor.rs: the message loop, and the actor's coherence with the server's log.
use eventfold_es.Prelude.{◌≡◌, refl, inl, inr, ◌⊎◌, none, some, List, [], ◌∷◌, Result-cases}
use eventfold_es.Runtime.{Runtime, RuntimeLaws}
use eventfold_es.Aggregate.{Aggregate, IsAdjacentlyTagged}
use eventfold_es.Event.{ProposedEventData}
use eventfold_es.Client.{any}
use eventfold_es.Actor.Ops.{EventStoreOps}
use eventfold_es.Actor.Execute.{Actor, Reply, read_from, u64_max}
use eventfold_es.Actor.Server.{IsLogServer}
use eventfold_es.Actor.Coherence.{IsCoherent, IsCoherent-grow, IsCoherent-catch_up}
use eventfold_es.Actor.Commit.{execute_with_retry-IsCoherent}
use eventfold_es.Actor.Lifecycle.{
  Context, Received, execute, get_state, inject, shutdown, closed, elapsed, Task, Progress, running,
  stopped, panicked, refresh, inject_event, answer_execute, serve, run_actor,
}

Progress-cases : (p : Progress) → (p ≡ running) ⊎ ((p ≡ stopped) ⊎ (p ≡ panicked))
Progress-cases running = inl refl
Progress-cases stopped = inr (inl refl)
Progress-cases panicked = inr (inr refl)

module _ {X : Runtime} {A : Aggregate X} {S : EventStoreOps X} where
  pub answer_execute-actor :
      (reply : Reply X A S) (t : Task X A S) → (answer_execute X A S reply t).actor ≡ t.actor
  unfolding answer_execute
  answer_execute-actor none t = refl
  answer_execute-actor (some res) t = refl

module _ (X : Runtime) (A : Aggregate X) (S : EventStoreOps X) (c : Context X)
    (L : IsLogServer X S c.stream_id) where
  refresh-IsCoherent :
      (a : Actor X A S) → IsCoherent X A S L a → IsCoherent X A S L (refresh X A S c a)
  unfolding refresh
  refresh-IsCoherent a h =
      let from = read_from a.stream_version in
      elim (Result-cases (S.read_stream c.stream_id from u64_max a.store).0) [
        | inl (es, e) ↦
            let (before, later, g, d) = L.after_read from a.store es e in
            rw (e, refresh) (IsCoherent-catch_up X A S L a _ before later es h g d)
        | inr (st, e) ↦
            let (more, g) = L.after_failed_read from a.store st e in
            rw (e, refresh) (IsCoherent-grow X A S L a _ more g h)
      ]

  inject_event-IsCoherent :
      (p : ProposedEventData X) (a : Actor X A S)
      → IsCoherent X A S L a
      → IsCoherent X A S L (inject_event X A S c p a).1
  unfolding inject_event
  inject_event-IsCoherent p a h =
      let (more, g) = L.append_grows any (p ∷ []) a.store in
      let grown = IsCoherent-grow X A S L a _ more g h in
      elim (Result-cases (S.append c.stream_id any (p ∷ []) a.store).0) [
        | inl (resp, e) ↦ rw (e, inject_event) (refresh-IsCoherent _ grown)
        | inr (st, e) ↦ rw (e, inject_event) grown
      ]

  module _ (laws : RuntimeLaws X) (tagged : (e : A.DomainEvent) → IsAdjacentlyTagged X A e) where
    -- Each message, whatever it is and however it ends, leaves the actor coherent.
    pub serve-IsCoherent :
        (m : Received X A) (t : Task X A S)
        → IsCoherent X A S L t.actor
        → IsCoherent X A S L (serve X A S c m t).actor
    unfolding serve
    serve-IsCoherent (execute command context) t h =
        rw answer_execute-actor (execute_with_retry-IsCoherent X A S _ L laws tagged t.actor h)
    serve-IsCoherent get_state t h = h
    serve-IsCoherent (inject p) t h = inject_event-IsCoherent p t.actor h
    serve-IsCoherent shutdown t h = h
    serve-IsCoherent closed t h = h
    serve-IsCoherent elapsed t h = h

    -- Whatever messages an actor receives, and however the server answers, an actor whose state and
    -- version are those of a prefix of the stream's log is so again after serving them, if the
    -- aggregate's events are adjacently tagged and their contents survive their JSON text. What is
    -- injected may have any payload and any id, also one that the server has recorded before.
    pub run_actor-IsCoherent :
        (ms : List (Received X A)) (t : Task X A S)
        → IsCoherent X A S L t.actor
        → IsCoherent X A S L (run_actor X A S c ms t).actor
    unfolding run_actor
    run_actor-IsCoherent [] t h = h
    run_actor-IsCoherent (m ∷ ms) t h = elim (Progress-cases t.progress) [
      | inl q ↦
          rw (q, run_actor) (run_actor-IsCoherent ms (serve X A S c m t) (serve-IsCoherent m t h))
      | inr (inl q) ↦ rw (q, run_actor) h
      | inr (inr q) ↦ rw (q, run_actor) h
    ]
