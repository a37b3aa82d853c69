-- ===== src/Actor/Coherence.antt =====
-- The invariant of an actor: its state and version are those of a prefix of the server's log.
use eventfold_es.Prelude.{
  ◌+◌, ◌<◌, ◌≡◌, sym, ◌∙◌, ap, List, ◌++◌, append_assoc, arith, length, drop, length-append,
  drop-length_append, u64_mod,
}
use eventfold_es.Runtime.{Runtime}
use eventfold_es.Aggregate.{Aggregate}
use eventfold_es.Event.{RecordedEvent}
use eventfold_es.Actor.Ops.{EventStoreOps}
use eventfold_es.Actor.Execute.{Actor, catch_up, read_from}
use eventfold_es.Actor.Server.{IsLogServer, IsNumbered}
use eventfold_es.Actor.Replay.{
  applied, replay, read_from-applied, replay-append, catch_up-replay, applied-catch_up,
  IsNumbered-append_right, IsNumbered-append_left,
}

module _ (X : Runtime) (A : Aggregate X) (S : EventStoreOps X) {stream : X.Uuid}
    (L : IsLogServer X S stream) where
  pub record IsCoherent (a : Actor X A S) : Type 0 where
    pub seen : List (RecordedEvent X)
    pub rest : List (RecordedEvent X)
    pub log : L.log a.store ≡ seen ++ rest
    pub state : a.state ≡ replay X A A.default seen
    pub version : applied a.stream_version ≡ length seen

  -- A longer log keeps an actor coherent.
  pub IsCoherent-grow :
      (a : Actor X A S) (w : S.W) (more : List (RecordedEvent X))
      → L.log w ≡ L.log a.store ++ more
      → IsCoherent a
      → IsCoherent (record a { store = w })
  IsCoherent-grow a w more g h = record {
    seen = h.seen;
    rest = h.rest ++ more;
    log = rw (g, h.log) (append_assoc h.seen h.rest more);
    state = h.state;
    version = h.version;
  }

  pub applied-lt : (a : Actor X A S) → IsCoherent a → applied a.stream_version < u64_mod
  applied-lt a h =
      omega (arith, L.short a.store, h.version, ap length h.log, length-append h.seen h.rest)

  -- What a read from the actor's version returns is all that the actor has not seen.
  unseen-eq :
      (a : Actor X A S) (before events : List (RecordedEvent X)) (h : IsCoherent a)
      → events ≡ drop (read_from a.stream_version) (L.log a.store ++ before)
      → events ≡ h.rest ++ before
  unseen-eq a before events h e =
      e
      ∙ ap (λ n. drop n (L.log a.store ++ before))
          (read_from-applied a.stream_version (applied-lt a h) ∙ h.version)
      ∙ ap (λ l. drop (length h.seen) (l ++ before)) h.log
      ∙ ap (drop (length h.seen)) (append_assoc h.seen h.rest before)
      ∙ drop-length_append h.seen (h.rest ++ before)

  -- Re-reading from the actor's version brings it up to what the server showed.
  pub IsCoherent-catch_up :
      (a : Actor X A S) (w : S.W) (before later events : List (RecordedEvent X))
      → IsCoherent a
      → L.log w ≡ (L.log a.store ++ before) ++ later
      → events ≡ drop (read_from a.stream_version) (L.log a.store ++ before)
      → IsCoherent (record {
        store = w;
        state = (catch_up X A a.state a.stream_version events).0;
        stream_version = (catch_up X A a.state a.stream_version events).1;
      })
  IsCoherent-catch_up a w before later events h g e = record {
    seen = h.seen ++ events;
    rest = later;
    log = whole;
    state =
        catch_up-replay X A a.state a.stream_version events
        ∙ ap (λ s. replay X A s events) h.state
        ∙ sym (replay-append X A A.default h.seen events);
    version = omega (
      arith,
      applied-catch_up X A a.state a.stream_version events tail_numbered,
      h.version,
      length-append h.seen events,
    );
  }
    where
      tail : events ≡ h.rest ++ before
      tail = unseen-eq a before events h e

      whole : L.log w ≡ (h.seen ++ events) ++ later
      whole =
          g
          ∙ ap (λ l. (l ++ before) ++ later) h.log
          ∙ ap (λ l. l ++ later) (append_assoc h.seen h.rest before)
          ∙ ap (λ l. (h.seen ++ l) ++ later) (sym tail)

      tail_numbered : IsNumbered X (applied a.stream_version) events
      tail_numbered =
          let zero_left : 0 + length h.seen ≡ length h.seen = omega arith in
          rw (h.version, ← zero_left)
            (IsNumbered-append_right X 0 h.seen events
              (IsNumbered-append_left X 0 (h.seen ++ events) later (rw whole at (L.numbered w))))

  -- After the re-read the actor has seen all that the server showed.
  pub seen-catch_up :
      (a : Actor X A S) (w : S.W) (before later events : List (RecordedEvent X)) (h : IsCoherent a)
      (g : L.log w ≡ (L.log a.store ++ before) ++ later)
      (e : events ≡ drop (read_from a.stream_version) (L.log a.store ++ before))
      → (IsCoherent-catch_up a w before later events h g e).seen ≡ L.log a.store ++ before
  unfolding IsCoherent-catch_up
  seen-catch_up a w before later events h g e =
      ap (λ l. h.seen ++ l) (unseen-eq a before events h e)
      ∙ sym (append_assoc h.seen h.rest before)
      ∙ ap (λ l. l ++ before) (sym h.log)
