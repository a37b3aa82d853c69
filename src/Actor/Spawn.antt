-- ===== src/Actor/Spawn.antt =====
-- src/actor.rs: what an actor starts with, compared with the replay of the server's log.
use eventfold_es.Prelude.{
  ◌≡◌, refl, inl, inr, Option, none, some, List, [], ◌++◌, ok, length, Result-cases,
}
use eventfold_es.Runtime.{Runtime}
use eventfold_es.Aggregate.{Aggregate}
use eventfold_es.Event.{RecordedEvent}
use eventfold_es.Snapshot.{Snapshot}
use eventfold_es.Actor.Ops.{EventStoreOps}
use eventfold_es.Actor.Execute.{Actor, catch_up, read_from, u64_max}
use eventfold_es.Actor.Server.{IsLogServer}
use eventfold_es.Actor.Replay.{applied, replay}
use eventfold_es.Actor.Coherence.{IsCoherent, IsCoherent-catch_up, seen-catch_up}
use eventfold_es.Actor.Lifecycle.{catch_up_from}

module _ (X : Runtime) (A : Aggregate X) (S : EventStoreOps X) {stream : X.Uuid}
    (L : IsLogServer X S stream) where
  -- The actor that a snapshot stands for, before any event is read.
  abbrev pub start : Option (Snapshot X A) → S.W → Actor X A S
  start snapshot w = record {
    store = w;
    state = elim snapshot [ none ↦ A.default | some snap ↦ snap.state ];
    stream_version = elim snapshot [ none ↦ none | some snap ↦ some snap.stream_version ];
  }

  -- The actor's state and version are those of the whole log at some moment since `w`.
  pub record IsCurrent (w : S.W) (a : Actor X A S) : Type 0 where
    pub before : List (RecordedEvent X)
    pub later : List (RecordedEvent X)
    pub log : L.log a.store ≡ (L.log w ++ before) ++ later
    pub state : a.state ≡ replay X A A.default (L.log w ++ before)
    pub version : applied a.stream_version ≡ length (L.log w ++ before)

  start-IsCoherent : (w : S.W) → IsCoherent X A S L (start none w)
  start-IsCoherent w = record {
    seen = [];
    rest = L.log w;
    log = refl;
    state = unfold replay in refl;
    version = refl;
  }

  -- What a spawn that succeeded has read, and the actor that it made of it.
  abbrev pub caught_up : Option (Snapshot X A) → S.W → List (RecordedEvent X) → Actor X A S
  caught_up snapshot w es =
      let from = start snapshot w in
      record {
        store = (S.read_stream stream (read_from from.stream_version) u64_max w).1;
        state = (catch_up X A from.state from.stream_version es).0;
        stream_version = (catch_up X A from.state from.stream_version es).1;
      }

  pub catch_up_from-ok :
      (snapshot : Option (Snapshot X A)) (w : S.W) (a : Actor X A S)
      → (catch_up_from X A S stream snapshot w).0 ≡ ok a
      → (es : List (RecordedEvent X)) × ((S.read_stream stream
            (read_from (start snapshot w).stream_version)
            u64_max
            w).0
          ≡ ok es)
        × (a ≡ caught_up snapshot w es)
  unfolding catch_up_from read_from
  catch_up_from-ok none w a h = elim (Result-cases (S.read_stream stream 0 u64_max w).0) [
    | inl (es, e) ↦ (es, e, cc (rw (e, catch_up_from) at h))
    | inr (st, e) ↦ cc (rw (e, catch_up_from) at h)
  ]
  catch_up_from-ok (some snap) w a h =
      elim (Result-cases
        (S.read_stream stream (read_from (some snap.stream_version)) u64_max w).0) [
          | inl (es, e) ↦ (es, e, cc (rw (e, catch_up_from) at h))
          | inr (st, e) ↦ cc (rw (e, catch_up_from) at h)
        ]

  -- A spawn from a snapshot, or from none, whose state is the replay of a prefix of the log, if it
  -- succeeds, gives an actor that has replayed at least the whole log of the time of the spawn.
  pub catch_up_from-IsCurrent :
      (snapshot : Option (Snapshot X A)) (w : S.W) (a : Actor X A S)
      → IsCoherent X A S L (start snapshot w)
      → (catch_up_from X A S stream snapshot w).0 ≡ ok a
      → IsCurrent w a
  catch_up_from-IsCurrent snapshot w a h ok_a =
      let (es, e, made) = catch_up_from-ok snapshot w a ok_a in
      let out = L.after_read (read_from (start snapshot w).stream_version) w es e in
      let c = IsCoherent-catch_up X A S L (start snapshot w) _ out.0 out.1 es h out.2 out.3 in
      let seen = seen-catch_up X A S L (start snapshot w) _ out.0 out.1 es h out.2 out.3 in
      rw made (record {
        before = out.0;
        later = out.1;
        log = out.2;
        state = rw seen at (c.state);
        version = rw seen at (c.version);
      })

  pub IsCurrent-IsCoherent : (w : S.W) (a : Actor X A S) → IsCurrent w a → IsCoherent X A S L a
  IsCurrent-IsCoherent w a h = record {
    seen = L.log w ++ h.before;
    rest = h.later;
    log = h.log;
    state = h.state;
    version = h.version;
  }
