-- ===== src/Actor/Restart.antt =====
-- src/actor.rs and src/snapshot.rs: stopping an actor and spawning it again from its snapshot.
use eventfold_es.Prelude.{
  ℕ, ◌≡◌, refl, sym, ◌∙◌, ap, none, some, List, [], ◌++◌, ok, drop, eq-nil_of_length, append_assoc,
  next_u64, next_u64-eq, arith,
}
use eventfold_es.Runtime.{Runtime}
use eventfold_es.Aggregate.{Aggregate}
use eventfold_es.Event.{RecordedEvent, stream_uuid}
use eventfold_es.Io.{next_fault}
use eventfold_es.Snapshot.{Snapshot, save_snapshot}
use eventfold_es.Snapshot.Files.{load-save}
use eventfold_es.Actor.Ops.{EventStoreOps}
use eventfold_es.Actor.Execute.{Actor, read_from}
use eventfold_es.Actor.Server.{IsLogServer}
use eventfold_es.Actor.Replay.{applied, replay, catch_up-replay}
use eventfold_es.Actor.Coherence.{IsCoherent}
use eventfold_es.Actor.Lifecycle.{
  Context, Task, unwrap_or_zero, stop, save_snapshot_quietly, catch_up_from, spawn_actor_with_store,
}
use eventfold_es.Actor.Spawn.{IsCurrent, catch_up_from-IsCurrent, catch_up_from-ok}

module _ (X : Runtime) (A : Aggregate X) (S : EventStoreOps X) where
  -- The snapshot that stopping writes.
  abbrev pub last_snapshot : Task X A S → Snapshot X A
  last_snapshot t = record {
    state = t.actor.state;
    stream_version = unwrap_or_zero t.actor.stream_version;
  }

  -- A snapshot of this aggregate reads back, the disk took it, and the next read is not disturbed.
  pub record IsSaved (c : Context X) (t : Task X A S) : Type 0 where
    pub round :
        (b : X.Bytes)
        → A.snapshot_to_vec t.actor.state (unwrap_or_zero t.actor.stream_version) ≡ ok b
        → A.snapshot_from_slice b ≡ some (t.actor.state, unwrap_or_zero t.actor.stream_version)
    pub saved : (save_snapshot X A c.base_dir c.instance_id (last_snapshot t) t.disk).0 ≡ ok tt
    pub quiet :
        (next_fault
          (save_snapshot X A c.base_dir c.instance_id (last_snapshot t) t.disk).1.faults).0
        ≡ none

  -- The stream of a context, as spawning names it.
  abbrev pub stream_of : Context X → X.Uuid
  stream_of c = stream_uuid X A.aggregate_type c.instance_id

  spawn-stop :
      (c : Context X) (t : Task X A S) (w : S.W)
      → IsSaved c t
      → (spawn_actor_with_store X A S c.instance_id c.base_dir w (stop X A S c t).disk).0
        ≡ catch_up_from X A S (stream_of c) (some (last_snapshot t)) w
  unfolding spawn_actor_with_store stop save_snapshot_quietly
  spawn-stop c t w h =
      let loaded =
        load-save X A c.base_dir c.instance_id (last_snapshot t) t.disk h.round h.saved h.quiet in
      rw (loaded, spawn_actor_with_store)

  module _ (c : Context X) (L : IsLogServer X S (stream_of c)) where
    -- An actor that has seen events is stopped, its snapshot saved, and spawned again when the log
    -- has grown by any events: if the spawn succeeds, the new actor has replayed the whole log.
    pub restart-IsCurrent :
        (t : Task X A S) (v : ℕ) (w : S.W) (more : List (RecordedEvent X)) (a : Actor X A S)
        → IsCoherent X A S L t.actor
        → t.actor.stream_version ≡ some v
        → IsSaved c t
        → L.log w ≡ L.log t.actor.store ++ more
        → (spawn_actor_with_store X A S c.instance_id c.base_dir w (stop X A S c t).disk).0.0 ≡ ok a
        → IsCurrent X A S L w a
    unfolding unwrap_or_zero
    restart-IsCurrent t v w more a h e saved g spawned =
        catch_up_from-IsCurrent X A S L (some (last_snapshot t)) w a
          (record {
            seen = h.seen;
            rest = h.rest ++ more;
            log = g ∙ ap (λ l. l ++ more) h.log ∙ append_assoc h.seen h.rest more;
            state = h.state;
            version = rw (e, unwrap_or_zero) (rw e at (h.version));
          })
          (sym (ap (λ r. r.0) (spawn-stop c t w saved)) ∙ spawned)

    -- An actor that has seen no event is stopped and its snapshot saved: if the next spawn succeeds,
    -- its state is the replay, without its first event, of the server's log as it was read: the log
    -- that the spawn found with the events `before` that other clients added until then.
    pub restart_skips_first :
        (t : Task X A S) (w : S.W) (a : Actor X A S)
        → IsCoherent X A S L t.actor
        → t.actor.stream_version ≡ none
        → IsSaved c t
        → (spawn_actor_with_store X A S c.instance_id c.base_dir w (stop X A S c t).disk).0.0 ≡ ok a
        → (before later : List (RecordedEvent X)) × (L.log a.store ≡ (L.log w ++ before) ++ later)
          × (a.state ≡ replay X A A.default (drop 1 (L.log w ++ before)))
    unfolding unwrap_or_zero read_from
    restart_skips_first t w a h e saved spawned =
        let snap = last_snapshot t in
        let (es, q, made) =
          catch_up_from-ok X A S L (some snap) w a
            (sym (ap (λ r. r.0) (spawn-stop c t w saved)) ∙ spawned) in
        let out = L.after_read (read_from (some snap.stream_version)) w es q in
        let unseen : h.seen ≡ [] =
          eq-nil_of_length h.seen (omega (arith, h.version, ap applied e)) in
        let from : read_from (some snap.stream_version) ≡ 1 =
          ap (λ v. next_u64 (unwrap_or_zero v)) e ∙ next_u64-eq 0 (omega arith) in
        (
          out.0,
          out.1,
          ap (λ x. L.log x.store) made ∙ out.2,
          ap (λ x. x.state) made
              ∙ catch_up-replay X A snap.state (some snap.stream_version) es
              ∙ ap (λ l. replay X A l es) (h.state ∙ ap (replay X A A.default) unseen)
              ∙ ap (replay X A (replay X A A.default []))
                  (out.3 ∙ ap (λ n. drop n (L.log w ++ out.0)) from)
              ∙ unfold replay in refl,
        )
