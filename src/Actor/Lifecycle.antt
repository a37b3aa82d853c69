-- ===== src/Actor/Lifecycle.antt =====
-- src/actor.rs: spawning an actor, and the loop that serves its messages.
use Prim.Native.String.{◌++◌ as str_append}
use eventfold_es.Prelude.{
  ℕ, String, Option, none, some, List, [], ◌∷◌, ◌++◌, Result, ok, err, next_u64,
}
use eventfold_es.Runtime.{Runtime}
use eventfold_es.Command.{CommandContext}
use eventfold_es.Aggregate.{Aggregate}
use eventfold_es.Event.{ProposedEventData, stream_uuid}
use eventfold_es.Client.{any}
use eventfold_es.Io.{FilePath, Disk}
use eventfold_es.Error.{ExecuteError, StateError}
use eventfold_es.Snapshot.{Snapshot, save_snapshot, load_snapshot}
use eventfold_es.Actor.Ops.{EventStoreOps}
use eventfold_es.Actor.Execute.{Actor, Reply, catch_up, read_from, u64_max, execute_with_retry}

-- ActorContext, without the store, which is part of the actor's state.
pub record Context (X : Runtime) : Type 0 where
  pub stream_id : X.Uuid
  pub instance_id : String
  pub base_dir : FilePath

-- What `timeout(idle_timeout, rx.recv())` gives: a message, the closed channel, or the timeout.
pub data Received (X : Runtime) (A : Aggregate X) : Type 0 where
  execute : A.Command → CommandContext X → Received X A
  get_state : Received X A
  inject : ProposedEventData X → Received X A
  shutdown : Received X A
  closed : Received X A
  elapsed : Received X A

-- What the actor sends back over a message's `reply`.
pub data Answer (X : Runtime) (A : Aggregate X) : Type 0 where
  executed : Result (List A.DomainEvent) (ExecuteError X A.Error) → Answer X A
  state : Result A.State (StateError X) → Answer X A
  injected : Result (Unit {0}) X.Status → Answer X A

-- How the loop stands after a message.
pub data Progress : Type 0 where
  running stopped panicked : Progress

-- The actor with its disk, and what it has answered, newest last.
pub record Task (X : Runtime) (A : Aggregate X) (S : EventStoreOps X) : Type 0 where
  pub actor : Actor X A S
  pub disk : Disk X.Bytes
  pub answers : List (Answer X A)
  pub progress : Progress

-- stream_version.unwrap_or(0)
unfoldable pub unwrap_or_zero : Option ℕ → ℕ
unwrap_or_zero none = 0
unwrap_or_zero (some v) = v

module _ (X : Runtime) (A : Aggregate X) (S : EventStoreOps X) where
  -- An error is only logged.
  unfoldable pub save_snapshot_quietly :
      FilePath → String → A.State → ℕ → Disk X.Bytes → Disk X.Bytes
  save_snapshot_quietly base_dir instance_id s version d =
      (save_snapshot X A base_dir instance_id (record { state = s; stream_version = version }) d).1

  -- What shutting down, a closed channel and an idle timeout do.
  unfoldable pub stop : Context X → Task X A S → Task X A S
  unfolding unwrap_or_zero
  stop c t = record t {
    disk =
        save_snapshot_quietly c.base_dir c.instance_id t.actor.state
          (unwrap_or_zero t.actor.stream_version) t.disk;
    progress = stopped;
  }

  -- The re-read after an injection; if it fails the actor stays as it was.
  unfoldable pub refresh : Context X → Actor X A S → Actor X A S
  refresh c a =
      let (result, w) = S.read_stream c.stream_id (read_from a.stream_version) u64_max a.store in
      elim result [
        | err _ ↦ record a { store = w }
        | ok events ↦
            let (s, version) = catch_up X A a.state a.stream_version events in
            record { store = w; state = s; stream_version = version }
      ]

  unfoldable pub inject_event :
      Context X → ProposedEventData X → Actor X A S → Result (Unit {0}) X.Status × Actor X A S
  unfolding refresh
  inject_event c p a =
      let (result, w) = S.append c.stream_id any (p ∷ []) a.store in
      let a' : Actor X A S = record a { store = w } in
      elim result [ ok _ ↦ (ok tt, refresh c a') | err status ↦ (err status, a') ]

  -- A panic in the handler ends the task with no answer and no snapshot.
  unfoldable pub answer_execute : Reply X A S → Task X A S → Task X A S
  answer_execute (some result) t = record t { answers = t.answers ++ executed result ∷ [] }
  answer_execute none t = record t { progress = panicked }

  -- One message.
  unfoldable pub serve : Context X → Received X A → Task X A S → Task X A S
  unfolding stop inject_event answer_execute
  serve c (execute command context) t =
      let (reply, a) =
        execute_with_retry X A S
          (record {
            stream_id = c.stream_id;
            instance_id = c.instance_id;
            command = command;
            context = context;
          })
          t.actor in
      answer_execute reply (record t { actor = a })
  serve c get_state t = record t { answers = t.answers ++ state (ok t.actor.state) ∷ [] }
  serve c (inject p) t =
      let (result, a) = inject_event c p t.actor in
      record t { actor = a; answers = t.answers ++ injected result ∷ [] }
  serve c shutdown t = stop c t
  serve c closed t = stop c t
  serve c elapsed t = stop c t

  -- The loop over what is received, until it breaks or panics.
  unfoldable pub run_actor : Context X → List (Received X A) → Task X A S → Task X A S
  unfolding serve
  run_actor c [] t = t
  run_actor c (m ∷ rest) t =
      let after = run_actor c rest (serve c m t) in
      elim t.progress [ running ↦ after | stopped ↦ t | panicked ↦ t ]

  -- Where catching up starts: the state, its version, and the first version to read.
  unfoldable pub start_from : Option (Snapshot X A) → A.State × Option ℕ × ℕ
  start_from none = (A.default, none, 0)
  start_from (some snap) = (snap.state, some snap.stream_version, next_u64 snap.stream_version)

  unfoldable pub catch_up_from :
      X.Uuid → Option (Snapshot X A) → S.W → Result (Actor X A S) X.Status × S.W
  unfolding start_from
  catch_up_from stream_id snapshot w =
      let (s, version, from) = start_from snapshot in
      let (result, w') = S.read_stream stream_id from u64_max w in
      elim result [
        | err status ↦ (err status, w')
        | ok events ↦
            let (s', version') = catch_up X A s version events in
            (ok (record { store = w'; state = s'; stream_version = version' }), w')
      ]

  -- The actor that the spawned task starts with, or why none is spawned.
  unfoldable pub spawn_actor_with_store :
      String → FilePath → S.W → Disk X.Bytes → (Result (Actor X A S) X.Status × S.W) × Disk X.Bytes
  unfolding catch_up_from
  spawn_actor_with_store instance_id base_dir w d =
      let (loaded, d') = load_snapshot X A base_dir instance_id d in
      elim loaded [
        | err e ↦ ((err (X.internal (str_append "snapshot load error: " e.message)), w), d')
        | ok snapshot ↦ (catch_up_from (stream_uuid X A.aggregate_type instance_id) snapshot w, d')
      ]
