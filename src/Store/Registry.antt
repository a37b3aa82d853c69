-- ===== src/Store/Registry.antt =====
-- src/store.rs: the handle cache, `AggregateStore::get`, and the typed dispatcher. The cache is keyed
-- by the aggregate's TypeId and the instance id, so the entries of one aggregate type are a map from
-- instance ids, on which a downcast cannot fail; that map and the type's tasks are modelled here.
pub mod Tidy
pub mod Get
pub mod Dispatch
pub mod Race
use Prim.Native.String.{◌++◌ as str_append}
use eventfold_es.Prelude.{
  ℕ, String, Bool, true, false, Option, none, some, List, [], ◌∷◌, ◌++◌, Result, ok, err, str_eq,
  length, if◌then◌else◌,
}
use eventfold_es.Runtime.{Runtime, entry}
use eventfold_es.Map.{without, insert}
use eventfold_es.Command.{CommandEnvelope}
use eventfold_es.Aggregate.{Aggregate}
use eventfold_es.Event.{stream_uuid}
use eventfold_es.Error.{show_execute_error}
use eventfold_es.Client.{Grpc}
use eventfold_es.Io.{IoError, other_error, FilePath, Disk}
use eventfold_es.Actor.Ops.{EventStoreOps, es_client_ops}
use eventfold_es.Actor.Execute.{Actor}
use eventfold_es.Actor.Lifecycle.{Context, Received, running, spawn_actor_with_store}
use eventfold_es.Actor.Handle.{Cell, Fleet, receive, is_alive, handle_execute}
use eventfold_es.Store.{Outside, Dispatcher}

pub record Registry (X : Runtime) (A : Aggregate X) (S : EventStoreOps X) : Type 0 where
  pub cache : List (String × ℕ)
  pub fleet : Fleet X A S

module _ (X : Runtime) (A : Aggregate X) (S : EventStoreOps X) (base_dir : FilePath) where
  -- The fast path: an entry whose actor is alive.
  unfoldable pub cached : String → Registry X A S → Option ℕ
  cached id r = elim (entry id r.cache) [
    | none ↦ none
    | some handle ↦ if is_alive X A S handle r.fleet then some handle else none
  ]

  unfoldable pub evict : String → Registry X A S → Registry X A S
  evict id r = record r { cache = without id r.cache }

  -- The task of a new actor, waiting for its first message.
  unfoldable pub cell_of : String → Actor X A S → Cell X A
  cell_of id a = record {
    context = record {
      stream_id = stream_uuid X A.aggregate_type id;
      instance_id = id;
      base_dir = base_dir;
    };
    state = a.state;
    stream_version = a.stream_version;
    progress = running;
  }

  -- spawn_actor_with_config, with the handle of the task that it spawns.
  unfoldable pub spawn : String → Registry X A S → Result ℕ X.Status × Registry X A S
  unfolding cell_of
  spawn id r =
      let ((spawned, w), d) = spawn_actor_with_store X A S id base_dir r.fleet.world r.fleet.disk in
      elim spawned [
        | err status ↦ (err status, record r { fleet = record r.fleet { world = w; disk = d } })
        | ok a ↦ (
          ok (length r.fleet.cells),
          record r {
            fleet = record { cells = r.fleet.cells ++ cell_of id a ∷ []; world = w; disk = d };
          },
        )
      ]

  unfoldable pub keep : String → ℕ → Registry X A S → Registry X A S
  keep id handle r = record r { cache = insert id handle r.cache }

  -- A spawned actor is cached; an error leaves the entry evicted.
  unfoldable pub cache_spawned :
      String → Result ℕ X.Status × Registry X A S → Result ℕ X.Status × Registry X A S
  unfolding keep
  cache_spawned id (err status, r) = (err status, r)
  cache_spawned id (ok handle, r) = (ok handle, keep id handle r)

  -- AggregateStore::get
  unfoldable pub get : String → Registry X A S → Result ℕ X.Status × Registry X A S
  get id r =
      let done = cache_spawned id (spawn id (evict id r)) in
      elim (cached id r) [ some handle ↦ (ok handle, r) | none ↦ done ]

  -- Messages that tasks receive while another task waits.
  unfoldable pub meanwhile : List (ℕ × Received X A) → Registry X A S → Registry X A S
  meanwhile [] r = r
  meanwhile ((handle, m) ∷ rest) r =
      meanwhile rest (record r { fleet = (receive X A S handle m r.fleet).1 })

  -- TypedDispatcher::dispatch; `between` is what the process's actors receive between the handle's
  -- lookup and the command.
  unfoldable pub dispatch :
      List (ℕ × Received X A)
      → CommandEnvelope X
      → Registry X A S
      → Result (Unit {0}) IoError × Registry X A S
  unfolding meanwhile
  dispatch between envelope r = elim (A.command_from_value envelope.command) [
    | err e ↦ (err (other_error (str_append "command deserialization failed: " e)), r)
    | ok cmd ↦
        let (got, r1) = get envelope.instance_id r in
        elim got [
          | err status ↦
              (err (other_error (str_append "actor spawn failed: " (X.show_status status))), r1)
          | ok handle ↦
              let r2 = meanwhile between r1 in
              let (result, f) = handle_execute X A S handle cmd envelope.context r2.fleet in
              let r3 : Registry X A S = record r2 { fleet = f } in
              elim result [
                | ok events ↦ (ok tt, r3)
                | err e ↦ (
                  err (
                      other_error (
                        str_append "command execution failed: "
                          (show_execute_error X A.show_error e))),
                  r3,
                )
              ]
        ]
  ]

-- The actors of a store, without the server and the disk.
pub record Actors (X : Runtime) (A : Aggregate X) : Type 0 where
  pub cache : List (String × ℕ)
  pub cells : List (Cell X A)

module _ (X : Runtime) (A : Aggregate X) (G : Grpc X) (new_v4 : G.W → X.Uuid × G.W)
    (base_dir : FilePath) where
  -- Box::new(TypedDispatcher::<A>::new()), as the entry of the dispatcher map.
  unfoldable pub typed_dispatcher : List (ℕ × Received X A) → Dispatcher X G (Actors X A)
  unfolding dispatch
  typed_dispatcher between envelope o =
      let r : Registry X A (es_client_ops X G new_v4) = record {
        cache = o.actors.cache;
        fleet = record { cells = o.actors.cells; world = o.world; disk = o.disk };
      } in
      let (result, r') = dispatch X A (es_client_ops X G new_v4) base_dir between envelope r in
      (
        result,
        record {
          world = r'.fleet.world;
          disk = r'.fleet.disk;
          actors = record { cache = r'.cache; cells = r'.fleet.cells };
        },
      )
