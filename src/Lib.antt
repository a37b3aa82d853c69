-- ===== src/Lib.antt =====
-- Verification of eventfold-es, an event-sourcing framework over a gRPC event store.
--
-- The program. An aggregate instance is served by an actor (src/actor.rs): it loads a snapshot
-- (src/snapshot.rs), catches up on its stream, decides commands and appends the events that they
-- produce with optimistic concurrency, and saves a snapshot when it stops. Events are encoded
-- and decoded by src/event.rs and sent by src/client.rs. Projections (src/projection.rs) and
-- process managers (src/process_manager.rs) read the global log from a checkpoint; the store
-- (src/store.rs) runs the process managers and dispatches the commands that they emit, or
-- dead-letters them; the live loop (src/live.rs) feeds both from one subscription.
--
-- The files. Each names its source in its first line.
-- - Prelude: shared tests, results and lists over the native numbers.
-- - Runtime: the uuid, serde_json and tonic crates, as a record of operations and a record of
--   laws. That a value survives its JSON text is no law: serde_json's default parser may round an
--   f64 and refuses deep nesting. It is a condition of the theorems, on the payload or on the
--   contents of the aggregate's events (`ReadsBack`).
-- - Io: std::fs as a disk whose operations may fail by a given list of faults, and Path::join on
--   lists of components; no symbolic link and no `..` is followed. Io/Atomic: saving through a
--   temporary file.
-- - Command, Error, Aggregate, Event, Client, Client/Proto: the data and the codec.
--   Client/Transport: the plain and the authenticated client (`EsClientInner`), with what goes
--   out in its Headers. The traits Aggregate, Projection and ProcessManager are records of
--   operations, serde's derived code included. Event/Stored: what a reader makes of a proposed
--   event.
-- - Snapshot: save_snapshot and load_snapshot; Snapshot/Files: its theorems.
-- - Actor/Ops: EventStoreOps; Actor/Execute: execute_with_retry, whose loop body is `attempt`;
--   Actor/Lifecycle: run_actor (`run_actor`, one message is `serve`) and spawn_actor_with_store.
--   Actor/Server says what an append-only event store does with one stream, which
--   may drop an event whose id it knows; Actor/Codec,
--   Encoding, Replay, Coherence, Submit, Commit, Service, Spawn, Restart and Conflict are the
--   theorems. Actor/Handle: the calls of AggregateHandle over the tasks of a process;
--   Actor/Worlds and Fleet: what such calls do to the server and to every actor.
-- - Cursor: what the two kinds of readers share; GlobalLog: what they rely on of a subscription.
-- - Projection and ProcessManager: checkpoints, process_stream and catch_up; their Stream, Exact
--   and Files modules, and Projection/Fold, are the theorems.
-- - Map: the hash maps of the store and of request metadata, as association lists.
-- - Store: run_process_managers, dispatch and dead letters; Store/Report, Saved and Redone: its
--   theorems. Store/Registry: AggregateStore::get with its handle cache, and TypedDispatcher;
--   its theorems are in Tidy, Get and Dispatch. Store/Registry/Race: calls of `get` at the same
--   time, as turns, with theorems in Named, Coherent and TwoActors. Store/Views:
--   projection and live_projection; Store/Builder: AggregateStoreBuilder and open
--   (`open_store`); Store/Control: start_live and inject_event; their theorems are in
--   Views/Rebuild, Builder/Registered and Opened, and Control/Once.
-- - Live: the subscription position and process_stream_with_dispatch; Live/Loop: run_live_loop
--   as a step relation between the awaits of the loop; Live/Handle: LiveHandle; Live/Fanout and
--   Live/Loop/Runs, Reading, Exact, Reactions, Emitted and Shutdown: the theorems.
--   Live/Loop/Together: the loop while other tasks use its process managers and projections,
--   with Pull, Emits and Reads. Live/Order: the loop over one stream without the order of the
--   hash map of projections, as a quotient. Live/Waiting: a fan-out that waits for the lock of a
--   runner when a tick or a shutdown comes, which blocks the loop for ever.
-- - Auth: the bearer interceptor of src/auth.rs; Storage: the directories of src/storage.rs,
--   with the theorem on their files in Storage/Apart.
-- - Example: the counter and the totals of examples/counter.rs; what holds of them is in Balance
--   and Totals.
-- - Tests: concrete instances of the parameters, and the theorems at concrete inputs.
--
-- Conventions. The server, its other clients and the random uuids are a world `W` that every
-- remote call passes on. A stream of responses is the list of its items; awaiting is a call. A
-- failed `expect` is the value `panicked`. Versions and positions are native numbers; `v + 1` is
-- `next_u64`, which wraps at 2 ^ 64, and the laws of the servers say that logs are shorter than
-- that. Retrying is recursion on the number of attempts left, which starts at MAX_RETRIES = 3;
-- every other loop is recursion on a list. No definition takes other fuel.
--
-- A process's actors are tasks numbered in the order of their spawning; a message is received
-- and served as one step, and a call's own message comes after those that other callers have
-- queued.
--
-- Calls of `get` at the same time take turns where the lock of the cache is free; the read of
-- the server during a spawn is one turn.
--
-- In the live loop the fan-out of one event is a step unless it blocks the loop: what others do to
-- other runners while it waits for a lock and then goes on is put before or behind it. Whether the
-- position channel has a receiver when a position is sent is an input.
--
-- Not modelled: the clocks (the idle timeout and the checkpoint tick are inputs), the generated
-- stubs and tonic's channels, src/lib.rs, build.rs and `main` of the example, which only calls
-- the store. Logging and Debug are left out.
pub mod Prelude
pub mod Runtime
pub mod Command
pub mod Io
pub mod Error
pub mod Aggregate
pub mod Event
pub mod Client
pub mod Snapshot
pub mod Cursor
pub mod GlobalLog
pub mod Projection
pub mod ProcessManager
pub mod Store
pub mod Live
pub mod Tests
pub mod Actor
pub mod Auth
pub mod Map
pub mod Storage
pub mod Example
