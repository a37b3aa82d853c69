-- ===== src/Store/Registry/Race.antt =====
-- src/store.rs: calls of `AggregateStore::get` that run at the same time. The lock of the cache is
-- taken three times in a call, and not held in between, so other calls, and the actors of the
-- process, take turns with it there. The read of the server while an actor is spawned is one turn.
pub mod Named
pub mod Coherent
pub mod TwoActors
use eventfold_es.Prelude.{ℕ, String, Option, none, some, List, [], ◌∷◌, Result, ok, err}
use eventfold_es.Runtime.{Runtime}
use eventfold_es.Aggregate.{Aggregate}
use eventfold_es.Io.{FilePath}
use eventfold_es.Actor.Ops.{EventStoreOps}
use eventfold_es.Actor.Lifecycle.{Received}
use eventfold_es.Actor.Handle.{at, put, receive}
use eventfold_es.Store.Registry.{Registry, cached, evict, spawn, keep}

-- Where a call stands: before the read lock, before the first write lock, before the spawn, before
-- the second write lock with the handle that it was given, or at its end.
pub data Phase (X : Runtime) : Type 0 where
  looking : Phase X
  evicting : Phase X
  spawning : Phase X
  caching : ℕ → Phase X
  done : Result ℕ X.Status → Phase X

pub record Caller (X : Runtime) : Type 0 where
  pub id : String
  pub phase : Phase X

-- Whose turn it is: a call's, by its number, or an actor's, to serve a message.
pub data Turn (X : Runtime) (A : Aggregate X) : Type 0 where
  advance : ℕ → Turn X A
  deliver : ℕ → Received X A → Turn X A

pub record State (X : Runtime) (A : Aggregate X) (S : EventStoreOps X) : Type 0 where
  pub callers : List (Caller X)
  pub registry : Registry X A S

module _ (X : Runtime) (A : Aggregate X) (S : EventStoreOps X) (base_dir : FilePath) where
  unfoldable pub looked : Option ℕ → Phase X
  looked (some handle) = done (ok handle)
  looked none = evicting

  unfoldable pub spawned : Result ℕ X.Status → Phase X
  spawned (ok handle) = caching handle
  spawned (err status) = done (err status)

  -- One turn of a call.
  unfoldable pub proceed : String → Phase X → Registry X A S → Phase X × Registry X A S
  proceed id looking r = (looked (cached X A S base_dir id r), r)
  proceed id evicting r = (spawning, evict X A S base_dir id r)
  proceed id spawning r = let (got, r') = spawn X A S base_dir id r in (spawned got, r')
  proceed id (caching handle) r = (done (ok handle), keep X A S base_dir id handle r)
  proceed id (done result) r = (done result, r)

  unfoldable pub turn : Turn X A → State X A S → State X A S
  turn (advance n) s = elim (at n s.callers) [
    | none ↦ s
    | some c ↦
        let (phase, r) = proceed c.id c.phase s.registry in
        record { callers = put n (record { id = c.id; phase = phase }) s.callers; registry = r }
  ]
  turn (deliver handle m) s = record s {
    registry = record s.registry { fleet = (receive X A S handle m s.registry.fleet).1 };
  }

  unfoldable pub play : List (Turn X A) → State X A S → State X A S
  play [] s = s
  play (t ∷ ts) s = play ts (turn t s)
