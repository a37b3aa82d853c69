-- ===== src/Store/Registry/Race/TwoActors.antt =====
-- src/store.rs: two calls of `get` for one instance, neither of which sees what the other spawns.
use eventfold_es.Prelude.{
  ℕ, suc, String, ◌≡◌, ◌<◌, refl, ap, true, none, some, List, [], ◌∷◌, ◌++◌, ok, arith, length,
}
use eventfold_es.Runtime.{Runtime, entry}
use eventfold_es.Map.{entry-insert_self}
use eventfold_es.Aggregate.{Aggregate}
use eventfold_es.Io.{FilePath}
use eventfold_es.Actor.Ops.{EventStoreOps}
use eventfold_es.Actor.Execute.{Actor}
use eventfold_es.Actor.Lifecycle.{spawn_actor_with_store}
use eventfold_es.Actor.Handle.{Cell, at, put, is_running}
use eventfold_es.Store.Registry.{Registry, cached, evict, cell_of, spawn, keep}
use eventfold_es.Store.Registry.Tidy.{Names, at-append_last, at-append_left}
use eventfold_es.Store.Registry.Race.{
  looking, done, Turn, advance, State, proceed, turn, play, spawned, looked,
}

module _ (X : Runtime) (A : Aggregate X) (S : EventStoreOps X) (base_dir : FilePath) where
  -- Both look, both evict, both spawn, both cache.
  abbrev pub side_by_side : List (Turn X A)
  side_by_side =
      advance 0
      ∷ advance 1
      ∷ advance 0
      ∷ advance 1
      ∷ advance 0
      ∷ advance 1
      ∷ advance 0
      ∷ advance 1
      ∷ []

  abbrev pub two_calls : String → Registry X A S → State X A S
  two_calls id r = record {
    callers = record { id = id; phase = looking } ∷ record { id = id; phase = looking } ∷ [];
    registry = r;
  }

  -- An actor of an instance that runs under a handle.
  abbrev pub RunsUnder : String → ℕ → Registry X A S → Type 0
  RunsUnder id handle r =
      (c : Cell X A) × (at handle r.fleet.cells ≡ some c)
      × (is_running c.progress ≡ true)
      × Names X A S base_dir id c

  -- Two calls have returned different actors of an instance, and only one of them is in the cache.
  pub record HasTwo (id : String) (s : State X A S) : Type 0 where
    pub first : ℕ
    pub second : ℕ
    pub distinct : first < second
    pub calls :
        s.callers
        ≡ record { id = id; phase = done (ok first) }
          ∷ record { id = id; phase = done (ok second) }
          ∷ []
    pub first_runs : RunsUnder id first s.registry
    pub second_runs : RunsUnder id second s.registry
    pub second_cached : entry id s.registry.cache ≡ some second

  -- The registry behind a spawn that succeeds.
  abbrev grown : String → Actor X A S → Registry X A S → Registry X A S
  grown id a r = record r {
    fleet = record {
      cells = r.fleet.cells ++ cell_of X A S base_dir id a ∷ [];
      world = (spawn_actor_with_store X A S id base_dir r.fleet.world r.fleet.disk).0.1;
      disk = (spawn_actor_with_store X A S id base_dir r.fleet.world r.fleet.disk).1;
    };
  }

  spawn-ok :
      (id : String) (r : Registry X A S) (a : Actor X A S)
      → (spawn_actor_with_store X A S id base_dir r.fleet.world r.fleet.disk).0.0 ≡ ok a
      → spawn X A S base_dir id r ≡ (ok (length r.fleet.cells), grown id a r)
  unfolding spawn
  spawn-ok id r a one = rw (one, spawn) refl

  length-append_one {ℓ} : {B : Type ℓ} (l : List B) (x : B) → length (l ++ x ∷ []) ≡ suc (length l)
  length-append_one [] x = refl
  length-append_one (y ∷ l) x = ap suc (length-append_one l x)

  -- Without a live entry, two calls for one instance that take turns, and whose spawns both succeed,
  -- return two different actors of the instance that both run, of which the cache knows the second.
  pub side_by_side-HasTwo :
      (id : String) (r : Registry X A S) (a b : Actor X A S)
      → cached X A S base_dir id r ≡ none
      → (spawn_actor_with_store X A S id base_dir r.fleet.world r.fleet.disk).0.0 ≡ ok a
      → (spawn_actor_with_store X A S id base_dir
          (spawn_actor_with_store X A S id base_dir r.fleet.world r.fleet.disk).0.1
          (spawn_actor_with_store X A S id base_dir r.fleet.world r.fleet.disk).1).0.0
        ≡ ok b
      → HasTwo id (play X A S base_dir side_by_side (two_calls id r))
  unfolding play turn proceed at put looked spawned evict keep cell_of is_running
  side_by_side-HasTwo id r a b miss one two =
      let cell_a = cell_of X A S base_dir id a in
      let cell_b = cell_of X A S base_dir id b in
      let n = length r.fleet.cells in
      let gone = evict X A S base_dir id (evict X A S base_dir id r) in
      let next = length-append_one r.fleet.cells cell_a in
      rw (miss, spawn-ok id gone a one, spawn-ok id (grown id a gone) b two)
        (record {
          first = n;
          second = length (r.fleet.cells ++ cell_a ∷ []);
          distinct = omega (arith, next);
          calls = refl;
          first_runs = (
            cell_a,
            at-append_left n (r.fleet.cells ++ cell_a ∷ []) cell_b cell_a
                (at-append_last r.fleet.cells cell_a),
            refl,
            (refl, refl),
          );
          second_runs =
              (cell_b, at-append_last (r.fleet.cells ++ cell_a ∷ []) cell_b, refl, (refl, refl));
          second_cached = entry-insert_self id _ _;
        })
