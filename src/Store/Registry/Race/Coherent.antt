-- ===== src/Store/Registry/Race/Coherent.antt =====
-- src/store.rs: the actors of a process while calls of `get` take turns with them.
use eventfold_es.Prelude.{String, ◌≡◌, refl, inl, inr, none, some, List, [], ◌∷◌, Option-cases}
use eventfold_es.Runtime.{Runtime, RuntimeLaws}
use eventfold_es.Aggregate.{Aggregate, IsAdjacentlyTagged}
use eventfold_es.Io.{FilePath}
use eventfold_es.Actor.Ops.{EventStoreOps}
use eventfold_es.Actor.Handle.{at}
use eventfold_es.Actor.Fleet.{IsStore, AreCoherent, receive-AreCoherent}
use eventfold_es.Store.Registry.{Registry, evict, keep}
use eventfold_es.Store.Registry.Get.{IsLoadable, spawn-AreCoherent}
use eventfold_es.Store.Registry.Race.{
  Phase, looking, evicting, spawning, caching, done, Turn, advance, deliver, State, proceed, turn,
  play,
}

module _ (X : Runtime) (A : Aggregate X) (S : EventStoreOps X) (base_dir : FilePath)
    (V : IsStore X S) where
  -- If a call is about to spawn, the snapshot that it may load can be trusted.
  abbrev pub IsReadable : String → Phase X → Registry X A S → Type 0
  IsReadable id phase r = phase ≡ spawning → IsLoadable X A S base_dir V id r.fleet

  -- So it is for the call of a turn, and at each turn of a sequence.
  abbrev pub IsReadableTurn : Turn X A → State X A S → Type 0
  IsReadableTurn (advance n) s = elim (at n s.callers) [
    | none ↦ Unit {0}
    | some c ↦ IsReadable c.id c.phase s.registry
  ]
  IsReadableTurn (deliver handle m) s = Unit {0}

  abbrev pub AreReadable : List (Turn X A) → State X A S → Type 0
  AreReadable [] s = Unit {0}
  AreReadable (t ∷ ts) s = IsReadableTurn t s × AreReadable ts (turn X A S base_dir t s)

  proceed-AreCoherent :
      (id : String) (phase : Phase X) (r : Registry X A S)
      → IsReadable id phase r
      → AreCoherent X A S V r.fleet
      → AreCoherent X A S V (proceed X A S base_dir id phase r).1.fleet
  unfolding proceed evict keep
  proceed-AreCoherent id looking r loads h = h
  proceed-AreCoherent id evicting r loads h = h
  proceed-AreCoherent id spawning r loads h = spawn-AreCoherent X A S base_dir V id r (loads refl) h
  proceed-AreCoherent id (caching handle) r loads h = h
  proceed-AreCoherent id (done result) r loads h = h

  module _ (laws : RuntimeLaws X) (tagged : (e : A.DomainEvent) → IsAdjacentlyTagged X A e) where
    turn-AreCoherent :
        (t : Turn X A) (s : State X A S)
        → IsReadableTurn t s
        → AreCoherent X A S V s.registry.fleet
        → AreCoherent X A S V (turn X A S base_dir t s).registry.fleet
    unfolding turn
    turn-AreCoherent (advance n) s loads h = elim (Option-cases (at n s.callers)) [
      | inl q ↦ rw (q, turn) h
      | inr (c, q) ↦
          rw (q, turn)
            (proceed-AreCoherent c.id c.phase s.registry (rw (q, IsReadableTurn) at loads) h)
    ]
    turn-AreCoherent (deliver handle m) s loads h =
        receive-AreCoherent X A S V laws tagged handle m s.registry.fleet h

    -- Whatever turns the calls of `get` and the actors take, and however many actors the calls
    -- spawn, each actor's state and version are those of a prefix of its stream's log, if they were
    -- so at the start, and each snapshot that a spawn loads can be trusted. The aggregate's events are
    -- adjacently tagged, and their contents survive their JSON text.
    pub play-AreCoherent :
        (ts : List (Turn X A)) (s : State X A S)
        → AreReadable ts s
        → AreCoherent X A S V s.registry.fleet
        → AreCoherent X A S V (play X A S base_dir ts s).registry.fleet
    unfolding play
    play-AreCoherent [] s loads h = h
    play-AreCoherent (t ∷ ts) s loads h =
        play-AreCoherent ts (turn X A S base_dir t s) loads.1 (turn-AreCoherent t s loads.0 h)
