-- ===== src/Live/Loop/Reactions.antt =====
-- src/live.rs, `run_live_loop`: the envelopes that a process manager emits over a run of the loop.
use eventfold_es.Prelude.{
  if◌then◌else◌, ℕ, suc, ◌≡◌, refl, ap, none, some, List, [], ◌∷◌, ◌++◌, String, length,
}
use eventfold_es.Runtime.{Runtime}
use eventfold_es.Command.{CommandEnvelope}
use eventfold_es.Event.{RecordedEvent}
use eventfold_es.Client.{Grpc}
use eventfold_es.Actor.Handle.{at}
use eventfold_es.Store.{DynProcessManager, Dispatcher, DeadLetters}
use eventfold_es.Live.{LiveConfig, Live, react_all}
use eventfold_es.Live.Waiting.{reaches}
use eventfold_es.Live.Loop.{Phase, Step, receive, block_manager, Run, here, after}

module _ (X : Runtime) (G : Grpc X) where
  pub react_all-split :
      (r : RecordedEvent X) (xs ys : List (DynProcessManager X G))
      → (react_all X G r (xs ++ ys)).0 ≡ (react_all X G r xs).0 ++ (react_all X G r ys).0
  unfolding react_all
  react_all-split r [] ys = refl
  react_all-split r (x ∷ xs) ys = rw (react_all-split r xs ys)

  pub react_all-length :
      (r : RecordedEvent X) (xs : List (DynProcessManager X G))
      → length (react_all X G r xs).0 ≡ length xs
  unfolding react_all
  react_all-length r [] = refl
  react_all-length r (x ∷ xs) = ap suc (react_all-length r xs)

pub at-length {ℓ} :
    {B : Type ℓ} (xs : List B) (y : B) (ys : List B) → at (length xs) (xs ++ y ∷ ys) ≡ some y
unfolding at
at-length [] y ys = refl
at-length (x ∷ xs) y ys = at-length xs y ys

module _ (X : Runtime) (G : Grpc X) (Actors : Type 0) (D : DeadLetters X G)
    (dispatchers : List (String × Dispatcher X G Actors)) (config : LiveConfig) where
  -- What the process manager of a number answers to an event.
  abbrev pub reaction :
      ℕ → List (DynProcessManager X G) → RecordedEvent X → List (CommandEnvelope X)
  reaction n pms r = elim (at n pms) [ none ↦ [] | some p ↦ (p.react_event p.self r).1 ]

  pub reaction-at :
      (n : ℕ) (pms : List (DynProcessManager X G)) (r : RecordedEvent X) (p : DynProcessManager X G)
      → at n pms ≡ some p
      → reaction n pms r ≡ (p.react_event p.self r).1
  reaction-at n pms r p e = rw (e, reaction)

  -- All that it emits, behind what it had emitted before a step or a run. What it answers to an event
  -- whose fan-out never ends counts, though nobody gets it.
  abbrev pub emitted_by :
      {p : Phase X} {d : ℕ} {s : Live X G Actors} {q : Phase X} {e : ℕ} {t : Live X G Actors}
      → ℕ
      → Step X G Actors D dispatchers config p d s q e t
      → List (CommandEnvelope X)
      → List (CommandEnvelope X)
  emitted_by n (receive d s r rest) out = out ++ reaction n s.process_managers r
  emitted_by n (block_manager m d s r rest lt) out =
      if reaches m n then out ++ reaction n s.process_managers r else out
  emitted_by n _ out = out

  abbrev pub emitted :
      {p : Phase X} {d : ℕ} {s : Live X G Actors} {q : Phase X} {e : ℕ} {t : Live X G Actors}
      → ℕ
      → Run X G Actors D dispatchers config p d s q e t
      → List (CommandEnvelope X)
      → List (CommandEnvelope X)
  emitted n here out = out
  emitted n (after step run) out = emitted n run (emitted_by n step out)
