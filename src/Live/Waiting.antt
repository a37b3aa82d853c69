-- ===== src/Live/Waiting.antt =====
-- src/live.rs: a fan-out that waits for the lock of a runner, which another task holds, when a tick
-- or a shutdown saves the checkpoints. The lock goes to the fan-out, which is not polled while
-- `save_all_checkpoints` runs, and `save_all_checkpoints` waits for it in turn.
use eventfold_es.Prelude.{
  ℕ, zero, suc, ◌≡◌, refl, ap, Bool, List, [], ◌∷◌, ◌++◌, length, true, false, if◌then◌else◌,
}
use eventfold_es.Runtime.{Runtime}
use eventfold_es.Event.{RecordedEvent}
use eventfold_es.Client.{Grpc}
use eventfold_es.Io.{Disk}
use eventfold_es.Store.{DynProcessManager}
use eventfold_es.Live.{DynProjection, apply_one}

-- The runner of a number is among the first `n`.
abbrev pub reaches : ℕ → ℕ → Bool
reaches zero i = false
reaches (suc n) zero = true
reaches (suc n) (suc i) = reaches n i

module _ (X : Runtime) (G : Grpc X) where
  -- The fan-out has reached the first `n` projections.
  unfoldable pub apply_first :
      ℕ → RecordedEvent X → List (DynProjection X G) → List (DynProjection X G)
  apply_first zero recorded ps = ps
  apply_first (suc n) recorded [] = []
  apply_first (suc n) recorded (p ∷ ps) = apply_one X G recorded p ∷ apply_first n recorded ps

  -- It has reached the first `n` process managers.
  unfoldable pub react_one : RecordedEvent X → DynProcessManager X G → DynProcessManager X G
  react_one recorded p = record {
    Self = p.Self;
    self = (p.react_event p.self recorded).0;
    catch_up = p.catch_up;
    react_event = p.react_event;
    position = p.position;
    save = p.save;
    name = p.name;
    dead_letter_path = p.dead_letter_path;
  }

  unfoldable pub react_first :
      ℕ → RecordedEvent X → List (DynProcessManager X G) → List (DynProcessManager X G)
  unfolding react_one
  react_first zero recorded ps = ps
  react_first (suc n) recorded [] = []
  react_first (suc n) recorded (p ∷ ps) = react_one recorded p ∷ react_first n recorded ps

  -- What is saved before the lock that is never given up.
  unfoldable pub save_first_projections : ℕ → List (DynProjection X G) → Disk X.Bytes → Disk X.Bytes
  save_first_projections zero ps d = d
  save_first_projections (suc n) [] d = d
  save_first_projections (suc n) (p ∷ ps) d = save_first_projections n ps (p.save p.self d).1

  unfoldable pub save_first_managers :
      ℕ → List (DynProcessManager X G) → Disk X.Bytes → Disk X.Bytes
  save_first_managers zero ps d = d
  save_first_managers (suc n) [] d = d
  save_first_managers (suc n) (p ∷ ps) d = save_first_managers n ps (p.save p.self d).1

  -- A runner of such a list has received the event or not.
  pub apply_first-among :
      (n : ℕ) (r : RecordedEvent X) (xs : List (DynProjection X G)) (p : DynProjection X G)
      (ys : List (DynProjection X G))
      → (xs' ys' : List (DynProjection X G)) × (apply_first n r (xs ++ p ∷ ys)
          ≡ xs' ++ (if reaches n (length xs) then apply_one X G r p else p) ∷ ys')
  unfolding apply_first
  apply_first-among zero r xs p ys = (xs, ys, refl)
  apply_first-among (suc n) r [] p ys = ([], apply_first n r ys, refl)
  apply_first-among (suc n) r (x ∷ xs) p ys =
      let (xs', ys', e) = apply_first-among n r xs p ys in
      (apply_one X G r x ∷ xs', ys', ap (λ l. apply_one X G r x ∷ l) e)

  pub react_first-among :
      (n : ℕ) (r : RecordedEvent X) (xs : List (DynProcessManager X G)) (p : DynProcessManager X G)
      (ys : List (DynProcessManager X G))
      → (xs' ys' : List (DynProcessManager X G)) × (react_first n r (xs ++ p ∷ ys)
          ≡ xs' ++ (if reaches n (length xs) then react_one r p else p) ∷ ys')
        × (length xs' ≡ length xs)
  unfolding react_first
  react_first-among zero r xs p ys = (xs, ys, refl, refl)
  react_first-among (suc n) r [] p ys = ([], react_first n r ys, refl, refl)
  react_first-among (suc n) r (x ∷ xs) p ys =
      let (xs', ys', e, l) = react_first-among n r xs p ys in
      (react_one r x ∷ xs', ys', ap (λ l. react_one r x ∷ l) e, ap suc l)
