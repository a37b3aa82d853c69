-- ===== src/Live/Loop/Together.antt =====
-- src/live.rs and src/store.rs: the live loop while other tasks use the same store. A process manager
-- or a projection is behind a mutex, which `run_process_managers` and `projection` hold during one
-- catch-up and the loop during one event; the server, the disk and the actors may change at any time.
pub mod Pull
pub mod Emits
pub mod Reads
use eventfold_es.Prelude.{
  ℕ, zero, suc, ◌≡◌, List, [], ◌∷◌, ◌++◌, String, Result, ok, err, false, ◌==◌, if◌then◌else◌,
}
use eventfold_es.Runtime.{Runtime}
use eventfold_es.Command.{CommandEnvelope}
use eventfold_es.Client.{Grpc}
use eventfold_es.Io.{IoError, Disk}
use eventfold_es.Store.{DynProcessManager, Outside, Dispatcher, DeadLetters}
use eventfold_es.Live.{DynProjection, LiveConfig, Live}
use eventfold_es.Live.Loop.{Phase, Step}
use eventfold_es.Live.Loop.Reactions.{emitted_by}

module _ (X : Runtime) (G : Grpc X) where
  -- The catch-up of the process manager of a number: one turn of the first loop of
  -- `run_process_managers`.
  unfoldable pub catch_up_at :
      ℕ
      → List (DynProcessManager X G)
      → G.W
      → (Result (List (CommandEnvelope X)) IoError × List (DynProcessManager X G)) × G.W
  catch_up_at n [] w = ((ok [], []), w)
  catch_up_at zero (p ∷ ps) w =
      let ((result, self), w') = p.catch_up p.self w in
      (
        (
          result,
          record {
            Self = p.Self;
            self = self;
            catch_up = p.catch_up;
            react_event = p.react_event;
            position = p.position;
            save = p.save;
            name = p.name;
            dead_letter_path = p.dead_letter_path;
          }
              ∷ ps,
        ),
        w',
      )
  catch_up_at (suc n) (p ∷ ps) w =
      let ((result, others), w') = catch_up_at n ps w in ((result, p ∷ others), w')

  -- The catch-up of the projection of a number, by `projection`, whatever comes of it.
  unfoldable pub read_at :
      ℕ
      → List (DynProjection X G)
      → G.W
      → Disk X.Bytes
      → (List (DynProjection X G) × G.W) × Disk X.Bytes
  read_at n [] w d = (([], w), d)
  read_at zero (p ∷ ps) w d =
      let (((result, self), w'), d') = p.catch_up p.self w d in
      (
        (
          record {
            Self = p.Self;
            self = self;
            catch_up = p.catch_up;
            apply_event = p.apply_event;
            position = p.position;
            save = p.save;
          }
              ∷ ps,
          w',
        ),
        d',
      )
  read_at (suc n) (p ∷ ps) w d = let ((others, w'), d') = read_at n ps w d in ((p ∷ others, w'), d')

module _ (X : Runtime) (G : Grpc X) (Actors : Type 0) (D : DeadLetters X G)
    (dispatchers : List (String × Dispatcher X G Actors)) (config : LiveConfig) where
  -- The state behind a catch-up beside the loop.
  abbrev pub pulled : ℕ → Live X G Actors → Live X G Actors
  pulled n s =
      let ((result, pms), w) = catch_up_at X G n s.process_managers s.outside.world in
      record s { process_managers = pms; outside = record s.outside { world = w } }

  abbrev pub read : ℕ → Live X G Actors → Live X G Actors
  read n s =
      let ((ps, w), d) = read_at X G n s.projections s.outside.world s.outside.disk in
      record s { projections = ps; outside = record s.outside { world = w; disk = d } }

  -- A step of the loop, a read of a projection, a catch-up that returns envelopes or fails, or what goes on elsewhere.
  pub data Joint : Phase X → ℕ → Live X G Actors → Phase X → ℕ → Live X G Actors → Type 1 where
    loop_steps :
        {p q : Phase X} {d e : ℕ} {s t : Live X G Actors}
        → Step X G Actors D dispatchers config p d s q e t
        → Joint p d s q e t
    pulls :
        (p : Phase X) (d : ℕ) (s : Live X G Actors) (n : ℕ) (envelopes : List (CommandEnvelope X))
        → (catch_up_at X G n s.process_managers s.outside.world).0.0 ≡ ok envelopes
        → Joint p d s p d (pulled n s)
    pull_fails :
        (p : Phase X) (d : ℕ) (s : Live X G Actors) (n : ℕ) (error : IoError)
        → (catch_up_at X G n s.process_managers s.outside.world).0.0 ≡ err error
        → Joint p d s p d (pulled n s)
    reads : (p : Phase X) (d : ℕ) (s : Live X G Actors) (n : ℕ) → Joint p d s p d (read n s)
    elsewhere :
        (p : Phase X) (d : ℕ) (s : Live X G Actors) (o : Outside X G Actors)
        → Joint p d s p d (record s { outside = o })

  pub data JointRun : Phase X → ℕ → Live X G Actors → Phase X → ℕ → Live X G Actors → Type 1 where
    at_rest : {p : Phase X} {d : ℕ} {s : Live X G Actors} → JointRun p d s p d s
    then_on :
        {p q o : Phase X} {d e f : ℕ} {s t u : Live X G Actors}
        → Joint p d s q e t
        → JointRun q e t o f u
        → JointRun p d s o f u

  -- What the process manager of a number has emitted, behind what it had before: in the loop, and to
  -- those who made it catch up.
  abbrev pub emitted_jointly_by :
      {p : Phase X} {d : ℕ} {s : Live X G Actors} {q : Phase X} {e : ℕ} {t : Live X G Actors}
      → ℕ
      → Joint p d s q e t
      → List (CommandEnvelope X)
      → List (CommandEnvelope X)
  emitted_jointly_by n (loop_steps step) out = emitted_by X G Actors D dispatchers config n step out
  emitted_jointly_by n (pulls p d s m envelopes x) out = if m == n then out ++ envelopes else out
  emitted_jointly_by n (pull_fails p d s m error x) out = out
  emitted_jointly_by n (reads p d s m) out = out
  emitted_jointly_by n (elsewhere p d s o) out = out

  abbrev pub emitted_jointly :
      {p : Phase X} {d : ℕ} {s : Live X G Actors} {q : Phase X} {e : ℕ} {t : Live X G Actors}
      → ℕ
      → JointRun p d s q e t
      → List (CommandEnvelope X)
      → List (CommandEnvelope X)
  emitted_jointly n at_rest out = out
  emitted_jointly n (then_on step run) out = emitted_jointly n run (emitted_jointly_by n step out)

  -- No catch-up of the process manager of a number fails.
  abbrev pub Succeeds :
      {p : Phase X} {d : ℕ} {s : Live X G Actors} {q : Phase X} {e : ℕ} {t : Live X G Actors}
      → ℕ
      → Joint p d s q e t
      → Type 0
  Succeeds n (pull_fails p d s m error x) = (m == n) ≡ false
  Succeeds n _ = Unit {0}

  abbrev pub AllSucceed :
      {p : Phase X} {d : ℕ} {s : Live X G Actors} {q : Phase X} {e : ℕ} {t : Live X G Actors}
      → ℕ
      → JointRun p d s q e t
      → Type 0
  AllSucceed n at_rest = Unit {0}
  AllSucceed n (then_on step run) = Succeeds n step × AllSucceed n run
