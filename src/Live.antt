-- ===== src/Live.antt =====
-- src/live.rs: the live subscription's configuration, the position that it subscribes from, and the
-- loop over one stream with its fan-out and dispatch.
pub mod Fanout
pub mod Order
pub mod Waiting
pub mod Loop
pub mod Handle
use Prim.Native.String.{◌++◌ as str_append}
use eventfold_es.Prelude.{
  ℕ, zero, ◌*◌, String, Bool, true, false, Option, none, some, List, [], ◌∷◌, ◌++◌, Result, ok, err,
  leb, ◌==◌, if◌then◌else◌,
}
use Prim.Native.Nat.{min}
use eventfold_es.Runtime.{Runtime, entry}
use eventfold_es.Command.{CommandEnvelope}
use eventfold_es.Event.{RecordedEvent}
use eventfold_es.Client.{Grpc}
use eventfold_es.Client.Proto.{event, caught_up}
use eventfold_es.Cursor.{Item}
use eventfold_es.Io.{IoError, FilePath, Disk, Io}
use eventfold_es.Projection
use eventfold_es.Projection.{
  Projection, ProjectionRunner, apply_recorded_event, stream_failed, save_checkpoint,
}
use eventfold_es.Store.{DynProcessManager, Outside, Dispatcher, DeadLetters, append_dead_letter}
use eventfold_es.Actor.Execute.{u64_max}

-- Durations in milliseconds.
pub record LiveConfig : Type 0 where
  pub checkpoint_interval : ℕ
  pub reconnect_base_delay : ℕ
  pub reconnect_max_delay : ℕ

-- LiveConfig::default()
abbrev pub default : LiveConfig
default = record {
  checkpoint_interval = 5000;
  reconnect_base_delay = 1000;
  reconnect_max_delay = 30000;
}

-- backoff_delay = (backoff_delay * 2).min(config.reconnect_max_delay)
pub next_delay : LiveConfig → ℕ → ℕ
next_delay config delay = min (delay * 2) config.reconnect_max_delay

-- Box<dyn ProjectionCatchUp>, without `state_any`, which the live loop does not use.
pub record DynProjection (X : Runtime) (G : Grpc X) : Type 1 where
  pub Self : Type 0
  pub self : Self
  pub catch_up :
      Self → G.W → Disk X.Bytes → ((Result (Unit {0}) IoError × Self) × G.W) × Disk X.Bytes
  pub apply_event : Self → RecordedEvent X → Self
  pub position : Self → ℕ
  pub save : Self → Io X.Bytes (Unit {0})

module _ (X : Runtime) (P : Projection X) where
  pub apply_event : ProjectionRunner X P → RecordedEvent X → ProjectionRunner X P
  apply_event runner recorded = record runner {
    checkpoint = apply_recorded_event X P runner.checkpoint recorded;
  }

  -- impl ProjectionCatchUp for ProjectionRunner
  unfoldable pub erase_projection : (G : Grpc X) → ProjectionRunner X P → DynProjection X G
  erase_projection G runner = record {
    Self = ProjectionRunner X P;
    self = runner;
    catch_up = Projection.catch_up X P G;
    apply_event = apply_event;
    position = λ r. r.checkpoint.last_global_position;
    save = λ r. save_checkpoint X P r.checkpoint_dir r.checkpoint;
  }

-- How a stream ends: `StreamOutcome`.
pub data StreamOutcome : Type 0 where
  ended : StreamOutcome
  error : IoError → StreamOutcome

-- tokio's `watch::Sender::send`: without a receiver it fails, and the channel keeps its value.
abbrev pub send_position : Bool → ℕ → ℕ → ℕ
send_position listened position kept = if listened then position else kept

-- What the loop holds of the store, with the two signals that it sends to the handle.
pub record Live (X : Runtime) (G : Grpc X) (Actors : Type 0) : Type 1 where
  pub projections : List (DynProjection X G)
  pub process_managers : List (DynProcessManager X G)
  pub outside : Outside X G Actors
  pub is_caught_up : Bool
  pub position : ℕ

module _ (X : Runtime) (G : Grpc X) where
  -- `for runner in projections { min_pos = min_pos.min(runner.position()) }`
  unfoldable pub min_projections : ℕ → List (DynProjection X G) → ℕ
  min_projections m [] = m
  min_projections m (p ∷ ps) = min_projections (min m (p.position p.self)) ps

  unfoldable pub min_managers : ℕ → List (DynProcessManager X G) → ℕ
  min_managers m [] = m
  min_managers m (p ∷ ps) = min_managers (min m (p.position p.self)) ps

  unfoldable pub min_global_position : List (DynProjection X G) → List (DynProcessManager X G) → ℕ
  min_global_position projections pms =
      let min_pos = min_managers (min_projections u64_max projections) pms in
      if min_pos == u64_max then 0 else min_pos

  -- Errors are only logged.
  unfoldable pub save_projections : List (DynProjection X G) → Disk X.Bytes → Disk X.Bytes
  save_projections [] d = d
  save_projections (p ∷ ps) d = save_projections ps (p.save p.self d).1

  unfoldable pub save_managers : List (DynProcessManager X G) → Disk X.Bytes → Disk X.Bytes
  save_managers [] d = d
  save_managers (p ∷ ps) d = save_managers ps (p.save p.self d).1

  unfoldable pub save_all_checkpoints :
      List (DynProjection X G) → List (DynProcessManager X G) → Disk X.Bytes → Disk X.Bytes
  unfolding save_projections save_managers
  save_all_checkpoints projections pms d = save_managers pms (save_projections projections d)

  -- `runner.apply_event(&recorded)` on one projection.
  pub apply_one : RecordedEvent X → DynProjection X G → DynProjection X G
  apply_one recorded p = record {
    Self = p.Self;
    self = p.apply_event p.self recorded;
    catch_up = p.catch_up;
    apply_event = p.apply_event;
    position = p.position;
    save = p.save;
  }

  -- Fan out to all projections.
  unfoldable pub apply_to_all :
      RecordedEvent X → List (DynProjection X G) → List (DynProjection X G)
  unfolding apply_one
  apply_to_all recorded [] = []
  apply_to_all recorded (p ∷ ps) = apply_one recorded p ∷ apply_to_all recorded ps

  -- Fan out to all process managers, and collect what is not empty.
  push_work :
      List (CommandEnvelope X)
      → FilePath
      → List (List (CommandEnvelope X) × FilePath)
      → List (List (CommandEnvelope X) × FilePath)
  push_work [] path work = work
  push_work (e ∷ es) path work = (e ∷ es, path) ∷ work

  unfoldable pub react_all :
      RecordedEvent X
      → List (DynProcessManager X G)
      → List (DynProcessManager X G) × List (List (CommandEnvelope X) × FilePath)
  unfolding push_work
  react_all recorded [] = ([], [])
  react_all recorded (p ∷ ps) =
      let (self, envelopes) = p.react_event p.self recorded in
      let (others, work) = react_all recorded ps in
      (
        record {
          Self = p.Self;
          self = self;
          catch_up = p.catch_up;
          react_event = p.react_event;
          position = p.position;
          save = p.save;
          name = p.name;
          dead_letter_path = p.dead_letter_path;
        }
            ∷ others,
        push_work envelopes (p.dead_letter_path self) work,
      )

module _ (X : Runtime) (G : Grpc X) (Actors : Type 0) (D : DeadLetters X G)
    (dispatchers : List (String × Dispatcher X G Actors)) where
  -- One envelope; a dead letter that cannot be written is only logged.
  unfoldable pub dispatch_live :
      FilePath → CommandEnvelope X → Outside X G Actors → Outside X G Actors
  dispatch_live path envelope o = elim (entry envelope.aggregate_type dispatchers) [
    | some dispatch ↦
        let (result, o') = dispatch envelope o in
        elim result [
          | ok _ ↦ o'
          | err e ↦ (append_dead_letter X G Actors D path envelope e.message o').1
        ]
    | none ↦
        (append_dead_letter X G Actors D path envelope
          (str_append "unknown aggregate type: " envelope.aggregate_type) o).1
  ]

  dispatch_live_all : FilePath → List (CommandEnvelope X) → Outside X G Actors → Outside X G Actors
  dispatch_live_all path [] o = o
  dispatch_live_all path (e ∷ es) o = dispatch_live_all path es (dispatch_live path e o)

  pub dispatch_live_work :
      List (List (CommandEnvelope X) × FilePath) → Outside X G Actors → Outside X G Actors
  unfolding dispatch_live_all
  dispatch_live_work [] o = o
  dispatch_live_work ((es, path) ∷ rest) o = dispatch_live_work rest (dispatch_live_all path es o)

  -- Whether the channel has a receiver when the position of an event is sent.
  module _ (listened : RecordedEvent X → Bool) where
    -- One event: projections, process managers, dispatch, then the position for subscribers.
    pub handle_event : RecordedEvent X → Live X G Actors → Live X G Actors
    handle_event recorded s =
        let (pms, work) = react_all X G recorded s.process_managers in
        record {
          projections = apply_to_all X G recorded s.projections;
          process_managers = pms;
          outside = dispatch_live_work work s.outside;
          is_caught_up = s.is_caught_up;
          position = send_position (listened recorded) recorded.global_position s.position;
        }

    pub process_stream_with_dispatch :
        List (Item X) → Live X G Actors → StreamOutcome × Live X G Actors
    process_stream_with_dispatch [] s = (ended, s)
    process_stream_with_dispatch (err status ∷ rest) s = (error (stream_failed X status), s)
    process_stream_with_dispatch (ok response ∷ rest) s = elim response.content [
      | some (event recorded) ↦ process_stream_with_dispatch rest (handle_event recorded s)
      | some caught_up ↦ process_stream_with_dispatch rest (record s { is_caught_up = true })
      | none ↦ process_stream_with_dispatch rest s
    ]
