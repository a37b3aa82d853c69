-- ===== src/Live/Loop.antt =====
-- src/live.rs, `run_live_loop`: the loop around the subscription, as steps. Between two awaits the
-- loop may take a checkpoint tick or a shutdown; an envelope's dispatch is one step. So is the fan-out
-- of an event, unless a tick or a shutdown meets it while it waits for a runner's lock: then the loop
-- is blocked for ever (Live.Waiting). A fan-out that waits and goes on is taken as one step, since
-- what others do meanwhile to other runners, and to the server and the disk, may as well stand
-- before or behind it.
-- `process_stream_with_dispatch` never returns `Err`, so the arm for it has no step.
pub mod Runs
pub mod Reading
pub mod Exact
pub mod Reactions
pub mod Emitted
pub mod Shutdown
pub mod Together
use eventfold_es.Prelude.{
  ℕ, ◌<◌, ◌≡◌, length, Bool, true, false, Option, none, some, List, [], ◌∷◌, String, Result, ok,
  err, if◌then◌else◌,
}
use eventfold_es.Runtime.{Runtime}
use eventfold_es.Command.{CommandEnvelope}
use eventfold_es.Event.{RecordedEvent}
use eventfold_es.Client.{Grpc, subscribe_all_from}
use eventfold_es.Client.Proto.{event, caught_up}
use eventfold_es.Cursor.{Item}
use eventfold_es.Io.{FilePath}
use eventfold_es.Store.{Outside, Dispatcher, DeadLetters}
use eventfold_es.Live.{
  LiveConfig, next_delay, Live, send_position, min_global_position, save_projections,
  save_all_checkpoints, apply_to_all, react_all, dispatch_live,
}
use eventfold_es.Live.Waiting.{
  apply_first, react_first, save_first_projections, save_first_managers,
}

abbrev pub Work : Runtime → Type 0
Work X = List (List (CommandEnvelope X) × FilePath)

-- Where the loop is: at its top, asleep after a failed subscription, reading what is left of a
-- stream, dispatching what is left of an event's envelopes, asleep after a broken stream, or done.
pub data Phase (X : Runtime) : Type 0 where
  connecting : Phase X
  retrying : Phase X
  streaming : List (Item X) → Phase X
  dispatching : Work X → RecordedEvent X → List (Item X) → Phase X
  sleeping : Phase X
  returned : Phase X
  -- For ever in `save_all_checkpoints`, behind the lock of the abandoned fan-out.
  blocked : Phase X

module _ (X : Runtime) (G : Grpc X) (Actors : Type 0) where
  -- save_all_checkpoints(&store).await
  unfoldable pub saved : Live X G Actors → Live X G Actors
  saved s = record s {
    outside = record s.outside {
      disk = save_all_checkpoints X G s.projections s.process_managers s.outside.disk;
    };
  }

  -- What an event does before anything is dispatched.
  unfoldable pub fan_out : RecordedEvent X → Live X G Actors → Live X G Actors
  fan_out recorded s = record s {
    projections = apply_to_all X G recorded s.projections;
    process_managers = (react_all X G recorded s.process_managers).0;
  }

  -- A fan-out that has reached the first `n` projections, or all of them and the first `n` process
  -- managers, with what is saved of them before the next lock.
  pub waiting_for_projection : ℕ → RecordedEvent X → Live X G Actors → Live X G Actors
  waiting_for_projection n recorded s =
      let ps = apply_first X G n recorded s.projections in
      record s {
        projections = ps;
        outside = record s.outside { disk = save_first_projections X G n ps s.outside.disk };
      }

  pub waiting_for_manager : ℕ → RecordedEvent X → Live X G Actors → Live X G Actors
  waiting_for_manager n recorded s =
      let ps = apply_to_all X G recorded s.projections in
      let pms = react_first X G n recorded s.process_managers in
      record s {
        projections = ps;
        process_managers = pms;
        outside = record s.outside {
          disk = save_first_managers X G n pms (save_projections X G ps s.outside.disk);
        };
      }

  -- The delay after a stream that ended cleanly.
  pub delay_after_end : LiveConfig → Live X G Actors → ℕ → ℕ
  delay_after_end config s delay = if s.is_caught_up then config.reconnect_base_delay else delay

module _ (X : Runtime) (G : Grpc X) (Actors : Type 0) (D : DeadLetters X G)
    (dispatchers : List (String × Dispatcher X G Actors)) (config : LiveConfig) where
  -- From a phase, a back-off delay and a state to the next ones.
  pub data Step : Phase X → ℕ → Live X G Actors → Phase X → ℕ → Live X G Actors → Type 1 where
    stop_at_top :
        (delay : ℕ) (s : Live X G Actors)
        → Step connecting delay s returned delay (saved X G Actors s)
    subscribe_failed :
        (delay : ℕ) (s : Live X G Actors) (status : X.Status)
        → (subscribe_all_from X G
            (min_global_position X G s.projections s.process_managers)
            s.outside.world).0
          ≡ err status
        → Step connecting delay s retrying delay (record s {
          outside = record s.outside {
            world =
                (subscribe_all_from X G
                  (min_global_position X G s.projections s.process_managers)
                  s.outside.world).1;
          };
        })
    retry :
        (delay : ℕ) (s : Live X G Actors)
        → Step retrying delay s connecting (next_delay config delay) s
    stop_retrying :
        (delay : ℕ) (s : Live X G Actors)
        → Step retrying delay s returned delay (saved X G Actors s)
    subscribe :
        (delay : ℕ) (s : Live X G Actors) (stream : List (Item X))
        → (subscribe_all_from X G
            (min_global_position X G s.projections s.process_managers)
            s.outside.world).0
          ≡ ok stream
        → Step connecting delay s (streaming stream) delay (record s {
          outside = record s.outside {
            world =
                (subscribe_all_from X G
                  (min_global_position X G s.projections s.process_managers)
                  s.outside.world).1;
          };
        })
    receive :
        (delay : ℕ) (s : Live X G Actors) (r : RecordedEvent X) (rest : List (Item X))
        → Step
            (streaming (ok (record { content = some (event r) }) ∷ rest))
            delay
            s
            (dispatching (react_all X G r s.process_managers).1 r rest)
            delay
            (fan_out X G Actors r s)
    block_projection :
        (n : ℕ) (delay : ℕ) (s : Live X G Actors) (r : RecordedEvent X) (rest : List (Item X))
        → n < length s.projections
        → Step
            (streaming (ok (record { content = some (event r) }) ∷ rest))
            delay
            s
            blocked
            delay
            (waiting_for_projection X G Actors n r s)
    block_manager :
        (n : ℕ) (delay : ℕ) (s : Live X G Actors) (r : RecordedEvent X) (rest : List (Item X))
        → n < length s.process_managers
        → Step
            (streaming (ok (record { content = some (event r) }) ∷ rest))
            delay
            s
            blocked
            delay
            (waiting_for_manager X G Actors n r s)
    catch_up :
        (delay : ℕ) (s : Live X G Actors) (rest : List (Item X))
        → Step
            (streaming (ok (record { content = some caught_up }) ∷ rest))
            delay
            s
            (streaming rest)
            delay
            (record s { is_caught_up = true })
    skip :
        (delay : ℕ) (s : Live X G Actors) (rest : List (Item X))
        → Step (streaming (ok (record { content = none }) ∷ rest)) delay s (streaming rest) delay s
    dispatch :
        (delay : ℕ) (s : Live X G Actors) (e : CommandEnvelope X) (es : List (CommandEnvelope X))
        (path : FilePath) (work : Work X) (r : RecordedEvent X) (rest : List (Item X))
        → Step
            (dispatching ((e ∷ es, path) ∷ work) r rest)
            delay
            s
            (dispatching ((es, path) ∷ work) r rest)
            delay
            (record s { outside = dispatch_live X G Actors D dispatchers path e s.outside })
    dispatched :
        (delay : ℕ) (s : Live X G Actors) (path : FilePath) (work : Work X) (r : RecordedEvent X)
        (rest : List (Item X))
        → Step (dispatching (([], path) ∷ work) r rest) delay s (dispatching work r rest) delay s
    -- Whether someone holds a receiver is up to the users of the handle.
    notify :
        (listened : Bool) (delay : ℕ) (s : Live X G Actors) (r : RecordedEvent X)
        (rest : List (Item X))
        → Step
            (dispatching [] r rest)
            delay
            s
            (streaming rest)
            delay
            (record s { position = send_position listened r.global_position s.position })
    tick_streaming :
        (delay : ℕ) (s : Live X G Actors) (rest : List (Item X))
        → Step (streaming rest) delay s (streaming rest) delay (saved X G Actors s)
    tick_dispatching :
        (delay : ℕ) (s : Live X G Actors) (work : Work X) (r : RecordedEvent X)
        (rest : List (Item X))
        → Step
            (dispatching work r rest)
            delay
            s
            (dispatching work r rest)
            delay
            (saved X G Actors s)
    stop_streaming :
        (delay : ℕ) (s : Live X G Actors) (rest : List (Item X))
        → Step (streaming rest) delay s returned delay (saved X G Actors s)
    stop_dispatching :
        (delay : ℕ) (s : Live X G Actors) (work : Work X) (r : RecordedEvent X)
        (rest : List (Item X))
        → Step (dispatching work r rest) delay s returned delay (saved X G Actors s)
    end_stream :
        (delay : ℕ) (s : Live X G Actors)
        → Step
            (streaming [])
            delay
            s
            connecting
            (delay_after_end X G Actors config s delay)
            (saved X G Actors s)
    break_stream :
        (delay : ℕ) (s : Live X G Actors) (status : X.Status) (rest : List (Item X))
        → Step (streaming (err status ∷ rest)) delay s sleeping delay (saved X G Actors s)
    wake :
        (delay : ℕ) (s : Live X G Actors)
        → Step sleeping delay s connecting (next_delay config delay) s
    stop_sleeping : (delay : ℕ) (s : Live X G Actors) → Step sleeping delay s returned delay s

  -- Any number of steps.
  pub data Run : Phase X → ℕ → Live X G Actors → Phase X → ℕ → Live X G Actors → Type 1 where
    here : {p : Phase X} {d : ℕ} {s : Live X G Actors} → Run p d s p d s
    after :
        {p q o : Phase X} {d e f : ℕ} {s t u : Live X G Actors}
        → Step p d s q e t
        → Run q e t o f u
        → Run p d s o f u
