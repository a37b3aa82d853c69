-- ===== src/ProcessManager.antt =====
-- src/process_manager.rs: readers of the global log that emit commands, their checkpoints, and the
-- dead-letter log.
pub mod Stream
pub mod Exact
pub mod Files
use Prim.Native.String.{◌++◌ as str_append}
use eventfold_es.Prelude.{
  ℕ, String, true, false, Option, none, some, List, [], ◌∷◌, ◌++◌, Result, ok, err, ltb,
  if◌then◌else◌, next_u64,
}
use eventfold_es.Runtime.{Runtime}
use eventfold_es.Command.{CommandEnvelope}
use eventfold_es.Event.{RecordedEvent, StoredEvent, decode_stored_event}
use eventfold_es.Client
use eventfold_es.Client.{Grpc}
use eventfold_es.Client.Proto.{event, caught_up}
use eventfold_es.Cursor.{Item}
use eventfold_es.Io.{IoError, not_found, other_error, FilePath, join, Io, read, write_via_rename}
use eventfold_es.Projection.{
  checkpoint_path, checkpoint_tmp_path, text_of, subscribe_failed, stream_failed,
}

-- The trait, with the serde implementations that its bounds ask for, over the checkpoint's fields.
pub record ProcessManager (X : Runtime) : Type 1 where
  pub name : String
  pub State : Type 0
  pub default : State
  pub react : State → StoredEvent X → State × List (CommandEnvelope X)
  pub to_string_pretty : State → ℕ → Result X.Bytes String
  pub from_str : X.Bytes → Option (State × ℕ)

pub record ProcessManagerCheckpoint (X : Runtime) (M : ProcessManager X) : Type 0 where
  pub state : M.State
  pub last_global_position : ℕ

module _ (X : Runtime) (M : ProcessManager X) where
  -- ProcessManagerCheckpoint::default()
  unfoldable pub default_checkpoint : ProcessManagerCheckpoint X M
  default_checkpoint = record { state = M.default; last_global_position = 0 }

  unfoldable pub pm_checkpoint_json : ProcessManagerCheckpoint X M → Result X.Bytes IoError
  pm_checkpoint_json c = elim (M.to_string_pretty c.state c.last_global_position) [
    | ok b ↦ ok b
    | err m ↦ err (other_error m)
  ]

  unfoldable pub save_pm_checkpoint :
      FilePath → ProcessManagerCheckpoint X M → Io X.Bytes (Unit {0})
  save_pm_checkpoint dir checkpoint =
      write_via_rename dir (checkpoint_tmp_path dir) (checkpoint_path dir)
        (pm_checkpoint_json checkpoint)

  pub parse_pm_checkpoint :
      Result X.Bytes IoError → Result (Option (ProcessManagerCheckpoint X M)) IoError
  parse_pm_checkpoint (ok content) = elim (M.from_str content) [
    | none ↦ ok none
    | some (state, position) ↦ ok (some (record { state = state; last_global_position = position }))
  ]
  parse_pm_checkpoint (err e) = elim e.kind [ not_found ↦ ok none | _ ↦ err e ]

  pub load_pm_checkpoint : FilePath → Io X.Bytes (Option (ProcessManagerCheckpoint X M))
  unfolding parse_pm_checkpoint
  load_pm_checkpoint dir d =
      let (result, d') = read (checkpoint_path dir) d in
      (parse_pm_checkpoint (text_of X result), d')

  -- The client is a parameter of the methods that use it.
  pub record ProcessManagerRunner : Type 0 where
    pub checkpoint : ProcessManagerCheckpoint X M
    pub checkpoint_dir : FilePath

  unwrap_or_default : Option (ProcessManagerCheckpoint X M) → ProcessManagerCheckpoint X M
  unwrap_or_default none = default_checkpoint
  unwrap_or_default (some c) = c

  -- ProcessManagerRunner::new
  unfoldable pub new : FilePath → Io X.Bytes ProcessManagerRunner
  unfolding unwrap_or_default
  new checkpoint_dir d =
      let (loaded, d') = load_pm_checkpoint checkpoint_dir d in
      elim loaded [
        | err e ↦ (err e, d')
        | ok found ↦ (
          ok (record { checkpoint = unwrap_or_default found; checkpoint_dir = checkpoint_dir }),
          d',
        )
      ]

  -- ProcessManagerRunner::save and dead_letter_path
  unfoldable pub save : ProcessManagerRunner → Io X.Bytes (Unit {0})
  save runner = save_pm_checkpoint runner.checkpoint_dir runner.checkpoint

  unfoldable pub dead_letter_path : ProcessManagerRunner → FilePath
  dead_letter_path runner = join runner.checkpoint_dir "dead_letters.jsonl"

  react_decoded : Option (StoredEvent X) → M.State → M.State × List (CommandEnvelope X)
  react_decoded none s = (s, [])
  react_decoded (some stored) s = M.react s stored

  unfoldable pub react_recorded_event :
      ProcessManagerCheckpoint X M
      → RecordedEvent X
      → ProcessManagerCheckpoint X M × List (CommandEnvelope X)
  unfolding react_decoded
  react_recorded_event c recorded =
      if ltb recorded.global_position c.last_global_position
      then (c, [])
      else let (state, produced) = react_decoded (decode_stored_event X recorded) c.state in
        (
          record { state = state; last_global_position = next_u64 recorded.global_position },
          produced,
        )

  -- `envelopes` is what was collected so far; an error drops it, and keeps the checkpoint's moves.
  unfoldable pub process_stream :
      ProcessManagerCheckpoint X M
      → List (CommandEnvelope X)
      → List (Item X)
      → Result (List (CommandEnvelope X)) IoError × ProcessManagerCheckpoint X M
  process_stream c envelopes [] = (ok envelopes, c)
  process_stream c envelopes (err status ∷ rest) = (err (stream_failed X status), c)
  process_stream c envelopes (ok response ∷ rest) = elim response.content [
    | some (event recorded) ↦
        let (c', produced) = react_recorded_event c recorded in
        process_stream c' (envelopes ++ produced) rest
    | some caught_up ↦ (ok envelopes, c)
    | none ↦ process_stream c envelopes rest
  ]

  module _ (G : Grpc X) where
    -- Nothing is saved: the caller does so after it has dispatched the envelopes.
    unfoldable pub catch_up :
        ProcessManagerRunner
        → G.W
        → (Result (List (CommandEnvelope X)) IoError × ProcessManagerRunner) × G.W
    catch_up runner w =
        let (subscribed, w') =
          Client.subscribe_all_from X G runner.checkpoint.last_global_position w in
        elim subscribed [
          | err status ↦ ((err (subscribe_failed X status), runner), w')
          | ok stream ↦
              let (result, c) = process_stream runner.checkpoint [] stream in
              ((result, record runner { checkpoint = c }), w')
        ]
