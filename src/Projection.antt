-- ===== src/Projection.antt =====
-- src/projection.rs: read models over the global log, their checkpoints, and the catch-up.
pub mod Stream
pub mod Exact
pub mod Files
pub mod Fold
use Prim.Native.String.{◌++◌ as str_append}
use eventfold_es.Prelude.{
  ℕ, String, true, false, Option, none, some, List, [], ◌∷◌, Result, ok, err, ltb, if◌then◌else◌,
  next_u64,
}
use eventfold_es.Runtime.{Runtime}
use eventfold_es.Event.{RecordedEvent, StoredEvent, decode_stored_event}
use eventfold_es.Client
use eventfold_es.Client.{Grpc}
use eventfold_es.Client.Proto.{event, caught_up}
use eventfold_es.Cursor.{Item}
use eventfold_es.Io.{
  IoError, not_found, invalid_data, other_error, FilePath, join, Disk, Io, read, write_via_rename,
}

-- The trait, with the serde implementations that its bounds ask for, over the checkpoint's fields.
pub record Projection (X : Runtime) : Type 1 where
  pub name : String
  pub State : Type 0
  pub default : State
  pub apply : State → StoredEvent X → State
  pub to_string_pretty : State → ℕ → Result X.Bytes String
  pub from_str : X.Bytes → Option (State × ℕ)

pub record ProjectionCheckpoint (X : Runtime) (P : Projection X) : Type 0 where
  pub state : P.State
  pub last_global_position : ℕ

-- The file names of a checkpoint directory.
unfoldable pub checkpoint_path : FilePath → FilePath
checkpoint_path dir = join dir "checkpoint.json"

unfoldable pub checkpoint_tmp_path : FilePath → FilePath
checkpoint_tmp_path dir = join dir "checkpoint.json.tmp"

-- `read_to_string`: a file that is not UTF-8 is an error.
unfoldable pub text_of : (X : Runtime) → Result X.Bytes IoError → Result X.Bytes IoError
text_of X (ok b) =
    if X.is_utf8 b
    then ok b
    else err (record { kind = invalid_data; message = "stream did not contain valid UTF-8" })
text_of X (err e) = err e

-- The errors of a subscription, as the runners report them.
unfoldable pub subscribe_failed : (X : Runtime) → X.Status → IoError
subscribe_failed X s = other_error (str_append "subscribe_all_from failed: " (X.show_status s))

unfoldable pub stream_failed : (X : Runtime) → X.Status → IoError
stream_failed X s = other_error (str_append "subscribe stream error: " (X.show_status s))

module _ (X : Runtime) (P : Projection X) where
  -- ProjectionCheckpoint::default()
  unfoldable pub default_checkpoint : ProjectionCheckpoint X P
  default_checkpoint = record { state = P.default; last_global_position = 0 }

  unfoldable pub checkpoint_json : ProjectionCheckpoint X P → Result X.Bytes IoError
  checkpoint_json c = elim (P.to_string_pretty c.state c.last_global_position) [
    | ok b ↦ ok b
    | err m ↦ err (other_error m)
  ]

  unfoldable pub save_checkpoint : FilePath → ProjectionCheckpoint X P → Io X.Bytes (Unit {0})
  save_checkpoint dir checkpoint =
      write_via_rename dir (checkpoint_tmp_path dir) (checkpoint_path dir)
        (checkpoint_json checkpoint)

  -- A missing file, and a text that does not parse, are no checkpoint.
  unfoldable pub parse_checkpoint :
      Result X.Bytes IoError → Result (Option (ProjectionCheckpoint X P)) IoError
  parse_checkpoint (ok content) = elim (P.from_str content) [
    | none ↦ ok none
    | some (state, position) ↦ ok (some (record { state = state; last_global_position = position }))
  ]
  parse_checkpoint (err e) = elim e.kind [ not_found ↦ ok none | _ ↦ err e ]

  unfoldable pub load_checkpoint : FilePath → Io X.Bytes (Option (ProjectionCheckpoint X P))
  unfolding text_of parse_checkpoint
  load_checkpoint dir d =
      let (result, d') = read (checkpoint_path dir) d in (parse_checkpoint (text_of X result), d')

  -- The client is a parameter of the methods that use it.
  pub record ProjectionRunner : Type 0 where
    pub checkpoint : ProjectionCheckpoint X P
    pub checkpoint_dir : FilePath

  unwrap_or_default : Option (ProjectionCheckpoint X P) → ProjectionCheckpoint X P
  unwrap_or_default none = default_checkpoint
  unwrap_or_default (some c) = c

  -- ProjectionRunner::new
  unfoldable pub new : FilePath → Io X.Bytes ProjectionRunner
  unfolding unwrap_or_default
  new checkpoint_dir d =
      let (loaded, d') = load_checkpoint checkpoint_dir d in
      elim loaded [
        | err e ↦ (err e, d')
        | ok found ↦ (
          ok (record { checkpoint = unwrap_or_default found; checkpoint_dir = checkpoint_dir }),
          d',
        )
      ]

  -- An event below the position was processed before; one that does not decode only moves it.
  unfoldable pub apply_recorded_event :
      ProjectionCheckpoint X P → RecordedEvent X → ProjectionCheckpoint X P
  apply_recorded_event c recorded =
      if ltb recorded.global_position c.last_global_position then c else record {
        state = elim (decode_stored_event X recorded) [
          | none ↦ c.state
          | some stored ↦ P.apply c.state stored
        ];
        last_global_position = next_u64 recorded.global_position;
      }

  -- Reads until the stream fails, catches up or ends; what was applied stays applied.
  unfoldable pub process_stream :
      ProjectionCheckpoint X P
      → List (Item X)
      → Result (Unit {0}) IoError × ProjectionCheckpoint X P
  process_stream c [] = (ok tt, c)
  process_stream c (err status ∷ rest) = (err (stream_failed X status), c)
  process_stream c (ok response ∷ rest) = elim response.content [
    | some (event recorded) ↦ process_stream (apply_recorded_event c recorded) rest
    | some caught_up ↦ (ok tt, c)
    | none ↦ process_stream c rest
  ]

  module _ (G : Grpc X) where
    -- The checkpoint is saved only if the stream was read without an error.
    unfoldable pub catch_up :
        ProjectionRunner
        → G.W
        → Disk X.Bytes
        → ((Result (Unit {0}) IoError × ProjectionRunner) × G.W) × Disk X.Bytes
    catch_up runner w d =
        let (subscribed, w') =
          Client.subscribe_all_from X G runner.checkpoint.last_global_position w in
        elim subscribed [
          | err status ↦ (((err (subscribe_failed X status), runner), w'), d)
          | ok stream ↦
              let (result, c) = process_stream runner.checkpoint stream in
              let runner' : ProjectionRunner = record runner { checkpoint = c } in
              let (saved, d') = save_checkpoint runner.checkpoint_dir c d in
              elim result [
                | err e ↦ (((err e, runner'), w'), d)
                | ok _ ↦ (((saved, runner'), w'), d')
              ]
        ]
