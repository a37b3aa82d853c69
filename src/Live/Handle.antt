-- ===== src/Live/Handle.antt =====
-- src/live.rs, `LiveHandle`: the cells that the live loop's task and the clones of a handle share.
-- A task is a number, and what awaiting it gives, its own result or a panic, is a parameter.
use Prim.Native.String.{◌++◌ as str_append}
use eventfold_es.Prelude.{
  ℕ, String, Bool, true, false, Option, none, some, Result, ok, err, not, ◌==◌, ◌+◌,
}
use eventfold_es.Live.{send_position}
use eventfold_es.Io.{IoError, other_error}

-- `shutdown_tx` says whether a shutdown was signalled.
pub record LiveHandle : Type 0 where
  pub shutdown_tx : Bool
  pub caught_up : Bool
  pub position_tx : ℕ
  -- The receivers of the position channel.
  pub receivers : ℕ
  pub task : Option ℕ

-- The handle that `start_live` makes; it drops the receiver that the channel came with.
unfoldable pub started : ℕ → LiveHandle
started task = record {
  shutdown_tx = false;
  caught_up = false;
  position_tx = 0;
  receivers = 0;
  task = some task;
}

-- `join_handle.await.map_err(..)?`
unfoldable pub await_task :
    (ℕ → Result (Result (Unit {0}) IoError) String) → Option ℕ → Result (Unit {0}) IoError
await_task joined none = ok tt
await_task joined (some task) = elim (joined task) [
  | ok result ↦ result
  | err e ↦ err (other_error (str_append "live loop task panicked: " e))
]

-- LiveHandle::shutdown
unfoldable pub shutdown :
    (ℕ → Result (Result (Unit {0}) IoError) String)
    → LiveHandle
    → Result (Unit {0}) IoError × LiveHandle
unfolding await_task
shutdown joined h = (await_task joined h.task, record h { shutdown_tx = true; task = none })

-- LiveHandle::is_caught_up
unfoldable pub is_caught_up : LiveHandle → Bool
is_caught_up h = h.caught_up

-- `position_tx.send(..)` in the loop.
unfoldable pub notify : ℕ → LiveHandle → LiveHandle
notify position h = record h {
  position_tx = send_position (not (h.receivers == 0)) position h.position_tx;
}

-- LiveHandle::subscribe, with what the new receiver reads first: the value of the channel, which is
-- not the position of the last event if that was sent while there was no receiver.
unfoldable pub subscribe : LiveHandle → ℕ × LiveHandle
subscribe h = (h.position_tx, record h { receivers = h.receivers + 1 })
