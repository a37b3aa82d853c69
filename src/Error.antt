-- ===== src/Error.antt =====
-- src/error.rs: the errors of command execution, state reads and dispatch.
use Prim.Native.String.{◌++◌ as str_append}
use eventfold_es.Prelude.{String}
use eventfold_es.Runtime.{Runtime}
use eventfold_es.Io.{IoError}

pub data ExecuteError (X : Runtime) (E : Type 0) : Type 0 where
  domain : E → ExecuteError X E
  wrong_expected_version : ExecuteError X E
  io : IoError → ExecuteError X E
  transport : X.Status → ExecuteError X E
  actor_gone : ExecuteError X E

pub data StateError (X : Runtime) : Type 0 where
  io : IoError → StateError X
  transport : X.Status → StateError X
  actor_gone : StateError X

-- Display, by the `#[error]` attributes; `transparent` shows the domain error itself.
abbrev pub show_execute_error :
    (X : Runtime) {E : Type 0} → (E → String) → ExecuteError X E → String
show_execute_error X show (domain e) = show e
show_execute_error X show wrong_expected_version = "wrong expected version: retries exhausted"
show_execute_error X show (io e) = str_append "I/O error: " e.message
show_execute_error X show (transport s) = str_append "gRPC transport error: " (X.show_status s)
show_execute_error X show actor_gone = "aggregate actor is no longer running"

-- The I/O and serde errors of a dispatch are their texts' sources.
pub data DispatchError : Type 0 where
  unknown_aggregate_type : String → DispatchError
  unknown_command : DispatchError
  deserialization : String → DispatchError
  execution : String → DispatchError
  io : IoError → DispatchError

abbrev show_dispatch_error : DispatchError → String
show_dispatch_error (unknown_aggregate_type t) = str_append "unknown aggregate type: " t
show_dispatch_error unknown_command = "no route registered for command type"
show_dispatch_error (deserialization e) = str_append "command deserialization failed: " e
show_dispatch_error (execution e) = str_append "command execution failed: " e
show_dispatch_error (io e) = str_append "I/O error: " e.message

-- Display of a state error.
abbrev show_state_error : (X : Runtime) → StateError X → String
show_state_error X (io e) = str_append "I/O error: " e.message
show_state_error X (transport s) = str_append "gRPC transport error: " (X.show_status s)
show_state_error X actor_gone = "aggregate actor is no longer running"
