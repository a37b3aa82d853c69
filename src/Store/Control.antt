-- ===== src/Store/Control.antt =====
-- src/store.rs: starting the live loop once, with the handle of src/live.rs that it gives out, and
-- injecting an event.
pub mod Once
use Prim.Native.String.{◌++◌ as str_append}
use eventfold_es.Prelude.{
  ℕ, String, Bool, true, false, Option, none, some, List, [], ◌∷◌, Result, ok, err, if◌then◌else◌,
}
use eventfold_es.Runtime.{Runtime}
use eventfold_es.Aggregate.{Aggregate}
use eventfold_es.Event.{ProposedEventData, stream_uuid}
use eventfold_es.Client
use eventfold_es.Client.{Grpc, any}
use eventfold_es.Io.{IoError, already_exists, other_error}
use eventfold_es.Store.{
  DynProcessManager, Outside, Dispatcher, DeadLetters, ProcessManagerReport, run_process_managers,
}
use eventfold_es.Live.Handle.{LiveHandle, started}

-- AggregateStore::start_live, on the store's `live_handle`; `task` is the task that
-- `tokio::spawn` would make.
unfoldable pub start_live : ℕ → Option LiveHandle → Result LiveHandle IoError × Option LiveHandle
unfolding started
start_live task none = (ok (started task), some (started task))
start_live task (some h) =
    (err (record { kind = already_exists; message = "live subscription already started" }), some h)

-- InjectOptions
pub record InjectOptions : Type 0 where
  pub run_process_managers : Bool

module _ (X : Runtime) (A : Aggregate X) (G : Grpc X) (Actors : Type 0) (D : DeadLetters X G) where
  -- AggregateStore::inject_event
  unfoldable pub inject_event :
      List (String × Dispatcher X G Actors)
      → String
      → ProposedEventData X
      → InjectOptions
      → List (DynProcessManager X G)
      → Outside X G Actors
      → (Result (Unit {0}) IoError × List (DynProcessManager X G)) × Outside X G Actors
  inject_event dispatchers instance_id proposed opts pms o =
      let (appended, w) =
        Client.append X G (stream_uuid X A.aggregate_type instance_id) any (proposed ∷ [])
          o.world in
      let o1 : Outside X G Actors = record o { world = w } in
      let ((ran, pms'), o2) = run_process_managers X G Actors D dispatchers pms o1 in
      elim appended [
        | err e ↦
            ((err (other_error (str_append "gRPC append failed: " (X.show_status e))), pms), o1)
        | ok _ ↦
            if opts.run_process_managers
            then elim ran [ ok _ ↦ ((ok tt, pms'), o2) | err e ↦ ((err e, pms'), o2) ]
            else ((ok tt, pms), o1)
      ]
