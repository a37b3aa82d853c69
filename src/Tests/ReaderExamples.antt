-- ===== src/Tests/ReaderExamples.antt =====
-- The theorems on the readers, at the projection and the process manager on the two-event server.
use eventfold_es.Prelude.{
  ◌≡◌, refl, true, false, none, some, List, [], ◌∷◌, ◌++◌, ok, err, arith, next_u64,
}
use eventfold_es.Command.{CommandEnvelope}
use eventfold_es.Event.{RecordedEvent, decode_stored_event}
use eventfold_es.Runtime.{entry}
use eventfold_es.Io
use eventfold_es.Client.{subscribe_all_from}
use eventfold_es.Cursor.{Item, consume, events_of, failure_of, from_position}
use eventfold_es.GlobalLog.{IsBehind-start, is_caught_up}
use eventfold_es.Io.{
  Disk, write_via_rename, create_dir_all, write, rename, other_error, FilePath, append_line,
}
use eventfold_es.Projection
use eventfold_es.Projection.{
  ProjectionCheckpoint, ProjectionRunner, stream_failed, subscribe_failed,
}
use eventfold_es.Projection.Stream.{projection_cursor}
use eventfold_es.Projection.Exact.{catch_up-rebuild}
use eventfold_es.ProcessManager
use eventfold_es.ProcessManager.{ProcessManagerCheckpoint, ProcessManagerRunner}
use eventfold_es.ProcessManager.Stream.{pm_cursor}
use eventfold_es.ProcessManager.Exact.{failed_stream_drops, catch_up-emits}
use eventfold_es.Store.{
  Outside, DynProcessManager, erase_pm, collect, dispatch_work, dispatch_envelope,
  append_dead_letter, entry_text, parent, save_all, run_process_managers, ProcessManagerReport,
}
use eventfold_es.Store.Report.{handled, total, run_process_managers-handled}
use eventfold_es.Live.{Live, erase_projection}
use eventfold_es.Live.Fanout.{live_events}
use eventfold_es.Tests.Json.{json_runtime, Document, broken}
use eventfold_es.Tests.Readers.{
  global_log, logged, stream_item, deliver, two_event_grpc, two_event_log, counting, replying,
  reply, dead_letters,
}

-- One event, then an error.
abbrev broken_stream : List (Item json_runtime)
broken_stream = stream_item (logged 0) ∷ err (broken "reset") ∷ []

abbrev rest_stream : List (Item json_runtime)
rest_stream = deliver (logged 1 ∷ [])

abbrev projection_start : ProjectionCheckpoint json_runtime counting
projection_start = Projection.default_checkpoint json_runtime counting

abbrev pub manager_start : ProcessManagerCheckpoint json_runtime replying
manager_start = ProcessManager.default_checkpoint json_runtime replying

abbrev projection_runner : ProjectionRunner json_runtime counting
projection_runner = record { checkpoint = projection_start; checkpoint_dir = "projections" ∷ [] }

abbrev manager_runner : ProcessManagerRunner json_runtime replying
manager_runner = record { checkpoint = manager_start; checkpoint_dir = "managers" ∷ [] }

abbrev clean_disk : Disk Document
clean_disk = record { files = λ _. none; faults = [] }

abbrev pub whole_stream : List (Item json_runtime)
whole_stream = deliver global_log

projection_subscribed :
    (two_event_grpc.subscribe_all projection_start.last_global_position tt).0 ≡ ok whole_stream
unfolding Projection.default_checkpoint from_position
projection_subscribed = refl

pub whole_stream-caught_up : is_caught_up whole_stream ≡ true
unfolding is_caught_up
whole_stream-caught_up = refl

catch_up-rebuild_example :
    (before : List (RecordedEvent json_runtime)) × ((Projection.catch_up json_runtime counting
        two_event_grpc projection_runner tt clean_disk).0.0.1.checkpoint
      ≡ consume (projection_cursor json_runtime counting) projection_start (global_log ++ before))
unfolding two_event_log
catch_up-rebuild_example =
    catch_up-rebuild json_runtime counting two_event_grpc two_event_log projection_runner tt
      clean_disk whole_stream projection_subscribed whole_stream-caught_up
      (IsBehind-start (projection_cursor json_runtime counting) projection_start global_log)

broken_stream-fails : failure_of broken_stream ≡ some (broken "reset")
unfolding failure_of
broken_stream-fails = refl

rest_stream-ends : failure_of rest_stream ≡ none
unfolding failure_of
rest_stream-ends = refl

failed_stream_drops_example :
    (lost out : List (CommandEnvelope json_runtime)) × (lost
      ≡ (consume (pm_cursor json_runtime replying) (manager_start, []) (events_of broken_stream)).1)
    × ((ProcessManager.process_stream json_runtime replying manager_start [] broken_stream).0
        ≡ err (stream_failed json_runtime (broken "reset")))
    × ((ProcessManager.process_stream json_runtime replying
          (ProcessManager.process_stream json_runtime replying manager_start [] broken_stream).1
          []
          rest_stream).0
        ≡ ok out)
    × ((consume
          (pm_cursor json_runtime replying)
          (manager_start, [])
          (events_of broken_stream ++ events_of rest_stream)).1
        ≡ lost ++ out)
failed_stream_drops_example =
    failed_stream_drops json_runtime replying manager_start broken_stream rest_stream
      (broken "reset") broken_stream-fails rest_stream-ends

pub manager_subscribed :
    (two_event_grpc.subscribe_all manager_start.last_global_position tt).0 ≡ ok whole_stream
unfolding ProcessManager.default_checkpoint from_position
manager_subscribed = refl

catch_up-emits_example :
    (before : List (RecordedEvent json_runtime)) × (fresh : List (CommandEnvelope json_runtime))
    × ((ProcessManager.catch_up json_runtime replying two_event_grpc manager_runner tt).0.0
        ≡ ok fresh)
    × ((
      (ProcessManager.catch_up json_runtime replying two_event_grpc manager_runner
          tt).0.1.checkpoint,
      [] ++ fresh,
    )
        ≡ consume (pm_cursor json_runtime replying) (manager_start, []) (global_log ++ before))
unfolding two_event_log
catch_up-emits_example =
    catch_up-emits json_runtime replying two_event_grpc two_event_log manager_runner [] tt
      whole_stream manager_subscribed whole_stream-caught_up
      (IsBehind-start (pm_cursor json_runtime replying) (manager_start, []) global_log)

-- A run over the two-event server: no actor takes the commands, so both are dead letters.
abbrev pub managers : List (DynProcessManager json_runtime two_event_grpc)
managers = erase_pm json_runtime replying two_event_grpc manager_runner ∷ []

abbrev pub outside : Outside json_runtime two_event_grpc (Unit {0})
outside = record { world = tt; disk = clean_disk; actors = tt }

abbrev two_dead_letters : ProcessManagerReport
two_dead_letters = record { dispatched = 0; dead_lettered = 2 }

abbrev replies : List (List (CommandEnvelope json_runtime) × FilePath)
replies = (reply ∷ reply ∷ [], "managers" ∷ "dead_letters.jsonl" ∷ []) ∷ []

collected :
    (collect json_runtime two_event_grpc (Unit {0}) (dead_letters two_event_grpc) managers tt).0.0
    ≡ ok replies
unfolding collect erase_pm ProcessManager.catch_up subscribe_all_from ProcessManager.process_stream
    from_position ProcessManager.default_checkpoint ProcessManager.react_recorded_event
    ProcessManager.dead_letter_path decode_stored_event next_u64
collected = refl

ran :
    (run_process_managers json_runtime two_event_grpc
      (Unit {0})
      (dead_letters two_event_grpc)
      []
      managers
      outside).0.0
    ≡ ok two_dead_letters
unfolding run_process_managers collect erase_pm ProcessManager.catch_up subscribe_all_from
    ProcessManager.process_stream from_position ProcessManager.default_checkpoint
    ProcessManager.react_recorded_event ProcessManager.dead_letter_path decode_stored_event next_u64
    dispatch_work dispatch_envelope entry append_dead_letter entry_text parent Io.◌>>=◌ append_line
    create_dir_all write rename save_all ProcessManager.save ProcessManager.save_pm_checkpoint
    write_via_rename ProcessManager.pm_checkpoint_json
ran = refl

run_process_managers-handled_example : handled two_dead_letters ≡ total replies
run_process_managers-handled_example =
    run_process_managers-handled json_runtime two_event_grpc (Unit {0})
      (dead_letters two_event_grpc) [] managers outside two_dead_letters replies collected
      (ground arith) ran

abbrev ahead : ProjectionRunner json_runtime counting
ahead = record {
  checkpoint = record { state = 1; last_global_position = 1 };
  checkpoint_dir = "ahead" ∷ [];
}

abbrev live : Live json_runtime two_event_grpc (Unit {0})
live = record {
  projections = erase_projection json_runtime counting two_event_grpc ahead ∷ [];
  process_managers = managers;
  outside = outside;
  is_caught_up = false;
  position = 0;
}

-- The stream starts at 0, which the projection has already applied.
whole_stream-events : live_events whole_stream ≡ from_position 0 global_log
unfolding live_events from_position
whole_stream-events = refl
