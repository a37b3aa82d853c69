-- ===== src/Tests/RedoneExamples.antt =====
-- A run of the process managers that a full disk cuts short, and its repetition.
use eventfold_es.Prelude.{◌≡◌, refl, sym, ◌⊎◌, none, some, [], ◌∷◌, append-nil, next_u64}
use eventfold_es.Runtime.{entry}
use eventfold_es.Client.{subscribe_all_from}
use eventfold_es.Cursor.{from_position}
use eventfold_es.Event.{decode_stored_event}
use eventfold_es.GlobalLog.{IsBehind-start}
use eventfold_es.Io
use eventfold_es.Io.{
  Disk, other_error, append_line, create_dir_all, write, rename, write_via_rename,
}
use eventfold_es.Projection.{checkpoint_path}
use eventfold_es.ProcessManager
use eventfold_es.ProcessManager.Stream.{pm_cursor}
use eventfold_es.Store.{
  Outside, run_process_managers, collect, dispatch_work, dispatch_envelope, erase_pm, save_all,
  append_dead_letter, entry_text, parent,
}
use eventfold_es.Store.Redone.{IsHandled, IsRedone, run_process_managers-IsRedone}
use eventfold_es.Tests.Json.{json_runtime, Document, checkpoint}
use eventfold_es.Tests.Readers.{two_event_grpc, two_event_log, global_log, dead_letters, replying}
use eventfold_es.Tests.ReaderExamples.{
  managers, manager_start, whole_stream, whole_stream-caught_up, manager_subscribed,
}
use eventfold_es.Tests.SavedExamples.{refusing, checkpoint_file, logs-LogElsewhere}

-- A disk that holds the manager's first checkpoint, and fails at the first dead letter.
abbrev failing_disk : Disk Document
failing_disk = record {
  files = λ _. some (checkpoint 0 0);
  faults = some (record { error = other_error "disk full"; partial = none }) ∷ [];
}

abbrev cut_short : Outside json_runtime two_event_grpc (Unit {0})
cut_short = record { world = tt; disk = failing_disk; actors = tt }

abbrev left_disk : Disk Document
left_disk = record { files = λ _. some (checkpoint 0 0); faults = [] }

left-files :
    left_disk.files checkpoint_file
    ≡ (run_process_managers json_runtime two_event_grpc
          (Unit {0})
          (dead_letters two_event_grpc)
          refusing
          managers
          cut_short).1.disk.files
        checkpoint_file
unfolding run_process_managers collect erase_pm ProcessManager.catch_up subscribe_all_from
    ProcessManager.process_stream from_position ProcessManager.default_checkpoint
    ProcessManager.react_recorded_event ProcessManager.dead_letter_path decode_stored_event next_u64
    dispatch_work dispatch_envelope entry append_dead_letter entry_text parent Io.◌>>=◌ append_line
    create_dir_all write rename save_all ProcessManager.save ProcessManager.save_pm_checkpoint
    write_via_rename ProcessManager.pm_checkpoint_json
left-files = refl

run_process_managers-IsRedone_example :
    IsHandled json_runtime two_event_grpc
      (Unit {0})
      (dead_letters two_event_grpc)
      refusing
      managers
      cut_short
    ⊎ IsRedone json_runtime two_event_grpc
        (Unit {0})
        (dead_letters two_event_grpc)
        refusing
        replying
        two_event_log
        ("managers" ∷ [])
        manager_start
        []
        left_disk
        tt
unfolding two_event_log checkpoint_path ProcessManager.default_checkpoint Io.next_fault
run_process_managers-IsRedone_example =
    run_process_managers-IsRedone json_runtime two_event_grpc (Unit {0})
      (dead_letters two_event_grpc) refusing replying two_event_log managers cut_short
      ("managers" ∷ []) manager_start [] (checkpoint 0 0) left_disk tt [] whole_stream
      (λ e o. refl, tt) logs-LogElsewhere
      (IsBehind-start (pm_cursor json_runtime replying) (manager_start, []) global_log) refl refl
      refl left-files refl (sym (append-nil _)) manager_subscribed whole_stream-caught_up
