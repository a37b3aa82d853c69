-- ===== src/Tests/FileExamples.antt =====
-- Checkpoint files, and a projection of the live loop, over the two-event server.
use eventfold_es.Prelude.{◌≡◌, refl, ◌⊎◌, true, List, [], ◌∷◌, ◌++◌, ok, arith}
use eventfold_es.Cursor.{consume, from_position}
use eventfold_es.Io.{create_dir_all, write, rename, write_via_rename}
use eventfold_es.Io.Atomic.{IsKept, IsReplaced}
use eventfold_es.Projection
use eventfold_es.Projection.{
  ProjectionCheckpoint, ProjectionRunner, checkpoint_path, checkpoint_json, save_checkpoint,
}
use eventfold_es.Projection.Files.{new-save_checkpoint}
use eventfold_es.Projection.Stream.{projection_cursor}
use eventfold_es.ProcessManager.{ProcessManagerCheckpoint, pm_checkpoint_json, save_pm_checkpoint}
use eventfold_es.ProcessManager.Files.{save_pm_checkpoint_atomic}
use eventfold_es.Live.{DynProjection, erase_projection, process_stream_with_dispatch}
use eventfold_es.Live.Fanout.{live_events, live_projection_exact}
use eventfold_es.Tests.Json.{json_runtime}
use eventfold_es.Tests.Readers.{global_log, two_event_grpc, counting, replying, dead_letters}
use eventfold_es.Tests.LiveExamples.{reader, live_start, both_events, empty_files}

abbrev counted : ProjectionCheckpoint json_runtime counting
counted = record { state = 2; last_global_position = 9 }

new-save_checkpoint_example :
    (Projection.new json_runtime counting
      ("projections" ∷ [])
      (save_checkpoint json_runtime counting ("projections" ∷ []) counted empty_files).1).0
    ≡ ok (record { checkpoint = counted; checkpoint_dir = "projections" ∷ [] })
unfolding save_checkpoint write_via_rename create_dir_all checkpoint_json write rename
new-save_checkpoint_example =
    new-save_checkpoint json_runtime counting ("projections" ∷ []) counted empty_files
      (λ b h. ground arith) refl refl

abbrev replied : ProcessManagerCheckpoint json_runtime replying
replied = record { state = 1; last_global_position = 4 }

save_pm_checkpoint_atomic_example :
    IsKept
      (checkpoint_path ("managers" ∷ []))
      empty_files
      (save_pm_checkpoint json_runtime replying ("managers" ∷ []) replied empty_files)
    ⊎ IsReplaced
        (checkpoint_path ("managers" ∷ []))
        (pm_checkpoint_json json_runtime replying replied)
        (save_pm_checkpoint json_runtime replying ("managers" ∷ []) replied empty_files)
save_pm_checkpoint_atomic_example =
    save_pm_checkpoint_atomic json_runtime replying ("managers" ∷ []) replied empty_files

live_projection_exact_example :
    (xs' ys' : List (DynProjection json_runtime two_event_grpc)) × ((process_stream_with_dispatch
        json_runtime two_event_grpc
        (Unit {0})
        (dead_letters two_event_grpc)
        []
        (λ _. true)
        both_events
        live_start).1.projections
      ≡ xs'
        ++ (erase_projection json_runtime counting two_event_grpc (record reader {
          checkpoint =
              consume (projection_cursor json_runtime counting) reader.checkpoint global_log;
        })
            ∷ ys'))
unfolding live_events from_position
live_projection_exact_example =
    live_projection_exact json_runtime two_event_grpc (Unit {0}) (dead_letters two_event_grpc) []
      (λ _. true) counting reader [] [] live_start both_events 0 global_log refl (omega arith) refl
      (omega arith, (omega arith, tt))
