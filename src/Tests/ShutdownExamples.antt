-- ===== src/Tests/ShutdownExamples.antt =====
-- A shutdown between the receipt of an event and its dispatch, over the two-event server.
use eventfold_es.Prelude.{◌≡◌, refl, List, [], ◌∷◌, ◌++◌, arith, ok}
use eventfold_es.Command.{CommandEnvelope}
use eventfold_es.Event.{decode_stored_event}
use eventfold_es.Cursor.{consume}
use eventfold_es.Io.{create_dir_all, write, rename, next_fault, write_via_rename}
use eventfold_es.Projection.{save_checkpoint, checkpoint_json}
use eventfold_es.ProcessManager
use eventfold_es.ProcessManager.{ProcessManagerRunner}
use eventfold_es.Store.{react_event}
use eventfold_es.Live.{
  Live, react_all, apply_to_all, erase_projection, save_managers, save_projections,
  save_all_checkpoints,
}
use eventfold_es.Live.Loop.{Run, streaming, returned}
use eventfold_es.Live.Loop.Shutdown.{answers, shutdown_drops}
use eventfold_es.Tests.Json.{json_runtime}
use eventfold_es.Tests.Readers.{logged, deliver, global_log, two_event_grpc, replying, dead_letters}
use eventfold_es.Tests.LiveExamples.{config, replier, live_start, both_events}

abbrev after_first : ProcessManagerRunner json_runtime replying
after_first = (react_event json_runtime replying two_event_grpc replier (logged 0)).0

abbrev lost : List (CommandEnvelope json_runtime)
lost = (react_event json_runtime replying two_event_grpc replier (logged 0)).1

shutdown_drops_example :
    (t : Live json_runtime two_event_grpc (Unit {0})) × Run json_runtime two_event_grpc
      (Unit {0})
      (dead_letters two_event_grpc)
      []
      config
      (streaming both_events)
      1000
      live_start
      returned
      1000
      t
    × (t.outside.world ≡ tt)
    × (t.outside.actors ≡ tt)
    × ((ProcessManager.new json_runtime replying ("managers" ∷ []) t.outside.disk).0
        ≡ ok after_first)
    × (answers json_runtime replying replier.checkpoint global_log
        ≡ lost ++ answers json_runtime replying after_first.checkpoint global_log)
unfolding react_all apply_to_all ProcessManager.default_checkpoint consume react_event
    save_all_checkpoints save_managers save_projections erase_projection save_checkpoint
    ProcessManager.save ProcessManager.save_pm_checkpoint write_via_rename create_dir_all
    checkpoint_json ProcessManager.pm_checkpoint_json write rename next_fault
shutdown_drops_example =
    shutdown_drops json_runtime two_event_grpc (Unit {0}) (dead_letters two_event_grpc) [] config
      replying [] replier [] (logged 1 ∷ []) (logged 0) (deliver (logged 1 ∷ [])) 1000 live_start
      refl refl (omega arith, (omega arith, tt)) (λ b h. ground arith) refl refl

-- The manager has something to lose.
lost-one : (e : CommandEnvelope json_runtime) × (lost ≡ e ∷ [])
unfolding react_event ProcessManager.react_recorded_event decode_stored_event
lost-one = (_, refl)
