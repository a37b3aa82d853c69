-- ===== src/Tests/SavedExamples.antt =====
-- When a run of the process managers writes checkpoints, at a manager whose replies are refused.
use eventfold_es.Prelude.{◌≡◌, refl, ◌⊎◌, List, [], ◌∷◌, String, ok, err}
use eventfold_es.Command.{CommandEnvelope}
use eventfold_es.Io.{FilePath, other_error}
use eventfold_es.Io.Atomic.{path_eq-apart}
use eventfold_es.ProcessManager.{dead_letter_path}
use eventfold_es.Store.{
  Dispatcher, ProcessManagerReport, collect, dispatch_work, run_process_managers, erase_pm,
}
use eventfold_es.Store.Saved.{SameFile, LogElsewhere, run_process_managers_saves_last}
use eventfold_es.Tests.Json.{json_runtime}
use eventfold_es.Tests.Readers.{two_event_grpc, dead_letters}
use eventfold_es.Tests.ReaderExamples.{managers, outside}

-- Every command is refused, and so dead-lettered.
abbrev pub refusing : List (String × Dispatcher json_runtime two_event_grpc (Unit {0}))
refusing = ("ledger", λ e o. (err (other_error "refused"), o)) ∷ []

abbrev pub checkpoint_file : FilePath
checkpoint_file = "managers" ∷ "checkpoint.json" ∷ []

pub logs-LogElsewhere :
    LogElsewhere json_runtime two_event_grpc
      (Unit {0})
      (dead_letters two_event_grpc)
      refusing
      checkpoint_file
      managers
unfolding dead_letter_path erase_pm
logs-LogElsewhere = (
  λ self.
      path_eq-apart self.checkpoint_dir ("managers" ∷ []) "dead_letters.jsonl" "checkpoint.json"
        refl,
  tt,
)

run_process_managers_saves_last_example :
    SameFile json_runtime two_event_grpc
      (Unit {0})
      (dead_letters two_event_grpc)
      refusing
      checkpoint_file
      outside
      (run_process_managers json_runtime two_event_grpc
        (Unit {0})
        (dead_letters two_event_grpc)
        refusing
        managers
        outside).1
    ⊎ ((work : List (List (CommandEnvelope json_runtime) × FilePath))
        × (report : ProcessManagerReport) × ((collect json_runtime two_event_grpc
              (Unit {0})
              (dead_letters two_event_grpc)
              managers
              outside.world).0.0
            ≡ ok work)
        × ((dispatch_work json_runtime two_event_grpc
              (Unit {0})
              (dead_letters two_event_grpc)
              refusing
              work
              (record { dispatched = 0; dead_lettered = 0 })
              (record outside {
                world =
                    (collect json_runtime two_event_grpc
                      (Unit {0})
                      (dead_letters two_event_grpc)
                      managers
                      outside.world).1;
              })).0
            ≡ ok report))
run_process_managers_saves_last_example =
    run_process_managers_saves_last json_runtime two_event_grpc (Unit {0})
      (dead_letters two_event_grpc) refusing checkpoint_file managers outside (λ e o. refl, tt)
      logs-LogElsewhere
