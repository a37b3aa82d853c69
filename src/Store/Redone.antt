-- ===== src/Store/Redone.antt =====
-- src/store.rs and src/process_manager.rs: a run of the process managers that is cut short, and the
-- next one after a restart.
use eventfold_es.Prelude.{◌≡◌, ◌∙◌, true, inl, inr, ◌⊎◌, none, some, List, [], ◌++◌, String, ok}
use eventfold_es.Runtime.{Runtime}
use eventfold_es.Command.{CommandEnvelope}
use eventfold_es.Event.{RecordedEvent}
use eventfold_es.Client.{Grpc}
use eventfold_es.Cursor.{Item, consume}
use eventfold_es.GlobalLog.{IsGlobalLog, IsBehind, IsBehind-grow, is_caught_up}
use eventfold_es.Io.{FilePath, Disk, next_fault}
use eventfold_es.Projection.{checkpoint_path}
use eventfold_es.ProcessManager
use eventfold_es.ProcessManager.{
  ProcessManager, ProcessManagerCheckpoint, ProcessManagerRunner, default_checkpoint,
}
use eventfold_es.ProcessManager.Exact.{catch_up-emits}
use eventfold_es.ProcessManager.Files.{new-stored}
use eventfold_es.ProcessManager.Stream.{pm_cursor}
use eventfold_es.Store.{
  DynProcessManager, Outside, Dispatcher, ProcessManagerReport, DeadLetters, collect, dispatch_work,
  run_process_managers,
}
use eventfold_es.Store.Saved.{LeaveAlone, LogElsewhere, run_process_managers_saves_last}

module _ (X : Runtime) (G : Grpc X) (Actors : Type 0) (D : DeadLetters X G)
    (dispatchers : List (String × Dispatcher X G Actors)) where
  -- All that a run collected was dispatched or dead-lettered.
  abbrev pub IsHandled : List (DynProcessManager X G) → Outside X G Actors → Type 0
  IsHandled pms o =
      (work : List (List (CommandEnvelope X) × FilePath)) × (report : ProcessManagerReport)
      × ((collect X G Actors D pms o.world).0.0 ≡ ok work)
      × ((dispatch_work X G Actors D dispatchers work (record { dispatched = 0; dead_lettered = 0 })
            (record o { world = (collect X G Actors D pms o.world).1 })).0
          ≡ ok report)

  module _ (M : ProcessManager X) (L : IsGlobalLog X G) where
    -- A new runner in a directory starts at a checkpoint, and its catch-up returns exactly what the
    -- whole log emits beyond some envelopes.
    abbrev pub IsRedone :
        FilePath
        → ProcessManagerCheckpoint X M
        → List (CommandEnvelope X)
        → Disk X.Bytes
        → G.W
        → Type 0
    IsRedone dir c out d w =
        let runner : ProcessManagerRunner X M = record { checkpoint = c; checkpoint_dir = dir } in
        ((ProcessManager.new X M dir d).0 ≡ ok runner)
        × (before : List (RecordedEvent X)) × (fresh : List (CommandEnvelope X))
        × ((ProcessManager.catch_up X M G runner w).0.0 ≡ ok fresh)
        × (((ProcessManager.catch_up X M G runner w).0.1.checkpoint, out ++ fresh)
            ≡ consume (pm_cursor X M) (default_checkpoint X M, []) (L.log w ++ before))

    -- A process manager's file holds a checkpoint with which it had emitted `out` and no more. After a
    -- run of the process managers, either all that was collected was dispatched or dead-lettered, or a
    -- restart finds that checkpoint again, and a catch-up over the log, which may have grown, that
    -- reports to have caught up returns every envelope behind `out`: nothing that the run dropped is
    -- lost. Commands and dead-letter logs do not write the file, and its JSON reads back.
    pub run_process_managers-IsRedone :
        (pms : List (DynProcessManager X G)) (o : Outside X G Actors) (dir : FilePath)
        (c : ProcessManagerCheckpoint X M) (out : List (CommandEnvelope X)) (b : X.Bytes)
        (d : Disk X.Bytes) (w : G.W) (more : List (RecordedEvent X)) (stream : List (Item X))
        → LeaveAlone X G Actors D dispatchers (checkpoint_path dir)
        → LogElsewhere X G Actors D dispatchers (checkpoint_path dir) pms
        → IsBehind (pm_cursor X M) (default_checkpoint X M, []) (L.log o.world) (c, out)
        → o.disk.files (checkpoint_path dir) ≡ some b
        → X.is_utf8 b ≡ true
        → M.from_str b ≡ some (c.state, c.last_global_position)
        → d.files (checkpoint_path dir)
          ≡ (run_process_managers X G Actors D dispatchers pms o).1.disk.files (checkpoint_path dir)
        → (next_fault d.faults).0 ≡ none
        → L.log w ≡ L.log o.world ++ more
        → (G.subscribe_all c.last_global_position w).0 ≡ ok stream
        → is_caught_up stream ≡ true
        → IsHandled pms o ⊎ IsRedone dir c out d w
    run_process_managers-IsRedone pms o dir c out b d w more stream alone apart behind stored utf8
          back found quiet grown subscribed done =
        elim (run_process_managers_saves_last X G Actors D dispatchers (checkpoint_path dir) pms o
          alone apart) [
            | inr handled ↦ inl handled
            | inl same ↦
                let runner : ProcessManagerRunner X M = record {
                  checkpoint = c;
                  checkpoint_dir = dir;
                } in
                let kept : d.files (checkpoint_path dir) ≡ some b = found ∙ same ∙ stored in
                let still : IsBehind (pm_cursor X M) (default_checkpoint X M, []) (L.log w)
                    (c, out) =
                  rw grown (
                    IsBehind-grow (pm_cursor X M) (default_checkpoint X M, []) (L.log o.world) more
                      (c, out) behind) in
                let (before, fresh, got, whole) =
                  catch_up-emits X M G L runner out w stream subscribed done still in
                inr (new-stored X M dir c b d kept utf8 back quiet, before, fresh, got, whole)
          ]
