-- ===== src/Live/Loop/Shutdown.antt =====
-- src/live.rs, `run_live_loop`: a shutdown that meets the loop while it dispatches.
use eventfold_es.Prelude.{
  ℕ, ◌≡◌, refl, sym, ap, ◌∙◌, true, none, some, List, [], ◌∷◌, ◌++◌, append_assoc, String, ok,
}
use eventfold_es.Runtime.{Runtime}
use eventfold_es.Command.{CommandEnvelope}
use eventfold_es.Event.{RecordedEvent}
use eventfold_es.Client.{Grpc}
use eventfold_es.Client.Proto.{event}
use eventfold_es.Cursor.{Item, IsShort, consume, consume-append, consume-below, consume-stale}
use eventfold_es.GlobalLog.{IsShort-append_left}
use eventfold_es.Io.{Disk, next_fault}
use eventfold_es.ProcessManager
use eventfold_es.ProcessManager.Files.{new-save_pm_checkpoint}
use eventfold_es.ProcessManager.{
  ProcessManager, ProcessManagerCheckpoint, ProcessManagerRunner, default_checkpoint,
  react_recorded_event,
}
use eventfold_es.ProcessManager.Stream.{History, emit, pm_cursor, consume-emitted}
use eventfold_es.Store.{DynProcessManager, Dispatcher, DeadLetters, erase_pm, react_event}
use eventfold_es.Live.{
  LiveConfig, Live, react_all, apply_to_all, save_managers, save_all_checkpoints,
}
use eventfold_es.Live.Loop.{
  streaming, returned, saved, fan_out, receive, stop_dispatching, Run, here, after,
}
use eventfold_es.Live.Loop.Reactions.{react_all-split}

module _ (X : Runtime) (M : ProcessManager X) where
  -- The events of a log, as one process manager that begins at a checkpoint answers them.
  abbrev pub answers :
      ProcessManagerCheckpoint X M → List (RecordedEvent X) → List (CommandEnvelope X)
  answers c rs = (consume (pm_cursor X M) (c, []) rs).1

  -- The checkpoint behind a prefix of the log.
  abbrev pub checkpoint_of : List (RecordedEvent X) → ProcessManagerCheckpoint X M
  checkpoint_of xs = (consume (pm_cursor X M) (default_checkpoint X M, []) xs).0

  checkpoint_of-next :
      (xs : List (RecordedEvent X)) (r : RecordedEvent X)
      → checkpoint_of (xs ++ r ∷ []) ≡ (react_recorded_event X M (checkpoint_of xs) r).0
  unfolding consume emit
  checkpoint_of-next xs r =
      ap (λ h. h.0) (consume-append (pm_cursor X M) (default_checkpoint X M, []) xs (r ∷ []))

  -- Reading the whole log again from such a checkpoint answers only what comes after it.
  answers-passed :
      (xs ys : List (RecordedEvent X))
      → IsShort X (xs ++ ys)
      → answers (checkpoint_of xs) (xs ++ ys) ≡ answers (checkpoint_of xs) ys
  answers-passed xs ys short =
      let start : History X M = (default_checkpoint X M, []) in
      let below = consume-below (pm_cursor X M) start xs (IsShort-append_left xs ys short) in
      ap (λ h. h.1)
        (consume-append (pm_cursor X M) (checkpoint_of xs, []) xs ys
          ∙ ap (λ h. consume (pm_cursor X M) h ys)
              (consume-stale (pm_cursor X M) (checkpoint_of xs, []) xs below))

  -- One more event from such a checkpoint, and the whole log again: the reactions to it are missing.
  answers-lost :
      (c : ProcessManagerCheckpoint X M) (xs : List (RecordedEvent X)) (r : RecordedEvent X)
      (ys : List (RecordedEvent X))
      → c ≡ checkpoint_of xs
      → IsShort X (xs ++ r ∷ ys)
      → answers c (xs ++ r ∷ ys)
        ≡ (react_recorded_event X M c r).1
          ++ answers (react_recorded_event X M c r).0 (xs ++ r ∷ ys)
  unfolding consume emit
  answers-lost c xs r ys e short =
      let (next, produced) = react_recorded_event X M c r in
      let at_next : next ≡ checkpoint_of (xs ++ r ∷ []) =
        ap (λ (x : ProcessManagerCheckpoint X M). (react_recorded_event X M x r).0) e
        ∙ sym (checkpoint_of-next xs r) in
      let split = append_assoc xs (r ∷ []) ys in
      let again : answers next (xs ++ r ∷ ys) ≡ answers next ys =
        rw (← split, at_next) (answers-passed (xs ++ r ∷ []) ys (rw split short)) in
      let first : answers c (xs ++ r ∷ ys) ≡ answers c (r ∷ ys) =
        rw e (answers-passed xs (r ∷ ys) short) in
      first
      ∙ ap (λ (h : History X M). h.1) (consume-emitted X M next produced ys)
      ∙ ap (λ (l : List (CommandEnvelope X)). produced ++ l) (sym again)

-- The last of the process managers is saved last.
save_managers-last :
    (X : Runtime) (G : Grpc X) (xs : List (DynProcessManager X G)) (p : DynProcessManager X G)
    (d : Disk X.Bytes)
    → save_managers X G (xs ++ p ∷ []) d ≡ (p.save p.self (save_managers X G xs d)).1
unfolding save_managers
save_managers-last X G [] p d = refl
save_managers-last X G (x ∷ xs) p d = save_managers-last X G xs p (x.save x.self d).1

module _ (X : Runtime) (G : Grpc X) (Actors : Type 0) (D : DeadLetters X G)
    (dispatchers : List (String × Dispatcher X G Actors)) (config : LiveConfig)
    (M : ProcessManager X) where
  -- The disk that a shutdown leaves to the last process manager, when the others are saved.
  abbrev pub disk_before :
      RecordedEvent X → List (DynProcessManager X G) → Live X G Actors → Disk X.Bytes
  disk_before r before s =
      save_all_checkpoints X G (apply_to_all X G r s.projections) (react_all X G r before).0
        s.outside.disk

  -- A loop that has received an event may return before it has dispatched anything: the server and
  -- the actors are as they were. If the last of its process managers had read the log up to the
  -- event, its checkpoint's save then succeeds, its JSON reads back and the next read of the disk
  -- does not fail, a restart from the disk that the loop leaves finds this process manager behind
  -- the event. Its reactions to the event are then lost: from that checkpoint, reading the whole log
  -- again, it answers what it would have answered without them.
  pub shutdown_drops :
      (before : List (DynProcessManager X G)) (runner : ProcessManagerRunner X M)
      (xs ys : List (RecordedEvent X)) (r : RecordedEvent X) (rest : List (Item X)) (delay : ℕ)
      (s : Live X G Actors)
      → s.process_managers ≡ before ++ erase_pm X M G runner ∷ []
      → runner.checkpoint ≡ checkpoint_of X M xs
      → IsShort X (xs ++ r ∷ ys)
      → ((b : X.Bytes)
          → M.to_string_pretty
              (react_event X M G runner r).0.checkpoint.state
              (react_event X M G runner r).0.checkpoint.last_global_position
            ≡ ok b
          → (X.is_utf8 b ≡ true)
            × (M.from_str b
                ≡ some (
                  (react_event X M G runner r).0.checkpoint.state,
                  (react_event X M G runner r).0.checkpoint.last_global_position,
                )))
      → (ProcessManager.save X M (react_event X M G runner r).0 (disk_before r before s)).0 ≡ ok tt
      → (next_fault
          (ProcessManager.save X M
            (react_event X M G runner r).0
            (disk_before r before s)).1.faults).0
        ≡ none
      → (t : Live X G Actors) × Run X G Actors D dispatchers config
          (streaming (ok (record { content = some (event r) }) ∷ rest))
          delay
          s
          returned
          delay
          t
        × (t.outside.world ≡ s.outside.world)
        × (t.outside.actors ≡ s.outside.actors)
        × ((ProcessManager.new X M runner.checkpoint_dir t.outside.disk).0
            ≡ ok (react_event X M G runner r).0)
        × (answers X M runner.checkpoint (xs ++ r ∷ ys)
            ≡ (react_event X M G runner r).1
              ++ answers X M (react_event X M G runner r).0.checkpoint (xs ++ r ∷ ys))
  unfolding saved fan_out react_all erase_pm react_event save_all_checkpoints ProcessManager.save
  shutdown_drops before runner xs ys r rest delay s held e short round kept quiet =
      let moved = (react_event X M G runner r).0 in
      let d = disk_before r before s in
      let pms : (react_all X G r s.process_managers).0
          ≡ (react_all X G r before).0 ++ erase_pm X M G moved ∷ [] =
        ap (λ (l : List (DynProcessManager X G)). (react_all X G r l).0) held
        ∙ react_all-split X G r before (erase_pm X M G runner ∷ []) in
      let left : (saved X G Actors (fan_out X G Actors r s)).outside.disk
          ≡ (ProcessManager.save X M moved d).1 =
        ap
          (λ (l : List (DynProcessManager X G)).
            save_all_checkpoints X G (apply_to_all X G r s.projections) l s.outside.disk)
          pms
        ∙ save_managers-last X G (react_all X G r before).0 (erase_pm X M G moved) _ in
      (
        saved X G Actors (fan_out X G Actors r s),
        after (receive delay s r rest) (after (stop_dispatching delay _ _ r rest) here),
        refl,
        refl,
        rw left
            (new-save_pm_checkpoint X M runner.checkpoint_dir moved.checkpoint d round kept quiet),
        answers-lost X M runner.checkpoint xs r ys e short,
      )
