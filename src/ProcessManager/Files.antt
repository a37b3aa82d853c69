-- ===== src/ProcessManager/Files.antt =====
-- src/process_manager.rs: what saving a checkpoint does to the disk, and the runner that is created next.
use eventfold_es.Prelude.{some, none, ok, inl, inr, true, ◌≡◌, refl, ◌⊎◌, arith}
use eventfold_es.Runtime.{Runtime}
use eventfold_es.Io.{FilePath, Disk, next_fault}
use eventfold_es.Io.Atomic.{path_eq-join, IsKept, IsReplaced, read_stored, write_via_rename_atomic}
use eventfold_es.Projection.{checkpoint_path, checkpoint_tmp_path, text_of}
use eventfold_es.ProcessManager.{
  ProcessManager, ProcessManagerCheckpoint, pm_checkpoint_json, save_pm_checkpoint,
  load_pm_checkpoint, parse_pm_checkpoint, new,
}

module _ (X : Runtime) (M : ProcessManager X) (dir : FilePath) where
  -- However its operations fail, a save either reports an error and leaves the checkpoint file of
  -- the process manager as it was, or it succeeds and leaves there the whole new checkpoint.
  pub save_pm_checkpoint_atomic :
      (c : ProcessManagerCheckpoint X M) (d : Disk X.Bytes)
      → IsKept (checkpoint_path dir) d (save_pm_checkpoint X M dir c d)
        ⊎ IsReplaced
            (checkpoint_path dir)
            (pm_checkpoint_json X M c)
            (save_pm_checkpoint X M dir c d)
  unfolding save_pm_checkpoint checkpoint_path checkpoint_tmp_path
  save_pm_checkpoint_atomic c d =
      write_via_rename_atomic dir (checkpoint_tmp_path dir) (checkpoint_path dir)
        (path_eq-join dir "checkpoint.json.tmp" "checkpoint.json")
        (path_eq-join dir "checkpoint.json.tmp" "checkpoint.json.tmp")
        (path_eq-join dir "checkpoint.json" "checkpoint.json") (pm_checkpoint_json X M c) d

  -- A runner that is created where a checkpoint's file reads back starts at that checkpoint.
  pub new-stored :
      (c : ProcessManagerCheckpoint X M) (b : X.Bytes) (d : Disk X.Bytes)
      → d.files (checkpoint_path dir) ≡ some b
      → X.is_utf8 b ≡ true
      → M.from_str b ≡ some (c.state, c.last_global_position)
      → (next_fault d.faults).0 ≡ none
      → (new X M dir d).0 ≡ ok (record { checkpoint = c; checkpoint_dir = dir })
  unfolding new load_pm_checkpoint text_of
  new-stored c b d stored utf8 back quiet =
      let got = read_stored (checkpoint_path dir) d b quiet stored in
      rw (got, new) (rw (utf8, text_of) (rw (back, parse_pm_checkpoint) refl))

  -- After a save that succeeded, a process manager's runner that is created in the same directory
  -- starts at exactly the saved checkpoint, if the JSON of this checkpoint is UTF-8 and parses back
  -- to it, and the read does not fail.
  pub new-save_pm_checkpoint :
      (c : ProcessManagerCheckpoint X M) (d : Disk X.Bytes)
      → ((b : X.Bytes)
          → M.to_string_pretty c.state c.last_global_position ≡ ok b
          → (X.is_utf8 b ≡ true) × (M.from_str b ≡ some (c.state, c.last_global_position)))
      → (save_pm_checkpoint X M dir c d).0 ≡ ok tt
      → (next_fault (save_pm_checkpoint X M dir c d).1.faults).0 ≡ none
      → (new X M dir (save_pm_checkpoint X M dir c d).1).0
        ≡ ok (record { checkpoint = c; checkpoint_dir = dir })
  unfolding pm_checkpoint_json
  new-save_pm_checkpoint c d round saved quiet = elim (save_pm_checkpoint_atomic c d) [
    | inl (_, (e, failed)) ↦ cc
    | inr (b, v, stored, _) ↦
        let written : M.to_string_pretty c.state c.last_global_position ≡ ok b = ground arith in
        let back = round b written in
        new-stored c b (save_pm_checkpoint X M dir c d).1 stored back.0 back.1 quiet
  ]
