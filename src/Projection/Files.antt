-- ===== src/Projection/Files.antt =====
-- src/projection.rs: what saving a checkpoint does to the disk, and the runner that is created next.
use eventfold_es.Prelude.{some, none, ok, inl, inr, true, ◌≡◌, refl, ◌⊎◌, arith}
use eventfold_es.Runtime.{Runtime}
use eventfold_es.Io.{FilePath, Disk, next_fault}
use eventfold_es.Io.Atomic.{path_eq-join, IsKept, IsReplaced, read_stored, write_via_rename_atomic}
use eventfold_es.Projection.{checkpoint_path, checkpoint_tmp_path, text_of}
use eventfold_es.Projection.{
  Projection, ProjectionCheckpoint, checkpoint_json, save_checkpoint, load_checkpoint,
  parse_checkpoint, new,
}

module _ (X : Runtime) (P : Projection X) (dir : FilePath) where
  -- However its operations fail, a save either reports an error and leaves the checkpoint file of
  -- the projection as it was, or it succeeds and leaves there the whole new checkpoint.
  pub save_checkpoint_atomic :
      (c : ProjectionCheckpoint X P) (d : Disk X.Bytes)
      → IsKept (checkpoint_path dir) d (save_checkpoint X P dir c d)
        ⊎ IsReplaced (checkpoint_path dir) (checkpoint_json X P c) (save_checkpoint X P dir c d)
  unfolding save_checkpoint checkpoint_path checkpoint_tmp_path
  save_checkpoint_atomic c d =
      write_via_rename_atomic dir (checkpoint_tmp_path dir) (checkpoint_path dir)
        (path_eq-join dir "checkpoint.json.tmp" "checkpoint.json")
        (path_eq-join dir "checkpoint.json.tmp" "checkpoint.json.tmp")
        (path_eq-join dir "checkpoint.json" "checkpoint.json") (checkpoint_json X P c) d

  -- After a save that succeeded, a runner that is created in the same directory starts at exactly
  -- the saved checkpoint, if the JSON of this checkpoint is UTF-8 and parses back to it, and the
  -- read does not fail.
  pub new-save_checkpoint :
      (c : ProjectionCheckpoint X P) (d : Disk X.Bytes)
      → ((b : X.Bytes)
          → P.to_string_pretty c.state c.last_global_position ≡ ok b
          → (X.is_utf8 b ≡ true) × (P.from_str b ≡ some (c.state, c.last_global_position)))
      → (save_checkpoint X P dir c d).0 ≡ ok tt
      → (next_fault (save_checkpoint X P dir c d).1.faults).0 ≡ none
      → (new X P dir (save_checkpoint X P dir c d).1).0
        ≡ ok (record { checkpoint = c; checkpoint_dir = dir })
  unfolding new load_checkpoint checkpoint_json
  new-save_checkpoint c d round saved quiet = elim (save_checkpoint_atomic c d) [
    | inl (_, (e, failed)) ↦ cc
    | inr (b, v, stored, _) ↦
        let written : P.to_string_pretty c.state c.last_global_position ≡ ok b = ground arith in
        let got =
          read_stored (checkpoint_path dir) (save_checkpoint X P dir c d).1 b quiet stored in
        let back = round b written in
        rw (got, new) (rw (back.0, text_of) (rw (back.1, parse_checkpoint) refl))
  ]
