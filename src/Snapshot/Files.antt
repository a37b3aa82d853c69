-- ===== src/Snapshot/Files.antt =====
-- src/snapshot.rs: what saving a snapshot does to the disk, and what is loaded next.
use eventfold_es.Prelude.{some, none, ok, inl, inr, String, true, false, ◌≡◌, ◌⊎◌, arith}
use eventfold_es.Runtime.{Runtime}
use eventfold_es.Aggregate.{Aggregate}
use eventfold_es.Io.{FilePath, path_eq, Disk, next_fault}
use eventfold_es.Io.Atomic.{path_eq-join, IsKept, IsReplaced, read_stored, write_via_rename_atomic}
use eventfold_es.Snapshot.{
  Snapshot, snapshot_dir, snapshot_path, snapshot_tmp_path, snapshot_json, save_snapshot,
  load_snapshot, parse_snapshot,
}

module _ (base : FilePath) (ty id : String) where
  pub tmp-ne-path : path_eq (snapshot_tmp_path base ty id) (snapshot_path base ty id) ≡ false
  unfolding snapshot_path snapshot_tmp_path
  tmp-ne-path = path_eq-join (snapshot_dir base ty id) "snapshot.json.tmp" "snapshot.json"

  pub path-eq_self : path_eq (snapshot_path base ty id) (snapshot_path base ty id) ≡ true
  unfolding snapshot_path
  path-eq_self = path_eq-join (snapshot_dir base ty id) "snapshot.json" "snapshot.json"

  pub tmp-eq_self : path_eq (snapshot_tmp_path base ty id) (snapshot_tmp_path base ty id) ≡ true
  unfolding snapshot_tmp_path
  tmp-eq_self = path_eq-join (snapshot_dir base ty id) "snapshot.json.tmp" "snapshot.json.tmp"

module _ (X : Runtime) (A : Aggregate X) (base : FilePath) (id : String) where
  -- However its operations fail, a save either reports an error and leaves under the snapshot's path
  -- what was there, or it succeeds and leaves there the whole new snapshot.
  pub save_snapshot_atomic :
      (s : Snapshot X A) (d : Disk X.Bytes)
      → IsKept (snapshot_path base A.aggregate_type id) d (save_snapshot X A base id s d)
        ⊎ IsReplaced
            (snapshot_path base A.aggregate_type id)
            (snapshot_json X A s)
            (save_snapshot X A base id s d)
  unfolding save_snapshot
  save_snapshot_atomic s d =
      write_via_rename_atomic _ _ _ (tmp-ne-path base A.aggregate_type id)
        (tmp-eq_self base A.aggregate_type id) (path-eq_self base A.aggregate_type id)
        (snapshot_json X A s) d

  -- A snapshot whose save succeeded is the one that is loaded next, if the JSON of this snapshot
  -- parses back to it and the read does not fail.
  pub load-save :
      (s : Snapshot X A) (d : Disk X.Bytes)
      → ((b : X.Bytes)
          → A.snapshot_to_vec s.state s.stream_version ≡ ok b
          → A.snapshot_from_slice b ≡ some (s.state, s.stream_version))
      → (save_snapshot X A base id s d).0 ≡ ok tt
      → (next_fault (save_snapshot X A base id s d).1.faults).0 ≡ none
      → (load_snapshot X A base id (save_snapshot X A base id s d).1).0 ≡ ok (some s)
  unfolding load_snapshot snapshot_json
  load-save s d round saved quiet = elim (save_snapshot_atomic s d) [
    | inl (_, (e, failed)) ↦ cc
    | inr (b, v, stored, _) ↦
        let written : A.snapshot_to_vec s.state s.stream_version ≡ ok b = ground arith in
        let got =
          read_stored (snapshot_path base A.aggregate_type id) (save_snapshot X A base id s d).1 b
            quiet stored in
        rw (got, load_snapshot) (rw (round b written, parse_snapshot))
  ]
