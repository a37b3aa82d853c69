-- ===== src/Snapshot.antt =====
-- src/snapshot.rs: per-instance snapshots on disk.
pub mod Files
use eventfold_es.Prelude.{ℕ, String, Option, none, some, Result, ok, err}
use eventfold_es.Runtime.{Runtime}
use eventfold_es.Aggregate.{Aggregate}
use eventfold_es.Io.{IoError, not_found, invalid_data, FilePath, join, Io, read, write_via_rename}

pub record Snapshot (X : Runtime) (A : Aggregate X) : Type 0 where
  pub state : A.State
  pub stream_version : ℕ

-- The parent of `snapshot_path`.
unfoldable pub snapshot_dir : FilePath → String → String → FilePath
snapshot_dir base_dir aggregate_type instance_id =
    join (join (join base_dir "snapshots") aggregate_type) instance_id

unfoldable pub snapshot_path : FilePath → String → String → FilePath
snapshot_path base_dir aggregate_type instance_id =
    join (snapshot_dir base_dir aggregate_type instance_id) "snapshot.json"

-- path.with_extension("json.tmp")
unfoldable pub snapshot_tmp_path : FilePath → String → String → FilePath
snapshot_tmp_path base_dir aggregate_type instance_id =
    join (snapshot_dir base_dir aggregate_type instance_id) "snapshot.json.tmp"

module _ (X : Runtime) (A : Aggregate X) where
  -- serde_json::to_vec_pretty(snapshot).map_err(InvalidData)
  unfoldable pub snapshot_json : Snapshot X A → Result X.Bytes IoError
  snapshot_json s = elim (A.snapshot_to_vec s.state s.stream_version) [
    | ok b ↦ ok b
    | err m ↦ err (record { kind = invalid_data; message = m })
  ]

  unfoldable pub save_snapshot : FilePath → String → Snapshot X A → Io X.Bytes (Unit {0})
  save_snapshot base_dir instance_id snapshot =
      write_via_rename (snapshot_dir base_dir A.aggregate_type instance_id)
        (snapshot_tmp_path base_dir A.aggregate_type instance_id)
        (snapshot_path base_dir A.aggregate_type instance_id) (snapshot_json snapshot)

  -- What a read gives: a missing file and one that does not parse are cache misses.
  unfoldable pub parse_snapshot : Result X.Bytes IoError → Result (Option (Snapshot X A)) IoError
  parse_snapshot (ok bytes) = elim (A.snapshot_from_slice bytes) [
    | none ↦ ok none
    | some (state, version) ↦ ok (some (record { state = state; stream_version = version }))
  ]
  parse_snapshot (err e) = elim e.kind [ not_found ↦ ok none | _ ↦ err e ]

  unfoldable pub load_snapshot : FilePath → String → Io X.Bytes (Option (Snapshot X A))
  unfolding parse_snapshot
  load_snapshot base_dir instance_id d =
      let (result, d') = read (snapshot_path base_dir A.aggregate_type instance_id) d in
      (parse_snapshot result, d')
