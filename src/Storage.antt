-- ===== src/Storage.antt =====
-- src/storage.rs: the directory layout of the local caches.
pub mod Apart
use eventfold_es.Io.{FilePath, join}

pub record StreamLayout : Type 0 where
  pub base_dir : FilePath

unfoldable pub snapshots_dir : StreamLayout → FilePath
snapshots_dir l = join l.base_dir "snapshots"

unfoldable pub projections_dir : StreamLayout → FilePath
projections_dir l = join l.base_dir "projections"

unfoldable pub process_managers_dir : StreamLayout → FilePath
process_managers_dir l = join l.base_dir "process_managers"
