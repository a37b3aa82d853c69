-- ===== src/Actor.antt =====
-- src/actor.rs: one actor for each aggregate instance.
pub mod Ops
pub mod Execute
pub mod Codec
pub mod Server
pub mod Replay
pub mod Encoding
pub mod Coherence
pub mod Submit
pub mod Commit
pub mod Lifecycle
pub mod Service
pub mod Worlds
pub mod Handle
pub mod Fleet
pub mod Spawn
pub mod Restart
pub mod Conflict
