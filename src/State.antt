-- ===== src/State.antt =====
-- internal/state: the daemon's persistent store. The tables and their rows are in Data, the
-- database's transactions in Tx, the operations in Events, Tasks, Runs and Mission; the other
-- children prove.
pub mod Json
pub mod Data
pub mod Tx
pub mod Events
pub mod Tasks
pub mod Runs
pub mod Mission
pub mod History
pub mod Follows
pub mod Effect
pub mod Change
pub mod Numbers
pub mod Follower
pub mod Replay
pub mod RunLife
pub mod RunOnce
pub mod RunRows
pub mod TaskLaws
pub mod Facts
mod Tests
