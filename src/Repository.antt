-- ===== src/Repository.antt =====
-- The data repository of the repository crate: commits as texts (repository/src/format.rs), the git
-- repository behind them (repository/src/raw), and the operations on it (repository/src/interpret).
pub mod Types
pub mod Library
pub mod Format
pub mod Git
pub mod Raw
pub mod Read
pub mod Candidates
pub mod Acts
pub mod Advance
pub mod Sync
pub mod Clean
pub mod Create
pub mod Tags
pub mod Finalize
pub mod Toy
pub mod Samples
mod Tests
