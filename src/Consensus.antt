-- ===== src/Consensus.antt =====
-- The consensus node of consensus/src/state.rs, between the network's messages and Vetomint.
pub mod Types
pub mod State
pub mod Progress
pub mod Indexed
pub mod Registered
pub mod Signed
pub mod Moves
pub mod Answered
mod Tests
