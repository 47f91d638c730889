-- ===== src/Vetomint.antt =====
-- The crate vetomint: the consensus state machine of one height.
pub mod Types
pub mod Monad
pub mod Tally
pub mod Proposer
pub mod Misbehavior
pub mod Handlers
pub mod Late
pub mod Progress
pub mod Feedback
pub mod Step
pub mod Votes
pub mod Spent
pub mod Ends
pub mod Observer
pub mod Skip
pub mod Scheduled
pub mod Timeouts
pub mod Samples
mod Tests
pub mod Kept
pub mod Precommit
pub mod Finality
pub mod Sets
pub mod Weight
pub mod Accuse
pub mod Caught
pub mod Quorum
pub mod Safe
pub mod Total
pub mod Live
