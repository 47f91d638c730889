-- ===== src/Core.antt =====
-- The crate simperby-core: the data of the chain and its verification.
pub mod Types
pub mod Crypto
pub mod Merkle
pub mod Hash
pub mod Result
pub mod Reserved
pub mod Verify
pub mod Decide
pub mod Sequence
pub mod Apply
pub mod LightClient
pub mod Blocked
pub mod Chain
pub mod Trace
pub mod Chained
pub mod Members
pub mod Kept
pub mod Grows
pub mod Governance
pub mod Weights
mod Names
pub mod Accepts
pub mod Delegation
pub mod Undo
pub mod Proofs
pub mod Client
pub mod Tree
pub mod Samples
mod Tests
