-- ===== src/Repository/Raw.antt =====
-- repository/src/raw/implementation.rs: the operations of the git repository, over the library.
pub mod Action
pub mod Rules
pub mod Branches
pub mod Walk
pub mod Commits
pub mod Work
pub mod Laws
