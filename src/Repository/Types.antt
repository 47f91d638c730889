-- ===== src/Repository/Types.antt =====
-- The data of the repository crate: repository/src/lib.rs, repository/src/raw/mod.rs, and the commit
-- hashes and finalization records of core/src/types.rs.
use Prim.Native.String.{String}
use simperby.Base.{ℕ, Option}
use simperby.Core.Types.{
  BlockHeader, BlockHeight, FinalizationProof, ReservedState, MemberName, Timestamp, Diff,
}
use simperby.Core.Result.{Error}

-- The 20 bytes of a git object's name, as the number that they spell.
abbrev pub CommitHash : Type 0
CommitHash = ℕ

pub record LastFinalizationProof : Type 0 where
  pub height : BlockHeight
  pub proof : FinalizationProof

pub record FinalizationInfo : Type 0 where
  pub header : BlockHeader
  pub commit_hash : CommitHash
  pub reserved_state : ReservedState
  pub proof : FinalizationProof

abbrev pub Branch : Type 0
Branch = String

abbrev pub Tag : Type 0
Tag = String

abbrev pub finalized_branch_name : Branch
finalized_branch_name = "finalized"

abbrev pub fp_branch_name : Branch
fp_branch_name = "fp"

abbrev pub tag_name_hash_digits : ℕ
tag_name_hash_digits = 8

abbrev pub branch_name_hash_digits : ℕ
branch_name_hash_digits = 8

abbrev pub unknown_commit_author : MemberName
unknown_commit_author = "unknown"

pub record SemanticCommit : Type 0 where
  pub title : String
  pub body : String
  pub diff : Diff
  pub author : MemberName
  pub timestamp : Timestamp

pub record RawCommit : Type 0 where
  pub message : String
  pub patch : Option String
  pub author : String
  pub email : String
  pub timestamp : Timestamp

-- Why a text is no commit: the `eyre!` of format.rs, and the errors of serde and of `parse`.
pub data FormatError : Type 0 where
  bad_body missing_capture bad_number height_mismatch delegator_mismatch delegatee_mismatch :
      FormatError
  wrong_transaction unknown_type unknown_author : FormatError

-- `raw::Error`, without its text.
pub data RawError : Type 0 where
  git2_error not_found invalid_repository unknown : RawError

-- `eyre::Error` of the crate's operations: what was raised, without its text.
pub data RepositoryError : Type 0 where
  raw_error : RawError → RepositoryError
  format_error : FormatError → RepositoryError
  integrity_error : RepositoryError
  verification_error : Error → RepositoryError
  rejected : RepositoryError

-- `CommitError` of repository/src/interpret/read.rs; its `ReservedState` is raised nowhere.
pub data CommitError : Type 0 where
  unread : RawError → CommitError
  unparsed : FormatError → CommitHash → CommitError

-- The inner result of `sync`: the branch is accepted, or why it is refused.
pub data Received : Type 0 where
  accepted not_descendant already_finalized unparsable : Received
  unverified : Error → Received
  bad_proof no_block already_approved branch_exists bad_end : Received
