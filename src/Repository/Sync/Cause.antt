-- ===== src/Repository/Sync/Cause.antt =====
-- Why `sync` of repository/src/interpret/works.rs may move the `finalized` branch.
use simperby.Base.{ℕ, ◌≡◌, refl, true, ◌⊎◌, inl, inr, some, List, get_elem?, arith}
use simperby.Core.Types.{BlockHeader, Commit}
use simperby.Core.Crypto.{Crypto}
use simperby.Core.Result.{ok}
use simperby.Core.Sequence.{
  CommitSequenceVerifier, get_block_headers, verify_last_header_finalization,
}
use simperby.Repository.Types.{
  CommitHash, LastFinalizationProof, FinalizationInfo, finalized_branch_name,
}
use simperby.Repository.Library.{Library}
use simperby.Repository.Git.{Git}
use simperby.Repository.Raw.Branches.{locate_branch}
use simperby.Repository.Read.{last_of, second_to_last, is_ok}
use simperby.Repository.Read.Verified.{AreAccepted}
use simperby.Repository.Advance.{finalized_view, IsMovedTo}
use simperby.Repository.Sync.{ends_with_block}

module _ (c : Crypto) (lib : Library) (g : Git) where
  -- The commit is the last of them, a block, and the proof finalizes it.
  pub record IsProved (r : g.Repo) (hash : CommitHash) : Type 0 where
    pub lfi : FinalizationInfo
    pub tip : CommitHash
    pub commits : List (Commit × CommitHash)
    pub csv : CommitSequenceVerifier
    pub are_accepted : AreAccepted c lib g r lfi tip commits csv
    pub header : BlockHeader
    pub is_last : last_of commits ≡ some (Commit.block header, hash)
    pub fp : LastFinalizationProof
    pub proved : is_ok (verify_last_header_finalization c csv fp.proof) ≡ true

  -- The commit stands, among those after the finalized block, at the place that the verifier gives to the
  -- last header but one.
  pub record IsPassed (r : g.Repo) (hash : CommitHash) : Type 0 where
    pub lfi : FinalizationInfo
    pub tip : CommitHash
    pub commits : List (Commit × CommitHash)
    pub csv : CommitSequenceVerifier
    pub are_accepted : AreAccepted c lib g r lfi tip commits csv
    pub header : BlockHeader
    pub index : ℕ
    pub is_second : second_to_last (get_block_headers csv) ≡ some (header, index)
    pub commit : Commit
    pub is_there : get_elem? commits index ≡ some (commit, hash)

  -- The branch is as it was, or on a commit with such a cause.
  abbrev pub IsSafe : g.Repo → g.Repo → Type 0
  IsSafe r r' =
      (finalized_view g r' ≡ finalized_view g r)
      ⊎ ((hash : CommitHash) × (locate_branch g finalized_branch_name r' ≡ ok hash)
          × (IsProved r hash ⊎ IsPassed r hash))

  pub block_of_end :
      (commit : Commit)
      → ends_with_block commit ≡ true
      → (header : BlockHeader) × (commit ≡ Commit.block header)
  block_of_end (Commit.block header) h = (header, refl)
  block_of_end (Commit.transaction _) h = absurd (ground arith)
  block_of_end (Commit.agenda _) h = absurd (ground arith)
  block_of_end (Commit.agenda_proof _) h = absurd (ground arith)
  block_of_end (Commit.extra_agenda_transaction _) h = absurd (ground arith)
  block_of_end (Commit.chat_log _) h = absurd (ground arith)

  pub IsMovedTo-IsSafe :
      (hash : CommitHash) (r r' : g.Repo)
      → (IsProved r hash ⊎ IsPassed r hash)
      → IsMovedTo g hash r r'
      → IsSafe r r'
  IsMovedTo-IsSafe hash r r' cause (inl same) = inl same
  IsMovedTo-IsSafe hash r r' cause (inr at) = inr (hash, at, cause)
