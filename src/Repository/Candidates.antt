-- ===== src/Repository/Candidates.antt =====
-- repository/src/interpret/read.rs: the agendas, the approved agendas and the blocks on top of the last
-- finalized block.
mod Kept
pub mod Exact
pub mod Lists
use Prim.Native.String.{String}
use text.Mathlib.Text.{starts_with}
use simperby.Base.{
  ℕ, Bool, true, false, Option, none, some, List, [], ◌∷◌, ◌++◌, ◌==◌, if◌then◌else◌,
}
use simperby.Base.Word.{add_u64}
use simperby.Core.Types.{BlockHeight, Hash256, Commit}
use simperby.Core.Crypto.{Crypto}
use simperby.Core.Hash.{hash_header, hash_agenda, hash_agenda_proof}
use simperby.Core.Result.{Result, ok, err, panic, ◌>>=◌, map_err}
use simperby.Repository.Types.{Branch, CommitHash, finalized_branch_name}
use simperby.Repository.Library.{Library}
use simperby.Repository.Git.{Git}
use simperby.Repository.Raw.Branches.{locate_branch}
use simperby.Repository.Raw.Walk.{find_merge_base}
use simperby.Repository.Read.{
  Reading, raws, not_found_is_broken, commits_error, read_local_branches, read_commits,
  read_last_finalized_block_header,
}

-- The commits that are kept, with their heights and hashes.
abbrev pub agenda_of : Crypto → Commit → Option (BlockHeight × Hash256)
agenda_of c (Commit.agenda a) = some (a.height, hash_agenda c a)
agenda_of c _ = none

abbrev pub agenda_proof_of : Crypto → Commit → Option (BlockHeight × Hash256)
agenda_proof_of c (Commit.agenda_proof p) = some (p.height, hash_agenda_proof c p)
agenda_proof_of c _ = none

abbrev pub block_header_of : Crypto → Commit → Option (BlockHeight × Hash256)
block_header_of c (Commit.block b) = some (b.height, hash_header c b)
block_header_of c _ = none

-- The body of the inner loop, at the next height.
abbrev pub candidate :
    (Commit → Option (BlockHeight × Hash256))
    → BlockHeight
    → Commit × CommitHash
    → List (CommitHash × Hash256)
candidate select next (commit, hash) = elim (select commit) [
  | none ↦ []
  | some (height, digest) ↦ if height == next then (hash, digest) ∷ [] else []
]

unfoldable pub candidates_among :
    (Commit → Option (BlockHeight × Hash256))
    → BlockHeight
    → List (Commit × CommitHash)
    → List (CommitHash × Hash256)
candidates_among select next [] = []
candidates_among select next (entry ∷ more) =
    candidate select next entry ++ candidates_among select next more

module _ (lib : Library) (g : Git) where
  -- The commits of one branch, unless it is not rebased on the finalized block.
  unfoldable pub branch_candidates :
      (Commit → Option (BlockHeight × Hash256))
      → CommitHash
      → CommitHash
      → g.Repo
      → Reading (List (CommitHash × Hash256))
  unfolding candidates_among add_u64
  branch_candidates select finalized tip r = do
    base ← map_err not_found_is_broken (find_merge_base g finalized tip r)
    elim (finalized == base) [
      | false ↦ ok []
      | true ↦ do
        commits ← map_err commits_error (read_commits lib g finalized tip r)
        last ← read_last_finalized_block_header lib g r
        ok (candidates_among select (add_u64 last.height 1) commits)
    ]

  unfoldable pub branches_candidates :
      String
      → (Commit → Option (BlockHeight × Hash256))
      → CommitHash
      → List (Branch × CommitHash)
      → g.Repo
      → Reading (List (CommitHash × Hash256))
  unfolding branch_candidates
  branches_candidates prefix select finalized [] r = ok []
  branches_candidates prefix select finalized ((branch, tip) ∷ more) r =
      elim (starts_with branch prefix) [
        | false ↦ branches_candidates prefix select finalized more r
        | true ↦ do
          found ← branch_candidates select finalized tip r
          rest ← branches_candidates prefix select finalized more r
          ok (found ++ rest)
      ]

  unfoldable pub read_candidates :
      String
      → (Commit → Option (BlockHeight × Hash256))
      → g.Repo
      → Reading (List (CommitHash × Hash256))
  unfolding branches_candidates
  read_candidates prefix select r = do
    branches ← read_local_branches g r
    finalized ← raws (locate_branch g finalized_branch_name r)
    branches_candidates prefix select finalized branches r

  unfoldable pub read_agendas : Crypto → g.Repo → Reading (List (CommitHash × Hash256))
  unfolding read_candidates
  read_agendas c r = read_candidates "a-" (agenda_of c) r

  unfoldable pub read_governance_approved_agendas :
      Crypto → g.Repo → Reading (List (CommitHash × Hash256))
  unfolding read_candidates
  read_governance_approved_agendas c r = read_candidates "a-" (agenda_proof_of c) r

  unfoldable pub read_blocks : Crypto → g.Repo → Reading (List (CommitHash × Hash256))
  unfolding read_candidates
  read_blocks c r = read_candidates "b-" (block_header_of c) r
