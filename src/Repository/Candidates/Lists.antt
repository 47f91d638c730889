-- ===== src/Repository/Candidates/Lists.antt =====
-- What the three lists of repository/src/interpret/read.rs hold: the agendas, the approved agendas and the
-- blocks.
use Prim.Native.String.{String}
use simperby.Base.{◌≡◌, Option, List, ◌↔◌, In}
use simperby.Core.Types.{BlockHeight, Hash256, Commit}
use simperby.Core.Crypto.{Crypto}
use simperby.Core.Result.{ok, by_parts, map_err-eq-ok}
use simperby.Repository.Types.{Branch, CommitHash, finalized_branch_name}
use simperby.Repository.Library.{Library}
use simperby.Repository.Git.{Git}
use simperby.Repository.Raw.Branches.{locate_branch}
use simperby.Repository.Read.{raws, read_local_branches}
use simperby.Repository.Candidates.{
  agenda_of, agenda_proof_of, block_header_of, read_candidates, read_agendas,
  read_governance_approved_agendas, read_blocks,
}
use simperby.Repository.Candidates.Exact.{IsCandidate, branches_candidates_iff}

-- The list holds a commit with its digest exactly when it stands on a branch of the prefix.
pub record IsExactly (lib : Library) (g : Git) (prefix : String)
    (select : Commit → Option (BlockHeight × Hash256)) (r : g.Repo)
    (found : List (CommitHash × Hash256)) : Type 0 where
  pub branches : List (Branch × CommitHash)
  pub finalized : CommitHash
  pub are_branches : read_local_branches g r ≡ ok branches
  pub is_finalized : locate_branch g finalized_branch_name r ≡ ok finalized
  pub exactly :
      (hash : CommitHash) (digest : Hash256)
      → In (hash, digest) found ↔ IsCandidate lib g select finalized prefix branches r hash digest

module _ (lib : Library) (g : Git) where
  read_candidates-IsExactly :
      (prefix : String) (select : Commit → Option (BlockHeight × Hash256)) (r : g.Repo)
      (found : List (CommitHash × Hash256))
      → read_candidates lib g prefix select r ≡ ok found
      → IsExactly lib g prefix select r found
  unfolding read_candidates
  read_candidates-IsExactly prefix select r found h =
      by_parts (read_local_branches g r) _ h λ branches are_branches h1.
        by_parts (raws (locate_branch g finalized_branch_name r)) _ h1 λ finalized located h2.
          record {
            branches = branches;
            finalized = finalized;
            are_branches = are_branches;
            is_finalized = map_err-eq-ok _ _ located;
            exactly = λ hash digest.
                branches_candidates_iff lib g select finalized prefix branches r found hash digest
                  h2;
          }

-- When the three lists of a repository can be read, each holds exactly the commits of its kind (agendas,
-- agenda proofs, block headers) at the height after that of the last finalized block, with their
-- digests, that stand between the finalized block and the tip of a local branch of its prefix ("a-", "a-", "b-")
-- whose merge base with the finalized block is the finalized block.
pub read_candidates_exact :
    (c : Crypto) (lib : Library) (g : Git) (r : g.Repo)
    (agendas approved blocks : List (CommitHash × Hash256))
    → read_agendas lib g c r ≡ ok agendas
    → read_governance_approved_agendas lib g c r ≡ ok approved
    → read_blocks lib g c r ≡ ok blocks
    → IsExactly lib g "a-" (agenda_of c) r agendas
      × IsExactly lib g "a-" (agenda_proof_of c) r approved
      × IsExactly lib g "b-" (block_header_of c) r blocks
unfolding read_agendas read_governance_approved_agendas read_blocks
read_candidates_exact c lib g r agendas approved blocks h1 h2 h3 = (
  read_candidates-IsExactly lib g "a-" (agenda_of c) r agendas h1,
  read_candidates-IsExactly lib g "a-" (agenda_proof_of c) r approved h2,
  read_candidates-IsExactly lib g "b-" (block_header_of c) r blocks h3,
)
