-- ===== src/Repository/Finalize.antt =====
-- repository/src/interpret/create.rs: `approve`, and `finalize`, which ends a height.
pub mod Proved
use simperby.Base.{ℕ, Bool, true, false, not, Option, none, some, List, [], ◌∷◌, ◌==◌, any}
use simperby.Base.Text.{str_eq}
use simperby.Core.Types.{
  BlockHeader, Hash256, Timestamp, Commit, Agenda, AgendaProof, TypedSignature, FinalizationProof,
  ReservedState,
}
use simperby.Core.Crypto.{Crypto}
use simperby.Core.Hash.{hash_agenda, hash_agenda_proof}
use simperby.Core.Result.{Result, ok, err, panic, map_err, fail_if}
use simperby.Core.Sequence.{CommitSequenceVerifier, new, verify_last_header_finalization}
use simperby.Repository.Types.{
  Branch, CommitHash, LastFinalizationProof, RepositoryError, Received, accepted, integrity_error,
  rejected, finalized_branch_name, fp_branch_name,
}
use simperby.Repository.Library.{Library}
use simperby.Repository.Format.{to_semantic_commit, fp_to_semantic_commit}
use simperby.Repository.Git.{Git}
use simperby.Repository.Raw.Action.{Action, ◌>>=◌, ◌>>◌, pure, lift, reads, relabel}
use simperby.Repository.Raw.Branches.{
  locate_branch, create_branch, delete_branch, move_branch, list_branches,
}
use simperby.Repository.Raw.Walk.{find_merge_base}
use simperby.Repository.Raw.Commits.{create_semantic_commit}
use simperby.Repository.Raw.Work.{checkout, checkout_clean}
use simperby.Repository.Read.{
  raws, formats, not_found_is_broken, commits_error, read_commits, read_commit, verify_all,
  commits_of, read_last_finalized_block_header, read_last_finalized_reserved_state,
  read_and_verify_commits_from_last_finalized_block,
}
use simperby.Repository.Candidates.{read_governance_approved_agendas}
use simperby.Repository.Acts.{Acts, raw, look, expect, agenda_branch}
use simperby.Repository.Sync.{sync}
use simperby.Repository.Read.{last_of}
use simperby.Repository.Create.{verified}

abbrev agenda_in : Commit → Option Agenda
agenda_in (Commit.agenda a) = some a
agenda_in _ = none

abbrev pub block_in : Commit → Option BlockHeader
block_in (Commit.block b) = some b
block_in _ = none

abbrev agenda_proof_in : Commit → Option AgendaProof
agenda_proof_in (Commit.agenda_proof p) = some p
agenda_proof_in _ = none

-- The `expect` on the inner result of `sync`.
abbrev pub must_be_accepted : {E : Type 0} → Received → Result E (Unit {0})
must_be_accepted accepted = ok tt
must_be_accepted _ = panic

module _ (c : Crypto) (lib : Library) (g : Git) where
  -- The agenda proof among the approved agendas that is of this agenda.
  unfoldable pub find_approved : Hash256 → List (CommitHash × Hash256) → Acts g (Option CommitHash)
  unfolding read_commit
  find_approved agenda_hash [] = pure none
  find_approved agenda_hash ((commit_hash, _) ∷ more) =
      look g (read_commit lib g commit_hash) >>= λ commit. elim (agenda_proof_in commit) [
        | none ↦ lift (err integrity_error)
        | some p ↦ elim (p.agenda_hash == agenda_hash) [
          | true ↦ pure (some commit_hash)
          | false ↦ find_approved agenda_hash more
        ]
      ]

  -- The end of `approve`, with the agenda proof at hand.
  unfoldable pub commit_proof : ReservedState → CommitHash → AgendaProof → Acts g CommitHash
  unfolding to_semantic_commit list_branches locate_branch create_branch checkout
      create_semantic_commit agenda_branch
  commit_proof reserved_state agenda_commit proof = do
    s ← lift (formats (to_semantic_commit c lib (Commit.agenda_proof proof) reserved_state))
    let branch = agenda_branch lib (hash_agenda_proof c proof)
    branches ← look g (λ r. raws (list_branches g r))
    elim (any (str_eq branch) branches) [
      | true ↦ look g (λ r. raws (locate_branch g branch r))
      | false ↦ do
        raw g (create_branch g branch agenda_commit)
        raw g (checkout g branch)
        raw g (create_semantic_commit g s true)
    ]

  unfoldable pub approve_agenda : Hash256 → List TypedSignature → Timestamp → Acts g CommitHash
  unfolding locate_branch find_merge_base read_last_finalized_block_header
      read_last_finalized_reserved_state read_commits new verify_all delete_branch commit_proof
      agenda_branch
  approve_agenda agenda_hash proof timestamp = do
    finalized ← look g (λ r. raws (locate_branch g finalized_branch_name r))
    let branch = agenda_branch lib agenda_hash
    tip ← look g (λ r. raws (locate_branch g branch r))
    base ← look g (λ r. map_err not_found_is_broken (find_merge_base g finalized tip r))
    lift (fail_if (not (finalized == base)) rejected)
    header ← look g (read_last_finalized_block_header lib g)
    reserved_state ← look g (read_last_finalized_reserved_state g)
    again ← look g (λ r. raws (locate_branch g finalized_branch_name r))
    commits ← look g (λ r. map_err commits_error (read_commits lib g again tip r))
    _ ← lift (verified (verify_all c (commits_of commits) (new header reserved_state)))
    (commit, _) ← expect g (last_of commits)
    elim (agenda_in commit) [
      | none ↦ lift (err rejected)
      | some agenda ↦ do
        raw g (delete_branch g branch)
        commit_proof reserved_state tip (record {
          height = agenda.height;
          agenda_hash = hash_agenda c agenda;
          proof = proof;
          timestamp = timestamp;
        })
    ]

  unfoldable pub approve : Hash256 → List TypedSignature → Timestamp → Acts g CommitHash
  unfolding read_governance_approved_agendas find_approved approve_agenda
  approve agenda_hash proof timestamp = do
    approved ← look g (read_governance_approved_agendas lib g c)
    found ← find_approved agenda_hash approved
    elim found [
      | some commit_hash ↦ pure commit_hash
      | none ↦ approve_agenda agenda_hash proof timestamp
    ]

  -- After the proof is verified: the `fp` commit on top of the block, and its synchronization.
  unfoldable pub commit_fp : CommitHash → LastFinalizationProof → Acts g CommitHash
  unfolding checkout_clean move_branch checkout fp_to_semantic_commit create_semantic_commit sync
  commit_fp block_commit_hash fp = do
    raw g (checkout_clean g)
    relabel not_found_is_broken (move_branch g fp_branch_name block_commit_hash)
    relabel not_found_is_broken (checkout g fp_branch_name)
    s ← lift (formats (fp_to_semantic_commit lib fp))
    commit_hash ← raw g (create_semantic_commit g s true)
    received ← sync c lib g commit_hash
    lift (must_be_accepted received)
    pure commit_hash

  -- `read_and_verify_commits_from_last_finalized_block(…).await??`.
  abbrev joined :
      Result RepositoryError (Result RepositoryError CommitSequenceVerifier)
      → Result RepositoryError CommitSequenceVerifier
  joined (ok r) = r
  joined (err e) = err e
  joined panic = panic

  unfoldable pub finalize : CommitHash → FinalizationProof → Acts g CommitHash
  unfolding read_and_verify_commits_from_last_finalized_block verify_last_header_finalization
      commit_fp
  finalize block_commit_hash proof = do
    csv ← look g (λ r.
        joined (read_and_verify_commits_from_last_finalized_block lib g c block_commit_hash r))
    commit ← expect g (last_of csv.total_commits)
    elim (block_in commit) [
      | none ↦ lift (err rejected)
      | some block ↦ do
        lift (verified (verify_last_header_finalization c csv proof))
        commit_fp block_commit_hash (record { height = block.height; proof = proof })
    ]
