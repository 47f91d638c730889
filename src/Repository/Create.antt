-- ===== src/Repository/Create.antt =====
-- repository/src/interpret/create.rs: commits that this node makes.
pub mod Accepted
pub mod Made
use Prim.Native.String.{String}
use simperby.Base.{
  ℕ, Bool, true, false, not, Option, none, some, List, [], ◌∷◌, ◌==◌, if◌then◌else◌,
}
use simperby.Base.Int.{ℤ, pos}
use simperby.Base.Text.{str_eq}
use simperby.Base.Word.{add_u64}
use simperby.Core.Types.{
  BlockHeader, Hash256, PublicKey, MemberName, Timestamp, Commit, Agenda, AgendaProof, Transaction,
  ExtraAgendaTransaction, TypedSignature, FinalizationProof, ReservedState,
}
use simperby.Core.Crypto.{Crypto}
use simperby.Core.Hash.{
  hash_header, hash_agenda, hash_agenda_proof, hash_commit, calculate_transactions_hash,
  calculate_commit_merkle_root,
}
use simperby.Core.Reserved.{get_validator_set}
use simperby.Core.Result.{Result, Error, ok, err, panic, map_err, phase_mismatch}
use simperby.Core.Sequence.{CommitSequenceVerifier, new, verify_last_header_finalization}
use simperby.Core.Apply.{Applied, apply_commit}
use simperby.Repository.Types.{
  Branch, CommitHash, LastFinalizationProof, FinalizationInfo, RawCommit, RepositoryError,
  integrity_error, verification_error, rejected, finalized_branch_name, fp_branch_name, Received,
  accepted,
}
use simperby.Repository.Library.{Library}
use simperby.Repository.Format.{
  to_semantic_commit, fp_to_semantic_commit, fp_from_semantic_commit, unwrap, unwrap_ok,
}
use simperby.Repository.Format.Message.{div_i64}
use simperby.Repository.Git.{Git}
use simperby.Repository.Raw.Action.{Action, ◌>>=◌, ◌>>◌, pure, lift, reads, relabel}
use simperby.Repository.Raw.Branches.{
  locate_branch, create_branch, delete_branch, move_branch, list_branches,
}
use simperby.Repository.Raw.Walk.{find_merge_base, get_head}
use simperby.Repository.Raw.Commits.{
  read_semantic_commit, create_semantic_commit, create_commit_all,
}
use simperby.Repository.Raw.Work.{checkout, checkout_clean, checkout_detach, check_clean}
use simperby.Repository.Read.{
  Reading, raws, formats, not_found_is_broken, commits_error, read_commits, read_commit, verify_all,
  commits_of, read_last_finalized_block_header, read_last_finalized_reserved_state,
  read_and_verify_commits_from_last_finalized_block,
}
use simperby.Repository.Candidates.{read_governance_approved_agendas}
use simperby.Repository.Acts.{Acts, raw, look, expect, agenda_branch, block_branch}
use simperby.Repository.Sync.{sync}
use simperby.Repository.Read.{last_of}

-- `.map_err(|e| eyre!(…))?` on a result of the verifier.
abbrev pub verified : {A : Type 0} → Result Error A → Reading A
verified = map_err verification_error

-- The verifier after a commit, if it accepts it.
unfoldable pub accept_commit :
    Crypto → Commit → CommitSequenceVerifier → Result Error CommitSequenceVerifier
unfolding apply_commit
accept_commit c commit csv =
    let (result, next) = apply_commit c commit csv in
    elim result [ ok _ ↦ ok next | err e ↦ err e | panic ↦ panic ]

-- `.is_clean` of the working tree, an error of any kind being the same.
abbrev pub clean_or_rejected : {E : Type 0} → Result E (Unit {0}) → Reading (Unit {0})
clean_or_rejected = map_err (λ _. rejected)

abbrev pub transactions_of : List Commit → List Transaction
transactions_of [] = []
transactions_of (Commit.transaction t ∷ more) = t ∷ transactions_of more
transactions_of (_ ∷ more) = transactions_of more

module _ (lib : Library) (g : Git) where
  -- `HEAD should be rebased on finalized`, for any two commits.
  unfoldable pub rebased : CommitHash → CommitHash → Acts g (Unit {0})
  rebased finalized tip = do
    base ← look g (λ r. raws (find_merge_base g finalized tip r))
    if base == finalized then pure tt else lift (err rejected)

  -- The commits on top of the finalized block, read.
  abbrev commits_up_to : CommitHash → CommitHash → Acts g (List (Commit × CommitHash))
  commits_up_to finalized tip =
      look g (λ r. map_err commits_error (read_commits lib g finalized tip r))

  abbrev finalized_hash : Acts g CommitHash
  finalized_hash = look g (λ r. raws (locate_branch g finalized_branch_name r))

  unfoldable pub create_transaction : Crypto → Transaction → Acts g CommitHash
  unfolding read_last_finalized_reserved_state to_semantic_commit create_semantic_commit
  create_transaction c tx = do
    reserved_state ← look g (read_last_finalized_reserved_state g)
    s ← lift (formats (to_semantic_commit c lib (Commit.transaction tx) reserved_state))
    raw g (create_semantic_commit g s true)

module _ (c : Crypto) (lib : Library) (g : Git) where
  abbrev pub new_agenda : MemberName → Timestamp → BlockHeader → List Commit → Agenda
  new_agenda author now last commits = record {
    author = author;
    timestamp = now;
    transactions_hash = calculate_transactions_hash c (transactions_of commits);
    height = add_u64 last.height 1;
    previous_block_hash = hash_header c last;
  }

  unfoldable pub create_agenda : MemberName → Timestamp → Acts g (Agenda × CommitHash)
  unfolding read_last_finalized_block_header check_clean get_head rebased
      read_last_finalized_reserved_state new read_commits verify_all accept_commit
      to_semantic_commit checkout_clean create_semantic_commit create_branch agenda_branch
      calculate_transactions_hash hash_header add_u64
  create_agenda author now = do
    last ← look g (read_last_finalized_block_header lib g)
    look g (λ r. clean_or_rejected (check_clean g r))
    head ← look g (λ r. raws (get_head g r))
    finalized ← finalized_hash lib g
    rebased lib g finalized head
    reserved_state ← look g (read_last_finalized_reserved_state g)
    commits ← commits_up_to lib g finalized head
    csv ← lift (verified (verify_all c (commits_of commits) (new last reserved_state)))
    let agenda = new_agenda author now last (commits_of commits)
    _ ← lift (map_err (λ _. rejected) (accept_commit c (Commit.agenda agenda) csv))
    s ← lift (formats (to_semantic_commit c lib (Commit.agenda agenda) reserved_state))
    raw g (checkout_clean g)
    result ← raw g (create_semantic_commit g s true)
    raw g (create_branch g (agenda_branch lib (hash_agenda c agenda)) result)
    pure (agenda, result)

  abbrev pub new_block :
      PublicKey
      → Timestamp
      → FinalizationProof
      → BlockHeader
      → List Commit
      → List (PublicKey × ℕ)
      → String
      → BlockHeader
  new_block author now proof last commits validators version = record {
    author = author;
    prev_block_finalization_proof = proof;
    previous_hash = hash_header c last;
    height = add_u64 last.height 1;
    timestamp = now;
    commit_merkle_root = calculate_commit_merkle_root c commits;
    repository_merkle_root = 0;
    validator_set = validators;
    version = version;
  }

  unfoldable pub create_block : PublicKey → Timestamp → String → Acts g (BlockHeader × CommitHash)
  unfolding check_clean get_head rebased read_commits read_last_finalized_block_header
      read_last_finalized_reserved_state new verify_all get_validator_set accept_commit
      to_semantic_commit checkout_clean checkout_detach create_semantic_commit create_branch
      checkout block_branch calculate_commit_merkle_root hash_header add_u64 fp_from_semantic_commit
  create_block author now version = do
    look g (λ r. clean_or_rejected (check_clean g r))
    head ← look g (λ r. raws (get_head g r))
    finalized ← finalized_hash lib g
    rebased lib g finalized head
    commits ← commits_up_to lib g finalized head
    last ← look g (read_last_finalized_block_header lib g)
    reserved_state ← look g (read_last_finalized_reserved_state g)
    csv ← lift (verified (verify_all c (commits_of commits) (new last reserved_state)))
    fp_hash ← look g (λ r. raws (locate_branch g fp_branch_name r))
    fp_commit ← look g (λ r. raws (read_semantic_commit g fp_hash r))
    fp ← lift (unwrap_ok (fp_from_semantic_commit lib fp_commit))
    validators ← lift (unwrap_ok (get_validator_set reserved_state))
    let block = new_block author now fp.proof last (commits_of commits) validators version
    _ ← lift (verified (accept_commit c (Commit.block block) csv))
    s ← lift (formats (to_semantic_commit c lib (Commit.block block) reserved_state))
    raw g (checkout_clean g)
    raw g (checkout_detach g head)
    result ← raw g (create_semantic_commit g s true)
    let branch = block_branch lib (hash_header c block)
    raw g (create_branch g branch result)
    raw g (checkout g branch)
    pure (block, result)

  unfoldable pub create_extra_agenda_transaction : ExtraAgendaTransaction → Acts g CommitHash
  unfolding check_clean get_head read_last_finalized_reserved_state rebased read_commits
      read_last_finalized_block_header new verify_all accept_commit to_semantic_commit
      checkout_clean create_semantic_commit
  create_extra_agenda_transaction tx = do
    look g (λ r. clean_or_rejected (check_clean g r))
    head ← look g (λ r. raws (get_head g r))
    finalized ← finalized_hash lib g
    reserved_state ← look g (read_last_finalized_reserved_state g)
    rebased lib g finalized head
    commits ← commits_up_to lib g finalized head
    last ← look g (read_last_finalized_block_header lib g)
    csv ← lift (verified (verify_all c (commits_of commits) (new last reserved_state)))
    _ ← lift (map_err (λ _. rejected) (accept_commit c (Commit.extra_agenda_transaction tx) csv))
    s ←
        lift
          (formats (to_semantic_commit c lib (Commit.extra_agenda_transaction tx) reserved_state))
    raw g (checkout_clean g)
    raw g (create_semantic_commit g s false)
