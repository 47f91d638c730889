-- ===== src/Repository/Sync.antt =====
-- repository/src/interpret/works.rs: `sync`, which takes over a branch that others have made.
mod Frame
pub mod Cause
pub mod Safe
pub mod Next
use Prim.Native.String.{String, ◌++◌ as ◌<>◌}
use text.Mathlib.Text.{starts_with}
use simperby.Base.{
  ℕ, suc, ◌-◌, Bool, true, false, not, ◌&&◌, ◌||◌, Option, none, some, List, [], ◌∷◌, ◌++◌, ◌==◌,
  ltb, length, get_elem?, if◌then◌else◌,
}
use simperby.Base.Text.{str_eq}
use simperby.Core.Types.{BlockHeader, Hash256, Commit, Agenda, AgendaProof, FinalizationProof}
use simperby.Core.Crypto.{Crypto}
use simperby.Core.Hash.{hash_header, hash_agenda, hash_agenda_proof}
use simperby.Core.Result.{Result, Error, ok, err, panic}
use simperby.Core.Sequence.{
  CommitSequenceVerifier, new, get_block_headers, verify_last_header_finalization,
}
use simperby.Repository.Types.{
  Branch, CommitHash, LastFinalizationProof, FinalizationInfo, RawError, RepositoryError,
  CommitError, Received, raw_error, integrity_error, unread, unparsed, accepted, not_descendant,
  already_finalized, unparsable, unverified, bad_proof, no_block, already_approved, branch_exists,
  bad_end, finalized_branch_name, fp_branch_name,
}
use simperby.Repository.Library.{Library}
use simperby.Repository.Format.{fp_from_semantic_commit}
use simperby.Repository.Git.{Git}
use simperby.Repository.Raw.Action.{Action, ◌>>=◌, ◌>>◌, pure, lift, reads}
use simperby.Repository.Raw.Branches.{locate_branch, create_branch, delete_branch, list_branches}
use simperby.Repository.Raw.Walk.{find_merge_base, list_ancestors}
use simperby.Repository.Raw.Commits.{read_semantic_commit}
use simperby.Repository.Raw.Work.{list_remote_tracking_branches}
use simperby.Repository.Read.{
  last_of, second_to_last, raws, is_ok, read_last_finalization_info, read_commits, read_commit,
  verify_all, commits_of,
}
use simperby.Repository.Candidates.{read_governance_approved_agendas}
use simperby.Repository.Acts.{
  Acts, raw, look, expect, agenda_branch, block_branch, advance_finalized_branch,
}

-- The name for the branch of the tip, or why there is none.
pub data Naming : Type 0 where
  named : Branch → Naming
  refused : Received → Naming

abbrev ends_with_block : Commit → Bool
ends_with_block (Commit.block _) = true
ends_with_block _ = false

abbrev approves : Hash256 → Commit → Option Bool
approves hash (Commit.agenda_proof p) = some (p.agenda_hash == hash)
approves hash _ = none

module _ (c : Crypto) (lib : Library) (g : Git) where
  -- `match read_commits(…) { … }` with the loop over the commits that follows it.
  unfoldable pub receive_commits :
      CommitHash
      → CommitHash
      → CommitSequenceVerifier
      → (List (Commit × CommitHash) → CommitSequenceVerifier → Acts g Received)
      → Acts g Received
  unfolding read_commits verify_all
  receive_commits finalized tip csv then_do r = elim (read_commits lib g finalized tip r) [
    | err (unparsed _ _) ↦ (ok unparsable, r)
    | err (unread e) ↦ (err (raw_error e), r)
    | panic ↦ (panic, r)
    | ok commits ↦ elim (verify_all c (commits_of commits) csv) [
      | err e ↦ (ok (unverified e), r)
      | panic ↦ (panic, r)
      | ok verified ↦ then_do commits verified r
    ]
  ]

  -- After the commits below a finalization proof commit.
  unfoldable pub finish_finalized :
      LastFinalizationProof → List (Commit × CommitHash) → CommitSequenceVerifier → Acts g Received
  unfolding verify_last_header_finalization advance_finalized_branch
  finish_finalized fp commits csv = do
    (commit, hash) ← expect g (last_of commits)
    elim (ends_with_block commit) [
      | false ↦ pure no_block
      | true ↦ elim (is_ok (verify_last_header_finalization c csv fp.proof)) [
        | false ↦ pure bad_proof
        | true ↦ do advance_finalized_branch lib g hash fp; pure accepted
      ]
    ]

  -- `if headers.len() > 2 { … }`.
  unfoldable pub finalize_earlier :
      List (Commit × CommitHash) → CommitSequenceVerifier → Acts g (Unit {0})
  unfolding get_block_headers advance_finalized_branch
  finalize_earlier commits csv =
      let headers = get_block_headers csv in
      elim (ltb 2 (length headers)) [
        | false ↦ pure tt
        | true ↦ do
          (last, _) ← expect g (last_of headers)
          (second, index) ← expect g (second_to_last headers)
          (_, hash) ← expect g (get_elem? commits index)
          advance_finalized_branch lib g hash
              (record { height = second.height; proof = last.prev_block_finalization_proof })
      ]

  -- Whether one of the approved agendas is this one.
  unfoldable pub is_approved : Hash256 → List (CommitHash × Hash256) → Acts g Bool
  unfolding read_commit
  is_approved hash [] = pure false
  is_approved hash ((commit_hash, _) ∷ more) = look g (read_commit lib g commit_hash) >>= λ commit.
      elim (approves hash commit) [
        | none ↦ lift (err integrity_error)
        | some same ↦ elim same [ true ↦ pure true | false ↦ is_approved hash more ]
      ]

  abbrev agenda_hash_of : Commit → Option Hash256
  agenda_hash_of (Commit.agenda a) = some (hash_agenda c a)
  agenda_hash_of _ = none

  unfoldable pub drop_agenda_branch : Branch → Acts g (Unit {0})
  unfolding delete_branch locate_branch
  drop_agenda_branch branch r = elim (is_ok (locate_branch g branch r)) [
    | true ↦ raw g (delete_branch g branch) r
    | false ↦ (ok tt, r)
  ]

  -- `match &commits.last().expect(…).0`.
  unfoldable pub name_branch : Commit → List (Commit × CommitHash) → Acts g Naming
  unfolding is_approved drop_agenda_branch read_governance_approved_agendas agenda_branch
      block_branch
  name_branch (Commit.agenda agenda) commits = do
    approved ← look g (read_governance_approved_agendas lib g c)
    done ← is_approved (hash_agenda c agenda) approved
    pure (
        if done then refused already_approved else named (agenda_branch lib (hash_agenda c agenda)))
  name_branch (Commit.agenda_proof proof) commits = do
    (parent, _) ← expect g (second_to_last commits)
    elim (agenda_hash_of parent) [
      | none ↦ lift (err integrity_error)
      | some hash ↦ do
        drop_agenda_branch (agenda_branch lib hash)
        pure (named (agenda_branch lib (hash_agenda_proof c proof)))
    ]
  name_branch (Commit.block header) commits = pure (named (block_branch lib (hash_header c header)))
  name_branch _ commits = pure (refused bad_end)

  unfoldable pub add_branch : CommitHash → Naming → Acts g Received
  unfolding create_branch locate_branch
  add_branch tip (refused why) r = (ok why, r)
  add_branch tip (named branch) r = elim (is_ok (locate_branch g branch r)) [
    | true ↦ (ok branch_exists, r)
    | false ↦ (raw g (create_branch g branch tip) >>= λ _. pure accepted) r
  ]

  -- After the commits of a branch that ends with a block, an agenda or an agenda proof.
  unfoldable pub finish_branch :
      CommitHash → List (Commit × CommitHash) → CommitSequenceVerifier → Acts g Received
  unfolding finalize_earlier name_branch add_branch
  finish_branch tip commits csv = do
    finalize_earlier commits csv
    (commit, _) ← expect g (last_of commits)
    naming ← name_branch commit commits
    add_branch tip naming

  unfoldable pub sync_fp :
      FinalizationInfo
      → CommitSequenceVerifier
      → CommitHash
      → LastFinalizationProof
      → Acts g Received
  unfolding list_ancestors receive_commits finish_finalized
  sync_fp lfi csv tip fp = do
    ancestors ← look g (λ r. raws (list_ancestors g 1 tip (some 1) r))
    hash ← expect g (get_elem? ancestors 0)
    elim (hash == lfi.commit_hash) [
      | true ↦ pure already_finalized
      | false ↦ receive_commits lfi.commit_hash hash csv (finish_finalized fp)
    ]

  unfoldable pub sync_branch :
      FinalizationInfo → CommitSequenceVerifier → CommitHash → Acts g Received
  unfolding receive_commits finish_branch
  sync_branch lfi csv tip =
      if tip == lfi.commit_hash
      then pure already_finalized
      else receive_commits lfi.commit_hash tip csv (finish_branch tip)

  unfoldable pub sync : CommitHash → Acts g Received
  unfolding read_last_finalization_info new sync_fp sync_branch
  sync tip = do
    lfi ← look g (read_last_finalization_info lib g)
    let csv = new lfi.header lfi.reserved_state
    base ← look g (λ r. raws (find_merge_base g lfi.commit_hash tip r))
    elim (base == lfi.commit_hash) [
      | false ↦ pure not_descendant
      | true ↦ do
        s ← look g (λ r. raws (read_semantic_commit g tip r))
        elim (fp_from_semantic_commit lib s) [
          | ok fp ↦ sync_fp lfi csv tip fp
          | err _ ↦ sync_branch lfi csv tip
          | panic ↦ lift panic
        ]
    ]

  abbrev is_plain : Branch → Bool
  is_plain s =
      not (str_eq s finalized_branch_name)
      && not (str_eq s fp_branch_name)
      && not (starts_with s "a-")
      && not (starts_with s "b-")
      && not (str_eq s "p")

  abbrev plain_branches : List Branch → List Branch
  plain_branches [] = []
  plain_branches (b ∷ bs) = if is_plain b then b ∷ plain_branches bs else plain_branches bs

  unfoldable pub sync_locals : List Branch → Acts g (List (String × Received))
  unfolding sync locate_branch
  sync_locals [] = pure []
  sync_locals (b ∷ bs) = do
    hash ← look g (λ r. raws (locate_branch g b r))
    received ← sync hash
    more ← sync_locals bs
    pure ((b, received) ∷ more)

  unfoldable pub sync_remotes :
      List (String × String × CommitHash) → Acts g (List (String × Received))
  unfolding sync
  sync_remotes [] = pure []
  sync_remotes ((remote, b, hash) ∷ bs) = do
    received ← sync hash
    more ← sync_remotes bs
    pure ((remote <> ("/" <> b), received) ∷ more)

  unfoldable pub sync_all : Acts g (List (String × Received))
  unfolding sync_locals sync_remotes list_branches list_remote_tracking_branches
  sync_all = do
    names ← look g (λ r. raws (list_branches g r))
    remotes ← look g (λ r. raws (list_remote_tracking_branches g r))
    locals ← sync_locals (plain_branches names)
    others ← sync_remotes remotes
    pure (locals ++ others)
