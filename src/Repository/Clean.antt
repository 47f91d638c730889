-- ===== src/Repository/Clean.antt =====
-- repository/src/interpret/works.rs: `clean`, which deletes branches and remote repositories.
mod Gone
pub mod Survivors
pub mod Tidy
use Prim.Native.String.{String}
use simperby.Base.{Bool, true, false, ◌||◌, List, [], ◌∷◌, ◌==◌}
use simperby.Base.Text.{str_eq}
use simperby.Core.Types.{BlockHeader, Commit}
use simperby.Core.Crypto.{Crypto}
use simperby.Core.Result.{Result, ok, err, panic, map_err}
use simperby.Core.Sequence.{CommitSequenceVerifier, new}
use simperby.Core.Apply.{Applied, apply_commit}
use simperby.Repository.Types.{Branch, CommitHash, finalized_branch_name, fp_branch_name}
use simperby.Repository.Library.{Library}
use simperby.Repository.Git.{Git}
use simperby.Repository.Raw.Action.{Action, ◌>>=◌, ◌>>◌, pure, lift, reads}
use simperby.Repository.Raw.Branches.{delete_branch}
use simperby.Repository.Raw.Walk.{find_merge_base}
use simperby.Repository.Raw.Work.{checkout, read_reserved_state, list_remotes, remove_remote}
use simperby.Repository.Read.{
  raws, not_found_is_broken, commits_error, read_local_branches, read_last_finalized_block_header,
  get_last_finalized_block_commit_hash, read_commits, commits_of,
}
use simperby.Repository.Acts.{Acts, raw, look}

abbrev pub is_reserved : Branch → Bool
is_reserved b = str_eq b finalized_branch_name || str_eq b fp_branch_name

module _ (c : Crypto) (lib : Library) (g : Git) where
  -- Each commit that the verifier refuses deletes the branch.
  unfoldable pub drop_invalid : Branch → List Commit → CommitSequenceVerifier → Acts g (Unit {0})
  unfolding apply_commit delete_branch
  drop_invalid branch [] csv = pure tt
  drop_invalid branch (commit ∷ commits) csv =
      let (result, next) = apply_commit c commit csv in
      elim result [
        | ok _ ↦ drop_invalid branch commits next
        | panic ↦ lift panic
        | err _ ↦ raw g (delete_branch g branch) >>= λ _. drop_invalid branch commits next
      ]

  -- A branch that was made before the last finalized block.
  unfoldable pub drop_outdated : Branch → CommitHash → CommitHash → Acts g (Unit {0})
  unfolding delete_branch
  drop_outdated branch tip finalized = do
    base ← look g (λ r. map_err not_found_is_broken (find_merge_base g tip finalized r))
    elim (finalized == base) [ true ↦ pure tt | false ↦ raw g (delete_branch g branch) ]

  unfoldable pub clean_branch : BlockHeader → CommitHash → Branch → CommitHash → Acts g (Unit {0})
  unfolding drop_outdated drop_invalid checkout new read_reserved_state
  clean_branch header finalized branch tip = do
    drop_outdated branch tip finalized
    raw g (checkout g branch)
    reserved_state ← look g (λ r. raws (read_reserved_state g r))
    commits ← look g (λ r. map_err commits_error (read_commits lib g finalized tip r))
    drop_invalid branch (commits_of commits) (new header reserved_state)

  unfoldable pub clean_each :
      Bool → BlockHeader → CommitHash → List (Branch × CommitHash) → Acts g (Unit {0})
  unfolding clean_branch delete_branch
  clean_each hard header finalized [] = pure tt
  clean_each hard header finalized ((branch, tip) ∷ more) = elim (is_reserved branch) [
    | true ↦ clean_each hard header finalized more
    | false ↦ elim hard [
      | true ↦ raw g (delete_branch g branch) >>= λ _. clean_each hard header finalized more
      | false ↦
          clean_branch header finalized branch tip >>= λ _. clean_each hard header finalized more
    ]
  ]

  unfoldable pub remove_remotes : List (String × String) → Acts g (Unit {0})
  unfolding remove_remote
  remove_remotes [] = pure tt
  remove_remotes ((name, _) ∷ more) = raw g (remove_remote g name) >>= λ _. remove_remotes more

  unfoldable pub clean : Bool → Acts g (Unit {0})
  unfolding clean_each remove_remotes get_last_finalized_block_commit_hash read_local_branches
      read_last_finalized_block_header list_remotes
  clean hard = do
    finalized ← look g (get_last_finalized_block_commit_hash g)
    branches ← look g (read_local_branches g)
    header ← look g (read_last_finalized_block_header lib g)
    clean_each hard header finalized branches
    remotes ← look g (λ r. raws (list_remotes g r))
    remove_remotes remotes
