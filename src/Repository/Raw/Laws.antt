-- ===== src/Repository/Raw/Laws.antt =====
-- What the repository's proofs use of `git2`: which calls move a branch.
use Prim.Native.String.{String}
use simperby.Base.{◌≡◌, ◌≢◌, some}
use simperby.Core.Result.{ok}
use simperby.Repository.Types.{Branch, CommitHash}
use simperby.Repository.Git.{Git, Reference, GitSignature, TreeId}

-- HEAD stands on the branch.
pub record IsCheckedOut (g : Git) (b : Branch) (r : g.Repo) : Type 0 where
  pub reference : Reference
  pub is_head : g.head r ≡ ok reference
  pub is_named : reference.name ≡ some b

-- A branch is moved by `set_target` on it and by a commit while it is checked out; it is made by `branch`
-- and deleted by `delete`; no other call changes what `find_branch` finds.
pub record IsLawful (g : Git) : Type 0 where
  pub reset_hard_keeps :
      (r : g.Repo) (b : Branch) → g.find_branch (g.reset_hard r).1 b ≡ g.find_branch r b
  pub remove_dir_all_keeps :
      (path : String) (r : g.Repo) (b : Branch)
      → g.find_branch (g.remove_dir_all path r).1 b ≡ g.find_branch r b
  pub remove_file_keeps :
      (path : String) (r : g.Repo) (b : Branch)
      → g.find_branch (g.remove_file path r).1 b ≡ g.find_branch r b
  pub set_target_moves :
      (b : Branch) (h : CommitHash) (r : g.Repo)
      → (g.set_target b h r).0 ≡ ok tt
      → (found : Reference) × (g.find_branch (g.set_target b h r).1 b ≡ ok found)
        × (found.target ≡ some h)
  pub set_target_fails :
      (b : Branch) (h : CommitHash) (r : g.Repo)
      → (g.set_target b h r).0 ≢ ok tt
      → (b' : Branch) → g.find_branch (g.set_target b h r).1 b' ≡ g.find_branch r b'
  pub set_target_keeps :
      (b : Branch) (h : CommitHash) (r : g.Repo) (b' : Branch)
      → b' ≢ b
      → g.find_branch (g.set_target b h r).1 b' ≡ g.find_branch r b'
  pub branch_keeps :
      (b : Branch) (h : CommitHash) (r : g.Repo) (b' : Branch)
      → b' ≢ b
      → g.find_branch (g.branch b h r).1 b' ≡ g.find_branch r b'
  pub delete_keeps :
      (b : Branch) (r : g.Repo) (b' : Branch)
      → b' ≢ b
      → g.find_branch (g.delete_branch b r).1 b' ≡ g.find_branch r b'
  pub checkout_branch_keeps :
      (b : Branch) (r : g.Repo) (b' : Branch)
      → g.find_branch (g.checkout_branch b r).1 b' ≡ g.find_branch r b'
  pub set_head_keeps :
      (b : Branch) (r : g.Repo) (b' : Branch)
      → g.find_branch (g.set_head b r).1 b' ≡ g.find_branch r b'
  pub set_head_checks_out :
      (b : Branch) (r : g.Repo) → (g.set_head b r).0 ≡ ok tt → IsCheckedOut g b (g.set_head b r).1
  pub commit_keeps :
      (s : GitSignature) (message : String) (tree : TreeId) (parent : CommitHash) (r : g.Repo)
      (b b' : Branch)
      → IsCheckedOut g b r
      → b' ≢ b
      → g.find_branch (g.commit s message tree parent r).1 b' ≡ g.find_branch r b'
  pub checkout_commit_keeps :
      (h : CommitHash) (r : g.Repo) (b : Branch)
      → g.find_branch (g.checkout_commit h r).1 b ≡ g.find_branch r b
  pub set_head_detached_keeps :
      (h : CommitHash) (r : g.Repo) (b : Branch)
      → g.find_branch (g.set_head_detached h r).1 b ≡ g.find_branch r b
  -- A branch that has been deleted cannot be checked out.
  pub checkout_deleted :
      (b : Branch) (r : g.Repo)
      → (g.delete_branch b r).0 ≡ ok tt
      → (g.checkout_branch b (g.delete_branch b r).1).0 ≢ ok tt
