-- ===== src/Repository/Git.antt =====
-- The `git2` library and the working directory behind repository/src/raw/implementation.rs, as a
-- parameter: a repository is a value, and a call that writes returns the new one beside its result.
use Prim.Native.String.{String}
use simperby.Base.{ℕ, Bool, Option, List}
use simperby.Core.Types.{ReservedState, Timestamp, Hash256}
use simperby.Core.Result.{Result}
use simperby.Repository.Types.{Branch, Tag, CommitHash}

-- The code of a `git2::Error`.
pub data GitError : Type 0 where
  missing other : GitError

-- The flags of an entry of `statuses`, with one name for all sets of flags that the code does not ask for.
pub data Status : Type 0 where
  wt_new wt_modified wt_deleted index_new index_modified index_deleted any_other : Status

-- The name of a git tree.
abbrev pub TreeId : Type 0
TreeId = ℕ

-- A local branch or another reference; `none` is a name that is no UTF-8, or no direct target.
pub record Reference : Type 0 where
  pub name : Option String
  pub target : Option CommitHash

pub record GitCommit : Type 0 where
  pub parents : List CommitHash
  pub tree : TreeId
  pub message : Option String
  pub summary : Option String
  pub body : Option String
  pub author_name : Option String
  pub author_email : Option String
  pub seconds : Timestamp

-- `git2::Signature::new(name, email, &time)`.
pub record GitSignature : Type 0 where
  pub name : String
  pub email : String
  pub seconds : Timestamp

pub record Git : Type 1 where
  pub Repo : Type 0
  -- `find_branch(name, Local)`, `branches(Local)`, `references_glob("refs/tags/*")`.
  pub find_branch : Repo → Branch → Result GitError Reference
  -- The order in which a `HashSet` of the pairs is walked.
  pub walk_set : List (Branch × CommitHash) → List (Branch × CommitHash)
  pub branches : Repo → Result GitError (List (Result GitError Reference))
  pub tag_references : Repo → Result GitError (List (Result GitError Reference))
  -- `find_reference("refs/tags/…")` with `peel(Commit)`.
  pub find_tag : Repo → Tag → Result GitError CommitHash
  pub tag_names : Repo → Result GitError (List (Option Tag))
  pub head : Repo → Result GitError Reference
  pub find_commit : Repo → CommitHash → Result GitError GitCommit
  pub merge_base : Repo → CommitHash → CommitHash → Result GitError CommitHash
  -- A revision walk over `ancestor..descendant`, or from HEAD, oldest first.
  pub walk_range :
      Repo → CommitHash → CommitHash → Result GitError (List (Result GitError CommitHash))
  pub walk_head : Repo → Result GitError (List (Result GitError CommitHash))
  -- `diff_tree_to_tree(…).deltas().len()`, and the printed patch.
  pub deltas : Repo → TreeId → TreeId → Result GitError ℕ
  pub print_patch : Repo → TreeId → TreeId → Result GitError String
  -- `Email::from_commit`, as text if it is UTF-8, and the hash of a text.
  pub email_of : Repo → CommitHash → Result GitError (Option String)
  pub hash_text : String → Hash256
  pub config_string : Repo → String → Result GitError String
  -- The tree of the index, and of the index after `add_all(["*"])`.
  pub index_tree : Repo → Result GitError TreeId
  pub add_all_tree : Repo → Result GitError TreeId
  -- `workdir` as a text.
  pub workdir : Repo → Option String
  -- The entries of `statuses` with untracked files, and with their directories entered if asked for; the
  -- path of an entry is `none` if it is no UTF-8.
  pub statuses : Bool → Repo → Result GitError (List (Status × Option String))
  -- `std::fs::metadata(path)` and its `is_dir`, `remove_dir_all` and `remove_file`.
  pub metadata_is_dir : String → Repo → Option Bool
  pub remove_dir_all : String → Repo → Result GitError (Unit {0}) × Repo
  pub remove_file : String → Repo → Result GitError (Unit {0}) × Repo
  -- `reserved_state::read_reserved_state` on the working directory, and the same on a tree.
  pub reserved_in_workdir : Repo → Option ReservedState
  pub reserved_in_tree : Repo → TreeId → Option ReservedState
  -- The lines of `.gitignore`, and a line added to it.
  pub gitignore : Repo → Option (List String)
  pub append_gitignore : String → Repo → Result GitError (Unit {0}) × Repo
  pub remotes : Repo → Result GitError (List (Option String))
  pub remote_url : Repo → String → Result GitError (Option String)
  -- `branches(Remote)` and `find_branch(name, Remote)`.
  pub remote_branches : Repo → Result GitError (List (Result GitError Reference))
  pub find_remote_branch : Repo → Branch → Result GitError Reference
  -- `branch(name, commit, false)`, `set_target`, `delete`.
  pub branch : Branch → CommitHash → Repo → Result GitError (Unit {0}) × Repo
  pub set_target : Branch → CommitHash → Repo → Result GitError (Unit {0}) × Repo
  pub delete_branch : Branch → Repo → Result GitError (Unit {0}) × Repo
  pub tag_lightweight : Tag → CommitHash → Repo → Result GitError (Unit {0}) × Repo
  pub tag_delete : Tag → Repo → Result GitError (Unit {0}) × Repo
  -- `commit(Some("HEAD"), signature, signature, message, tree, [parent])`.
  pub commit :
      GitSignature → String → TreeId → CommitHash → Repo → Result GitError CommitHash × Repo
  pub write_reserved : ReservedState → Repo → Result GitError (Unit {0}) × Repo
  -- `checkout_head` with force, and a hard reset to `HEAD`.
  pub reset_hard : Repo → Result GitError (Unit {0}) × Repo
  pub checkout_branch : Branch → Repo → Result GitError (Unit {0}) × Repo
  pub set_head : Branch → Repo → Result GitError (Unit {0}) × Repo
  pub checkout_commit : CommitHash → Repo → Result GitError (Unit {0}) × Repo
  pub set_head_detached : CommitHash → Repo → Result GitError (Unit {0}) × Repo
  pub remote_add : String → String → Repo → Result GitError (Unit {0}) × Repo
  pub remote_delete : String → Repo → Result GitError (Unit {0}) × Repo
