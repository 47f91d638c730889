-- ===== src/Repository/Toy.antt =====
-- A small `git2` for the tests of the repository: its branches, HEAD and commits are in memory.
pub mod Lawful
use Prim.Native.String.{String}
use simperby.Base.{
  ℕ, zero, suc, ◌+◌, Bool, true, false, Option, none, some, List, [], ◌∷◌, ◌++◌, ◌==◌,
  if◌then◌else◌,
}
use simperby.Base.Text.{str_eq}
use simperby.Core.Result.{Result, ok, err, panic}
use simperby.Core.Samples.{first_state}
use simperby.Repository.Types.{Branch, CommitHash}
use simperby.Repository.Format.Message.{title_and_body}
use simperby.Repository.Git.{Git, GitError, missing, other, Reference, GitCommit, GitSignature}

pub record Store : Type 0 where
  pub names : List Branch
  pub place : Branch → Option CommitHash
  -- The branch that is checked out, or none and the commit.
  pub current : Option Branch
  pub detached : CommitHash
  pub commits : List (CommitHash × GitCommit)

abbrev pub put : Branch → Option CommitHash → Store → Store
put b h s = record {
  names = s.names;
  place = λ b'. if str_eq b' b then h else s.place b';
  current = s.current;
  detached = s.detached;
  commits = s.commits;
}

abbrev pub listed : Branch → Store → Store
listed b s = record {
  names = s.names ++ b ∷ [];
  place = s.place;
  current = s.current;
  detached = s.detached;
  commits = s.commits;
}

abbrev pub on : Option Branch → CommitHash → Store → Store
on b h s = record {
  names = s.names;
  place = s.place;
  current = b;
  detached = h;
  commits = s.commits;
}

abbrev pub added : CommitHash → GitCommit → Store → Store
added h commit s = record {
  names = s.names;
  place = s.place;
  current = s.current;
  detached = s.detached;
  commits = (h, commit) ∷ s.commits;
}

abbrev pub reference_to : Branch → Option CommitHash → Result GitError Reference
reference_to b none = err missing
reference_to b (some h) = ok (record { name = some b; target = some h })

abbrev pub find : Store → Branch → Result GitError Reference
find s b = reference_to b (s.place b)

abbrev pub list_of : Store → List Branch → List (Result GitError Reference)
list_of s [] = []
list_of s (b ∷ bs) = elim (s.place b) [
  | none ↦ list_of s bs
  | some h ↦ ok (record { name = some b; target = some h }) ∷ list_of s bs
]

abbrev pub head_of : Option Branch → Store → Result GitError Reference
head_of none s = ok (record { name = some "HEAD"; target = some s.detached })
head_of (some b) s = find s b

abbrev pub commit_in : List (CommitHash × GitCommit) → CommitHash → Result GitError GitCommit
commit_in [] h = err missing
commit_in ((h', commit) ∷ more) h = if h' == h then ok commit else commit_in more h

-- A commit and its first ancestors, itself first.
abbrev pub history : ℕ → Store → CommitHash → List CommitHash
history zero s h = []
history (suc n) s h = elim (commit_in s.commits h) [
  | err _ ↦ []
  | panic ↦ []
  | ok commit ↦ elim commit.parents [ [] ↦ h ∷ [] | p ∷ _ ↦ h ∷ history n s p ]
]

abbrev pub mem : CommitHash → List CommitHash → Bool
mem h [] = false
mem h (x ∷ xs) = if x == h then true else mem h xs

abbrev pub first_common : List CommitHash → List CommitHash → Result GitError CommitHash
first_common [] ys = err missing
first_common (x ∷ xs) ys = if mem x ys then ok x else first_common xs ys

-- Those that are not in the other list, oldest first.
abbrev pub new_ones : List CommitHash → List CommitHash → List (Result GitError CommitHash)
new_ones [] ys = []
new_ones (x ∷ xs) ys = if mem x ys then new_ones xs ys else new_ones xs ys ++ ok x ∷ []

abbrev pub fresh_hash : List (CommitHash × GitCommit) → CommitHash
fresh_hash [] = 1
fresh_hash (_ ∷ more) = suc (fresh_hash more)

abbrev pub depth : ℕ
depth = 12

abbrev pub moved :
    Option CommitHash → Branch → CommitHash → Store → Result GitError (Unit {0}) × Store
moved none b h s = (err missing, s)
moved (some _) b h s = (ok tt, put b (some h) s)

abbrev pub made :
    Option CommitHash → Branch → CommitHash → Store → Result GitError (Unit {0}) × Store
made none b h s = (ok tt, listed b (put b (some h) s))
made (some _) b h s = (err other, s)

abbrev pub deleted : Option CommitHash → Branch → Store → Result GitError (Unit {0}) × Store
deleted none b s = (err missing, s)
deleted (some _) b s = (ok tt, put b none s)

abbrev pub headed : Option CommitHash → Branch → Store → Result GitError (Unit {0}) × Store
headed none b s = (err missing, s)
headed (some h) b s = (ok tt, on (some b) h s)

abbrev pub checked : Option CommitHash → Store → Result GitError (Unit {0}) × Store
checked none s = (err missing, s)
checked (some _) s = (ok tt, s)

abbrev pub advanced : Option Branch → CommitHash → Store → Store
advanced none h s = on none h s
advanced (some b) h s = put b (some h) s

unfoldable pub written : GitSignature → String → ℕ → CommitHash → GitCommit
unfolding title_and_body
written signature message tree parent = record {
  parents = parent ∷ [];
  tree = tree;
  message = some message;
  summary = some (title_and_body message).0;
  body = some (title_and_body message).1;
  author_name = some signature.name;
  author_email = some signature.email;
  seconds = signature.seconds;
}

abbrev pub committed :
    GitSignature → String → ℕ → CommitHash → Store → Result GitError CommitHash × Store
committed signature message tree parent s =
    let hash = fresh_hash s.commits in
    (ok hash, advanced s.current hash (added hash (written signature message tree parent) s))

abbrev pub memory : Git
memory = record {
  Repo = Store;
  find_branch = find;
  walk_set = λ bs. bs;
  branches = λ s. ok (list_of s s.names);
  tag_references = λ s. ok [];
  find_tag = λ s t. err missing;
  tag_names = λ s. ok [];
  head = λ s. head_of s.current s;
  find_commit = λ s h. commit_in s.commits h;
  merge_base = λ s a b. first_common (history depth s a) (history depth s b);
  walk_range = λ s a b. ok (new_ones (history depth s b) (history depth s a));
  walk_head = λ s. ok (new_ones (history depth s s.detached) []);
  deltas = λ s a b. ok (if a == b then 0 else 1);
  print_patch = λ s a b. ok "patch";
  email_of = λ s h. ok (some "patch");
  hash_text = λ t. 7;
  config_string = λ s key. ok "ada";
  index_tree = λ s. ok 1;
  add_all_tree = λ s. ok 1;
  workdir = λ s. some "/simperby/";
  statuses = λ recurse s. ok [];
  metadata_is_dir = λ path s. none;
  remove_dir_all = λ path s. (err other, s);
  remove_file = λ path s. (err other, s);
  reserved_in_workdir = λ s. some first_state;
  reserved_in_tree = λ s t. some first_state;
  gitignore = λ s. none;
  append_gitignore = λ line s. (ok tt, s);
  remotes = λ s. ok [];
  remote_url = λ s name. err missing;
  remote_branches = λ s. ok [];
  find_remote_branch = λ s b. err missing;
  branch = λ b h s. made (s.place b) b h s;
  set_target = λ b h s. moved (s.place b) b h s;
  delete_branch = λ b s. deleted (s.place b) b s;
  tag_lightweight = λ t h s. (err other, s);
  tag_delete = λ t s. (err missing, s);
  commit = committed;
  write_reserved = λ rs s. (ok tt, s);
  reset_hard = λ s. (ok tt, s);
  checkout_branch = λ b s. checked (s.place b) s;
  set_head = λ b s. headed (s.place b) b s;
  checkout_commit = λ h s. (ok tt, s);
  set_head_detached = λ h s. (ok tt, on none h s);
  remote_add = λ name url s. (err other, s);
  remote_delete = λ name s. (err missing, s);
}
