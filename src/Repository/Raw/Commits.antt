-- ===== src/Repository/Raw/Commits.antt =====
-- repository/src/raw/implementation.rs: commits written and read.
use Prim.Native.String.{String, ◌++◌ as ◌<>◌}
use simperby.Base.{ℕ, Bool, true, false, Option, none, some, List, [], ◌∷◌, ◌==◌, if◌then◌else◌}
use simperby.Base.Int.{pos}
use simperby.Core.Types.{Diff, Timestamp}
use simperby.Core.Result.{Result, ok, err, ◌>>=◌ as ◌>>?◌}
use simperby.Repository.Types.{
  CommitHash, SemanticCommit, RawCommit, RawError, git2_error, invalid_repository, unknown,
}
use simperby.Repository.Format.Message.{div_i64}
use simperby.Base.Word.{mul_i64}
use simperby.Base.Text.{str_eq}
use simperby.Repository.Git.{Git, GitSignature, TreeId}
use simperby.Repository.Raw.Action.{◌>>=◌, ◌>>◌, lift, reads, relabel}
use simperby.Repository.Raw.Branches.{Writes, raised, or_unknown, does}
use simperby.Repository.Raw.Walk.{get_head}

abbrev pub or_empty : Option String → String
or_empty none = ""
or_empty (some text) = text

abbrev first_parent : List CommitHash → Result RawError CommitHash
first_parent [] = err git2_error
first_parent (p ∷ _) = ok p

module _ (g : Git) where
  -- `get_patch`, of the commit against its first parent.
  unfoldable pub get_patch : CommitHash → g.Repo → Result RawError String
  get_patch hash r = raised (g.find_commit r hash) >>? λ commit.
      first_parent commit.parents >>? λ p.
      raised (g.find_commit r p) >>? λ parent. raised (g.print_patch r parent.tree commit.tree)

  abbrev patch_of : CommitHash → List CommitHash → g.Repo → Result RawError (Option String)
  patch_of hash [] r = ok none
  patch_of hash (_ ∷ _) r =
      get_patch hash r >>? λ patch. ok (if str_eq patch "" then none else some patch)

  unfoldable pub read_commit : CommitHash → g.Repo → Result RawError RawCommit
  unfolding get_patch
  read_commit hash r = raised (g.find_commit r hash) >>? λ commit.
      or_unknown commit.message >>? λ message. patch_of hash commit.parents r >>? λ patch.
      or_unknown commit.author_name >>? λ author. or_unknown commit.author_email >>? λ email.
      ok (record {
        message = message;
        patch = patch;
        author = author;
        email = email;
        timestamp = commit.seconds;
      })

  unfoldable pub show_commit : CommitHash → g.Repo → Result RawError String
  show_commit hash r = raised (g.find_commit r hash) >>? λ _.
      raised (g.email_of r hash) >>? λ email. or_unknown email

  -- Whether the commit changes a file: the hash of its patch if so.
  abbrev diff_of : CommitHash → ℕ → g.Repo → Result RawError Diff
  diff_of hash deltas r =
      if deltas == 0
      then ok Diff.empty
      else show_commit hash r >>? λ patch. ok (Diff.non_reserved (g.hash_text patch))

  unfoldable pub read_semantic_commit : CommitHash → g.Repo → Result RawError SemanticCommit
  unfolding show_commit mul_i64
  read_semantic_commit hash r = raised (g.find_commit r hash) >>? λ commit.
      first_parent commit.parents >>? λ p. raised (g.find_commit r p) >>? λ parent.
      raised (g.deltas r commit.tree parent.tree) >>? λ deltas. diff_of hash deltas r >>? λ diff.
      or_unknown commit.author_name >>? λ author. ok (record {
        title = or_empty commit.summary;
        body = or_empty commit.body;
        diff = diff;
        author = author;
        timestamp = mul_i64 commit.seconds (pos 1000);
      })

  abbrev simperby_or_user : Bool → Timestamp → g.Repo → Result RawError GitSignature
  simperby_or_user true seconds r =
      ok (record { name = "Simperby"; email = "hi@simperby.net"; seconds = seconds })
  simperby_or_user false seconds r = raised (g.config_string r "user.name") >>? λ name.
      raised (g.config_string r "user.email") >>? λ email.
      ok (record { name = name; email = email; seconds = seconds })

  -- A commit of the tree on top of HEAD.
  unfoldable pub commit_on_head : GitSignature → String → TreeId → Writes g CommitHash
  unfolding get_head
  commit_on_head signature message tree = do
    head ← reads (get_head g)
    _ ← reads (λ r. raised (g.find_commit r head))
    does g (g.commit signature message tree head)

  unfoldable pub create_semantic_commit : SemanticCommit → Bool → Writes g CommitHash
  unfolding commit_on_head div_i64
  create_semantic_commit s authored_by_simperby = do
    signature ← reads (simperby_or_user authored_by_simperby (div_i64 s.timestamp 1000))
    elim s.diff [
      | Diff.empty ↦ do
        tree ← reads (λ r. raised (g.index_tree r))
        commit_on_head signature (s.title <> ("\n\n" <> s.body)) tree
      | Diff.reserved state ↦ do
        relabel (λ _. unknown) (g.write_reserved state)
        tree ← reads (λ r. raised (g.add_all_tree r))
        commit_on_head signature (s.title <> ("\n\n" <> s.body)) tree
      | Diff.general _ _ ↦ lift (err invalid_repository)
      | Diff.non_reserved _ ↦ lift (err invalid_repository)
    ]

  unfoldable pub create_commit_all : RawCommit → Writes g CommitHash
  unfolding commit_on_head
  create_commit_all raw = do
    tree ← reads (λ r. raised (g.add_all_tree r))
    commit_on_head (record { name = raw.author; email = raw.email; seconds = raw.timestamp })
        raw.message tree
