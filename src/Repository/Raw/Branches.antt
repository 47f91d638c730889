-- ===== src/Repository/Raw/Branches.antt =====
-- repository/src/raw/implementation.rs: branches and tags.
use Prim.Native.String.{String}
use simperby.Base.{Option, none, some, List, [], ◌∷◌, ◌==◌, if◌then◌else◌}
use simperby.Base.Text.{str_eq}
use simperby.Core.Result.{Result, ok, err, ◌>>=◌ as ◌>>?◌, map_err}
use simperby.Repository.Types.{
  Branch, Tag, CommitHash, RawError, git2_error, not_found, invalid_repository, unknown,
}
use simperby.Repository.Git.{Git, GitError, Reference, missing, other}
use simperby.Repository.Raw.Action.{Action, ◌>>=◌, collect, lift, reads, relabel}

-- `?` on a result of the library.
abbrev pub raised : {A : Type 0} → Result GitError A → Result RawError A
raised = map_err (λ _. git2_error)

abbrev pub or_unknown : {A : Type 0} → Option A → Result RawError A
or_unknown none = err unknown
or_unknown (some a) = ok a

abbrev pub name_of : Result GitError Reference → Result RawError Branch
name_of r = raised r >>? λ b. or_unknown b.name

abbrev pub names_of : List (Result GitError Reference) → List (Result RawError Branch)
names_of [] = []
names_of (r ∷ rs) = name_of r ∷ names_of rs

-- A reference with its target.
abbrev with_target : Reference → Result RawError (Reference × CommitHash)
with_target b = or_unknown b.target >>? λ hash. ok (b, hash)

abbrev with_targets : List Reference → List (Result RawError (Reference × CommitHash))
with_targets [] = []
with_targets (b ∷ bs) = with_target b ∷ with_targets bs

abbrev names_at : CommitHash → List (Reference × CommitHash) → List (Result RawError String)
names_at hash [] = []
names_at hash ((b, target) ∷ bs) =
    if target == hash then or_unknown b.name ∷ names_at hash bs else names_at hash bs

abbrev tag_name_of : List (Option Tag) → List (Result RawError Tag)
tag_name_of [] = []
tag_name_of (t ∷ ts) = or_unknown t ∷ tag_name_of ts

abbrev locate_error : GitError → RawError
locate_error missing = not_found
locate_error other = unknown

module _ (g : Git) where
  abbrev pub Writes : Type 0 → Type 0
  Writes A = Action g.Repo RawError A

  abbrev pub does : {A : Type 0} → Action g.Repo GitError A → Writes A
  does = relabel (λ _. git2_error)

  unfoldable pub list_branches : g.Repo → Result RawError (List Branch)
  list_branches r = raised (g.branches r) >>? λ refs. collect (names_of refs)

  unfoldable pub locate_branch : Branch → g.Repo → Result RawError CommitHash
  locate_branch branch r =
      map_err locate_error (g.find_branch r branch) >>? λ b. or_unknown b.target

  unfoldable pub get_branches : CommitHash → g.Repo → Result RawError (List Branch)
  get_branches hash r = raised (g.branches r) >>? λ refs. raised (collect refs) >>? λ bs.
      collect (with_targets bs) >>? λ targets. collect (names_at hash targets)

  unfoldable pub create_branch : Branch → CommitHash → Writes (Unit {0})
  create_branch branch hash = do
    _ ← reads (λ r. raised (g.find_commit r hash))
    does (g.branch branch hash)

  unfoldable pub move_branch : Branch → CommitHash → Writes (Unit {0})
  move_branch branch hash = do
    _ ← reads (λ r. raised (g.find_branch r branch))
    does (g.set_target branch hash)

  -- The branch that is checked out is kept.
  unfoldable pub delete_branch : Branch → Writes (Unit {0})
  delete_branch branch = do
    _ ← reads (λ r. raised (g.find_branch r branch))
    current ← reads (λ r. raised (g.head r) >>? λ head. or_unknown head.name)
    if str_eq current branch then lift (err invalid_repository) else does (g.delete_branch branch)

  unfoldable pub list_tags : g.Repo → Result RawError (List Tag)
  list_tags r = raised (g.tag_names r) >>? λ tags. collect (tag_name_of tags)

  unfoldable pub create_tag : Tag → CommitHash → Writes (Unit {0})
  create_tag tag hash = do
    _ ← reads (λ r. raised (g.find_commit r hash))
    does (g.tag_lightweight tag hash)

  unfoldable pub locate_tag : Tag → g.Repo → Result RawError CommitHash
  locate_tag tag r = raised (g.find_tag r tag)

  unfoldable pub get_tag : CommitHash → g.Repo → Result RawError (List Tag)
  get_tag hash r = raised (g.tag_references r) >>? λ refs. raised (collect refs) >>? λ bs.
      collect (with_targets bs) >>? λ targets. collect (names_at hash targets)

  unfoldable pub remove_tag : Tag → Writes (Unit {0})
  remove_tag tag = does (g.tag_delete tag)
