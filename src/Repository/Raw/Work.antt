-- ===== src/Repository/Raw/Work.antt =====
-- repository/src/raw/implementation.rs: the working directory, HEAD and the remote repositories.
use Prim.Native.Char.{code}
use Prim.Native.String.{String, ◌++◌ as ◌<>◌}
use simperby.Base.{Bool, true, false, any, ◌==◌, Option, none, some, List, [], ◌∷◌, if◌then◌else◌}
use simperby.Core.Types.{ReservedState}
use simperby.Core.Result.{Result, ok, panic, ◌>>=◌ as ◌>>?◌, fail_if}
use simperby.Repository.Types.{Branch, CommitHash, RawError, invalid_repository, unknown}
use simperby.Repository.Git.{Git, Status, wt_new, any_other}
use simperby.Repository.Raw.Action.{◌>>=◌, ◌>>◌, reads, collect, pure, lift, relabel}
use simperby.Repository.Raw.Branches.{Writes, raised, or_unknown, does, names_of}

abbrev remote_names : List (Option String) → List (Result RawError String)
remote_names [] = []
remote_names (n ∷ ns) = or_unknown n ∷ remote_names ns

-- The part before the first `/`, and the part between it and the next.
unfoldable pub first_part : String → String
first_part String.[] = ""
first_part (String.◌∷◌ c text) = if code c == 47 then "" else String.◌∷◌ c (first_part text)

unfoldable pub second_part : String → Option String
unfolding first_part
second_part String.[] = none
second_part (String.◌∷◌ c text) = if code c == 47 then some (first_part text) else second_part text

abbrev pub is_wt_new : Status → Bool
is_wt_new wt_new = true
is_wt_new _ = false

-- The six flags of a change.
abbrev is_change : Status → Bool
is_change any_other = false
is_change _ = true

module _ (g : Git) where
  unfoldable pub get_working_directory_path : g.Repo → Result RawError String
  get_working_directory_path r = or_unknown (g.workdir r)

  -- By the metadata of the path; a path without is left.
  unfoldable pub remove_as : Option Bool → String → Writes g (Unit {0})
  remove_as none path = pure tt
  remove_as (some true) path = relabel (λ _. unknown) (g.remove_dir_all path)
  remove_as (some false) path = relabel (λ _. unknown) (g.remove_file path)

  unfoldable pub remove_path : String → Writes g (Unit {0})
  unfolding remove_as
  remove_path path r = remove_as (g.metadata_is_dir path r) path r

  -- The loop over the entries, which removes what is new in the working tree.
  unfoldable pub remove_untracked : String → List (Status × Option String) → Writes g (Unit {0})
  unfolding remove_path
  remove_untracked workdir [] = pure tt
  remove_untracked workdir ((status, path) ∷ entries) = elim (is_wt_new status) [
    | true ↦ do
      name ← lift (or_unknown path)
      remove_path (workdir <> name)
      remove_untracked workdir entries
    | false ↦ remove_untracked workdir entries
  ]

  unfoldable pub checkout_clean : Writes g (Unit {0})
  unfolding get_working_directory_path remove_untracked
  checkout_clean = do
    does g g.reset_hard
    workdir ← reads get_working_directory_path
    entries ← reads (λ r. raised (g.statuses false r))
    remove_untracked workdir entries

  unfoldable pub checkout : Branch → Writes g (Unit {0})
  checkout branch = do does g (g.checkout_branch branch); does g (g.set_head branch)

  unfoldable pub checkout_detach : CommitHash → Writes g (Unit {0})
  checkout_detach hash = do
    _ ← reads (λ r. raised (g.find_commit r hash))
    does g (g.checkout_commit hash)
    does g (g.set_head_detached hash)

  unfoldable pub check_clean : g.Repo → Result RawError (Unit {0})
  check_clean r = raised (g.statuses true r) >>? λ entries.
      fail_if (any (λ entry. is_change entry.0) entries) invalid_repository

  unfoldable pub read_reserved_state : g.Repo → Result RawError ReservedState
  read_reserved_state r = or_unknown (g.reserved_in_workdir r)

  unfoldable pub read_reserved_state_at_commit : CommitHash → g.Repo → Result RawError ReservedState
  read_reserved_state_at_commit hash r =
      raised (g.find_commit r hash) >>? λ commit. or_unknown (g.reserved_in_tree r commit.tree)

  unfoldable pub add_remote : String → String → Writes g (Unit {0})
  add_remote name url = does g (g.remote_add name url)

  unfoldable pub remove_remote : String → Writes g (Unit {0})
  remove_remote name = does g (g.remote_delete name)

  abbrev with_urls : List String → g.Repo → List (Result RawError (String × String))
  with_urls [] r = []
  with_urls (name ∷ names) r =
      (raised (g.remote_url r name) >>? λ url. or_unknown url >>? λ text. ok (name, text))
      ∷ with_urls names r

  unfoldable pub list_remotes : g.Repo → Result RawError (List (String × String))
  list_remotes r = raised (g.remotes r) >>? λ names.
      collect (remote_names names) >>? λ texts. collect (with_urls texts r)

  -- `names[0]` and `names[1]` of the name split at `/`, the second of which panics if there is none.
  unfoldable pub tracked : Branch → g.Repo → Result RawError (String × String × CommitHash)
  unfolding first_part second_part
  tracked name r = elim (second_part name) [
    | none ↦ panic
    | some branch ↦ raised (g.find_remote_branch r name) >>? λ b.
        or_unknown b.target >>? λ hash. ok (first_part name, branch, hash)
  ]

  unfoldable pub all_tracked :
      List Branch → g.Repo → Result RawError (List (String × String × CommitHash))
  unfolding tracked
  all_tracked [] r = ok []
  all_tracked (name ∷ names) r =
      tracked name r >>? λ entry. all_tracked names r >>? λ more. ok (entry ∷ more)

  unfoldable pub list_remote_tracking_branches :
      g.Repo → Result RawError (List (String × String × CommitHash))
  unfolding all_tracked
  list_remote_tracking_branches r = raised (g.remote_branches r) >>? λ refs.
      collect (names_of refs) >>? λ names. all_tracked names r
