-- ===== src/Repository/Raw/Walk.antt =====
-- repository/src/raw/implementation.rs: the history of commits.
use simperby.Base.{
  ℕ, zero, suc, Bool, true, false, not, Option, none, some, List, [], ◌∷◌, ◌==◌, leb, if◌then◌else◌,
}
use simperby.Base.Text.{str_eq}
use simperby.Core.Result.{Result, ok, err, panic, ◌>>=◌, ◌>>◌, fail_if, map_err}
use simperby.Repository.Types.{Branch, CommitHash, RawError, invalid_repository, unknown}
use simperby.Repository.Git.{Git, GitError}
use simperby.Repository.Raw.Action.{collect}
use simperby.Repository.Raw.Branches.{raised, or_unknown}

abbrev first_of : List (Result GitError CommitHash) → Result RawError CommitHash
first_of [] = err unknown
first_of (r ∷ rs) = raised r

-- `parent_count()` with `parent(0)`.
pub data Parentage : Type 0 where
  root merge : Parentage
  child : CommitHash → Parentage

abbrev pub parentage : List CommitHash → Parentage
parentage [] = root
parentage (p ∷ []) = child p
parentage (_ ∷ (_ ∷ _)) = merge

-- `if commit.parent_count() > 1 { return Err(…) }`.
abbrev pub no_merge : {A : Type 0} → Parentage → A → Result RawError A
no_merge root a = ok a
no_merge (child _) a = ok a
no_merge merge a = err invalid_repository

-- `if let Some(max) = max { if ancestors.len() >= max { break } }`.
abbrev pub reached : Option ℕ → ℕ → Bool
reached none n = false
reached (some max) n = leb max n

module _ (g : Git) where
  unfoldable pub get_head : g.Repo → Result RawError CommitHash
  get_head r = raised (g.head r) >>= λ head. or_unknown head.target

  unfoldable pub get_currently_checkout_branch : g.Repo → Result RawError (Option Branch)
  get_currently_checkout_branch r = do
    head ← raised (g.head r)
    branch ← or_unknown head.name
    ok (if str_eq branch "HEAD" then none else some branch)

  unfoldable pub get_initial_commit : g.Repo → Result RawError CommitHash
  get_initial_commit r = do
    _ ← map_err (λ _. invalid_repository) (g.head r)
    oids ← raised (g.walk_head r)
    first_of oids

  unfoldable pub find_merge_base : CommitHash → CommitHash → g.Repo → Result RawError CommitHash
  find_merge_base a b r = raised (g.merge_base r a b)

  -- The loop of `list_ancestors` at a commit, with the number of ancestors so far: the further ones,
  -- the nearest first. A history longer than the fuel is `panic`.
  unfoldable pub ancestors_from :
      ℕ → Option ℕ → ℕ → Parentage → g.Repo → Result RawError (List CommitHash)
  ancestors_from fuel max count root r = ok []
  ancestors_from fuel max count merge r = err invalid_repository
  ancestors_from zero max count (child p) r = panic
  ancestors_from (suc fuel) max count (child p) r = raised (g.find_commit r p) >>= λ parent.
      elim (reached max (suc count)) [
        | true ↦ no_merge (parentage parent.parents) (p ∷ [])
        | false ↦ ancestors_from fuel max (suc count) (parentage parent.parents) r >>= λ more.
            ok (p ∷ more)
      ]

  unfoldable pub list_ancestors :
      ℕ → CommitHash → Option ℕ → g.Repo → Result RawError (List CommitHash)
  unfolding ancestors_from
  list_ancestors fuel hash max r = do
    commit ← raised (g.find_commit r hash)
    ancestors_from fuel max 0 (parentage commit.parents) r

  unfoldable pub query_commit_path :
      CommitHash → CommitHash → g.Repo → Result RawError (List CommitHash)
  unfolding find_merge_base
  query_commit_path ancestor descendant r = if ancestor == descendant then ok [] else do
    base ← find_merge_base ancestor descendant r
    fail_if (not (base == ancestor)) invalid_repository
    oids ← raised (g.walk_range r ancestor descendant)
    raised (collect oids)
