-- ===== src/Repository/Acts.antt =====
-- What the operations of repository/src/interpret share: steps of the raw repository, branch names, the
-- move of the `finalized` branch.
use Prim.Native.String.{String, ◌++◌ as ◌<>◌}
use simperby.Base.{◌≡◌, refl, ℕ, zero, suc, true, Option, none, some}
use simperby.Core.Types.{Hash256}
use simperby.Core.Result.{Result, panic}
use simperby.Repository.Types.{
  Branch, CommitHash, LastFinalizationProof, RepositoryError, raw_error, finalized_branch_name,
  fp_branch_name, branch_name_hash_digits,
}
use simperby.Repository.Library.{Library}
use simperby.Repository.Format.{fp_to_semantic_commit}
use simperby.Repository.Git.{Git}
use simperby.Repository.Raw.Action.{Action, ◌>>=◌, ◌>>◌, pure, lift, reads, relabel}
use simperby.Repository.Raw.Branches.{Writes, move_branch}
use simperby.Repository.Raw.Commits.{create_semantic_commit}
use simperby.Repository.Raw.Work.{checkout, checkout_clean, checkout_detach}
use simperby.Repository.Read.{Reading, formats}

-- `&text[0..n]`.
unfoldable pub take_chars : ℕ → String → String
take_chars zero text = ""
take_chars (suc n) String.[] = ""
take_chars (suc n) (String.◌∷◌ c text) = String.◌∷◌ c (take_chars n text)

module _ (lib : Library) where
  unfoldable pub agenda_branch : Hash256 → Branch
  unfolding take_chars
  agenda_branch hash = "a-" <> take_chars branch_name_hash_digits (lib.hash_text hash)

  unfoldable pub block_branch : Hash256 → Branch
  unfolding take_chars
  block_branch hash = "b-" <> take_chars branch_name_hash_digits (lib.hash_text hash)

module _ (g : Git) where
  abbrev pub Acts : Type 0 → Type 0
  Acts A = Action g.Repo RepositoryError A

  -- A step of the raw repository.
  abbrev pub raw : {A : Type 0} → Writes g A → Acts A
  raw = relabel raw_error

  abbrev pub look : {A : Type 0} → (g.Repo → Reading A) → Acts A
  look = reads

  abbrev pub expect : {A : Type 0} → Option A → Acts A
  expect none = lift panic
  expect (some a) = pure a

module _ (lib : Library) (g : Git) where
  unfoldable pub advance_finalized_branch : CommitHash → LastFinalizationProof → Acts g (Unit {0})
  unfolding move_branch checkout_clean checkout checkout_detach create_semantic_commit
      fp_to_semantic_commit
  advance_finalized_branch hash fp = do
    raw g (checkout_clean g)
    raw g (move_branch g finalized_branch_name hash)
    raw g (move_branch g fp_branch_name hash)
    raw g (checkout g fp_branch_name)
    s ← lift (formats (fp_to_semantic_commit lib fp))
    _ ← raw g (create_semantic_commit g s true)
    raw g (checkout_detach g hash)

-- After `expect` the value is there.
pub after_expect :
    {A B : Type 0} (g : Git) (T : Result RepositoryError B × g.Repo → Type 0) (o : Option A)
    (k : A → Acts g B) (r : g.Repo)
    → T (panic, r)
    → ((a : A) → o ≡ some a → T (k a r))
    → T ((expect g o >>= k) r)
unfolding ◌>>=◌ pure lift
after_expect g T none k r broken going = broken
after_expect g T (some a) k r broken going = going a refl
