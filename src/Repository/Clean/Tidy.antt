-- ===== src/Repository/Clean/Tidy.antt =====
-- What a repository that `clean` of repository/src/interpret/works.rs succeeds on looks like.
use simperby.Base.{◌≡◌, inl, inr, true, false, subst, List, [], ◌∷◌, Bool-cases, arith}
use simperby.Core.Types.{BlockHeader}
use simperby.Core.Crypto.{Crypto}
use simperby.Core.Result.{Result, ok, err, panic}
use simperby.Repository.Types.{Branch, CommitHash, RepositoryError}
use simperby.Repository.Library.{Library}
use simperby.Repository.Git.{Git}
use simperby.Repository.Raw.Action.{pure}
use simperby.Repository.Raw.Rules.{Ends-split, after_reads, after_step}
use simperby.Repository.Raw.Laws.{IsLawful}
use simperby.Repository.Raw.Work.{checkout}
use simperby.Repository.Clean.{is_reserved, clean_branch, clean_each, clean}
use simperby.Repository.Clean.Gone.{OnSuccess}
use simperby.Repository.Clean.Survivors.{IsSound, clean_branch-IsSound}
use simperby.Repository.Read.{
  get_last_finalized_block_commit_hash, read_local_branches, read_last_finalized_block_header,
}

module _ (c : Crypto) (lib : Library) (g : Git) where
  module _ (laws : IsLawful g) where
    -- Every branch but `finalized` and `fp` is sound in the repository that `clean` reaches it in: the
    -- one with the branches before it checked out in turn.
    pub data AreSound (header : BlockHeader) (finalized : CommitHash)
        : List (Branch × CommitHash) → g.Repo → Type 0 where
      no_more : {r : g.Repo} → AreSound header finalized [] r
      keep :
          {branch : Branch} {tip : CommitHash} {more : List (Branch × CommitHash)} {r : g.Repo}
          → is_reserved branch ≡ true
          → AreSound header finalized more r
          → AreSound header finalized ((branch, tip) ∷ more) r
      pass :
          {branch : Branch} {tip : CommitHash} {more : List (Branch × CommitHash)} {r : g.Repo}
          → is_reserved branch ≡ false
          → IsSound c lib g header finalized branch tip r
          → AreSound header finalized more (checkout g branch r).1
          → AreSound header finalized ((branch, tip) ∷ more) r

    clean_each-AreSound :
        (header : BlockHeader) (finalized : CommitHash) (branches : List (Branch × CommitHash))
        (r : g.Repo)
        → OnSuccess c lib g
            (λ _ _. AreSound header finalized branches r)
            (clean_each c lib g false header finalized branches r)
    unfolding clean_each pure
    clean_each-AreSound header finalized [] r = no_more
    clean_each-AreSound header finalized ((branch, tip) ∷ more) r =
        elim (Bool-cases (is_reserved branch)) [
          | inl reserved ↦
              rw (reserved, clean_each)
                (extended _ (keep reserved) (clean_each-AreSound header finalized more r))
          | inr free ↦
              rw (free, clean_each)
                (after_step T
                  (λ _ s.
                    IsSound c lib g header finalized branch tip r × (s ≡ (checkout g branch r).1))
                  (λ _. Unit {0}) (clean_branch c lib g header finalized branch tip) _ r
                  (clean_branch-IsSound c lib g laws branch header finalized tip r) (λ _ _ _. tt)
                  (λ _ _. tt)
                  λ _ r' (sound, at).
                    extended _
                      (λ rest. pass free sound (subst (AreSound header finalized more) at rest))
                      (clean_each-AreSound header finalized more r'))
        ]
      where
        T : Result RepositoryError (Unit {0}) × g.Repo → Type 0
        T = OnSuccess c lib g (λ _ _. AreSound header finalized ((branch, tip) ∷ more) r)

        extended :
            {r' : g.Repo} (o : Result RepositoryError (Unit {0}) × g.Repo)
            → (AreSound header finalized more r'
                → AreSound header finalized ((branch, tip) ∷ more) r)
            → OnSuccess c lib g (λ _ _. AreSound header finalized more r') o
            → T o
        extended (ok _, s) extend rest = extend rest
        extended (err _, s) extend rest = tt
        extended (panic, s) extend rest = tt

    -- The branches that there are, and that they are sound.
    pub record IsTidy (r : g.Repo) : Type 0 where
      pub finalized : CommitHash
      pub branches : List (Branch × CommitHash)
      pub header : BlockHeader
      pub is_finalized : get_last_finalized_block_commit_hash g r ≡ ok finalized
      pub are_branches : read_local_branches g r ≡ ok branches
      pub is_header : read_last_finalized_block_header lib g r ≡ ok header
      pub are_sound : AreSound header finalized branches r

    -- When git deletes no branch that is checked out and checks out no branch that is deleted, `clean`
    -- without `hard` succeeds only on a repository where each local branch but `finalized` and `fp`
    -- has the finalized block as its merge base with the `finalized` branch and has commits since then
    -- that the verifier accepts, each read in this repository with the branches before it checked out in
    -- turn: on a branch that it would delete it fails.
    pub clean-IsTidy : (r : g.Repo) (u : Unit {0}) → (clean c lib g false r).0 ≡ ok u → IsTidy r
    unfolding clean
    clean-IsTidy r u h = on_ok _ success h
      where
        on_ok :
            (o : Result RepositoryError (Unit {0}) × g.Repo)
            → OnSuccess c lib g (λ _ _. IsTidy r) o
            → o.0 ≡ ok u
            → IsTidy r
        on_ok (ok _, _) k _ = k
        on_ok (err _, _) _ e = absurd (ground arith)
        on_ok (panic, _) _ e = absurd (ground arith)

        T : Result RepositoryError (Unit {0}) × g.Repo → Type 0
        T = OnSuccess c lib g (λ _ _. IsTidy r)

        success : T (clean c lib g false r)
        success =
            after_reads T _ _ r (λ _. tt) tt
              λ finalized h1.
                after_reads T _ _ r (λ _. tt) tt
                  λ branches h2.
                    after_reads T _ _ r (λ _. tt) tt
                      λ header h3.
                        after_step T (λ _ _. AreSound header finalized branches r) (λ _. Unit {0})
                          (clean_each c lib g false header finalized branches) _ r
                          (clean_each-AreSound header finalized branches r) (λ _ _ _. tt)
                          (λ _ _. tt)
                          λ _ r' sound.
                            Ends-split (λ _ _. IsTidy r) (λ _. Unit {0}) _
                              (λ _ _. record {
                                finalized = finalized;
                                branches = branches;
                                header = header;
                                is_finalized = h1;
                                are_branches = h2;
                                is_header = h3;
                                are_sound = sound;
                              })
                              tt
