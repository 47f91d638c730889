-- ===== src/Repository/Clean/Survivors.antt =====
-- Which branches `clean` of repository/src/interpret/works.rs can get past.
use simperby.Base.{
  ◌≡◌, ◌≢◌, refl, sym, ◌∙◌, ap, subst, ◌⊎◌, inl, inr, List, [], ◌∷◌, ◌==◌, ==_iff, Bool-cases,
}
use simperby.Core.Types.{BlockHeader, Commit, ReservedState}
use simperby.Core.Crypto.{Crypto}
use simperby.Core.Kept.{Result-cases}
use simperby.Core.Result.{Result, ok, err, panic, map_err-eq-ok}
use simperby.Core.Sequence.{CommitSequenceVerifier, new}
use simperby.Core.Apply.{apply_commit}
use simperby.Repository.Types.{Branch, CommitHash, RepositoryError, RawError}
use simperby.Repository.Library.{Library}
use simperby.Repository.Git.{Git}
use simperby.Repository.Raw.Action.{pure, lift}
use simperby.Repository.Raw.Rules.{Ends-relabel, after_reads, after_step}
use simperby.Repository.Raw.Laws.{IsCheckedOut, IsLawful}
use simperby.Repository.Raw.Branches.{delete_branch}
use simperby.Repository.Raw.Walk.{find_merge_base}
use simperby.Repository.Raw.Work.{checkout, read_reserved_state}
use simperby.Repository.Read.{commits_of, read_commits, verify_all}
use simperby.Repository.Acts.{raw}
use simperby.Repository.Clean.{drop_outdated, drop_invalid, clean_branch}
use simperby.Repository.Clean.Gone.{
  OnSuccess, checkout-IsCheckedOut, delete_branch-head, delete_branch-gone, checkout-gone,
}

module _ (c : Crypto) (lib : Library) (g : Git) where
  -- The branch stands on the finalized block and the verifier accepts its commits.
  pub record IsSound (header : BlockHeader) (finalized : CommitHash) (branch : Branch)
      (tip : CommitHash) (r : g.Repo) : Type 0 where
    pub is_rebased : find_merge_base g tip finalized r ≡ ok finalized
    -- The branch can be checked out, and what is read of the repository then.
    pub is_there : (checkout g branch r).0 ≡ ok tt
    pub reserved_state : ReservedState
    pub commits : List (Commit × CommitHash)
    pub next : CommitSequenceVerifier
    pub is_reserved_state : read_reserved_state g (checkout g branch r).1 ≡ ok reserved_state
    pub are_commits : read_commits lib g finalized tip (checkout g branch r).1 ≡ ok commits
    pub are_verified : verify_all c (commits_of commits) (new header reserved_state) ≡ ok next

  module _ (laws : IsLawful g) (branch : Branch) where
    -- The base of the branch is the finalized block and nothing is done, or the branch is gone.
    drop_outdated_lem :
        (tip finalized : CommitHash) (r : g.Repo)
        → OnSuccess c lib g
            (λ _ s.
              ((find_merge_base g tip finalized r ≡ ok finalized) × (s ≡ r))
              ⊎ ((g.checkout_branch branch s).0 ≢ ok tt))
            (drop_outdated c lib g branch tip finalized r)
    unfolding drop_outdated pure
    drop_outdated_lem tip finalized r =
        after_reads T _ _ r (λ _. tt) tt
          λ base e. elim (Bool-cases (finalized == base)) [
            | inl same ↦
                rw same
                  (inl (map_err-eq-ok _ _ e ∙ ap ok (sym ((==_iff finalized base).0 same)), refl))
            | inr other ↦ rw other (
                weaken (raw g (delete_branch g branch) r)
                  (delete_branch-gone c lib g laws branch r))
          ]
      where
        Q : Unit {0} → g.Repo → Type 0
        Q _ s =
            ((find_merge_base g tip finalized r ≡ ok finalized) × (s ≡ r))
            ⊎ ((g.checkout_branch branch s).0 ≢ ok tt)

        T : Result RepositoryError (Unit {0}) × g.Repo → Type 0
        T = OnSuccess c lib g Q

        weaken :
            (o : Result RepositoryError (Unit {0}) × g.Repo)
            → OnSuccess c lib g (λ _ s. (g.checkout_branch branch s).0 ≢ ok tt) o
            → T o
        weaken (ok _, s) h = inr h
        weaken (err _, s) h = tt
        weaken (panic, s) h = tt

    drop_invalid_lem :
        (commits : List Commit) (csv : CommitSequenceVerifier) (r : g.Repo)
        → IsCheckedOut g branch r
        → OnSuccess c lib g
            (λ _ s.
              ((next : CommitSequenceVerifier) × (verify_all c commits csv ≡ ok next)) × (s ≡ r))
            (drop_invalid c lib g branch commits csv r)
    unfolding drop_invalid verify_all pure lift
    drop_invalid_lem [] csv r there = ((csv, refl), refl)
    drop_invalid_lem (commit ∷ commits) csv r there =
        elim (Result-cases (apply_commit c commit csv).0) [
          | inl (_, fine) ↦
              rw (fine, drop_invalid)
                (rw (fine, verify_all)
                  (drop_invalid_lem commits (apply_commit c commit csv).1 r there))
          | inr (inl (e, refused)) ↦
              rw (refused, drop_invalid)
                (after_step T (λ _ _. ⊥) (λ _. Unit {0}) (raw g (delete_branch g branch)) _ r
                  (Ends-relabel (λ _ _. ⊥) (λ _. Unit {0}) _ (delete_branch g branch) r
                    (delete_branch-head c lib g laws branch r there))
                  (λ _ _ _. tt) (λ _ _. tt) λ _ _ x. absurd x)
          | inr (inr broken) ↦ rw (broken, drop_invalid) tt
        ]
      where
        T : Result RepositoryError (Unit {0}) × g.Repo → Type 0
        T = OnSuccess c lib g (λ _ s.
            ((next : CommitSequenceVerifier) × (verify_all c (commit ∷ commits) csv ≡ ok next))
            × (s ≡ r))

    -- Where `clean` without `hard` gets past a branch, the branch stands on the finalized block, the
    -- verifier accepts its commits, and all that is done is to check it out.
    pub clean_branch-IsSound :
        (header : BlockHeader) (finalized tip : CommitHash) (r : g.Repo)
        → OnSuccess c lib g
            (λ _ s. IsSound header finalized branch tip r × (s ≡ (checkout g branch r).1))
            (clean_branch c lib g header finalized branch tip r)
    unfolding clean_branch
    clean_branch-IsSound header finalized tip r =
        after_step T Q (λ _. Unit {0}) (drop_outdated c lib g branch tip finalized) _ r
          (drop_outdated_lem tip finalized r) (λ _ _ _. tt) (λ _ _. tt)
          λ _ r1 q.
            after_step T (λ _ s. Here s) (λ _. Unit {0}) (raw g (checkout g branch)) _ r1
              (passed r1 q) (λ _ _ _. tt) (λ _ _. tt)
              λ _ r2 here.
                after_reads T _ _ r2 (λ _. tt) tt
                  λ state h1.
                    after_reads T _ _ r2 (λ _. tt) tt
                      λ commits h2.
                        concluded r2 here state commits (map_err-eq-ok _ _ h1)
                          (map_err-eq-ok _ _ h2) _
                          (drop_invalid_lem (commits_of commits) (new header state) r2 here.0)
      where
        T : Result RepositoryError (Unit {0}) × g.Repo → Type 0
        T =
            OnSuccess c lib g
              (λ _ s. IsSound header finalized branch tip r × (s ≡ (checkout g branch r).1))

        Q : Unit {0} → g.Repo → Type 0
        Q _ s =
            ((find_merge_base g tip finalized r ≡ ok finalized) × (s ≡ r))
            ⊎ ((g.checkout_branch branch s).0 ≢ ok tt)

        -- The branch has been checked out, and nothing else has been done.
        Here : g.Repo → Type 0
        Here s =
            IsCheckedOut g branch s
            × (find_merge_base g tip finalized r ≡ ok finalized)
            × (checkout g branch r ≡ (ok tt, s))

        both :
            (o : Result RawError (Unit {0}) × g.Repo)
            → checkout g branch r ≡ o
            → find_merge_base g tip finalized r ≡ ok finalized
            → OnSuccess c lib g (λ _. IsCheckedOut g branch) o
            → OnSuccess c lib g (λ _ s. Here s) o
        both (ok _, s) e based h = (h, based, e)
        both (err _, s) e based h = tt
        both (panic, s) e based h = tt

        never :
            (o : Result RawError (Unit {0}) × g.Repo)
            → OnSuccess c lib g (λ _ _. ⊥) o
            → OnSuccess c lib g (λ _ s. Here s) o
        never (ok _, s) h = absurd h
        never (err _, s) h = tt
        never (panic, s) h = tt

        passed :
            (r1 : g.Repo)
            → Q tt r1
            → OnSuccess c lib g (λ _ s. Here s) (raw g (checkout g branch) r1)
        passed r1 q =
            Ends-relabel _ (λ _. Unit {0}) _ (checkout g branch) r1
              (elim q [
                | inl (based, same) ↦
                    both _ (ap (checkout g branch) (sym same)) based
                      (checkout-IsCheckedOut c lib g laws branch r1)
                | inr gone ↦ never _ (checkout-gone c lib g laws branch r1 gone)
              ])

        concluded :
            (s : g.Repo)
            → Here s
            → (state : ReservedState) (commits : List (Commit × CommitHash))
            → read_reserved_state g s ≡ ok state
            → read_commits lib g finalized tip s ≡ ok commits
            → (o : Result RepositoryError (Unit {0}) × g.Repo)
            → OnSuccess c lib g
                (λ _ s'.
                  ((next : CommitSequenceVerifier) × (verify_all c
                        (commits_of commits)
                        (new header state)
                      ≡ ok next))
                  × (s' ≡ s))
                o
            → T o
        concluded s (there, based, e) state commits h1 h2 (ok _, s') ((next, h), same) =
            let is_there : (checkout g branch r).0 ≡ ok tt = ap (λ o. o.0) e in
            let at : s ≡ (checkout g branch r).1 = sym (ap (λ o. o.1) e) in
            (
              record {
                is_rebased = based;
                is_there = is_there;
                reserved_state = state;
                commits = commits;
                next = next;
                is_reserved_state = subst (λ z. read_reserved_state g z ≡ ok state) at h1;
                are_commits = subst (λ z. read_commits lib g finalized tip z ≡ ok commits) at h2;
                are_verified = h;
              },
              same ∙ at,
            )
        concluded s here state commits h1 h2 (err _, _) h = tt
        concluded s here state commits h1 h2 (panic, _) h = tt
