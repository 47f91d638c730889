-- ===== src/Repository/Create/Accepted.antt =====
-- What must hold for the commits of repository/src/interpret/create.rs to be made.
use simperby.Base.{
  ◌≡◌, ◌≢◌, refl, sym, ◌∙◌, ap, ◌⊎◌, inl, inr, List, [], ◌∷◌, ◌++◌, ◌==◌, ==_iff, Bool-cases, arith,
}
use simperby.Core.Types.{BlockHeader, Commit, ReservedState}
use simperby.Core.Crypto.{Crypto}
use simperby.Core.Kept.{Result-cases}
use simperby.Core.Result.{Result, ok, err, panic}
use simperby.Core.Sequence.{CommitSequenceVerifier, new}
use simperby.Core.Apply.{apply_commit}
use simperby.Repository.Types.{
  CommitHash, RepositoryError, raw_error, rejected, finalized_branch_name,
}
use simperby.Repository.Library.{Library}
use simperby.Repository.Git.{Git}
use simperby.Repository.Raw.Action.{Action, ◌>>=◌, pure, lift, reads}
use simperby.Repository.Raw.Branches.{locate_branch}
use simperby.Repository.Raw.Walk.{find_merge_base, get_head}
use simperby.Repository.Raw.Rules.{Ends-any, after_step}
use simperby.Repository.Acts.{Acts}
use simperby.Repository.Read.{
  commits_of, verify_all, read_commits, read_last_finalized_block_header,
  read_last_finalized_reserved_state,
}
use simperby.Repository.Create.{rebased, accept_commit}

ok_inj : {E A : Type 0} {a b : A} → ◌≡◌ {A = Result E A} (ok a) (ok b) → a ≡ b
ok_inj h = ground arith

accept_commit_lem :
    (c : Crypto) (commit : Commit) (csv next : CommitSequenceVerifier)
    → accept_commit c commit csv ≡ ok next
    → verify_all c (commit ∷ []) csv ≡ ok next
unfolding accept_commit verify_all
accept_commit_lem c commit csv next h = elim (Result-cases (apply_commit c commit csv).0) [
  | inl (_, fine) ↦ ground arith
  | inr (inl (e, refused)) ↦ absurd (ground arith)
  | inr (inr broken) ↦ absurd (ground arith)
]

-- Commits that are accepted one after the other.
verify_all-append :
    (c : Crypto) (commits : List Commit) (commit : Commit) (csv mid next : CommitSequenceVerifier)
    → verify_all c commits csv ≡ ok mid
    → accept_commit c commit mid ≡ ok next
    → verify_all c (commits ++ commit ∷ []) csv ≡ ok next
unfolding verify_all
verify_all-append c [] commit csv mid next h k =
    let same : csv ≡ mid = ground arith in
    ap (λ v. verify_all c (commit ∷ []) v) same ∙ accept_commit_lem c commit mid next k
verify_all-append c (first ∷ commits) commit csv mid next h k =
    elim (Result-cases (apply_commit c first csv).0) [
      | inl (_, fine) ↦
          rw (fine, verify_all)
            (verify_all-append c commits commit (apply_commit c first csv).1 mid next
              (rw (fine, verify_all) at h) k)
      | inr (inl (e, refused)) ↦ absurd (ground arith)
      | inr (inr broken) ↦ absurd (ground arith)
    ]

module _ (c : Crypto) (lib : Library) (g : Git) where
  -- HEAD stands on the finalized block, and the commits between them with the new one are accepted.
  pub record IsAcceptedOn (r : g.Repo) (commit : Commit) : Type 0 where
    pub head : CommitHash
    pub finalized : CommitHash
    pub commits : List (Commit × CommitHash)
    pub last : BlockHeader
    pub reserved_state : ReservedState
    pub next : CommitSequenceVerifier
    pub is_head : get_head g r ≡ ok head
    pub is_finalized : locate_branch g finalized_branch_name r ≡ ok finalized
    pub is_rebased : find_merge_base g finalized head r ≡ ok finalized
    pub are_commits : read_commits lib g finalized head r ≡ ok commits
    pub is_last : read_last_finalized_block_header lib g r ≡ ok last
    pub is_reserved_state : read_last_finalized_reserved_state g r ≡ ok reserved_state
    pub are_verified :
        verify_all c (commits_of commits ++ commit ∷ []) (new last reserved_state) ≡ ok next

  -- An operation either fails and leaves the repository as it was, or its commit is accepted; what it
  -- returns is that commit.
  unfoldable pub Makes :
      {A : Type 0} → (A → Commit) → g.Repo → Result RepositoryError A × g.Repo → Type 0
  Makes {A} made r o =
      ((o.1 ≡ r) × ((a : A) → o.0 ≢ ok a))
      ⊎ ((commit : Commit) × IsAcceptedOn r commit × ((a : A) → o.0 ≡ ok a → made a ≡ commit))

  -- From a rebased HEAD the operation goes on in the same repository.
  pub after_rebased :
      {B : Type 0} (T : Result RepositoryError B × g.Repo → Type 0) (finalized tip : CommitHash)
      (k : Unit {0} → Acts g B) (r : g.Repo)
      → ((e : RepositoryError) → T (err e, r))
      → T (panic, r)
      → (find_merge_base g finalized tip r ≡ ok finalized → T (k tt r))
      → T ((rebased lib g finalized tip >>= k) r)
  unfolding rebased ◌>>=◌ reads pure lift
  after_rebased T finalized tip k r failing broken going =
      elim (Result-cases (find_merge_base g finalized tip r)) [
        | inl (base, e) ↦ rw e (elim (Bool-cases (base == finalized)) [
          | inl same ↦ rw same (going (e ∙ ap ok ((==_iff base finalized).0 same)))
          | inr other ↦ rw other (failing rejected)
        ])
        | inr (inl (x, e)) ↦ rw e (failing (raw_error x))
        | inr (inr e) ↦ rw e broken
      ]

  -- A step that may end in any way.
  pub after_any :
      {S A B : Type 0} (T : Result RepositoryError B × S → Type 0) (m : Action S RepositoryError A)
      (k : A → Action S RepositoryError B) (s : S)
      → ((s' : S) (e : RepositoryError) → T (err e, s'))
      → ((s' : S) → T (panic, s'))
      → ((a : A) (s' : S) → T (k a s'))
      → T ((m >>= k) s)
  after_any T m k s failing broken going =
      after_step T (λ _ _. Unit {0}) (λ _. Unit {0}) m k s (Ends-any (λ _. Unit {0}) (m s) tt)
        (λ s' e _. failing s' e) (λ s' _. broken s') (λ a s' _. going a s')

  module _ (r : g.Repo) where
    pub failed : {A : Type 0} (made : A → Commit) (e : RepositoryError) → Makes made r (err e, r)
    unfolding Makes
    failed made e = inl (refl, λ a h. absurd (ground arith))

    pub broken : {A : Type 0} (made : A → Commit) → Makes made r (panic, r)
    unfolding Makes
    broken made = inl (refl, λ a h. absurd (ground arith))

    pub accepted_on :
        (commit : Commit) (head finalized : CommitHash) (commits : List (Commit × CommitHash))
        (last : BlockHeader) (reserved_state : ReservedState) (csv next : CommitSequenceVerifier)
        → get_head g r ≡ ok head
        → locate_branch g finalized_branch_name r ≡ ok finalized
        → find_merge_base g finalized head r ≡ ok finalized
        → read_commits lib g finalized head r ≡ ok commits
        → read_last_finalized_block_header lib g r ≡ ok last
        → read_last_finalized_reserved_state g r ≡ ok reserved_state
        → verify_all c (commits_of commits) (new last reserved_state) ≡ ok csv
        → accept_commit c commit csv ≡ ok next
        → IsAcceptedOn r commit
    accepted_on commit head finalized commits last reserved_state csv next h1 h2 h3 h4 h5 h6 h7 h8 =
        record {
          head = head;
          finalized = finalized;
          commits = commits;
          last = last;
          reserved_state = reserved_state;
          next = next;
          is_head = h1;
          is_finalized = h2;
          is_rebased = h3;
          are_commits = h4;
          is_last = h5;
          is_reserved_state = h6;
          are_verified =
              verify_all-append c (commits_of commits) commit (new last reserved_state) csv next h7
                h8;
        }

    -- After the acceptance an operation may still fail, at any step.
    pub failed_later :
        {A : Type 0} (made : A → Commit) (commit : Commit)
        → IsAcceptedOn r commit
        → (s : g.Repo) (e : RepositoryError) → Makes made r (err e, s)
    unfolding Makes
    failed_later made commit k s e = inr (commit, k, λ a h. absurd (ground arith))

    pub broken_later :
        {A : Type 0} (made : A → Commit) (commit : Commit)
        → IsAcceptedOn r commit
        → (s : g.Repo) → Makes made r (panic, s)
    unfolding Makes
    broken_later made commit k s = inr (commit, k, λ a h. absurd (ground arith))

    pub last_step :
        {A : Type 0} (made : A → Commit) (commit : Commit) (o : Result RepositoryError A × g.Repo)
        → ((a : A) → made a ≡ commit)
        → IsAcceptedOn r commit
        → Makes made r o
    unfolding Makes
    last_step made commit o same k = inr (commit, k, λ a h. same a)

    pub returned :
        {A : Type 0} (made : A → Commit) (commit : Commit) (a : A)
        → made a ≡ commit
        → IsAcceptedOn r commit
        → (s : g.Repo) → Makes made r (ok a, s)
    unfolding Makes
    returned made commit a same k s = inr (commit, k, λ b h. ap made (sym (ok_inj h)) ∙ same)
