-- ===== src/Repository/Clean/Gone.antt =====
-- Deleting and checking out a branch, as `clean` of repository/src/interpret/works.rs does.
use Prim.Native.String.{String}
use simperby.Base.{◌≡◌, ◌≢◌, ◌∙◌, ap, inl, inr, Bool, true, some, if◌then◌else◌, Bool-cases, arith}
use simperby.Base.Text.{str_eq, str_eq_self}
use simperby.Core.Crypto.{Crypto}
use simperby.Core.Result.{Result, ok, ◌>>=◌ as ◌>>?◌}
use simperby.Repository.Types.{Branch}
use simperby.Repository.Library.{Library}
use simperby.Repository.Git.{Git, Reference}
use simperby.Repository.Raw.Action.{Action, lift}
use simperby.Repository.Raw.Rules.{
  Ends, Ends-any, Ends-split, Ends-relabel, after_reads, after_step,
}
use simperby.Repository.Raw.Laws.{IsCheckedOut, IsLawful}
use simperby.Repository.Raw.Branches.{does, raised, or_unknown, delete_branch}
use simperby.Repository.Raw.Work.{checkout}
use simperby.Repository.Acts.{raw}

module _ (c : Crypto) (lib : Library) (g : Git) where
  -- What is left unsaid of an outcome that is no success.
  abbrev pub OnSuccess : {E A : Type 0} → (A → g.Repo → Type 0) → Result E A × g.Repo → Type 0
  OnSuccess Q = Ends Q (λ _. Unit {0})

  module _ (laws : IsLawful g) (branch : Branch) where
    pub checkout-IsCheckedOut :
        (r : g.Repo) → OnSuccess (λ _. IsCheckedOut g branch) (checkout g branch r)
    unfolding checkout
    checkout-IsCheckedOut r =
        after_step (OnSuccess (λ _. IsCheckedOut g branch)) (λ _ _. Unit {0}) (λ _. Unit {0})
          (does g (g.checkout_branch branch)) _ r (Ends-any (λ _. Unit {0}) _ tt) (λ _ _ _. tt)
          (λ _ _. tt)
          λ _ r' _.
            Ends-relabel (λ _. IsCheckedOut g branch) (λ _. Unit {0}) _ (g.set_head branch) r'
              (Ends-split (λ _. IsCheckedOut g branch) (λ _. Unit {0}) (g.set_head branch r')
                (λ a e. laws.set_head_checks_out branch r' e) tt)

    at_head :
        (r : g.Repo) (reference : Reference) (current : String)
        → g.head r ≡ ok reference
        → reference.name ≡ some branch
        → (raised (g.head r) >>? λ head. or_unknown head.name) ≡ ok current
        → str_eq current branch ≡ true
    at_head r reference current head named e =
        let same : current ≡ branch = ground arith in
        ap (λ b. str_eq b branch) same ∙ str_eq_self branch

    taken :
        {E A : Type 0} (Q : A → g.Repo → Type 0) (b : Bool) (m n : Action g.Repo E A) (r : g.Repo)
        → b ≡ true
        → OnSuccess Q (m r)
        → OnSuccess Q ((if b then m else n) r)
    taken Q b m n r e h = rw e h

    -- A branch cannot be deleted while it is checked out.
    pub delete_branch-head :
        (r : g.Repo) → IsCheckedOut g branch r → OnSuccess (λ _ _. ⊥) (delete_branch g branch r)
    unfolding delete_branch lift
    delete_branch-head r k =
        after_reads (OnSuccess (λ _ _. ⊥)) _ _ r (λ _. tt) tt
          λ _ _.
            after_reads (OnSuccess (λ _ _. ⊥)) _ _ r (λ _. tt) tt
              λ current e.
                taken (λ _ _. ⊥) (str_eq current branch) _ _ r
                  (at_head r k.reference current k.is_head k.is_named e) tt

    -- It can, and then it is gone, or the step fails.
    pub delete_branch-gone :
        (r : g.Repo)
        → OnSuccess
            (λ _ r'. (g.checkout_branch branch r').0 ≢ ok tt)
            (raw g (delete_branch g branch) r)
    unfolding delete_branch lift
    delete_branch-gone r =
        Ends-relabel Gone (λ _. Unit {0}) _ (delete_branch g branch) r
          (after_reads (OnSuccess Gone) _ _ r (λ _. tt) tt
            λ _ _.
              after_reads (OnSuccess Gone) _ _ r (λ _. tt) tt
                λ current _. elim (Bool-cases (str_eq current branch)) [
                  | inl same ↦ rw same tt
                  | inr other ↦ rw other (
                      Ends-relabel Gone (λ _. Unit {0}) _ (g.delete_branch branch) r
                        (Ends-split Gone (λ _. Unit {0}) (g.delete_branch branch r)
                          (λ a e. laws.checkout_deleted branch r e) tt))
                ])
      where
        Gone : Unit {0} → g.Repo → Type 0
        Gone _ r' = (g.checkout_branch branch r').0 ≢ ok tt

    pub checkout-gone :
        (r : g.Repo)
        → (g.checkout_branch branch r).0 ≢ ok tt
        → OnSuccess (λ _ _. ⊥) (checkout g branch r)
    unfolding checkout
    checkout-gone r gone =
        after_step (OnSuccess (λ _ _. ⊥)) (λ _ _. ⊥) (λ _. Unit {0})
          (does g (g.checkout_branch branch)) _ r
          (Ends-relabel (λ _ _. ⊥) (λ _. Unit {0}) _ (g.checkout_branch branch) r
            (Ends-split (λ _ _. ⊥) (λ _. Unit {0}) (g.checkout_branch branch r) (λ a e. gone e) tt))
          (λ _ _ _. tt) (λ _ _. tt) λ _ _ x. absurd x
