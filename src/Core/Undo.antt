-- ===== src/Core/Undo.antt =====
-- An undelegation of core/src/reserved.rs after a delegation.
use simperby.Base.{
  ◌≡◌, inl, inr, refl, sym, ◌∙◌, ap, ap₂, Bool, true, false, none, some, List, [], ◌∷◌, arith, All,
  Bool-cases,
}
use simperby.Base.Text.{str_eq}
use simperby.Core.Types.{MemberName, Member, ReservedState, TxDelegate, TxUndelegate}
use simperby.Core.Crypto.{Crypto}
use simperby.Core.Reserved.{
  is_some, delegated, undelegated, delegate_loop, undelegate_loop, apply_delegate, apply_undelegate,
  is_expelled, query_public_key, verifies,
}
use simperby.Core.Hash.{hash_undelegation}
use simperby.Core.Members.{cons_ok-inverse}
use simperby.Core.Result.{ok}
use simperby.Core.Delegation.{apply_delegate-loop}

-- A member who delegates nothing has no delegatee of either kind.
abbrev pub IsWhole : Member → Type 0
IsWhole m = m.consensus_delegatee ≡ none → m.governance_delegatee ≡ none

undelegated_back :
    (governance : Bool) (to : MemberName) (m : Member)
    → m.consensus_delegatee ≡ none
    → IsWhole m
    → undelegated (delegated governance to m) ≡ m
undelegated_back true to m free whole =
    let freed : none ≡ m.consensus_delegatee = sym free in
    let cleared : none ≡ m.governance_delegatee = sym (whole free) in ground arith
undelegated_back false to m free whole =
    let freed : none ≡ m.consensus_delegatee = sym free in
    let cleared : none ≡ m.governance_delegatee = sym (whole free) in ground arith

pub is_some-delegated :
    (governance : Bool) (to : MemberName) (m : Member)
    → is_some (delegated governance to m).consensus_delegatee ≡ true
is_some-delegated true to m = refl
is_some-delegated false to m = refl

pub delegated_same :
    (governance : Bool) (to : MemberName) (m : Member)
    → ((delegated governance to m).name ≡ m.name)
      × ((delegated governance to m).public_key ≡ m.public_key)
      × ((delegated governance to m).expelled ≡ m.expelled)
delegated_same true to m = (refl, refl, refl)
delegated_same false to m = (refl, refl, refl)

-- The loop finds the member whose delegation it undoes.
undelegate_here :
    (governance : Bool) (to name : MemberName) (m : Member) (members : List Member)
    → str_eq m.name name ≡ true
    → undelegate_loop name (delegated governance to m ∷ members)
      ≡ ok (undelegated (delegated governance to m) ∷ members)
unfolding undelegate_loop
undelegate_here true to name m members same = ground arith
undelegate_here false to name m members same = ground arith

undelegate_further :
    (name : MemberName) (m : Member) (members ms : List Member)
    → str_eq m.name name ≡ false
    → undelegate_loop name members ≡ ok ms
    → undelegate_loop name (m ∷ members) ≡ ok (m ∷ ms)
unfolding undelegate_loop
undelegate_further name m members ms differs rest = ground arith

undelegate_loop-delegate_loop :
    (governance : Bool) (to name : MemberName) (members after : List Member)
    → All IsWhole members
    → delegate_loop governance to name members ≡ ok after
    → undelegate_loop name after ≡ ok members
unfolding delegate_loop undelegate_loop
undelegate_loop-delegate_loop governance to name [] after whole done =
    let nobody : after ≡ [] = ground arith in ap (undelegate_loop name) nobody
undelegate_loop-delegate_loop governance to name (m ∷ members) after whole done =
    elim (Bool-cases (str_eq m.name name)) [
      | inl same ↦
          let free : m.consensus_delegatee ≡ none = ground arith in
          let shape : after ≡ delegated governance to m ∷ members = ground arith in
          ap (undelegate_loop name) shape
          ∙ undelegate_here governance to name m members same
          ∙ ap (λ x. ok (x ∷ members)) (undelegated_back governance to m free whole.0)
      | inr differs ↦
          let (ms, inner, shape) =
            cons_ok-inverse m (delegate_loop governance to name members) after (ground arith) in
          ap (undelegate_loop name) shape
          ∙ undelegate_further name m ms members differs
              (undelegate_loop-delegate_loop governance to name members ms whole.1 inner)
    ]

-- A delegation changes neither who is expelled nor the keys.
delegate_loop-query :
    (governance : Bool) (to name n : MemberName) (members after : List Member)
    → delegate_loop governance to name members ≡ ok after
    → (is_expelled after n ≡ is_expelled members n)
      × (query_public_key after n ≡ query_public_key members n)
unfolding delegate_loop is_expelled query_public_key
delegate_loop-query governance to name n [] after done =
    let nobody : after ≡ [] = ground arith in
    (ap (λ ms. is_expelled ms n) nobody, ap (λ ms. query_public_key ms n) nobody)
delegate_loop-query governance to name n (m ∷ members) after done =
    elim (Bool-cases (str_eq m.name name)) [
      | inl same ↦
          let shape : after ≡ delegated governance to m ∷ members = ground arith in
          let fields = delegated_same governance to m in (ground arith, ground arith)
      | inr differs ↦
          let (ms, inner, shape) =
            cons_ok-inverse m (delegate_loop governance to name members) after (ground arith) in
          let rest = delegate_loop-query governance to name n members ms inner in
          (ground arith, ground arith)
    ]

undelegate_succeeds :
    (c : Crypto) (tx : TxUndelegate) (rs : ReservedState) (ms : List Member)
    → is_expelled rs.members tx.content.delegator ≡ some false
    → query_public_key rs.members tx.content.delegator ≡ some tx.proof.signer
    → verifies c tx.proof (hash_undelegation c tx.content) ≡ true
    → undelegate_loop tx.content.delegator rs.members ≡ ok ms
    → apply_undelegate c tx rs ≡ ok (record rs { members = ms })
unfolding apply_undelegate
undelegate_succeeds c tx rs ms present key signed done = ground arith

pub apply_delegate-checks :
    (c : Crypto) (tx : TxDelegate) (rs after : ReservedState)
    → apply_delegate c tx rs ≡ ok after
    → (is_expelled rs.members tx.content.delegator ≡ some false)
      × (query_public_key rs.members tx.content.delegator ≡ some tx.proof.signer)
unfolding apply_delegate
apply_delegate-checks c tx rs after accepted = (ground arith, ground arith)

-- A delegation that was accepted can be taken back: an undelegation of the same delegator, validly
-- signed by the same key, is accepted after it and gives back the reserved state from before, provided
-- that members without a consensus delegatee have no governance delegatee either.
pub apply_undelegate-apply_delegate :
    (c : Crypto) (tx : TxDelegate) (back : TxUndelegate) (rs after : ReservedState)
    → All IsWhole rs.members
    → apply_delegate c tx rs ≡ ok after
    → back.content.delegator ≡ tx.content.delegator
    → back.proof.signer ≡ tx.proof.signer
    → verifies c back.proof (hash_undelegation c back.content) ≡ true
    → apply_undelegate c back after ≡ ok rs
apply_undelegate-apply_delegate c tx back rs after whole accepted who key signed =
    let d = tx.content in
    let (ms, done, shape) = apply_delegate-loop c tx rs after accepted in
    let checks = apply_delegate-checks c tx rs after accepted in
    let queries =
      delegate_loop-query d.governance d.delegatee d.delegator d.delegator rs.members ms done in
    let undone =
      undelegate_loop-delegate_loop d.governance d.delegatee d.delegator rs.members ms whole done in
    undelegate_succeeds c back after rs.members
      (ap₂ (λ (r : ReservedState) n. is_expelled r.members n) shape who ∙ queries.0 ∙ checks.0)
      (ap₂ (λ (r : ReservedState) n. query_public_key r.members n) shape who
        ∙ queries.1
        ∙ checks.1
        ∙ ap some (sym key))
      signed (ap₂ (λ n (r : ReservedState). undelegate_loop n r.members) who shape ∙ undone)
    ∙ ap (λ (r : ReservedState). ok (record r { members = rs.members })) shape
