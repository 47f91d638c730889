-- ===== src/Core/Delegation.antt =====
-- What the delegations of core/src/reserved.rs do to the voting powers, and how one is undone.
use simperby.Base.{
  ◌<◌, ◌≡◌, inl, inr, refl, sym, ◌∙◌, ap, Bool, true, false, List, [], ◌∷◌, arith, Bool-cases,
}
use simperby.Base.Word.{u64_mod}
use simperby.Base.Text.{str_eq}
use simperby.Core.Types.{MemberName, Member, ReservedState, TxDelegate}
use simperby.Core.Crypto.{Crypto}
use simperby.Core.Reserved.{
  Powers, delegated, delegate_loop, apply_delegate, get_validator_set, get_governance_set,
}
use simperby.Core.Verify.{total_power}
use simperby.Core.Governance.{active_power, get_sets-total}
use simperby.Core.Members.{cons_ok-inverse}
use simperby.Core.Kept.{Result-cases}
use simperby.Core.Result.{ok}

delegated-power :
    (governance : Bool) (to : MemberName) (m : Member) (members : List Member)
    → active_power (delegated governance to m ∷ members) ≡ active_power (m ∷ members)
delegated-power true to m members = refl
delegated-power false to m members = refl

delegate_loop-power :
    (governance : Bool) (to name : MemberName) (members after : List Member)
    → delegate_loop governance to name members ≡ ok after
    → active_power after ≡ active_power members
unfolding delegate_loop
delegate_loop-power governance to name [] after done = ground arith
delegate_loop-power governance to name (m ∷ members) after done =
    elim (Bool-cases (str_eq m.name name)) [
      | inl same ↦
          let shape : after ≡ delegated governance to m ∷ members = ground arith in
          ap active_power shape ∙ delegated-power governance to m members
      | inr differs ↦
          let (ms, inner, shape) =
            cons_ok-inverse m (delegate_loop governance to name members) after (ground arith) in
          let rest = delegate_loop-power governance to name members ms inner in
          ap active_power shape ∙ omega (arith, rest)
    ]

-- The members that `apply_delegate` leaves.
pub apply_delegate-loop :
    (c : Crypto) (tx : TxDelegate) (rs after : ReservedState)
    → apply_delegate c tx rs ≡ ok after
    → (ms : List Member) × (delegate_loop tx.content.governance tx.content.delegatee
          tx.content.delegator rs.members
        ≡ ok ms)
      × (after ≡ record rs { members = ms })
unfolding apply_delegate
apply_delegate-loop c tx rs after accepted =
    let d = tx.content in
    elim (Result-cases (delegate_loop d.governance d.delegatee d.delegator rs.members)) [
      | inl (ms, done) ↦ (ms, done, ground arith)
      | inr (inl (e, fails)) ↦ absurd (ground arith)
      | inr (inr fails) ↦ absurd (ground arith)
    ]

-- A delegation moves voting power and makes or destroys none: the validator set and the governance set
-- have the same total power after it as before it, when the powers of the members that are not
-- expelled add up to less than 2 ^ 64.
pub apply_delegate-total_power :
    (c : Crypto) (tx : TxDelegate) (rs after : ReservedState) (v g v' g' : Powers)
    → active_power rs.members < u64_mod
    → apply_delegate c tx rs ≡ ok after
    → get_validator_set rs ≡ ok v
    → get_governance_set rs ≡ ok g
    → get_validator_set after ≡ ok v'
    → get_governance_set after ≡ ok g'
    → (total_power v' ≡ total_power v) × (total_power g' ≡ total_power g)
apply_delegate-total_power c tx rs after v g v' g' fits accepted set_v set_g set_v' set_g' =
    let d = tx.content in
    let (ms, done, shape) = apply_delegate-loop c tx rs after accepted in
    let same : active_power after.members ≡ active_power rs.members =
      ap (λ r. active_power (ReservedState.members r)) shape
      ∙ delegate_loop-power d.governance d.delegatee d.delegator rs.members ms done in
    let (before_v, before_g) = get_sets-total rs v g fits set_v set_g in
    let (after_v, after_g) = get_sets-total after v' g' (omega (arith, same, fits)) set_v' set_g' in
    (after_v ∙ same ∙ sym before_v, after_g ∙ same ∙ sym before_g)
