-- ===== src/Core/Kept.antt =====
-- The new reserved states of `apply_commit` of core/src/verify.rs.
use simperby.Base.{◌⊎◌, inl, inr, ◌≡◌, refl, subst, none, some, List, arith}
use simperby.Core.Types.{
  Member, ReservedState, TxDelegate, TxUndelegate, Diff, ExtraAgendaTransaction, delegate,
  undelegate, report,
}
use simperby.Core.Crypto.{Crypto}
use simperby.Core.Reserved.{delegate_loop, undelegate_loop, apply_delegate, apply_undelegate}
use simperby.Core.Sequence.{CommitSequenceVerifier, names_of, verify_reserved_state}
use simperby.Core.Apply.{carried, next_reserved_state, apply_extra}
use simperby.Core.Members.{
  Extends, Extends-refl, same_names, verify_reserved_state-Extends, delegate_loop-names,
  undelegate_loop-names,
}
use simperby.Core.Result.{
  Reason, Result, ok, err, panic, ◌>>=◌, ◌>>◌, map_err, invalid_delegation, invalid_undelegation,
}

-- A result, if there is one, extends the state.
abbrev pub Yields : {E : Type 0} → ReservedState → Result E ReservedState → Type 0
Yields rs r = (after : ReservedState) → r ≡ ok after → Extends rs after

bind-Yields :
    {E A : Type 0} (rs : ReservedState) (r : Result E A) (f : A → Result E ReservedState)
    → ((a : A) → r ≡ ok a → Yields rs (f a))
    → Yields rs (r >>= f)
bind-Yields rs (ok a) f each after accepted = each a refl after accepted
bind-Yields rs (err _) f each after accepted = ground arith
bind-Yields rs panic f each after accepted = ground arith

map_err-Yields :
    {E F : Type 0} (rs : ReservedState) (f : E → F) (r : Result E ReservedState)
    → Yields rs r
    → Yields rs (map_err f r)
map_err-Yields rs f (ok rs') yields after accepted = yields after (ground arith)
map_err-Yields rs f (err _) yields after accepted = ground arith
map_err-Yields rs f panic yields after accepted = ground arith

ok-Yields : {E : Type 0} (rs rs' : ReservedState) → Extends rs rs' → Yields {E = E} rs (ok rs')
ok-Yields rs rs' extends after accepted = subst (λ x. Extends rs x) (ground arith) extends

with_members :
    (rs : ReservedState) (ms : List Member)
    → names_of ms ≡ names_of rs.members
    → Yields {E = Reason} rs (ok (record rs { members = ms }))
with_members rs ms names = ok-Yields rs _ (same_names rs (record rs { members = ms }) refl names)

pub Result-cases :
    {E A : Type 0} (r : Result E A)
    → ((a : A) × (r ≡ ok a)) ⊎ (((e : E) × (r ≡ err e)) ⊎ (r ≡ panic))
Result-cases (ok a) = inl (a, refl)
Result-cases (err e) = inr (inl (e, refl))
Result-cases panic = inr (inr refl)

apply_delegate-Yields :
    (c : Crypto) (tx : TxDelegate) (rs : ReservedState) → Yields rs (apply_delegate c tx rs)
unfolding apply_delegate
apply_delegate-Yields c tx rs after accepted =
    let d = tx.content in
    elim (Result-cases (delegate_loop d.governance d.delegatee d.delegator rs.members)) [
      | inl (ms, done) ↦
          with_members rs ms
            (delegate_loop-names d.governance d.delegatee d.delegator rs.members ms done) after
            (ground arith)
      | inr (inl (e, fails)) ↦ absurd (ground arith)
      | inr (inr fails) ↦ absurd (ground arith)
    ]

apply_undelegate-Yields :
    (c : Crypto) (tx : TxUndelegate) (rs : ReservedState) → Yields rs (apply_undelegate c tx rs)
unfolding apply_undelegate
apply_undelegate-Yields c tx rs after accepted =
    let d = tx.content in
    elim (Result-cases (undelegate_loop d.delegator rs.members)) [
      | inl (ms, done) ↦
          with_members rs ms (undelegate_loop-names d.delegator rs.members ms done) after
            (ground arith)
      | inr (inl (e, fails)) ↦ absurd (ground arith)
      | inr (inr fails) ↦ absurd (ground arith)
    ]

pub apply_extra-Yields :
    (c : Crypto) (v : CommitSequenceVerifier) (tx : ExtraAgendaTransaction)
    → Yields v.reserved_state (apply_extra c v tx)
unfolding apply_extra
apply_extra-Yields c v (delegate tx) =
    map_err-Yields v.reserved_state invalid_delegation _
      (apply_delegate-Yields c tx v.reserved_state)
apply_extra-Yields c v (undelegate tx) =
    map_err-Yields v.reserved_state invalid_undelegation _
      (apply_undelegate-Yields c tx v.reserved_state)
apply_extra-Yields c v (report _) = λ after accepted. ground arith

pub next_reserved_state-Yields :
    (c : Crypto) (v : CommitSequenceVerifier) (diff : Diff)
    → Yields v.reserved_state (next_reserved_state c v diff)
unfolding next_reserved_state
next_reserved_state-Yields c v diff =
    elim (carried diff)
      as (λ o.
        Yields v.reserved_state
          (elim o [ none ↦ ok v.reserved_state | some rs ↦ verify_reserved_state v rs >> ok rs ])) [
            | none ↦ ok-Yields _ _ (Extends-refl _)
            | some rs ↦ bind-Yields _ _ _ (λ _ accepted.
                ok-Yields v.reserved_state rs (verify_reserved_state-Extends v rs accepted))
          ]
