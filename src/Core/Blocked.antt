-- ===== src/Core/Blocked.antt =====
-- What an extra-agenda transaction that `apply_commit` of core/src/verify.rs refuses for its timestamp
-- does to later ones.
use simperby.Base.{
  Bool, true, false, ◌≡◌, ◌≢◌, refl, sym, ◌∙◌, ap, inl, inr, some, List, [], ◌∷◌, arith, Bool-cases,
}
use simperby.Base.Int.{ltb_ℤ}
use simperby.Base.Text.{str_eq}
use simperby.Core.Types.{MemberName, Member, Timestamp, ReservedState, TxDelegate, delegate, Commit}
use simperby.Core.Crypto.{Crypto}
use simperby.Core.Reserved.{delegated, delegate_loop, apply_delegate, is_expelled}
use simperby.Core.Sequence.{CommitSequenceVerifier, Phase}
use simperby.Core.Apply.{Applied, pushed, apply_extra, next_extra, apply_commit, apply_arm}
use simperby.Core.Result.{Result, ok, err, panic, invalid_timestamp}
use simperby.Core.Members.{cons_ok-inverse}
use simperby.Core.Delegation.{apply_delegate-loop}
use simperby.Core.Undo.{is_some-delegated, delegated_same, apply_delegate-checks}

-- A member who has delegated cannot delegate again.
delegate_loop_twice :
    (governance governance' : Bool) (to to' name : MemberName) (members after ms : List Member)
    → is_expelled members name ≡ some false
    → delegate_loop governance to name members ≡ ok after
    → delegate_loop governance' to' name after ≢ ok ms
unfolding delegate_loop is_expelled
delegate_loop_twice g g' to to' name [] after ms present done again = ground arith
delegate_loop_twice g g' to to' name (m ∷ members) after ms present done again =
    elim (Bool-cases (str_eq m.name name)) [
      | inl same ↦
          let shape : after ≡ delegated g to m ∷ members = ground arith in
          let set = is_some-delegated g to m in
          let named = (delegated_same g to m).0 in
          let still : delegate_loop g' to' name (delegated g to m ∷ members) ≡ ok ms =
            ap (delegate_loop g' to' name) (sym shape) ∙ again in
          ground arith
      | inr differs ↦
          let (rest, inner, shape) =
            cons_ok-inverse m (delegate_loop g to name members) after (ground arith) in
          let still : delegate_loop g' to' name (m ∷ rest) ≡ ok ms =
            ap (delegate_loop g' to' name) (sym shape) ∙ again in
          let (rest', inner', _) =
            cons_ok-inverse m (delegate_loop g' to' name rest) ms (ground arith) in
          delegate_loop_twice g g' to to' name members rest rest' (ground arith) inner inner'
    ]

apply_delegate_twice :
    (c : Crypto) (tx again : TxDelegate) (rs after last : ReservedState)
    → again.content.delegator ≡ tx.content.delegator
    → apply_delegate c tx rs ≡ ok after
    → apply_delegate c again after ≢ ok last
apply_delegate_twice c tx again rs after last who first second =
    let d = tx.content in
    let e = again.content in
    let (ms, done, shape) = apply_delegate-loop c tx rs after first in
    let (ms', done', _) = apply_delegate-loop c again after last second in
    let members : after.members ≡ ms = ap (λ (r : ReservedState). r.members) shape in
    delegate_loop_twice d.governance e.governance d.delegatee e.delegatee d.delegator rs.members ms
      ms' (apply_delegate-checks c tx rs after first).0 done (rw (members, who) at done')

-- A transaction that is not applied is not accepted.
next_extra_refuses :
    (c : Crypto) (v : CommitSequenceVerifier) (last : Timestamp) (tx : TxDelegate)
    → ((rs : ReservedState) → apply_delegate c tx v.reserved_state ≢ ok rs)
    → (next_extra c v last (delegate tx)).0 ≢ ok tt
unfolding next_extra apply_extra
next_extra_refuses c v last tx fails accepted = go _ refl accepted
  where
    go :
        (r : Result _ ReservedState)
        → apply_delegate c tx v.reserved_state ≡ r
        → (next_extra c v last (delegate tx)).0 ≢ ok tt
    go (ok rs) e h = fails rs e
    go (err reason) e h = ground arith
    go panic e h = ground arith

next_extra_late :
    (c : Crypto) (v : CommitSequenceVerifier) (last : Timestamp) (tx : TxDelegate)
    (rs : ReservedState)
    → apply_delegate c tx v.reserved_state ≡ ok rs
    → ltb_ℤ tx.content.timestamp last ≡ true
    → next_extra c v last (delegate tx) ≡ (err invalid_timestamp, record v { reserved_state = rs })
unfolding next_extra apply_extra
next_extra_late c v last tx rs applies late = ground arith

pushed-refused : (commit : Commit) (a : Applied) → a.0 ≢ ok tt → (pushed commit a).0 ≢ ok tt
pushed-refused commit (ok _, v) refused h = refused refl
pushed-refused commit (err e, v) refused h = refused h
pushed-refused commit (panic, v) refused h = refused h

-- When a delegation behind another extra-agenda transaction is valid but for its earlier timestamp, it
-- is refused and not recorded among the commits, and the verifier that it leaves refuses every delegation
-- of that delegator as the next commit, also the same one with a right timestamp.
pub late_delegation-blocks :
    (c : Crypto) (v : CommitSequenceVerifier) (last : Timestamp) (tx again : TxDelegate)
    (rs : ReservedState)
    → v.phase ≡ Phase.extra_agenda_transaction last
    → apply_delegate c tx v.reserved_state ≡ ok rs
    → ltb_ℤ tx.content.timestamp last ≡ true
    → again.content.delegator ≡ tx.content.delegator
    → let (result, after) = apply_commit c (Commit.extra_agenda_transaction (delegate tx)) v in
      (result ≢ ok tt)
      × (after.total_commits ≡ v.total_commits)
      × ((apply_commit c (Commit.extra_agenda_transaction (delegate again)) after).0 ≢ ok tt)
unfolding apply_commit apply_arm
late_delegation-blocks c v last tx again rs at applies late who =
    let commit = Commit.extra_agenda_transaction (delegate again) in
    let left = record v { reserved_state = rs } in
    let done = next_extra_late c v last tx rs applies late in
    let first : apply_commit c (Commit.extra_agenda_transaction (delegate tx)) v
        ≡ (err invalid_timestamp, left) =
      ground arith in
    let refused =
      next_extra_refuses c left last again
        (λ rs'. apply_delegate_twice c tx again v.reserved_state rs rs' who applies) in
    let arm : apply_arm c left commit left.phase ≡ next_extra c left last (delegate again) =
      ap (apply_arm c left commit) at in
    let blocked : (apply_commit c commit left).0 ≢ ok tt =
      pushed-refused commit (apply_arm c left commit left.phase)
        (λ h. refused (sym (ap (λ (a : Applied). a.0) arm) ∙ h)) in
    rw first (λ h. ground arith, refl, blocked)
