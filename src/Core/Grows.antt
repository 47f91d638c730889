-- ===== src/Core/Grows.antt =====
-- What `apply_commit` of core/src/verify.rs keeps of the reserved state, arm by arm.
use simperby.Base.Int.{ltb_ℤ}
use simperby.Base.{inl, inr, ◌≡◌, refl, sym, subst, List, [], ◌∷◌, ◌++◌, arith}
use simperby.Core.Types.{
  Timestamp, BlockHeader, Transaction, Agenda, AgendaProof, ExtraAgendaTransaction, Commit,
}
use simperby.Core.Crypto.{Crypto}
use simperby.Core.Sequence.{CommitSequenceVerifier, Phase}
use simperby.Core.Apply.{
  Applied, settle, pushed, time_of, next_reserved_state, enter_block, block_after_proof,
  block_after_extra, first_transaction, next_transaction, enter_agenda, agenda_alone, agenda_after,
  proof_of_agenda, apply_extra, first_extra, next_extra, apply_arm, apply_commit,
}
use simperby.Core.Members.{Extends, Extends-refl, Extends-trans}
use simperby.Core.Chained.{apply_all}
use simperby.Core.Result.{Error, Result, ok, err, panic, ◌>>=◌, fail_if, invalid_timestamp}
use simperby.Core.Kept.{Result-cases, apply_extra-Yields, next_reserved_state-Yields}

-- After an operation, whatever its result, the reserved state extends the one before.
abbrev Grows : CommitSequenceVerifier → Applied → Type 0
Grows v a = Extends v.reserved_state a.1.reserved_state

settle-Grows :
    (v : CommitSequenceVerifier) (r : Result Error CommitSequenceVerifier)
    → ((w : CommitSequenceVerifier) → r ≡ ok w → Extends v.reserved_state w.reserved_state)
    → Grows v (settle v r)
settle-Grows v (ok w) each = each w refl
settle-Grows v (err _) each = Extends-refl v.reserved_state
settle-Grows v panic each = Extends-refl v.reserved_state

same_state :
    (v w : CommitSequenceVerifier)
    → w.reserved_state ≡ v.reserved_state
    → Extends v.reserved_state w.reserved_state
same_state v w same =
    subst (λ x. Extends v.reserved_state x) (sym same) (Extends-refl v.reserved_state)

-- A result, if there is one, has a state that extends the one before.
abbrev Raises : CommitSequenceVerifier → Result Error CommitSequenceVerifier → Type 0
Raises v r = (w : CommitSequenceVerifier) → r ≡ ok w → Extends v.reserved_state w.reserved_state

bind-Raises :
    {A : Type 0} (v : CommitSequenceVerifier) (r : Result Error A)
    (f : A → Result Error CommitSequenceVerifier)
    → ((a : A) → r ≡ ok a → Raises v (f a))
    → Raises v (r >>= f)
bind-Raises v (ok a) f each w accepted = each a refl w accepted
bind-Raises v (err _) f each w accepted = ground arith
bind-Raises v panic f each w accepted = ground arith

ok-Raises :
    (v w : CommitSequenceVerifier) → Extends v.reserved_state w.reserved_state → Raises v (ok w)
ok-Raises v w extends w' same = subst (λ x. Extends v.reserved_state x) (ground arith) extends

first_transaction-Raises :
    (c : Crypto) (v : CommitSequenceVerifier) (tx : Transaction)
    → Raises v (first_transaction c v tx)
unfolding first_transaction
first_transaction-Raises c v tx =
    bind-Raises v (next_reserved_state c v tx.diff)
      (λ rs. ok (record v { reserved_state = rs; phase = Phase.transaction tx [] }))
      (λ rs done. ok-Raises v _ (next_reserved_state-Yields c v tx.diff rs done))

next_transaction-Raises :
    (c : Crypto) (v : CommitSequenceVerifier) (last : Transaction) (preceding : List Transaction)
    (tx : Transaction)
    → Raises v (next_transaction c v last preceding tx)
unfolding next_transaction
next_transaction-Raises c v last preceding tx =
    bind-Raises v (fail_if (ltb_ℤ tx.timestamp last.timestamp) invalid_timestamp) _ (λ _ _.
      bind-Raises v (next_reserved_state c v tx.diff)
        (λ rs.
          ok (record v {
            reserved_state = rs;
            phase = Phase.transaction tx (preceding ++ last ∷ []);
          }))
        (λ rs done. ok-Raises v _ (next_reserved_state-Yields c v tx.diff rs done)))

first_extra-Raises :
    (c : Crypto) (v : CommitSequenceVerifier) (tx : ExtraAgendaTransaction)
    → Raises v (first_extra c v tx)
unfolding first_extra
first_extra-Raises c v tx =
    bind-Raises v (apply_extra c v tx)
      (λ rs.
        ok (record v { reserved_state = rs; phase = Phase.extra_agenda_transaction (time_of tx) }))
      (λ rs done. ok-Raises v _ (apply_extra-Yields c v tx rs done))

next_extra-Grows :
    (c : Crypto) (v : CommitSequenceVerifier) (last : Timestamp) (tx : ExtraAgendaTransaction)
    → Grows v (next_extra c v last tx)
unfolding next_extra
next_extra-Grows c v last tx = elim (Result-cases (apply_extra c v tx)) [
  | inl (rs, done) ↦
      subst (λ x. Extends v.reserved_state x) (ground arith) (apply_extra-Yields c v tx rs done)
  | inr (inl (e, fails)) ↦ same_state v (next_extra c v last tx).1 (ground arith)
  | inr (inr fails) ↦ same_state v (next_extra c v last tx).1 (ground arith)
]

-- The arms that leave the reserved state.
abbrev Stays : CommitSequenceVerifier → Result Error CommitSequenceVerifier → Type 0
Stays v r = (settle v r).1.reserved_state ≡ v.reserved_state

Stays-Grows :
    (v : CommitSequenceVerifier) (r : Result Error CommitSequenceVerifier)
    → Stays v r
    → Grows v (settle v r)
Stays-Grows v r stays = same_state v (settle v r).1 stays

block_after_proof-Stays :
    (c : Crypto) (v : CommitSequenceVerifier) (header : BlockHeader)
    → Stays v (block_after_proof c v header)
unfolding block_after_proof enter_block
block_after_proof-Stays c v header = ground arith

block_after_extra-Stays :
    (c : Crypto) (v : CommitSequenceVerifier) (last : Timestamp) (header : BlockHeader)
    → Stays v (block_after_extra c v last header)
unfolding block_after_extra enter_block
block_after_extra-Stays c v last header = ground arith

agenda_alone-Stays :
    (c : Crypto) (v : CommitSequenceVerifier) (agenda : Agenda) → Stays v (agenda_alone c v agenda)
unfolding agenda_alone enter_agenda
agenda_alone-Stays c v agenda = ground arith

agenda_after-Stays :
    (c : Crypto) (v : CommitSequenceVerifier) (last : Transaction) (preceding : List Transaction)
    (agenda : Agenda)
    → Stays v (agenda_after c v last preceding agenda)
unfolding agenda_after enter_agenda
agenda_after-Stays c v last preceding agenda = ground arith

proof_of_agenda-Stays :
    (c : Crypto) (v : CommitSequenceVerifier) (agenda : Agenda) (agenda_proof : AgendaProof)
    → Stays v (proof_of_agenda c v agenda agenda_proof)
unfolding proof_of_agenda
proof_of_agenda-Stays c v agenda agenda_proof = ground arith

apply_arm-Grows :
    (c : Crypto) (v : CommitSequenceVerifier) (commit : Commit) (phase : Phase)
    → Grows v (apply_arm c v commit phase)
unfolding apply_arm
apply_arm-Grows c v (Commit.block header) (Phase.agenda_proof _) =
    Stays-Grows v (block_after_proof c v header) (block_after_proof-Stays c v header)
apply_arm-Grows c v (Commit.block header) (Phase.extra_agenda_transaction last) =
    Stays-Grows v (block_after_extra c v last header) (block_after_extra-Stays c v last header)
apply_arm-Grows c v (Commit.transaction tx) Phase.block =
    settle-Grows v _ (first_transaction-Raises c v tx)
apply_arm-Grows c v (Commit.transaction tx) (Phase.transaction last preceding) =
    settle-Grows v _ (next_transaction-Raises c v last preceding tx)
apply_arm-Grows c v (Commit.agenda a) Phase.block =
    Stays-Grows v (agenda_alone c v a) (agenda_alone-Stays c v a)
apply_arm-Grows c v (Commit.agenda a) (Phase.transaction last preceding) =
    Stays-Grows v (agenda_after c v last preceding a) (agenda_after-Stays c v last preceding a)
apply_arm-Grows c v (Commit.agenda_proof p) (Phase.agenda a) =
    Stays-Grows v (proof_of_agenda c v a p) (proof_of_agenda-Stays c v a p)
apply_arm-Grows c v (Commit.extra_agenda_transaction tx) (Phase.agenda_proof _) =
    settle-Grows v _ (first_extra-Raises c v tx)
apply_arm-Grows c v (Commit.extra_agenda_transaction tx) (Phase.extra_agenda_transaction last) =
    next_extra-Grows c v last tx
apply_arm-Grows c v (Commit.chat_log _) phase = Extends-refl v.reserved_state
apply_arm-Grows c v commit phase = Extends-refl v.reserved_state

pushed-Grows :
    (v : CommitSequenceVerifier) (commit : Commit) (a : Applied)
    → Grows v a
    → Grows v (pushed commit a)
pushed-Grows v commit (ok _, w) grows = grows
pushed-Grows v commit (err _, w) grows = grows
pushed-Grows v commit (panic, w) grows = grows

apply_commit-Grows :
    (c : Crypto) (commit : Commit) (v : CommitSequenceVerifier) → Grows v (apply_commit c commit v)
unfolding apply_commit
apply_commit-Grows c commit v = pushed-Grows v commit _ (apply_arm-Grows c v commit v.phase)

-- No sequence of commits, whatever the verifier makes of them, changes the genesis info of the
-- reserved state or takes a member's name from it.
pub apply_all-Extends :
    (c : Crypto) (commits : List Commit) (v : CommitSequenceVerifier)
    → Extends v.reserved_state (apply_all c commits v).reserved_state
unfolding apply_all
apply_all-Extends c [] v = Extends-refl v.reserved_state
apply_all-Extends c (commit ∷ commits) v =
    Extends-trans (apply_commit-Grows c commit v)
      (apply_all-Extends c commits (apply_commit c commit v).1)
