-- ===== src/Core/Apply.antt =====
-- core/src/verify.rs: `CommitSequenceVerifier::apply_commit`, arm by arm. An operation returns its
-- result and the verifier that it leaves, also after an error.
use simperby.Base.{not, Option, none, some, List, [], ◌∷◌, ◌++◌, leb, ◌==◌, if◌then◌else◌, compare}
use simperby.Base.Int.{pos, ltb_ℤ}
use simperby.Base.Word.{add_u64, mul_u64, sum_u64}
use simperby.Base.Ordered.{map_get}
use simperby.Core.Types.{
  PublicKey, VotingPower, Timestamp, TypedSignature, BlockHeader, Transaction, Diff, empty,
  reserved, non_reserved, general, Agenda, AgendaProof, ReservedState, ExtraAgendaTransaction,
  delegate, undelegate, report, Commit,
}
use simperby.Core.Crypto.{Crypto}
use simperby.Core.Hash.{
  hash_header, hash_agenda, calculate_transactions_hash, calculate_commit_merkle_root,
}
use simperby.Core.Reserved.{get_governance_set, Powers, apply_delegate, apply_undelegate}
use simperby.Core.Verify.{verify_signatures, verify_header_to_header, total_power}
use simperby.Core.Sequence.{CommitSequenceVerifier, Phase, verify_reserved_state}
use simperby.Core.Result.{
  Reason, Error, Result, ok, err, panic, ◌>>=◌, ◌>>◌, fail_if, map_err, invalid_height,
  invalid_timestamp, invalid_merkle_root, invalid_transactions_hash, invalid_previous_hash,
  invalid_agenda_hash, invalid_signer, insufficient_weight, invalid_delegation,
  invalid_undelegation, phase_mismatch,
}

-- What an operation on the verifier returns.
abbrev pub Applied : Type 0
Applied = Result Error (Unit {0}) × CommitSequenceVerifier

-- An arm that changes the verifier only if it succeeds.
abbrev pub settle : CommitSequenceVerifier → Result Error CommitSequenceVerifier → Applied
settle v (ok v') = (ok tt, v')
settle v (err e) = (err e, v)
settle v panic = (panic, v)

-- `HashMap` from a vector of pairs: a later pair replaces an earlier one. The governance set has each
-- key once.
abbrev pub weight_of : Powers → PublicKey → Option VotingPower
weight_of set key = map_get compare key set

-- The weights of the signers, or the error of the first that is no member.
unfoldable pub signed_weights : Powers → List TypedSignature → Result Error (List VotingPower)
unfolding map_get
signed_weights set [] = ok []
signed_weights set (s ∷ proof) = elim (weight_of set s.signer) [
  | none ↦ err invalid_signer
  | some weight ↦ signed_weights set proof >>= λ weights. ok (weight ∷ weights)
]

-- The reserved state that a transaction carries.
abbrev pub carried : Diff → Option ReservedState
carried empty = none
carried (reserved rs) = some rs
carried (non_reserved _) = none
carried (general rs _) = some rs

abbrev pub time_of : ExtraAgendaTransaction → Timestamp
time_of (delegate tx) = tx.content.timestamp
time_of (undelegate tx) = tx.content.timestamp
time_of (report _) = pos 0

module _ (c : Crypto) (v : CommitSequenceVerifier) where
  -- `if let Diff::Reserved(rs) … else if let Diff::General(rs, _) …`.
  unfoldable pub next_reserved_state : Diff → Result Error ReservedState
  unfolding verify_reserved_state
  next_reserved_state diff = elim (carried diff) [
    | none ↦ ok v.reserved_state
    | some rs ↦ verify_reserved_state v rs >> ok rs
  ]

  -- The block is checked, and the verifier moves on to it.
  unfoldable pub enter_block : BlockHeader → Result Error CommitSequenceVerifier
  unfolding calculate_commit_merkle_root
  enter_block header = do
    fail_if
        (not (calculate_commit_merkle_root c v.commits_for_next_block == header.commit_merkle_root))
        invalid_merkle_root
    ok (record v { header = header; phase = Phase.block; commits_for_next_block = [] })

  -- `(Commit::Block, Phase::AgendaProof)`.
  unfoldable pub block_after_proof : BlockHeader → Result Error CommitSequenceVerifier
  unfolding verify_header_to_header enter_block
  block_after_proof header = verify_header_to_header c v.header header >> enter_block header

  -- `(Commit::Block, Phase::ExtraAgendaTransaction)`.
  unfoldable pub block_after_extra : Timestamp → BlockHeader → Result Error CommitSequenceVerifier
  unfolding verify_header_to_header enter_block
  block_after_extra last header = do
    verify_header_to_header c v.header header
    fail_if (ltb_ℤ header.timestamp last) invalid_timestamp
    enter_block header

  -- `(Commit::Transaction, Phase::Block)`.
  unfoldable pub first_transaction : Transaction → Result Error CommitSequenceVerifier
  unfolding next_reserved_state
  first_transaction tx = do
    rs ← next_reserved_state tx.diff
    ok (record v { reserved_state = rs; phase = Phase.transaction tx [] })

  -- `(Commit::Transaction, Phase::Transaction)`.
  unfoldable pub next_transaction :
      Transaction → List Transaction → Transaction → Result Error CommitSequenceVerifier
  unfolding next_reserved_state
  next_transaction last preceding tx = do
    fail_if (ltb_ℤ tx.timestamp last.timestamp) invalid_timestamp
    rs ← next_reserved_state tx.diff
    ok (record v { reserved_state = rs; phase = Phase.transaction tx (preceding ++ last ∷ []) })

  -- The checks of an agenda against the transactions before it.
  unfoldable pub enter_agenda : List Transaction → Agenda → Result Error CommitSequenceVerifier
  unfolding calculate_transactions_hash hash_header
  enter_agenda transactions agenda = do
    fail_if (not (agenda.transactions_hash == calculate_transactions_hash c transactions))
        invalid_transactions_hash
    fail_if (not (agenda.previous_block_hash == hash_header c v.header)) invalid_previous_hash
    ok (record v { phase = Phase.agenda agenda })

  -- `(Commit::Agenda, Phase::Block)`.
  unfoldable pub agenda_alone : Agenda → Result Error CommitSequenceVerifier
  unfolding enter_agenda add_u64
  agenda_alone agenda = do
    fail_if (not (agenda.height == add_u64 v.header.height 1)) invalid_height
    enter_agenda [] agenda

  -- `(Commit::Agenda, Phase::Transaction)`.
  unfoldable pub agenda_after :
      Transaction → List Transaction → Agenda → Result Error CommitSequenceVerifier
  unfolding enter_agenda add_u64
  agenda_after last preceding agenda = do
    fail_if (not (agenda.height == add_u64 v.header.height 1)) invalid_height
    fail_if (ltb_ℤ agenda.timestamp last.timestamp) invalid_timestamp
    enter_agenda (preceding ++ last ∷ []) agenda

  -- `self.reserved_state.get_governance_set().unwrap()`.
  abbrev pub unwrap_set : Result Reason Powers → Result Error Powers
  unwrap_set (ok set) = ok set
  unwrap_set (err _) = panic
  unwrap_set panic = panic

  -- `(Commit::AgendaProof, Phase::Agenda)`.
  unfoldable pub proof_of_agenda : Agenda → AgendaProof → Result Error CommitSequenceVerifier
  unfolding verify_signatures hash_agenda get_governance_set signed_weights sum_u64 mul_u64 add_u64
  proof_of_agenda agenda agenda_proof = do
    fail_if (not (agenda_proof.height == add_u64 v.header.height 1)) invalid_height
    fail_if (not (agenda_proof.agenda_hash == hash_agenda c agenda)) invalid_agenda_hash
    verify_signatures c (hash_agenda c agenda) agenda_proof.proof
    set ← unwrap_set (get_governance_set v.reserved_state)
    weights ← signed_weights set agenda_proof.proof
    fail_if (leb (mul_u64 (sum_u64 weights) 2) (total_power set)) insufficient_weight
    ok (record v { phase = Phase.agenda_proof agenda_proof })

  -- The delegation or undelegation on the reserved state. A report is `unimplemented!()`.
  unfoldable pub apply_extra : ExtraAgendaTransaction → Result Error ReservedState
  unfolding apply_delegate apply_undelegate
  apply_extra (delegate tx) = map_err invalid_delegation (apply_delegate c tx v.reserved_state)
  apply_extra (undelegate tx) =
      map_err invalid_undelegation (apply_undelegate c tx v.reserved_state)
  apply_extra (report tx) = panic

  -- `(Commit::ExtraAgendaTransaction, Phase::AgendaProof)`.
  unfoldable pub first_extra : ExtraAgendaTransaction → Result Error CommitSequenceVerifier
  unfolding apply_extra
  first_extra tx = do
    rs ← apply_extra tx
    ok (record v { reserved_state = rs; phase = Phase.extra_agenda_transaction (time_of tx) })

  -- `(Commit::ExtraAgendaTransaction, Phase::ExtraAgendaTransaction)`: the reserved state has changed
  -- by the time that the timestamp is checked.
  unfoldable pub next_extra : Timestamp → ExtraAgendaTransaction → Applied
  unfolding apply_extra
  next_extra last tx = elim (apply_extra tx) [
    | err e ↦ (err e, v)
    | panic ↦ (panic, v)
    | ok rs ↦
        if ltb_ℤ (time_of tx) last
        then (err invalid_timestamp, record v { reserved_state = rs })
        else (
          ok tt,
          record v { reserved_state = rs; phase = Phase.extra_agenda_transaction (time_of tx) },
        )
  ]

  -- The `match` on the commit and the phase.
  unfoldable pub apply_arm : Commit → Phase → Applied
  unfolding block_after_proof block_after_extra first_transaction next_transaction agenda_alone
      agenda_after proof_of_agenda first_extra next_extra
  apply_arm (Commit.block header) (Phase.agenda_proof _) = settle v (block_after_proof header)
  apply_arm (Commit.block header) (Phase.extra_agenda_transaction last) =
      settle v (block_after_extra last header)
  apply_arm (Commit.transaction tx) Phase.block = settle v (first_transaction tx)
  apply_arm (Commit.transaction tx) (Phase.transaction last preceding) =
      settle v (next_transaction last preceding tx)
  apply_arm (Commit.agenda a) Phase.block = settle v (agenda_alone a)
  apply_arm (Commit.agenda a) (Phase.transaction last preceding) =
      settle v (agenda_after last preceding a)
  apply_arm (Commit.agenda_proof p) (Phase.agenda a) = settle v (proof_of_agenda a p)
  apply_arm (Commit.extra_agenda_transaction tx) (Phase.agenda_proof _) = settle v (first_extra tx)
  apply_arm (Commit.extra_agenda_transaction tx) (Phase.extra_agenda_transaction last) =
      next_extra last tx
  apply_arm (Commit.chat_log _) _ = (panic, v)
  apply_arm _ _ = (err phase_mismatch, v)

-- `self.commits_for_next_block.push(commit); self.total_commits.push(commit)`, after a success.
abbrev pub pushed : Commit → Applied → Applied
pushed commit (ok _, v) = (
  ok tt,
  record v {
    commits_for_next_block = v.commits_for_next_block ++ commit ∷ [];
    total_commits = v.total_commits ++ commit ∷ [];
  },
)
pushed commit (err e, v) = (err e, v)
pushed commit (panic, v) = (panic, v)

unfoldable pub apply_commit : Crypto → Commit → CommitSequenceVerifier → Applied
unfolding apply_arm
apply_commit c commit v = pushed commit (apply_arm c v commit v.phase)
