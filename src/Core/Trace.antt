-- ===== src/Core/Trace.antt =====
-- What the arms of `apply_commit` of core/src/verify.rs do to the header and to the commits.
use simperby.Base.{◌≡◌, ◌≢◌, refl, List, [], ◌∷◌, ◌++◌, arith}
use simperby.Core.Types.{
  Timestamp, BlockHeader, Transaction, Agenda, AgendaProof, ExtraAgendaTransaction, Commit,
}
use simperby.Core.Crypto.{Crypto}
use simperby.Core.Sequence.{CommitSequenceVerifier, Phase}
use simperby.Core.Apply.{
  Applied, settle, enter_block, block_after_proof, block_after_extra, first_transaction,
  next_transaction, enter_agenda, agenda_alone, agenda_after, proof_of_agenda, first_extra,
  next_extra, apply_arm,
}
use simperby.Core.Result.{ok}
use simperby.Core.Chain.{IsChild, verify_header_to_header_iff}

-- The header of the verifier, its commits, and those since its last block.
abbrev pub Trace : CommitSequenceVerifier → BlockHeader × List Commit × List Commit
Trace v = (v.header, v.total_commits, v.commits_for_next_block)

next_transaction-Trace :
    (c : Crypto) (v : CommitSequenceVerifier) (last : Transaction) (preceding : List Transaction)
    (tx : Transaction)
    → Trace (settle v (next_transaction c v last preceding tx)).1 ≡ Trace v
unfolding next_transaction
next_transaction-Trace c v last preceding tx = ground arith

first_transaction-Trace :
    (c : Crypto) (v : CommitSequenceVerifier) (tx : Transaction)
    → Trace (settle v (first_transaction c v tx)).1 ≡ Trace v
unfolding first_transaction
first_transaction-Trace c v tx = ground arith

enter_agenda-Trace :
    (c : Crypto) (v : CommitSequenceVerifier) (txs : List Transaction) (agenda : Agenda)
    → Trace (settle v (enter_agenda c v txs agenda)).1 ≡ Trace v
unfolding enter_agenda
enter_agenda-Trace c v txs agenda = ground arith

agenda_alone-Trace :
    (c : Crypto) (v : CommitSequenceVerifier) (agenda : Agenda)
    → Trace (settle v (agenda_alone c v agenda)).1 ≡ Trace v
unfolding agenda_alone
agenda_alone-Trace c v agenda = let below = enter_agenda-Trace c v [] agenda in ground arith

agenda_after-Trace :
    (c : Crypto) (v : CommitSequenceVerifier) (last : Transaction) (preceding : List Transaction)
    (agenda : Agenda)
    → Trace (settle v (agenda_after c v last preceding agenda)).1 ≡ Trace v
unfolding agenda_after
agenda_after-Trace c v last preceding agenda =
    let below = enter_agenda-Trace c v (preceding ++ last ∷ []) agenda in ground arith

proof_of_agenda-Trace :
    (c : Crypto) (v : CommitSequenceVerifier) (agenda : Agenda) (agenda_proof : AgendaProof)
    → Trace (settle v (proof_of_agenda c v agenda agenda_proof)).1 ≡ Trace v
unfolding proof_of_agenda
proof_of_agenda-Trace c v agenda agenda_proof = ground arith

first_extra-Trace :
    (c : Crypto) (v : CommitSequenceVerifier) (tx : ExtraAgendaTransaction)
    → Trace (settle v (first_extra c v tx)).1 ≡ Trace v
unfolding first_extra
first_extra-Trace c v tx = ground arith

next_extra-Trace :
    (c : Crypto) (v : CommitSequenceVerifier) (last : Timestamp) (tx : ExtraAgendaTransaction)
    → Trace (next_extra c v last tx).1 ≡ Trace v
unfolding next_extra
next_extra-Trace c v last tx = ground arith

abbrev pub IsBlock : Commit → Type 0
IsBlock (Commit.block _) = Unit
IsBlock _ = ⊥

pub apply_arm-Trace :
    (c : Crypto) (v : CommitSequenceVerifier) (commit : Commit) (phase : Phase)
    → ¬ IsBlock commit
    → Trace (apply_arm c v commit phase).1 ≡ Trace v
unfolding apply_arm
apply_arm-Trace c v (Commit.block _) phase plain = absurd (plain tt)
apply_arm-Trace c v (Commit.transaction tx) Phase.block plain = first_transaction-Trace c v tx
apply_arm-Trace c v (Commit.transaction tx) (Phase.transaction last preceding) plain =
    next_transaction-Trace c v last preceding tx
apply_arm-Trace c v (Commit.agenda a) Phase.block plain = agenda_alone-Trace c v a
apply_arm-Trace c v (Commit.agenda a) (Phase.transaction last preceding) plain =
    agenda_after-Trace c v last preceding a
apply_arm-Trace c v (Commit.agenda_proof p) (Phase.agenda a) plain = proof_of_agenda-Trace c v a p
apply_arm-Trace c v (Commit.extra_agenda_transaction tx) (Phase.agenda_proof _) plain =
    first_extra-Trace c v tx
apply_arm-Trace c v (Commit.extra_agenda_transaction tx) (Phase.extra_agenda_transaction last)
      plain =
    next_extra-Trace c v last tx
apply_arm-Trace c v (Commit.chat_log _) phase plain = refl
apply_arm-Trace c v commit phase plain = refl

-- An accepted block is a child of the header before it.
abbrev pub Enters : Crypto → CommitSequenceVerifier → BlockHeader → Applied → Type 0
Enters c v header a =
    a.0 ≡ ok tt → IsChild c v.header header × (Trace a.1 ≡ (header, v.total_commits, []))

block_after_proof-Enters :
    (c : Crypto) (v : CommitSequenceVerifier) (header : BlockHeader)
    → Enters c v header (settle v (block_after_proof c v header))
unfolding block_after_proof enter_block
block_after_proof-Enters c v header accepted =
    ((verify_header_to_header_iff c v.header header).0 (ground arith), ground arith)

block_after_extra-Enters :
    (c : Crypto) (v : CommitSequenceVerifier) (last : Timestamp) (header : BlockHeader)
    → Enters c v header (settle v (block_after_extra c v last header))
unfolding block_after_extra enter_block
block_after_extra-Enters c v last header accepted =
    ((verify_header_to_header_iff c v.header header).0 (ground arith), ground arith)

pub apply_arm-Enters :
    (c : Crypto) (v : CommitSequenceVerifier) (header : BlockHeader) (phase : Phase)
    → Enters c v header (apply_arm c v (Commit.block header) phase)
unfolding apply_arm
apply_arm-Enters c v header (Phase.agenda_proof _) = block_after_proof-Enters c v header
apply_arm-Enters c v header (Phase.extra_agenda_transaction last) =
    block_after_extra-Enters c v last header
apply_arm-Enters c v header phase = λ accepted. ground arith

-- A commit that is not accepted leaves the header and the commits.
pub apply_arm_refused-Trace :
    (c : Crypto) (v : CommitSequenceVerifier) (header : BlockHeader) (phase : Phase)
    → (apply_arm c v (Commit.block header) phase).0 ≢ ok tt
    → Trace (apply_arm c v (Commit.block header) phase).1 ≡ Trace v
unfolding apply_arm
apply_arm_refused-Trace c v header (Phase.agenda_proof _) refused = ground arith
apply_arm_refused-Trace c v header (Phase.extra_agenda_transaction last) refused = ground arith
apply_arm_refused-Trace c v header phase refused = refl
