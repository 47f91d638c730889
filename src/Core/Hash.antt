-- ===== src/Core/Hash.antt =====
-- core/src/hash.rs: the hashes of the data of the chain.
use simperby.Base.{List, [], ◌∷◌, map}
use simperby.Core.Types.{
  Hash256, FinalizationSignTarget, BlockHeader, Transaction, Agenda, AgendaProof,
  ExtraAgendaTransaction, DelegationTransactionData, UndelegationTransactionData, ChatLog, Commit,
  block, transaction, agenda, agenda_proof, extra_agenda_transaction, chat_log,
}
use simperby.Core.Crypto.{Crypto}
use simperby.Core.Merkle.{aggregate, root}

module _ (c : Crypto) where
  unfoldable pub hash_sign_target : FinalizationSignTarget → Hash256
  hash_sign_target x = c.hash (c.sign_target_bytes x)

  unfoldable pub hash_header : BlockHeader → Hash256
  hash_header x = c.hash (c.header_bytes x)

  unfoldable pub hash_transaction : Transaction → Hash256
  hash_transaction x = c.hash (c.transaction_bytes x)

  unfoldable pub hash_agenda : Agenda → Hash256
  hash_agenda x = c.hash (c.agenda_bytes x)

  unfoldable pub hash_agenda_proof : AgendaProof → Hash256
  hash_agenda_proof x = c.hash (c.agenda_proof_bytes x)

  unfoldable pub hash_extra : ExtraAgendaTransaction → Hash256
  hash_extra x = c.hash (c.extra_bytes x)

  unfoldable pub hash_delegation : DelegationTransactionData → Hash256
  hash_delegation x = c.hash (c.delegation_bytes x)

  unfoldable pub hash_undelegation : UndelegationTransactionData → Hash256
  hash_undelegation x = c.hash (c.undelegation_bytes x)

  unfoldable pub hash_chat_log : ChatLog → Hash256
  hash_chat_log x = c.hash (c.chat_log_bytes x)

  -- `impl ToHash256 for Commit`.
  unfoldable pub hash_commit : Commit → Hash256
  unfolding hash_header hash_transaction hash_agenda hash_agenda_proof hash_extra hash_chat_log
  hash_commit (block x) = hash_header x
  hash_commit (transaction x) = hash_transaction x
  hash_commit (agenda x) = hash_agenda x
  hash_commit (agenda_proof x) = hash_agenda_proof x
  hash_commit (extra_agenda_transaction x) = hash_extra x
  hash_commit (chat_log x) = hash_chat_log x

  -- `Transaction::merkle_hash`.
  unfoldable pub merkle_hash : Transaction → Hash256
  merkle_hash tx = c.hash (c.text_bytes tx.body)

  unfoldable pub transactions_hash_from : Hash256 → List Transaction → Hash256
  unfolding aggregate hash_transaction
  transactions_hash_from hash [] = hash
  transactions_hash_from hash (tx ∷ txs) =
      transactions_hash_from (aggregate c hash (hash_transaction tx)) txs

  -- `Agenda::calculate_transactions_hash`.
  unfoldable pub calculate_transactions_hash : List Transaction → Hash256
  unfolding transactions_hash_from
  calculate_transactions_hash txs = transactions_hash_from 0 txs

  -- `BlockHeader::calculate_commit_merkle_root`.
  unfoldable pub calculate_commit_merkle_root : List Commit → Hash256
  unfolding hash_commit root
  calculate_commit_merkle_root commits = root c (map hash_commit commits)
