-- ===== src/Core/Crypto.antt =====
-- What the chain uses of core/src/crypto.rs and of the serialization that `serde_spb` passes on: the
-- hash function, the verification of a signature, and the bytes of each type.
use Prim.Native.String.{String}
use simperby.Base.{ℕ, Bool, List}
use simperby.Core.Types.{
  Hash256, PublicKey, Signature, FinalizationSignTarget, BlockHeader, Transaction, Agenda,
  AgendaProof, ExtraAgendaTransaction, DelegationTransactionData, UndelegationTransactionData,
  ChatLog,
}

pub record Crypto : Type 0 where
  pub hash : List ℕ → Hash256
  pub verify_signature : Signature → Hash256 → PublicKey → Bool
  pub hash_bytes : Hash256 → List ℕ
  pub text_bytes : String → List ℕ
  pub sign_target_bytes : FinalizationSignTarget → List ℕ
  pub header_bytes : BlockHeader → List ℕ
  pub transaction_bytes : Transaction → List ℕ
  pub agenda_bytes : Agenda → List ℕ
  pub agenda_proof_bytes : AgendaProof → List ℕ
  pub extra_bytes : ExtraAgendaTransaction → List ℕ
  pub delegation_bytes : DelegationTransactionData → List ℕ
  pub undelegation_bytes : UndelegationTransactionData → List ℕ
  pub chat_log_bytes : ChatLog → List ℕ
