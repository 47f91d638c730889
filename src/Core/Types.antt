-- ===== src/Core/Types.antt =====
-- core/src/types.rs and core/src/reserved.rs: the data of the chain. Hashes, keys and signatures of
-- core/src/crypto.rs are byte arrays of a fixed length, here the numbers that they spell: they are
-- compared and ordered only.
use Prim.Native.String.{String}
use simperby.Base.{ℕ, Bool, Option, List, []}
use simperby.Base.Int.{ℤ}

abbrev pub Hash256 : Type 0
Hash256 = ℕ

abbrev pub PublicKey : Type 0
PublicKey = ℕ

abbrev pub Signature : Type 0
Signature = ℕ

abbrev pub VotingPower : Type 0
VotingPower = ℕ

abbrev pub Timestamp : Type 0
Timestamp = ℤ

abbrev pub BlockHeight : Type 0
BlockHeight = ℕ

abbrev pub ConsensusRound : Type 0
ConsensusRound = ℕ

abbrev pub MemberName : Type 0
MemberName = String

-- `TypedSignature<T>`: the type of the signed data is a mark only.
pub record TypedSignature : Type 0 where
  pub signature : Signature
  pub signer : PublicKey

pub record Member : Type 0 where
  pub public_key : PublicKey
  pub name : MemberName
  pub governance_voting_power : VotingPower
  pub consensus_voting_power : VotingPower
  pub governance_delegatee : Option MemberName
  pub consensus_delegatee : Option MemberName
  pub expelled : Bool

pub record FinalizationSignTarget : Type 0 where
  pub block_hash : Hash256
  pub round : ConsensusRound

pub record FinalizationProof : Type 0 where
  pub round : ConsensusRound
  pub signatures : List TypedSignature

-- `FinalizationProof::genesis`.
unfoldable pub genesis : FinalizationProof
genesis = record { round = 0; signatures = [] }

pub record BlockHeader : Type 0 where
  pub author : PublicKey
  pub prev_block_finalization_proof : FinalizationProof
  pub previous_hash : Hash256
  pub height : BlockHeight
  pub timestamp : Timestamp
  pub commit_merkle_root : Hash256
  pub repository_merkle_root : Hash256
  pub validator_set : List (PublicKey × VotingPower)
  pub version : String

pub record Agenda : Type 0 where
  pub height : BlockHeight
  pub author : MemberName
  pub timestamp : Timestamp
  pub transactions_hash : Hash256
  pub previous_block_hash : Hash256

pub record ChatLog : Type 0 where

pub record AgendaProof : Type 0 where
  pub height : BlockHeight
  pub agenda_hash : Hash256
  pub proof : List TypedSignature
  pub timestamp : Timestamp

pub record GenesisInfo : Type 0 where
  pub header : BlockHeader
  pub genesis_proof : FinalizationProof
  pub chain_name : String

pub record ReservedState : Type 0 where
  pub genesis_info : GenesisInfo
  pub members : List Member
  pub consensus_leader_order : List MemberName
  pub version : String

-- `Diff::None` is `empty` here.
pub data Diff : Type 0 where
  empty : Diff
  reserved : ReservedState → Diff
  non_reserved : Hash256 → Diff
  general : ReservedState → Hash256 → Diff

pub record Transaction : Type 0 where
  pub author : MemberName
  pub timestamp : Timestamp
  pub head : String
  pub body : String
  pub diff : Diff

pub record DelegationTransactionData : Type 0 where
  pub delegator : MemberName
  pub delegatee : MemberName
  pub governance : Bool
  pub block_height : BlockHeight
  pub timestamp : Timestamp
  pub chain_name : String

pub record UndelegationTransactionData : Type 0 where
  pub delegator : MemberName
  pub block_height : BlockHeight
  pub timestamp : Timestamp
  pub chain_name : String

pub record TxDelegate : Type 0 where
  pub content : DelegationTransactionData
  pub proof : TypedSignature

pub record TxUndelegate : Type 0 where
  pub content : UndelegationTransactionData
  pub proof : TypedSignature

pub record TxReport : Type 0 where

pub data ExtraAgendaTransaction : Type 0 where
  delegate : TxDelegate → ExtraAgendaTransaction
  undelegate : TxUndelegate → ExtraAgendaTransaction
  report : TxReport → ExtraAgendaTransaction

pub data Commit : Type 0 where
  block : BlockHeader → Commit
  transaction : Transaction → Commit
  agenda : Agenda → Commit
  agenda_proof : AgendaProof → Commit
  extra_agenda_transaction : ExtraAgendaTransaction → Commit
  chat_log : ChatLog → Commit
