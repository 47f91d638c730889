-- ===== src/Consensus/Types.antt =====
-- consensus/src/state.rs and consensus/src/lib.rs: the messages, the results and the state of a node
-- that takes part in the consensus on a block.
use simperby.Base.{Bool, Option, List, compare, Ordering}
use native.Mathlib.Decide.{ℕ_discrete}
use mathlib.Core.Bool.{decide}
use simperby.Base.Ordered.{then_cmp}
use simperby.Core.Types.{
  Hash256, PublicKey, Timestamp, ConsensusRound, TypedSignature, FinalizationProof, BlockHeader,
}
use simperby.Vetomint.Types.{BlockIdentifier, ConsensusEvent, Misbehavior}
use simperby.Vetomint.Feedback.{Vetomint}

pub data ConsensusMessage : Type 0 where
  proposal :
      (round : ConsensusRound) (valid_round : Option ConsensusRound) (block_hash : Hash256)
      → ConsensusMessage
  non_nil_pre_voted non_nil_pre_committed : ConsensusRound → Hash256 → ConsensusMessage
  nil_pre_voted nil_pre_committed : ConsensusRound → ConsensusMessage

pub record Finalization : Type 0 where
  pub block_hash : Hash256
  pub timestamp : Timestamp
  pub proof : FinalizationProof

-- The last one carries the misbehavior, of which the source has the text.
pub data ProgressResult : Type 0 where
  proposed non_nil_pre_voted non_nil_pre_committed :
      ConsensusRound → Hash256 → Timestamp → ProgressResult
  nil_pre_voted nil_pre_committed : ConsensusRound → Timestamp → ProgressResult
  finalized : Finalization → ProgressResult
  violation_reported : PublicKey → Misbehavior → Timestamp → ProgressResult

-- The key of the precommits collected so far.
abbrev pub BlockRound : Type 0
BlockRound = Hash256 × ConsensusRound

abbrev pub compare_block_round : BlockRound → BlockRound → Ordering
compare_block_round (h1, r1) (h2, r2) = then_cmp (compare h1 h2) (compare r1 r2)

pub record State : Type 0 where
  pub vetomint : Vetomint
  pub block_header : BlockHeader
  pub block_identifier_count : BlockIdentifier
  pub verified_block_hashes : List (Hash256 × BlockIdentifier)
  pub vetoed_block_hashes : List Hash256
  pub to_be_processed_events : List (ConsensusEvent × Timestamp)
  pub updated_events : List ConsensusEvent
  pub messages_to_broadcast : List ConsensusMessage
  pub precommits : List (BlockRound × List TypedSignature)
  pub finalized : Option Finalization

-- The errors of the source, and the end of the model's fuel.
pub data Failure : Type 0 where
  block_not_verified validator_not_found out_of_fuel : Failure

-- The derived equality of events.
unfoldable pub ConsensusEvent-discrete : Discrete ConsensusEvent
ConsensusEvent-discrete = hlevel ℕ_discrete

abbrev pub event_eq : ConsensusEvent → ConsensusEvent → Bool
event_eq a b = decide (ConsensusEvent-discrete a b)
