-- ===== src/Vetomint/Types.antt =====
-- vetomint/src/lib.rs and vetomint/src/state.rs: the messages and the state of the consensus
-- state machine of one height.
use simperby.Base.{ℕ, Bool, Option, none, List, [], Ordering, compare}
use simperby.Base.Int.{ℤ}
use simperby.Base.Ordered.{then_cmp, compare_option}

abbrev pub ValidatorIndex : Type 0
ValidatorIndex = ℕ

abbrev pub BlockIdentifier : Type 0
BlockIdentifier = ℕ

abbrev pub Round : Type 0
Round = ℕ

abbrev pub VotingPower : Type 0
VotingPower = ℕ

abbrev pub Timestamp : Type 0
Timestamp = ℤ

pub record ConsensusParams : Type 0 where
  pub timeout_ms : ℕ
  pub repeat_round_for_first_leader : ℕ

pub data ConsensusEvent : Type 0 where
  start : ConsensusEvent
  block_proposal_received :
      (proposal : BlockIdentifier) (valid : Bool) (valid_round : Option Round)
      (proposer : ValidatorIndex) (round : Round) (favor : Bool)
      → ConsensusEvent
  skip_round : (round : Round) → ConsensusEvent
  block_candidate_updated : (proposal : BlockIdentifier) → ConsensusEvent
  prevote precommit :
      (proposal : Option BlockIdentifier) (signer : ValidatorIndex) (round : Round) → ConsensusEvent
  timer : ConsensusEvent

-- Every misbehavior names its node and its round first.
pub data Misbehavior : Type 0 where
  double_proposal :
      (byzantine_node : ValidatorIndex) (round : Round)
      (proposals : BlockIdentifier × BlockIdentifier)
      → Misbehavior
  double_prevote double_precommit :
      (byzantine_node : ValidatorIndex) (round : Round)
      (proposals : Option BlockIdentifier × Option BlockIdentifier)
      → Misbehavior
  invalid_proposal invalid_prevote invalid_precommit :
      (byzantine_node : ValidatorIndex) (round : Round) (proposal : BlockIdentifier) → Misbehavior

pub data ConsensusResponse : Type 0 where
  broadcast_proposal :
      (proposal : BlockIdentifier) (valid_round : Option Round) (round : Round) → ConsensusResponse
  broadcast_prevote broadcast_precommit :
      (proposal : Option BlockIdentifier) (round : Round) → ConsensusResponse
  finalize_block :
      (proposal : BlockIdentifier) (round : Round) (proof : List ValidatorIndex) → ConsensusResponse
  violation_report : (violator : ValidatorIndex) (misbehavior : Misbehavior) → ConsensusResponse

pub record HeightInfo : Type 0 where
  pub validators : List VotingPower
  pub this_node_index : Option ValidatorIndex
  pub timestamp : Timestamp
  pub consensus_params : ConsensusParams
  pub initial_block_candidate : BlockIdentifier

pub data ConsensusStep : Type 0 where
  initial propose prevote precommit : ConsensusStep

pub record Proposal : Type 0 where
  pub proposal : BlockIdentifier
  pub valid : Bool
  pub valid_round : Option Round
  pub round : Round
  pub proposer : ValidatorIndex
  pub favor : Bool

pub record Vote : Type 0 where
  pub proposal : Option BlockIdentifier
  pub signer : ValidatorIndex
  pub round : Round

-- The derived order of votes, by which a `BTreeSet` keeps them.
abbrev pub compare_vote : Vote → Vote → Ordering
compare_vote a b =
    then_cmp (compare_option a.proposal b.proposal)
      (then_cmp (compare a.signer b.signer) (compare a.round b.round))

pub record ConsensusState : Type 0 where
  pub height_info : HeightInfo
  pub round : Round
  pub step : ConsensusStep
  pub locked_value : Option BlockIdentifier
  pub locked_round : Option Round
  pub valid_value : Option BlockIdentifier
  pub valid_round : Option Round
  pub block_candidate : BlockIdentifier
  pub proposals : List (BlockIdentifier × Proposal)
  pub prevotes : List Vote
  pub precommits : List Vote
  pub propose_timeout_schedules : List (Round × Timestamp)
  pub precommit_timeout_schedules : List (Round × Timestamp)
  pub for_the_first_time_1 : List Round
  pub for_the_first_time_2 : List Round
  pub finalized : Option (BlockIdentifier × List ValidatorIndex × Round)

-- `ConsensusState::new`.
unfoldable pub new : HeightInfo → ConsensusState
new height_info = record {
  height_info = height_info;
  round = 0;
  step = ConsensusStep.initial;
  locked_value = none;
  locked_round = none;
  valid_value = none;
  valid_round = none;
  block_candidate = 0;
  proposals = [];
  prevotes = [];
  precommits = [];
  propose_timeout_schedules = [];
  precommit_timeout_schedules = [];
  for_the_first_time_1 = [];
  for_the_first_time_2 = [];
  finalized = none;
}
