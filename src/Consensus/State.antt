-- ===== src/Consensus/State.antt =====
-- consensus/src/state.rs: the operations of a node's `State` but `progress`. A panic of the source is
-- the result `panic`.
use simperby.Base.{
  ℕ, ◌+◌, Bool, true, false, not, Option, none, some, List, [], ◌∷◌, ◌++◌, map, ◌==◌, if◌then◌else◌,
  any, compare,
}
use simperby.Base.Word.{add_u64}
use simperby.Base.Ordered.{set_insert, set_contains, map_get, map_insert}
use simperby.Vetomint.Types.{
  BlockIdentifier, ConsensusEvent, ConsensusParams, HeightInfo, ValidatorIndex,
}
use simperby.Vetomint.Feedback.{new_vetomint}
use simperby.Core.Types.{
  Hash256, PublicKey, Signature, Timestamp, ConsensusRound, TypedSignature, BlockHeader,
}
use simperby.Core.Crypto.{Crypto}
use simperby.Core.Merkle.{aggregate}
use simperby.Core.Hash.{hash_sign_target}
use simperby.Core.Result.{Result, ok, err, panic, ◌>>=◌}
use simperby.Consensus.Types.{
  ConsensusMessage, compare_block_round, State, Failure, block_not_verified, validator_not_found,
  event_eq,
}

-- What an operation makes of the state.
abbrev pub Op : Type 0
Op = State → Result Failure State

-- The bytes and keys of the messages' own network layer: the hash of a message, and of a `DmsKey`.
pub record Dms : Type 0 where
  pub message_hash : ConsensusMessage → Hash256
  pub key_hash : Hash256

-- What a message is signed on.
unfoldable pub signed_hash : Crypto → Dms → ConsensusMessage → Hash256
unfolding hash_sign_target aggregate
signed_hash c dms (ConsensusMessage.non_nil_pre_committed round block_hash) =
    hash_sign_target c (record { block_hash = block_hash; round = round })
signed_hash c dms message = aggregate c (dms.message_hash message) dms.key_hash

-- `verify_commitment` of a message, on its signature and its committer.
unfoldable pub verify_commitment : Crypto → Dms → ConsensusMessage → PublicKey → Signature → Bool
unfolding signed_hash
verify_commitment c dms message committer signature =
    c.verify_signature signature (signed_hash c dms message) committer

-- `iter().position(|(x, _)| x == public_key)`, from the given place on.
unfoldable pub position :
    {A : Type 0} → ℕ → PublicKey → List (PublicKey × A) → Option ValidatorIndex
position i key [] = none
position i key ((x, _) ∷ rest) = if x == key then some i else position (i + 1) key rest

-- `generate_height_info`.
unfoldable pub generate_height_info :
    BlockHeader → ConsensusParams → Timestamp → PublicKey → HeightInfo
unfolding position
generate_height_info header params round_zero_timestamp this_key = record {
  validators = map (λ v. v.1) header.validator_set;
  this_node_index = position 0 this_key header.validator_set;
  timestamp = round_zero_timestamp;
  consensus_params = params;
  initial_block_candidate = 0;
}

-- `State::new`. Of the node's private key the source uses the public key only.
unfoldable pub new_state : BlockHeader → ConsensusParams → Timestamp → PublicKey → State
unfolding generate_height_info new_vetomint
new_state header params round_zero_timestamp this_key = record {
  vetomint = new_vetomint (generate_height_info header params round_zero_timestamp this_key);
  block_header = header;
  block_identifier_count = 0;
  verified_block_hashes = [];
  vetoed_block_hashes = [];
  to_be_processed_events = (ConsensusEvent.start, round_zero_timestamp) ∷ [];
  updated_events = [];
  messages_to_broadcast = [];
  precommits = [];
  finalized = none;
}

-- `assert_not_finalized` before the rest of an operation.
unfoldable pub unless_final : Op → Op
unless_final op s = elim s.finalized [ none ↦ op s | some _ ↦ panic ]

unfoldable pub get_block_index : Hash256 → State → Result Failure BlockIdentifier
unfolding map_get
get_block_index block_hash s = elim (map_get compare block_hash s.verified_block_hashes) [
  | none ↦ err block_not_verified
  | some index ↦ ok index
]

unfoldable pub get_validator_index : PublicKey → State → Result Failure ValidatorIndex
unfolding position
get_validator_index key s = elim (position 0 key s.block_header.validator_set) [
  | none ↦ err validator_not_found
  | some index ↦ ok index
]

-- `expect`.
abbrev pub expect : {A : Type 0} → Result Failure A → Result Failure A
expect (ok a) = ok a
expect (err _) = panic
expect panic = panic

-- The map has the key.
abbrev pub is_verified : Hash256 → State → Bool
is_verified block_hash s = elim (map_get compare block_hash s.verified_block_hashes) [
  | none ↦ false
  | some _ ↦ true
]

-- `register_verified_block_hash` past its first line.
unfoldable pub enter_block_hash : Hash256 → State → State
unfolding map_insert add_u64
enter_block_hash block_hash s = if is_verified block_hash s then s else record s {
  verified_block_hashes =
      map_insert compare block_hash s.block_identifier_count s.verified_block_hashes;
  block_identifier_count = add_u64 s.block_identifier_count 1;
}

unfoldable pub register_verified_block_hash : Hash256 → Op
unfolding unless_final enter_block_hash
register_verified_block_hash block_hash = unless_final (λ s. ok (enter_block_hash block_hash s))

-- `to_be_processed_events.push`.
abbrev pub push_event : ConsensusEvent → Timestamp → State → State
push_event event timestamp s = record s {
  to_be_processed_events = s.to_be_processed_events ++ (event, timestamp) ∷ [];
}

unfoldable pub set_proposal_candidate : Hash256 → Timestamp → Op
unfolding unless_final get_block_index
set_proposal_candidate block_hash timestamp = unless_final (λ s. do
  index ← get_block_index block_hash s
  ok (push_event (ConsensusEvent.block_candidate_updated index) timestamp s))

unfoldable pub veto_block : Hash256 → Op
unfolding unless_final set_insert
veto_block block_hash = unless_final (λ s.
    ok (record s { vetoed_block_hashes = set_insert compare block_hash s.vetoed_block_hashes }))

unfoldable pub veto_round : ConsensusRound → Timestamp → Op
unfolding unless_final
veto_round round timestamp =
    unless_final (λ s. ok (push_event (ConsensusEvent.skip_round round) timestamp s))

unfoldable pub is_consensus_message_acceptable : ConsensusMessage → State → Bool
unfolding map_get
is_consensus_message_acceptable (ConsensusMessage.proposal _ _ block_hash) s =
    is_verified block_hash s
is_consensus_message_acceptable (ConsensusMessage.non_nil_pre_voted _ block_hash) s =
    is_verified block_hash s
is_consensus_message_acceptable (ConsensusMessage.non_nil_pre_committed _ block_hash) s =
    is_verified block_hash s
is_consensus_message_acceptable _ s = true

unfoldable pub convert_consensus_message_to_event :
    ConsensusMessage → ValidatorIndex → State → Result Failure ConsensusEvent
unfolding get_block_index set_contains
convert_consensus_message_to_event (ConsensusMessage.proposal round valid_round block_hash) signer
      s =
    do
      index ← expect (get_block_index block_hash s)
      ok (
          ConsensusEvent.block_proposal_received index true valid_round signer round
            (not (set_contains compare block_hash s.vetoed_block_hashes)))
convert_consensus_message_to_event (ConsensusMessage.non_nil_pre_voted round block_hash) signer s =
    do
      index ← expect (get_block_index block_hash s)
      ok (ConsensusEvent.prevote (some index) signer round)
convert_consensus_message_to_event (ConsensusMessage.non_nil_pre_committed round block_hash) signer
      s =
    do
      index ← expect (get_block_index block_hash s)
      ok (ConsensusEvent.precommit (some index) signer round)
convert_consensus_message_to_event (ConsensusMessage.nil_pre_voted round) signer s =
    ok (ConsensusEvent.prevote none signer round)
convert_consensus_message_to_event (ConsensusMessage.nil_pre_committed round) signer s =
    ok (ConsensusEvent.precommit none signer round)

abbrev pub or_empty : Option (List TypedSignature) → List TypedSignature
or_empty none = []
or_empty (some signatures) = signatures

-- `entry((block_hash, round)).and_modify(|v| v.push(x)).or_insert(vec![x])`.
unfoldable pub collect : ConsensusMessage → PublicKey → Signature → State → State
unfolding map_get map_insert
collect (ConsensusMessage.non_nil_pre_committed round block_hash) author signature s = record s {
  precommits =
      map_insert compare_block_round (block_hash, round)
        (or_empty (map_get compare_block_round (block_hash, round) s.precommits)
          ++ record { signature = signature; signer = author } ∷ [])
        s.precommits;
}
collect _ author signature s = s

abbrev pub Incoming : Type 0
Incoming = ConsensusMessage × PublicKey × Signature

-- One turn of the loop of `add_consensus_messages`.
unfoldable pub add_consensus_message : Incoming → Timestamp → Op
unfolding is_consensus_message_acceptable convert_consensus_message_to_event get_validator_index
    collect
add_consensus_message (message, author, signature) timestamp s =
    if not (is_consensus_message_acceptable message s) then ok s else (do
      signer ← expect (get_validator_index author s)
      event ← convert_consensus_message_to_event message signer s
      ok (
          if any (event_eq event) s.updated_events
          then s
          else collect message author signature (push_event event timestamp s)))

unfoldable pub add_all : List Incoming → Timestamp → Op
unfolding add_consensus_message
add_all [] timestamp s = ok s
add_all (m ∷ messages) timestamp s =
    add_consensus_message m timestamp s >>= add_all messages timestamp

unfoldable pub add_consensus_messages : List Incoming → Timestamp → Op
unfolding unless_final add_all
add_consensus_messages messages timestamp = unless_final (add_all messages timestamp)

unfoldable pub drain_messages_to_broadcast : State → Result Failure (List ConsensusMessage × State)
drain_messages_to_broadcast s = elim s.finalized [
  | some _ ↦ panic
  | none ↦ ok (s.messages_to_broadcast, record s { messages_to_broadcast = [] })
]
