-- ===== src/Consensus/Progress.antt =====
-- consensus/src/state.rs: `State::progress`. The fuel is that of `Vetomint::progress` for one event.
use simperby.Base.{ℕ, Option, none, some, List, [], ◌∷◌, ◌++◌, ◌==◌, if◌then◌else◌, any, get_elem?}
use mathlib.Core.List.{reverse}
use simperby.Base.Ordered.{map_get}
use simperby.Vetomint.Types.{
  BlockIdentifier, ConsensusEvent, ConsensusResponse, broadcast_proposal, broadcast_prevote,
  broadcast_precommit, finalize_block, violation_report,
}
use simperby.Vetomint.Feedback.{Vetomint, Outcome, finished, panicked, exhausted, vetomint_progress}
use simperby.Core.Types.{Hash256, Timestamp}
use simperby.Core.Result.{Result, ok, err, panic, ◌>>=◌}
use simperby.Consensus.Types.{
  ConsensusMessage, ProgressResult, Finalization, compare_block_round, State, Failure, out_of_fuel,
  event_eq,
}
use simperby.Consensus.State.{push_event}

-- `iter().find(|(_, &v)| v == index)`.
unfoldable pub hash_of : BlockIdentifier → List (Hash256 × BlockIdentifier) → Option Hash256
hash_of index [] = none
hash_of index ((h, v) ∷ rest) = if v == index then some h else hash_of index rest

-- `get_block_hash`, whose failure panics.
unfoldable pub get_block_hash : State → BlockIdentifier → Result Failure Hash256
unfolding hash_of
get_block_hash s index = elim (hash_of index s.verified_block_hashes) [
  | none ↦ panic
  | some block_hash ↦ ok block_hash
]

abbrev pub Told : Type 0
Told = ProgressResult × Option ConsensusMessage

abbrev pub unwrap : {A : Type 0} → Option A → Result Failure A
unwrap none = panic
unwrap (some a) = ok a

unfoldable pub process_consensus_response_to_progress_result :
    ConsensusResponse → Timestamp → State → Result Failure (Told × State)
unfolding get_block_hash map_get
process_consensus_response_to_progress_result (broadcast_proposal proposal valid_round round)
      timestamp s =
    do
      block_hash ← get_block_hash s proposal
      ok (
        (
          ProgressResult.proposed round block_hash timestamp,
          some (ConsensusMessage.proposal round valid_round block_hash),
        ),
        s,
      )
process_consensus_response_to_progress_result (broadcast_prevote (some index) round) timestamp s =
    do
      block_hash ← get_block_hash s index
      ok (
        (
          ProgressResult.non_nil_pre_voted round block_hash timestamp,
          some (ConsensusMessage.non_nil_pre_voted round block_hash),
        ),
        s,
      )
process_consensus_response_to_progress_result (broadcast_prevote none round) timestamp s =
    ok (
      (ProgressResult.nil_pre_voted round timestamp, some (ConsensusMessage.nil_pre_voted round)),
      s,
    )
process_consensus_response_to_progress_result (broadcast_precommit (some index) round) timestamp s =
    do
      block_hash ← get_block_hash s index
      ok (
        (
          ProgressResult.non_nil_pre_committed round block_hash timestamp,
          some (ConsensusMessage.non_nil_pre_committed round block_hash),
        ),
        s,
      )
process_consensus_response_to_progress_result (broadcast_precommit none round) timestamp s = ok (
  (
    ProgressResult.nil_pre_committed round timestamp,
    some (ConsensusMessage.nil_pre_committed round),
  ),
  s,
)
process_consensus_response_to_progress_result (finalize_block proposal round _) timestamp s = do
  block_hash ← get_block_hash s proposal
  signatures ← unwrap (map_get compare_block_round (block_hash, round) s.precommits)
  let finalization : Finalization = record {
    block_hash = block_hash;
    timestamp = timestamp;
    proof = record { round = round; signatures = signatures };
  }
  ok ((ProgressResult.finalized finalization, none), record s { finalized = some finalization })
process_consensus_response_to_progress_result (violation_report violator misbehavior) timestamp s =
    do
      validator ← unwrap (get_elem? s.block_header.validator_set violator)
      ok ((ProgressResult.violation_reported validator.0 misbehavior timestamp, none), s)

-- `if let Some(message) = message { self.messages_to_broadcast.push(message) }`.
abbrev pub push_message : Option ConsensusMessage → State → State
push_message none s = s
push_message (some message) s = record s {
  messages_to_broadcast = s.messages_to_broadcast ++ message ∷ [];
}

abbrev pub Progressed : Type 0
Progressed = Result Failure (List ProgressResult × State)

-- The loop over the responses.
unfoldable pub tell_all : List ConsensusResponse → Timestamp → State → Progressed
unfolding process_consensus_response_to_progress_result
tell_all [] timestamp s = ok ([], s)
tell_all (r ∷ responses) timestamp s = do
  ((x, message), t) ← process_consensus_response_to_progress_result r timestamp s
  (xs, u) ← tell_all responses timestamp (push_message message t)
  ok (x ∷ xs, u)

-- `self.vetomint.progress(event)`, with what the machine answers.
abbrev pub machine_answer : Outcome → Result Failure (List ConsensusResponse × Vetomint)
machine_answer (finished responses state) = ok (responses, record { state = state })
machine_answer panicked = panic
machine_answer (exhausted _) = err out_of_fuel

-- `self.updated_events.insert(event)`.
abbrev pub note_event : ConsensusEvent → State → State
note_event event s =
    if any (event_eq event) s.updated_events
    then s
    else record s { updated_events = event ∷ s.updated_events }

-- The loop over the events, in the order in which they are popped.
unfoldable pub process_all : ℕ → List (ConsensusEvent × Timestamp) → State → Progressed
unfolding vetomint_progress tell_all
process_all fuel [] s = ok ([], s)
process_all fuel ((event, timestamp) ∷ events) s = do
  (responses, vetomint) ← machine_answer (vetomint_progress fuel event timestamp s.vetomint)
  (told, t) ← tell_all responses timestamp (note_event event (record s { vetomint = vetomint }))
  (rest, u) ← process_all fuel events t
  ok (told ++ rest, u)

-- `pop` takes the last event first. No event is pushed meanwhile, so that the list is empty after it.
unfoldable pub progress_state : ℕ → Timestamp → State → Progressed
unfolding process_all
progress_state fuel timestamp s = elim s.finalized [
  | some _ ↦ panic
  | none ↦
      let t = push_event ConsensusEvent.timer timestamp s in
      process_all fuel (reverse t.to_be_processed_events) (record t { to_be_processed_events = [] })
]
