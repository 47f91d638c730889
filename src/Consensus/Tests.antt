-- ===== src/Consensus/Tests.antt =====
-- A node with three other validators that agree on a block.
use simperby.Base.{◌+◌, ◌≡◌, refl, none, List, [], ◌∷◌, arith, In}
use native.Mathlib.Decide.{ℕ_discrete}
use mathlib.Core.Bool.{decide}
use mathlib.Core.List.{reverse}
use simperby.Base.Int.{pos}
use simperby.Vetomint.Types.{BlockIdentifier, ConsensusParams}
use simperby.Vetomint.Samples.{machine}
use simperby.Core.Types.{Hash256, PublicKey}
use simperby.Core.Verify.{verify_signatures}
use simperby.Core.Result.{Result, ok, err, panic}
use simperby.Core.Samples.{chain, toy, sign, first_header}
use simperby.Consensus.Types.{
  ConsensusMessage, ProgressResult, proposed, non_nil_pre_voted, Finalization, State, Failure,
  ConsensusEvent-discrete,
}
use simperby.Consensus.State.{
  Dms, signed_hash, verify_commitment, position, generate_height_info, new_state, unless_final,
  get_block_index, get_validator_index, enter_block_hash, register_verified_block_hash,
  is_consensus_message_acceptable, convert_consensus_message_to_event, collect, Incoming,
  add_consensus_message, add_all, add_consensus_messages,
}
use simperby.Consensus.Progress.{
  hash_of, get_block_hash, process_consensus_response_to_progress_result, tell_all, process_all,
  progress_state, Progressed,
}
use simperby.Consensus.Signed.{target}
use simperby.Consensus.Moves.{here, after, registers, hears, moves_on, Moves-verify_signatures}
use simperby.Consensus.Registered.{register_all, register_all-get_block_hash}

-- Opens all that a node computes with.
unfoldable node : Unit {0}
unfolding machine chain signed_hash verify_commitment position generate_height_info new_state
    unless_final get_block_index get_validator_index enter_block_hash register_verified_block_hash
    is_consensus_message_acceptable convert_consensus_message_to_event collect add_consensus_message
    add_all add_consensus_messages hash_of get_block_hash
    process_consensus_response_to_progress_result tell_all process_all progress_state
    ConsensusEvent-discrete ℕ_discrete decide reverse
node = tt

abbrev params : ConsensusParams
params = record { timeout_ms = 1000; repeat_round_for_first_leader = 1 }

abbrev toy_dms : Dms
toy_dms = record { message_hash = λ m. 5; key_hash = 6 }

abbrev started_at : PublicKey → State
unfolding node
started_at key = new_state first_header params (pos 0) key

abbrev state_or : State → Result Failure State → State
state_or s (ok t) = t
state_or s (err _) = s
state_or s panic = s

abbrev progressed_or : State → Progressed → List ProgressResult × State
progressed_or s (ok t) = t
progressed_or s (err _) = ([], s)
progressed_or s panic = ([], s)

-- A message with the signature of its author.
abbrev signed : PublicKey → ConsensusMessage → Incoming
unfolding node
signed key message = (message, key, signed_hash toy toy_dms message + key)

abbrev precommits : List Incoming
precommits =
    signed 20 (ConsensusMessage.non_nil_pre_committed 0 7)
    ∷ signed 30 (ConsensusMessage.non_nil_pre_committed 0 7)
    ∷ signed 40 (ConsensusMessage.non_nil_pre_committed 0 7)
    ∷ []

abbrev s1 : State
unfolding node
s1 = state_or (started_at 10) (register_verified_block_hash 7 (started_at 10))

abbrev s2 : List ProgressResult × State
unfolding node
s2 = progressed_or s1 (progress_state 10 (pos 1) s1)

-- The leader proposes the block and prevotes it.
leads : s2.0 ≡ proposed 0 7 (pos 0) ∷ non_nil_pre_voted 0 7 (pos 0) ∷ []
unfolding node
leads = refl

abbrev s3 : State
unfolding node
s3 = state_or s2.1 (add_consensus_messages precommits (pos 2) s2.1)

abbrev s4 : List ProgressResult × State
unfolding node
s4 = progressed_or s3 (progress_state 10 (pos 3) s3)

abbrev finalization : Finalization
unfolding node
finalization = record {
  block_hash = 7;
  timestamp = pos 2;
  proof = record {
    round = 0;
    signatures =
        sign 20 (target toy (7, 0))
        ∷ sign 30 (target toy (7, 0))
        ∷ sign 40 (target toy (7, 0))
        ∷ [];
  };
}

Moves-verify_signatures_example :
    verify_signatures toy (target toy (7, 0)) finalization.proof.signatures ≡ ok tt
unfolding node
Moves-verify_signatures_example =
    Moves-verify_signatures toy toy_dms 10 first_header params (pos 0) 10 s4.1 finalization
      (after
        (after (after (after here (registers 7 refl)) (moves_on (pos 1) s2.0 refl))
          (hears precommits (pos 2) (refl, (refl, (refl, tt))) refl))
        (moves_on (pos 3) s4.0 refl))
      refl

register_all-get_block_hash_example :
    (t : State) × (register_all (7 ∷ 5 ∷ 7 ∷ []) (new_state first_header params (pos 0) 10) ≡ ok t)
    × ((h : Hash256)
        → In h (7 ∷ 5 ∷ 7 ∷ [])
        → (i : BlockIdentifier) × (get_block_index h t ≡ ok i) × (get_block_hash t i ≡ ok h))
register_all-get_block_hash_example =
    register_all-get_block_hash first_header params (pos 0) 10 (7 ∷ 5 ∷ 7 ∷ []) (omega arith)

-- A proposal that arrives before the first call of `progress` is processed before the start of the
-- round, and gets no prevote; after that call, it gets one.
abbrev s5 : State
unfolding node
s5 = state_or (started_at 20) (register_verified_block_hash 7 (started_at 20))

abbrev proposal : List Incoming
proposal = signed 10 (ConsensusMessage.proposal 0 none 7) ∷ []

early_proposal :
    (progressed_or s5
      (progress_state 10 (pos 2) (state_or s5 (add_consensus_messages proposal (pos 1) s5)))).0
    ≡ []
unfolding node
early_proposal = refl

abbrev s6 : State
unfolding node
s6 = (progressed_or s5 (progress_state 10 (pos 1) s5)).1

late_proposal :
    (progressed_or s6
      (progress_state 10 (pos 3) (state_or s6 (add_consensus_messages proposal (pos 2) s6)))).0
    ≡ non_nil_pre_voted 0 7 (pos 2) ∷ []
unfolding node
late_proposal = refl
