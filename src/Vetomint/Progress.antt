-- ===== src/Vetomint/Progress.antt =====
-- vetomint/src/progress.rs: `progress`, one event on the state.
use simperby.Base.{false, ◌&&◌, Option, none, some, List, [], ◌∷◌, ◌==◌, if◌then◌else◌, compare}
use simperby.Base.Int.{leb_ℤ}
use simperby.Base.Word.{add_u64}
use simperby.Base.Ordered.{set_insert, map_insert}
use simperby.Vetomint.Types.{
  BlockIdentifier, Round, Timestamp, Vote, compare_vote, Proposal, ConsensusStep, ConsensusResponse,
  broadcast_prevote, finalize_block, ConsensusEvent, ConsensusState,
}
use simperby.Vetomint.Monad.{Handler, modify, nothing, ◌>>◌, ◌then_extend◌}
use simperby.Vetomint.Handlers.{
  is_propose, start_round, on_proposal, on_4f_non_nil_prevote_in_propose_step,
  on_4f_non_nil_prevote_in_prevote_step, on_4f_nil_prevote,
}
use simperby.Vetomint.Late.{
  on_5f_prevote, on_5f_precommit, on_4f_nil_precommit, on_4f_non_nil_precommit,
}
use simperby.Vetomint.Misbehavior.{check_double_prevote, check_double_precommit}

-- A state that has finalized a block answers every event with that block.
unfoldable pub unless_finalized : Handler → Handler
unless_finalized handler s = elim s.finalized [
  | some (proposal, proof, round) ↦ some (finalize_block proposal round proof ∷ [], s)
  | none ↦ handler s
]

-- `state.proposals.insert(proposal, …)`.
unfoldable pub insert_proposal : Proposal → ConsensusState → ConsensusState
unfolding map_insert
insert_proposal p s = record s { proposals = map_insert compare p.proposal p s.proposals }

unfoldable pub insert_prevote : Vote → ConsensusState → ConsensusState
unfolding set_insert
insert_prevote vote s = record s { prevotes = set_insert compare_vote vote s.prevotes }

unfoldable pub insert_precommit : Vote → ConsensusState → ConsensusState
unfolding set_insert
insert_precommit vote s = record s { precommits = set_insert compare_vote vote s.precommits }

-- `if valid_round.is_some() { … } else { … }`.
abbrev pub on_received : Option Round → Round → BlockIdentifier → Handler
on_received (some _) round proposal = on_4f_non_nil_prevote_in_propose_step round proposal
on_received none round proposal = on_proposal round proposal

unfoldable pub receive_proposal : Proposal → Handler
unfolding insert_proposal
receive_proposal p =
    modify (insert_proposal p)
    >> (on_received p.valid_round p.round p.proposal
        then_extend on_4f_non_nil_prevote_in_prevote_step p.round p.proposal
        then_extend on_4f_non_nil_precommit p.round p.proposal)

-- The proposal that stands for a skipped round.
abbrev pub skipping : Round → Proposal
skipping round = record {
  proposal = 0;
  valid = false;
  valid_round = none;
  round = round;
  proposer = 0;
  favor = false;
}

-- `response.extend(check(state))`, for a check that only reads the state.
abbrev pub reporting : (ConsensusState → List ConsensusResponse) → Handler
reporting check s = some (check s, s)

abbrev pub after_prevote : Option BlockIdentifier → Round → Handler
after_prevote none round = on_4f_nil_prevote round
after_prevote (some proposal) round =
    on_4f_non_nil_prevote_in_propose_step round proposal
    then_extend on_4f_non_nil_prevote_in_prevote_step round proposal

unfoldable pub receive_prevote : Vote → Handler
unfolding insert_prevote
receive_prevote vote =
    modify (insert_prevote vote)
    >> (after_prevote vote.proposal vote.round
        then_extend on_5f_prevote vote.round vote.proposal
        then_extend reporting (λ s. check_double_prevote s vote.round))

abbrev pub after_precommit : Option BlockIdentifier → Round → Handler
after_precommit none round = nothing
after_precommit (some proposal) round = on_4f_non_nil_precommit round proposal

unfoldable pub receive_precommit : Vote → Timestamp → Handler
unfolding insert_precommit
receive_precommit vote timestamp =
    modify (insert_precommit vote)
    >> (on_5f_precommit vote.round
        then_extend on_4f_nil_precommit vote.round timestamp
        then_extend after_precommit vote.proposal vote.round
        then_extend reporting (λ s. check_double_precommit s vote.round))

-- The body of the loop over the propose timeouts.
unfoldable pub propose_timeout : Round × Timestamp → Timestamp → Handler
propose_timeout (round, timeout) timestamp s =
    if leb_ℤ timeout timestamp && (round == s.round && is_propose s.step)
    then some (broadcast_prevote none round ∷ [], record s { step = ConsensusStep.prevote })
    else nothing s

unfoldable pub propose_timeouts : List (Round × Timestamp) → Timestamp → Handler
unfolding propose_timeout
propose_timeouts [] timestamp = nothing
propose_timeouts (schedule ∷ schedules) timestamp =
    propose_timeout schedule timestamp then_extend propose_timeouts schedules timestamp

-- The loop over the precommit timeouts ends at the first that has passed in this round.
unfoldable pub precommit_timeouts : List (Round × Timestamp) → Timestamp → Handler
unfolding add_u64
precommit_timeouts [] timestamp s = nothing s
precommit_timeouts ((round, timeout) ∷ schedules) timestamp s =
    let rest = precommit_timeouts schedules timestamp s in
    if leb_ℤ timeout timestamp && round == s.round
    then start_round (add_u64 round 1) timestamp s
    else rest

unfoldable pub on_timer : Timestamp → Handler
unfolding propose_timeouts precommit_timeouts
on_timer timestamp s =
    (propose_timeouts s.propose_timeout_schedules timestamp
        then_extend precommit_timeouts s.precommit_timeout_schedules timestamp)
      s

unfoldable pub dispatch : ConsensusEvent → Timestamp → Handler
unfolding unless_finalized receive_proposal receive_prevote receive_precommit on_timer
dispatch ConsensusEvent.start timestamp = start_round 0 timestamp
dispatch (ConsensusEvent.block_proposal_received proposal valid valid_round proposer round favor)
      timestamp =
    receive_proposal (record {
      proposal = proposal;
      valid = valid;
      valid_round = valid_round;
      round = round;
      proposer = proposer;
      favor = favor;
    })
dispatch (ConsensusEvent.skip_round round) timestamp =
    unless_finalized (receive_proposal (skipping round))
dispatch (ConsensusEvent.block_candidate_updated proposal) timestamp =
    modify (λ s. record s { block_candidate = proposal }) >> nothing
dispatch (ConsensusEvent.prevote proposal signer round) timestamp =
    receive_prevote (record { proposal = proposal; signer = signer; round = round })
dispatch (ConsensusEvent.precommit proposal signer round) timestamp =
    receive_precommit (record { proposal = proposal; signer = signer; round = round }) timestamp
dispatch ConsensusEvent.timer timestamp = on_timer timestamp

unfoldable pub progress : ConsensusEvent → Timestamp → Handler
unfolding unless_finalized dispatch
progress event timestamp = unless_finalized (dispatch event timestamp)
