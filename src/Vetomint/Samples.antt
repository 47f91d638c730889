-- ===== src/Vetomint/Samples.antt =====
-- Small inputs for the consensus state machine, after vetomint/tests/test_suite1.rs.
use simperby.Base.{ℕ, true, Option, none, some, List, [], ◌∷◌}
use simperby.Base.Int.{pos}
use simperby.Base.Word.{add_u64, mul_u64, as_i64, add_i64, sum_u64}
use simperby.Base.Ordered.{set_insert, set_contains, map_get, map_insert}
use simperby.Vetomint.Types.{
  Timestamp, HeightInfo, ConsensusEvent, ConsensusResponse, ConsensusState, new,
}
use simperby.Vetomint.Monad.{◌then_extend◌}
use simperby.Vetomint.Proposer.{decide_proposer, decide_timeout}
use simperby.Vetomint.Tally.{
  tally, get_total_voting_power, get_total_prevotes, get_total_precommits,
  get_total_prevotes_on_proposal, get_total_precommits_on_proposal, get_total_prevotes_on_nil,
  get_total_precommits_on_nil,
}
use simperby.Vetomint.Misbehavior.{check_double_prevote, check_double_precommit}
use simperby.Vetomint.Handlers.{
  two_thirds, five_sixths, start_round, on_proposal, on_4f_non_nil_prevote_in_propose_step,
  on_4f_non_nil_prevote_in_prevote_step, on_4f_nil_prevote,
}
use simperby.Vetomint.Late.{
  on_5f_prevote, on_5f_precommit, on_4f_nil_precommit, on_4f_non_nil_precommit,
}
use simperby.Vetomint.Progress.{progress}
use simperby.Vetomint.Feedback.{vetomint_progress}
use simperby.Vetomint.Votes.{run}

-- Opens all that a run computes with.
unfoldable pub machine : Unit {0}
unfolding run vetomint_progress progress ◌then_extend◌ new decide_proposer decide_timeout tally
    get_total_voting_power get_total_prevotes get_total_precommits get_total_prevotes_on_proposal
    get_total_precommits_on_proposal get_total_prevotes_on_nil get_total_precommits_on_nil
    check_double_prevote check_double_precommit two_thirds five_sixths start_round on_proposal
    on_4f_non_nil_prevote_in_propose_step on_4f_non_nil_prevote_in_prevote_step on_4f_nil_prevote
    on_5f_prevote on_5f_precommit on_4f_nil_precommit on_4f_non_nil_precommit set_insert
    set_contains map_get map_insert add_u64 mul_u64 as_i64 add_i64 sum_u64
machine = tt

-- Four equal validators; this node is the given one.
abbrev pub four : Option ℕ → HeightInfo
four this = record {
  validators = 1 ∷ 1 ∷ 1 ∷ 1 ∷ [];
  this_node_index = this;
  timestamp = pos 0;
  consensus_params = record { timeout_ms = 1000; repeat_round_for_first_leader = 1 };
  initial_block_candidate = 0;
}

abbrev pub proposed : ConsensusEvent
proposed = ConsensusEvent.block_proposal_received 0 true none 0 0 true

-- The leader proposes block 0, three prevote it, and three precommit it.
abbrev pub voting : List (ConsensusEvent × Timestamp)
voting =
    (proposed, pos 1)
    ∷ (ConsensusEvent.prevote (some 0) 0 0, pos 2)
    ∷ (ConsensusEvent.prevote (some 0) 1 0, pos 3)
    ∷ (ConsensusEvent.prevote (some 0) 2 0, pos 4)
    ∷ (ConsensusEvent.precommit (some 0) 0 0, pos 5)
    ∷ (ConsensusEvent.precommit (some 0) 1 0, pos 6)
    ∷ (ConsensusEvent.precommit (some 0) 2 0, pos 7)
    ∷ []

abbrev pub deciding : List (ConsensusEvent × Timestamp)
deciding = (ConsensusEvent.start, pos 0) ∷ voting

abbrev pub Answer : Type 0
Answer = Option (List ConsensusResponse × ConsensusState)

abbrev pub state_of : Answer → ConsensusState
unfolding new
state_of none = new (four none)
state_of (some (_, s)) = s

abbrev pub responses_of : Answer → List ConsensusResponse
responses_of none = []
responses_of (some (rs, _)) = rs

abbrev pub ready : ConsensusState
ready = state_of (run ((ConsensusEvent.start, pos 0) ∷ []) (new (four (some 0))))
