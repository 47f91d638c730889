-- ===== src/Vetomint/Handlers.antt =====
-- vetomint/src/progress.rs: the handlers of the state machine.
use simperby.Base.{
  ℕ, ◌+◌, Bool, true, false, not, ◌&&◌, ◌||◌, Option, none, some, [], ◌∷◌, ltb, ◌==◌, if◌then◌else◌,
  compare, Ordering,
}
use mathlib.Core.Option
use simperby.Base.Int.{ℤ, negsuc, ltb_ℤ, ◌==ℤ◌, pos_part, neg_part}
use simperby.Base.Word.{mul_u64, as_i64, add_i64}
use simperby.Base.Ordered.{then_cmp, set_insert, map_get}
use simperby.Vetomint.Types.{
  BlockIdentifier, Round, VotingPower, Timestamp, ConsensusStep, broadcast_proposal,
  broadcast_prevote, broadcast_precommit, ConsensusState,
}
use simperby.Vetomint.Monad.{Handler, nothing, and_also}
use simperby.Vetomint.Proposer.{decide_proposer, decide_timeout}
use simperby.Vetomint.Tally.{
  get_total_voting_power, get_total_prevotes_on_proposal, get_total_prevotes_on_nil, is_some_eq,
  is_none,
}

abbrev pub is_propose : ConsensusStep → Bool
is_propose ConsensusStep.propose = true
is_propose _ = false

abbrev pub is_prevote : ConsensusStep → Bool
is_prevote ConsensusStep.prevote = true
is_prevote _ = false

abbrev pub is_precommit : ConsensusStep → Bool
is_precommit ConsensusStep.precommit = true
is_precommit _ = false

-- `power * 3 > total * 2`, on `u64`.
unfoldable pub two_thirds : ConsensusState → VotingPower → Bool
unfolding mul_u64
two_thirds s power = ltb (mul_u64 (get_total_voting_power s) 2) (mul_u64 power 3)

-- `power * 6 > total * 5`, on `u64`.
unfoldable pub five_sixths : ConsensusState → VotingPower → Bool
unfolding mul_u64
five_sixths s power = ltb (mul_u64 (get_total_voting_power s) 5) (mul_u64 power 6)

-- `None` is taken as -1.
abbrev pub or_minus_one : Option ℕ → ℤ
or_minus_one none = negsuc 0
or_minus_one (some x) = as_i64 x

-- The order of the pairs of a round and a time.
abbrev pub compare_schedule : Round × Timestamp → Round × Timestamp → Ordering
compare_schedule (r, t) (r', t') =
    then_cmp (compare r r') (compare (pos_part t + neg_part t') (pos_part t' + neg_part t))

abbrev pub proposal_or : Option BlockIdentifier → BlockIdentifier → BlockIdentifier
proposal_or none candidate = candidate
proposal_or (some x) _ = x

unfoldable pub start_round : Round → Timestamp → Handler
unfolding decide_proposer decide_timeout add_i64 set_insert
start_round round timestamp s = elim (decide_proposer round s.height_info) [
  | none ↦ none
  | some proposer ↦
      if is_some_eq s.height_info.this_node_index proposer
      then some (
        broadcast_proposal (proposal_or s.valid_value s.block_candidate) s.valid_round round ∷ [],
        record s { round = round; step = ConsensusStep.propose },
      )
      else some (
        [],
        record s {
          round = round;
          step = ConsensusStep.propose;
          propose_timeout_schedules =
              set_insert compare_schedule
                (round, add_i64 timestamp (decide_timeout s.height_info.consensus_params round))
                s.propose_timeout_schedules;
        },
      )
]

unfoldable pub on_proposal : Round → BlockIdentifier → Handler
on_proposal target_round target_proposal s =
    if not (target_round == s.round)
    then nothing s
    else elim (decide_proposer target_round s.height_info) [
      | none ↦ none
      | some valid_proposer ↦ elim (map_get compare target_proposal s.proposals) [
        | none ↦ nothing s
        | some proposal ↦
            if not (is_none proposal.valid_round)
            then nothing s
            else if proposal.proposer == valid_proposer && is_propose s.step
            then (if proposal.valid
                  && (or_minus_one s.locked_value ==ℤ as_i64 target_proposal
                      || (proposal.favor && or_minus_one s.locked_round ==ℤ negsuc 0))
                then some (
                  broadcast_prevote (some target_proposal) target_round ∷ [],
                  record s { step = ConsensusStep.prevote },
                )
                else some (
                  broadcast_prevote none target_round ∷ [],
                  record s { step = ConsensusStep.prevote },
                ))
            else nothing s
      ]
    ]

unfoldable pub on_4f_non_nil_prevote_in_propose_step : Round → BlockIdentifier → Handler
on_4f_non_nil_prevote_in_propose_step target_round target_proposal s =
    if not (target_round == s.round)
    then nothing s
    else elim (decide_proposer target_round s.height_info) [
      | none ↦ none
      | some valid_proposer ↦ elim (map_get compare target_proposal s.proposals) [
        | none ↦ nothing s
        | some proposal ↦ elim proposal.valid_round [
          | none ↦ nothing s
          | some vr ↦
              elim (and_also (proposal.proposer == valid_proposer)
                (Option.map (two_thirds s) (get_total_prevotes_on_proposal s vr target_proposal))) [
                  | none ↦ none
                  | some counted ↦
                      if counted && (is_propose s.step && ltb vr target_round)
                      then (if proposal.valid
                            && ((proposal.favor && ltb_ℤ (or_minus_one s.locked_round) (as_i64 vr))
                                || or_minus_one s.locked_value ==ℤ as_i64 proposal.proposal)
                          then some (
                            broadcast_prevote (some target_proposal) target_round ∷ [],
                            record s { step = ConsensusStep.prevote },
                          )
                          else some (
                            broadcast_prevote none target_round ∷ [],
                            record s { step = ConsensusStep.prevote },
                          ))
                      else nothing s
                ]
        ]
      ]
    ]

unfoldable pub on_4f_non_nil_prevote_in_prevote_step : Round → BlockIdentifier → Handler
on_4f_non_nil_prevote_in_prevote_step target_round target_proposal s =
    if not (target_round == s.round)
    then nothing s
    else elim (decide_proposer target_round s.height_info) [
      | none ↦ none
      | some valid_proposer ↦ elim (map_get compare target_proposal s.proposals) [
        | none ↦ nothing s
        | some proposal ↦
            elim (and_also (proposal.proposer == valid_proposer) (
              Option.map (two_thirds s)
                (get_total_prevotes_on_proposal s target_round target_proposal))) [
                  | none ↦ none
                  | some counted ↦
                      if counted && (proposal.valid && (is_prevote s.step || is_precommit s.step))
                      then (if is_prevote s.step
                          then some (
                            broadcast_precommit (some target_proposal) target_round ∷ [],
                            record s {
                              valid_value = some target_proposal;
                              valid_round = some target_round;
                              locked_value = some target_proposal;
                              locked_round = some target_round;
                              step = ConsensusStep.precommit;
                            },
                          )
                          else some (
                            [],
                            record s {
                              valid_value = some target_proposal;
                              valid_round = some target_round;
                            },
                          ))
                      else nothing s
                ]
      ]
    ]

unfoldable pub on_4f_nil_prevote : Round → Handler
on_4f_nil_prevote target_round s =
    if not (target_round == s.round)
    then nothing s
    else elim (and_also (is_prevote s.step)
        (Option.map (two_thirds s) (get_total_prevotes_on_nil s target_round))) [
          | none ↦ none
          | some counted ↦
              if counted
              then some (
                broadcast_precommit none s.round ∷ [],
                record s { step = ConsensusStep.precommit },
              )
              else nothing s
        ]
