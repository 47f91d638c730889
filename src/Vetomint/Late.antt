-- ===== src/Vetomint/Late.antt =====
-- vetomint/src/progress.rs: the handlers of early termination and of precommits.
use simperby.Base.{
  not, ◌&&◌, Option, none, some, List, [], ◌∷◌, ◌==◌, if◌then◌else◌, map, compare, select,
}
use mathlib.Core.Option
use simperby.Base.Int.{pos}
use simperby.Base.Word.{add_u64}
use simperby.Base.Ordered.{set_insert, set_contains, map_get}
use simperby.Vetomint.Types.{
  BlockIdentifier, Round, Timestamp, Vote, ConsensusStep, broadcast_precommit, finalize_block,
  ValidatorIndex,
}
use simperby.Vetomint.Monad.{Handler, nothing, and_also}
use simperby.Vetomint.Proposer.{decide_proposer}
use simperby.Vetomint.Handlers.{two_thirds, five_sixths, is_prevote, compare_schedule, start_round}
use simperby.Vetomint.Tally.{
  get_total_prevotes, get_total_precommits, get_total_prevotes_on_proposal,
  get_total_precommits_on_proposal, get_total_precommits_on_nil, in_round_on,
}

unfoldable pub on_5f_prevote : Round → Option BlockIdentifier → Handler
on_5f_prevote target_round target_proposal s =
    if not (target_round == s.round)
    then nothing s
    else elim (and_also (is_prevote s.step)
        (Option.map (five_sixths s) (get_total_prevotes s target_round))) [
          | none ↦ none
          | some counted ↦
              if counted
              then (elim target_proposal [
                | none ↦ some (
                  broadcast_precommit none target_round ∷ [],
                  record s { step = ConsensusStep.precommit },
                )
                | some proposal ↦
                    elim (Option.map (two_thirds s)
                      (get_total_prevotes_on_proposal s target_round proposal)) [
                        | none ↦ none
                        | some agreed ↦
                            if agreed
                            then some (
                              broadcast_precommit (some proposal) s.round ∷ [],
                              record s { step = ConsensusStep.precommit },
                            )
                            else some (
                              broadcast_precommit none target_round ∷ [],
                              record s { step = ConsensusStep.precommit },
                            )
                      ]
              ])
              else nothing s
        ]

-- The timeout is the constant 1000, not 1000 after the current time.
unfoldable pub on_5f_precommit : Round → Handler
unfolding set_insert set_contains
on_5f_precommit target_round s =
    if not (target_round == s.round)
    then nothing s
    else elim (and_also (not (set_contains compare target_round s.for_the_first_time_2))
        (Option.map (five_sixths s) (get_total_precommits s target_round))) [
          | none ↦ none
          | some counted ↦
              if counted
              then some (
                [],
                record s {
                  for_the_first_time_2 = set_insert compare target_round s.for_the_first_time_2;
                  precommit_timeout_schedules =
                      set_insert compare_schedule (target_round, pos 1000)
                        s.precommit_timeout_schedules;
                },
              )
              else nothing s
        ]

unfoldable pub on_4f_nil_precommit : Round → Timestamp → Handler
unfolding add_u64
on_4f_nil_precommit target_round timestamp s =
    if not (target_round == s.round)
    then nothing s
    else elim (Option.map (two_thirds s) (get_total_precommits_on_nil s target_round)) [
      | none ↦ none
      | some counted ↦
          if counted then start_round (add_u64 target_round 1) timestamp s else nothing s
    ]

-- The signers of the precommits for a block in a round.
abbrev pub proof_of : List Vote → Round → BlockIdentifier → List ValidatorIndex
proof_of votes round proposal =
    map (λ vote. vote.signer) (select (in_round_on round proposal) votes)

unfoldable pub on_4f_non_nil_precommit : Round → BlockIdentifier → Handler
on_4f_non_nil_precommit target_round target_proposal s =
    elim (decide_proposer target_round s.height_info) [
      | none ↦ none
      | some valid_proposer ↦ elim (map_get compare target_proposal s.proposals) [
        | none ↦ nothing s
        | some proposal ↦
            elim (and_also (proposal.proposer == valid_proposer && proposal.valid) (
              Option.map (two_thirds s)
                (get_total_precommits_on_proposal s target_round target_proposal))) [
                  | none ↦ none
                  | some counted ↦
                      let proof = proof_of s.precommits target_round target_proposal in
                      if counted
                      then some (
                        finalize_block target_proposal target_round proof ∷ [],
                        record s { finalized = some (target_proposal, proof, target_round) },
                      )
                      else nothing s
                ]
      ]
    ]
