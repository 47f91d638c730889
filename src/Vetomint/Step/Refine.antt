-- ===== src/Vetomint/Step/Refine.antt =====
-- `progress` refines the abstract machine: it takes in what its event carries, and then steps.
use simperby.Base.{◌≡◌, Option, none, some, List, arith, subst}
use simperby.Vetomint.Types.{
  BlockIdentifier, Round, Timestamp, Vote, Proposal, ConsensusEvent, ConsensusResponse,
  ConsensusState,
}
use simperby.Vetomint.Monad.{Handler, ◌then_extend◌}
use simperby.Vetomint.Misbehavior.{check_double_prevote, check_double_precommit}
use simperby.Vetomint.Handlers.{
  on_4f_non_nil_prevote_in_propose_step, on_4f_non_nil_prevote_in_prevote_step,
}
use simperby.Vetomint.Late.{
  on_5f_prevote, on_5f_precommit, on_4f_nil_precommit, on_4f_non_nil_precommit,
}
use simperby.Vetomint.Progress.{
  insert_proposal, insert_prevote, insert_precommit, skipping, on_received, receive_proposal,
  reporting, after_prevote, receive_prevote, after_precommit, receive_precommit, dispatch, progress,
}
use simperby.Vetomint.Step.{Steps, Steps-more, Refines, one, idle, report, AreReports}
use simperby.Vetomint.Step.Voting.{
  on_proposal-Step, on_4f_non_nil_prevote_in_propose_step-Step,
  on_4f_non_nil_prevote_in_prevote_step-Step, on_4f_nil_prevote-Step, on_5f_prevote-Step,
}
use simperby.Vetomint.Step.Ending.{
  on_5f_precommit-Step, on_4f_nil_precommit-Refines, on_4f_non_nil_precommit-Step,
  check_double_prevote-AreReports, check_double_precommit-AreReports, then_extend-Refines,
  on_timer-Refines,
}

-- What an event adds to the state before any handler runs.
abbrev pub absorb : ConsensusEvent → ConsensusState → ConsensusState
absorb (ConsensusEvent.block_proposal_received proposal valid valid_round proposer round favor) s =
    insert_proposal
      (record {
        proposal = proposal;
        valid = valid;
        valid_round = valid_round;
        round = round;
        proposer = proposer;
        favor = favor;
      })
      s
absorb (ConsensusEvent.skip_round round) s = insert_proposal (skipping round) s
absorb (ConsensusEvent.block_candidate_updated proposal) s = record s { block_candidate = proposal }
absorb (ConsensusEvent.prevote proposal signer round) s =
    insert_prevote (record { proposal = proposal; signer = signer; round = round }) s
absorb (ConsensusEvent.precommit proposal signer round) s =
    insert_precommit (record { proposal = proposal; signer = signer; round = round }) s
absorb _ s = s

abbrev pub IsStart : ConsensusEvent → Type 0
IsStart ConsensusEvent.start = Unit
IsStart _ = ⊥

pub on_received-Refines :
    (v : Option Round) (round : Round) (p : BlockIdentifier) → Refines 0 (on_received v round p)
on_received-Refines none round p s rs t h = one (on_proposal-Step round p s rs t h)
on_received-Refines (some _) round p s rs t h =
    one (on_4f_non_nil_prevote_in_propose_step-Step round p s rs t h)

receive_proposal-Steps :
    (p : Proposal) (s : ConsensusState) (rs : List ConsensusResponse) (t : ConsensusState)
    → receive_proposal p s ≡ some (rs, t)
    → Steps 0 (insert_proposal p s) rs t
unfolding receive_proposal
receive_proposal-Steps p s rs t h =
    then_extend-Refines {i = 0} {j = 0} (on_received p.valid_round p.round p.proposal) _
      (on_received-Refines p.valid_round p.round p.proposal)
      (then_extend-Refines {i = 0} {j = 0}
        (on_4f_non_nil_prevote_in_prevote_step p.round p.proposal)
        (on_4f_non_nil_precommit p.round p.proposal)
        (λ u xs v e. one (on_4f_non_nil_prevote_in_prevote_step-Step p.round p.proposal u xs v e))
        (λ u xs v e. one (on_4f_non_nil_precommit-Step p.round p.proposal u xs v e)))
      (insert_proposal p s) rs t h

pub reporting-Refines :
    (check : ConsensusState → List ConsensusResponse)
    → ((s : ConsensusState) → AreReports (check s))
    → Refines 0 (reporting check)
reporting-Refines check sound s rs t h =
    one (report (subst AreReports (ground arith) (sound s)) (ground arith))

pub after_prevote-Refines :
    (p : Option BlockIdentifier) (round : Round) → Refines 0 (after_prevote p round)
after_prevote-Refines none round s rs t h = one (on_4f_nil_prevote-Step round s rs t h)
after_prevote-Refines (some p) round s rs t h =
    then_extend-Refines {i = 0} {j = 0} (on_4f_non_nil_prevote_in_propose_step round p)
      (on_4f_non_nil_prevote_in_prevote_step round p)
      (λ u xs v e. one (on_4f_non_nil_prevote_in_propose_step-Step round p u xs v e))
      (λ u xs v e. one (on_4f_non_nil_prevote_in_prevote_step-Step round p u xs v e)) s rs t h

receive_prevote-Steps :
    (vote : Vote) (s : ConsensusState) (rs : List ConsensusResponse) (t : ConsensusState)
    → receive_prevote vote s ≡ some (rs, t)
    → Steps 0 (insert_prevote vote s) rs t
unfolding receive_prevote
receive_prevote-Steps vote s rs t h =
    then_extend-Refines {i = 0} {j = 0} (after_prevote vote.proposal vote.round) _
      (after_prevote-Refines vote.proposal vote.round)
      (then_extend-Refines {i = 0} {j = 0} (on_5f_prevote vote.round vote.proposal)
        (reporting (λ u. check_double_prevote u vote.round))
        (λ u xs v e. one (on_5f_prevote-Step vote.round vote.proposal u xs v e))
        (reporting-Refines _ λ u. check_double_prevote-AreReports u vote.round))
      (insert_prevote vote s) rs t h

pub after_precommit-Refines :
    (p : Option BlockIdentifier) (round : Round) → Refines 0 (after_precommit p round)
after_precommit-Refines none round s rs t h = one (idle (ground arith) (ground arith))
after_precommit-Refines (some p) round s rs t h =
    one (on_4f_non_nil_precommit-Step round p s rs t h)

-- What `progress` does with a precommit after `on_5f_precommit`.
abbrev pub after_5f_precommit : Vote → Timestamp → Handler
after_5f_precommit vote now =
    on_4f_nil_precommit vote.round now
    then_extend after_precommit vote.proposal vote.round
    then_extend reporting (λ u. check_double_precommit u vote.round)

pub after_5f_precommit-Refines :
    (vote : Vote) (now : Timestamp) → Refines 1 (after_5f_precommit vote now)
after_5f_precommit-Refines vote now =
    then_extend-Refines {i = 1} {j = 0} (on_4f_nil_precommit vote.round now) _
      (on_4f_nil_precommit-Refines vote.round now)
      (then_extend-Refines {i = 0} {j = 0} (after_precommit vote.proposal vote.round)
        (reporting (λ u. check_double_precommit u vote.round))
        (after_precommit-Refines vote.proposal vote.round)
        (reporting-Refines _ λ u. check_double_precommit-AreReports u vote.round))

receive_precommit-Steps :
    (vote : Vote) (now : Timestamp) (s : ConsensusState) (rs : List ConsensusResponse)
    (t : ConsensusState)
    → receive_precommit vote now s ≡ some (rs, t)
    → Steps 1 (insert_precommit vote s) rs t
unfolding receive_precommit
receive_precommit-Steps vote now s rs t h =
    then_extend-Refines {i = 0} {j = 1} (on_5f_precommit vote.round) _
      (λ u xs v e. one (on_5f_precommit-Step vote.round u xs v e))
      (after_5f_precommit-Refines vote now) (insert_precommit vote s) rs t h

dispatch-Steps :
    (e : ConsensusEvent) (now : Timestamp) (s : ConsensusState) (rs : List ConsensusResponse)
    (t : ConsensusState)
    → ¬ IsStart e
    → s.finalized ≡ none
    → dispatch e now s ≡ some (rs, t)
    → Steps 1 (absorb e s) rs t
unfolding dispatch
dispatch-Steps ConsensusEvent.start now s rs t ns live h = absurd (ns tt)
dispatch-Steps (ConsensusEvent.block_proposal_received p v vr who round f) now s rs t ns live h =
    Steps-more 1 (receive_proposal-Steps _ s rs t h)
dispatch-Steps (ConsensusEvent.skip_round round) now s rs t ns live h =
    Steps-more 1 (receive_proposal-Steps (skipping round) s rs t (ground arith))
dispatch-Steps (ConsensusEvent.block_candidate_updated p) now s rs t ns live h =
    one (idle (ground arith) (ground arith))
dispatch-Steps (ConsensusEvent.prevote p who round) now s rs t ns live h =
    Steps-more 1 (receive_prevote-Steps _ s rs t h)
dispatch-Steps (ConsensusEvent.precommit p who round) now s rs t ns live h =
    receive_precommit-Steps _ now s rs t h
dispatch-Steps ConsensusEvent.timer now s rs t ns live h = on_timer-Refines now s rs t h

-- An event other than the start, on a state that has not finalized, has the effect of taking in
-- what the event carries and then some steps of the abstract machine, at most one of them into the next
-- round, with all of its responses.
pub progress-Steps :
    (e : ConsensusEvent) (now : Timestamp) (s : ConsensusState) (rs : List ConsensusResponse)
    (t : ConsensusState)
    → ¬ IsStart e
    → s.finalized ≡ none
    → progress e now s ≡ some (rs, t)
    → Steps 1 (absorb e s) rs t
unfolding progress
progress-Steps e now s rs t ns live h = dispatch-Steps e now s rs t ns live (ground arith)
