-- ===== src/Vetomint/Total.antt =====
-- `progress` in vetomint/src/progress.rs answers every event, and keeps the state well formed.
use simperby.Base.{
  ◌<◌, ◌≡◌, ◌≢◌, Option, none, some, List, [], ◌∷◌, arith, length, inl, inr, Option-cases, sym, ◌∙◌,
}
use simperby.Base.Word.{add_u64}
use simperby.Base.Ordered.{set_insert-All}
use simperby.Vetomint.Types.{
  BlockIdentifier, Round, Timestamp, Vote, compare_vote, Proposal, ConsensusEvent,
  ConsensusResponse, finalize_block, ConsensusState,
}
use simperby.Vetomint.Misbehavior.{check_double_prevote, check_double_precommit}
use simperby.Vetomint.Handlers.{
  on_4f_non_nil_prevote_in_propose_step, on_4f_non_nil_prevote_in_prevote_step,
}
use simperby.Vetomint.Late.{
  on_5f_prevote, on_5f_precommit, on_4f_nil_precommit, on_4f_non_nil_precommit,
}
use simperby.Vetomint.Progress.{
  insert_proposal, insert_prevote, insert_precommit, skipping, on_received, receive_proposal,
  reporting, after_prevote, receive_prevote, after_precommit, receive_precommit, propose_timeout,
  propose_timeouts, precommit_timeouts, unless_finalized, dispatch, progress,
}
use simperby.Vetomint.Step.{one}
use simperby.Vetomint.Step.Voting.{
  on_4f_non_nil_prevote_in_propose_step-Step, on_4f_non_nil_prevote_in_prevote_step-Step,
  on_5f_prevote-Step,
}
use simperby.Vetomint.Step.Ending.{
  on_5f_precommit-Step, on_4f_nil_precommit-Refines, propose_timeout-Step, propose_timeouts-Refines,
}
use simperby.Vetomint.Step.Refine.{
  on_received-Refines, after_prevote-Refines, after_precommit-Refines, absorb, progress-Steps,
}
use simperby.Vetomint.Kept.{Steps-Kept, start_round-Kept}
use simperby.Vetomint.Votes.{progress-finalized, progress-start}
use simperby.Vetomint.Safe.{
  IsWellFormed, IsWellFormed-Kept, IsSafe, on_proposal-IsSafe, on_4f_propose-IsSafe,
  on_4f_prevote-IsSafe, on_4f_non_nil_precommit-IsSafe, on_4f_nil_prevote-IsSafe,
  on_5f_prevote-IsSafe, on_5f_precommit-IsSafe, start_round-IsSafe, on_4f_nil_precommit-IsSafe,
  then_extend-IsSafe,
}

-- The vote of an event is that of a validator.
abbrev pub IsSigned : ConsensusEvent → ConsensusState → Type 0
IsSigned (ConsensusEvent.prevote _ signer _) s = signer < length s.height_info.validators
IsSigned (ConsensusEvent.precommit _ signer _) s = signer < length s.height_info.validators
IsSigned _ s = Unit

absorb-IsWellFormed :
    (e : ConsensusEvent) (s : ConsensusState)
    → IsSigned e s
    → IsWellFormed s
    → IsWellFormed (absorb e s)
unfolding insert_proposal insert_prevote insert_precommit
absorb-IsWellFormed (ConsensusEvent.prevote p who round) s ours h = record {
  some_validator = h.some_validator;
  prevoters = set_insert-All compare_vote _ _ s.prevotes ours h.prevoters;
  precommitters = h.precommitters;
}
absorb-IsWellFormed (ConsensusEvent.precommit p who round) s ours h = record {
  some_validator = h.some_validator;
  prevoters = h.prevoters;
  precommitters = set_insert-All compare_vote _ _ s.precommits ours h.precommitters;
}
absorb-IsWellFormed (ConsensusEvent.block_proposal_received p v vr who round f) s ours h = record {
  some_validator = h.some_validator;
  prevoters = h.prevoters;
  precommitters = h.precommitters;
}
absorb-IsWellFormed (ConsensusEvent.skip_round round) s ours h = record {
  some_validator = h.some_validator;
  prevoters = h.prevoters;
  precommitters = h.precommitters;
}
absorb-IsWellFormed (ConsensusEvent.block_candidate_updated p) s ours h = record {
  some_validator = h.some_validator;
  prevoters = h.prevoters;
  precommitters = h.precommitters;
}
absorb-IsWellFormed ConsensusEvent.start s ours h = h
absorb-IsWellFormed ConsensusEvent.timer s ours h = h

reporting-IsSafe : (check : ConsensusState → List ConsensusResponse) → IsSafe (reporting check)
reporting-IsSafe check s h = λ e. cc

on_received-IsSafe :
    (v : Option Round) (r : Round) (p : BlockIdentifier) → IsSafe (on_received v r p)
on_received-IsSafe none r p = on_proposal-IsSafe r p
on_received-IsSafe (some _) r p = on_4f_propose-IsSafe r p

after_prevote-IsSafe : (p : Option BlockIdentifier) (r : Round) → IsSafe (after_prevote p r)
after_prevote-IsSafe none r = on_4f_nil_prevote-IsSafe r
after_prevote-IsSafe (some p) r =
    then_extend-IsSafe {j = 0} (on_4f_non_nil_prevote_in_propose_step r p)
      (on_4f_non_nil_prevote_in_prevote_step r p)
      (λ u xs v e. one (on_4f_non_nil_prevote_in_propose_step-Step r p u xs v e))
      (on_4f_propose-IsSafe r p) (on_4f_prevote-IsSafe r p)

after_precommit-IsSafe : (p : Option BlockIdentifier) (r : Round) → IsSafe (after_precommit p r)
after_precommit-IsSafe none r s h = λ e. cc
after_precommit-IsSafe (some p) r s h = on_4f_non_nil_precommit-IsSafe r p s h

receive_proposal-total :
    (p : Proposal) (s : ConsensusState)
    → IsWellFormed (insert_proposal p s)
    → receive_proposal p s ≢ none
unfolding receive_proposal
receive_proposal-total p s h =
    then_extend-IsSafe {j = 0} (on_received p.valid_round p.round p.proposal) _
      (on_received-Refines p.valid_round p.round p.proposal)
      (on_received-IsSafe p.valid_round p.round p.proposal)
      (then_extend-IsSafe {j = 0} (on_4f_non_nil_prevote_in_prevote_step p.round p.proposal)
        (on_4f_non_nil_precommit p.round p.proposal)
        (λ u xs v e. one (on_4f_non_nil_prevote_in_prevote_step-Step p.round p.proposal u xs v e))
        (on_4f_prevote-IsSafe p.round p.proposal)
        (on_4f_non_nil_precommit-IsSafe p.round p.proposal))
      (insert_proposal p s) h

receive_prevote-total :
    (vote : Vote) (s : ConsensusState)
    → IsWellFormed (insert_prevote vote s)
    → receive_prevote vote s ≢ none
unfolding receive_prevote
receive_prevote-total vote s h =
    then_extend-IsSafe {j = 0} (after_prevote vote.proposal vote.round) _
      (after_prevote-Refines vote.proposal vote.round)
      (after_prevote-IsSafe vote.proposal vote.round)
      (then_extend-IsSafe {j = 0} (on_5f_prevote vote.round vote.proposal)
        (reporting (λ u. check_double_prevote u vote.round))
        (λ u xs v e. one (on_5f_prevote-Step vote.round vote.proposal u xs v e))
        (on_5f_prevote-IsSafe vote.round vote.proposal)
        (reporting-IsSafe (λ u. check_double_prevote u vote.round)))
      (insert_prevote vote s) h

receive_precommit-total :
    (vote : Vote) (now : Timestamp) (s : ConsensusState)
    → IsWellFormed (insert_precommit vote s)
    → receive_precommit vote now s ≢ none
unfolding receive_precommit
receive_precommit-total vote now s h =
    then_extend-IsSafe {j = 0} (on_5f_precommit vote.round) _
      (λ u xs v e. one (on_5f_precommit-Step vote.round u xs v e))
      (on_5f_precommit-IsSafe vote.round)
      (then_extend-IsSafe {j = 1} (on_4f_nil_precommit vote.round now) _
        (on_4f_nil_precommit-Refines vote.round now) (on_4f_nil_precommit-IsSafe vote.round now)
        (then_extend-IsSafe {j = 0} (after_precommit vote.proposal vote.round)
          (reporting (λ u. check_double_precommit u vote.round))
          (after_precommit-Refines vote.proposal vote.round)
          (after_precommit-IsSafe vote.proposal vote.round)
          (reporting-IsSafe (λ u. check_double_precommit u vote.round))))
      (insert_precommit vote s) h

propose_timeouts-IsSafe :
    (entries : List (Round × Timestamp)) (now : Timestamp) → IsSafe (propose_timeouts entries now)
unfolding propose_timeouts propose_timeout
propose_timeouts-IsSafe [] now s h = λ e. cc
propose_timeouts-IsSafe (entry ∷ entries) now s h =
    then_extend-IsSafe {j = 0} (propose_timeout entry now) (propose_timeouts entries now)
      (λ u xs v e. one (propose_timeout-Step entry now u xs v e)) (λ u _. ground arith)
      (propose_timeouts-IsSafe entries now) s h

precommit_timeouts-IsSafe :
    (entries : List (Round × Timestamp)) (now : Timestamp) → IsSafe (precommit_timeouts entries now)
unfolding precommit_timeouts
precommit_timeouts-IsSafe [] now s h = λ e. cc
precommit_timeouts-IsSafe ((round, timeout) ∷ entries) now s h =
    ground (
      arith,
      start_round-IsSafe (add_u64 round 1) now s h,
      precommit_timeouts-IsSafe entries now s h,
    )

dispatch-total :
    (e : ConsensusEvent) (now : Timestamp) (s : ConsensusState)
    → IsSigned e s
    → IsWellFormed s
    → dispatch e now s ≢ none
unfolding dispatch
dispatch-total ConsensusEvent.start now s ours h = start_round-IsSafe 0 now s h
dispatch-total (ConsensusEvent.block_proposal_received p v vr who round f) now s ours h =
    receive_proposal-total _ s
      (absorb-IsWellFormed (ConsensusEvent.block_proposal_received p v vr who round f) s ours h)
dispatch-total (ConsensusEvent.skip_round round) now s ours h = ground (
  arith,
  receive_proposal-total (skipping round) s
      (absorb-IsWellFormed (ConsensusEvent.skip_round round) s ours h),
)
dispatch-total (ConsensusEvent.block_candidate_updated p) now s ours h = λ e. cc
dispatch-total (ConsensusEvent.prevote p who round) now s ours h =
    receive_prevote-total _ s (absorb-IsWellFormed (ConsensusEvent.prevote p who round) s ours h)
dispatch-total (ConsensusEvent.precommit p who round) now s ours h =
    receive_precommit-total _ now s
      (absorb-IsWellFormed (ConsensusEvent.precommit p who round) s ours h)
dispatch-total ConsensusEvent.timer now s ours h =
    then_extend-IsSafe {j = 0} (propose_timeouts s.propose_timeout_schedules now)
      (precommit_timeouts s.precommit_timeout_schedules now)
      (propose_timeouts-Refines s.propose_timeout_schedules now)
      (propose_timeouts-IsSafe s.propose_timeout_schedules now)
      (precommit_timeouts-IsSafe s.precommit_timeout_schedules now) s h

started-IsWellFormed :
    (e : ConsensusEvent) (now : Timestamp) (s t : ConsensusState) (rs : List ConsensusResponse)
    → IsSigned e s
    → IsWellFormed s
    → s.finalized ≡ none
    → progress e now s ≡ some (rs, t)
    → IsWellFormed t
started-IsWellFormed ConsensusEvent.start now s t rs ours h live e =
    IsWellFormed-Kept (start_round-Kept 0 now (sym (progress-start now s live) ∙ e)) h
started-IsWellFormed ev now s t rs ours h live e =
    IsWellFormed-Kept (Steps-Kept (progress-Steps ev now s rs t (λ x. x) live e))
      (absorb-IsWellFormed ev s ours h)

-- On a well-formed state `progress` does not panic on any event whose vote, if it carries one, is
-- that of a validator; and the state that it leaves is well formed.
pub progress-total :
    (e : ConsensusEvent) (now : Timestamp) (s : ConsensusState)
    → IsSigned e s
    → IsWellFormed s
    → (result : List ConsensusResponse × ConsensusState) × (progress e now s ≡ some result)
      × IsWellFormed result.1
unfolding progress unless_finalized
progress-total e now s ours h = elim (Option-cases s.finalized) [
  | inr ((p, proof, round), ended) ↦
      ((finalize_block p round proof ∷ [], s), progress-finalized e now s ended, h)
  | inl live ↦ elim (Option-cases (dispatch e now s)) [
    | inl panics ↦ absurd (dispatch-total e now s ours h panics)
    | inr ((rs, t), done) ↦
        let answers : progress e now s ≡ some (rs, t) = ground arith in
        ((rs, t), answers, started-IsWellFormed e now s t rs ours h live answers)
  ]
]
