-- ===== src/Vetomint/Observer.antt =====
-- A node that is no validator: `this_node_index` of vetomint/src/lib.rs may be absent, and
-- `Vetomint::progress` unwraps it.
use simperby.Base.{
  ℕ, suc, ◌≡◌, ◌≢◌, refl, none, some, List, [], ◌∷◌, arith, ap, ◌∙◌, Option-cases, inl, inr,
}
use simperby.Vetomint.Types.{
  Timestamp, HeightInfo, ConsensusEvent, ConsensusResponse, broadcast_proposal, broadcast_prevote,
  broadcast_precommit, finalize_block, violation_report, ConsensusState,
}
use simperby.Vetomint.Monad.{◌then_extend◌}
use simperby.Vetomint.Progress.{progress, insert_proposal, insert_prevote, insert_precommit}
use simperby.Vetomint.Feedback.{Vetomint, answer, feed, panicked, loop, vetomint_progress}
use simperby.Vetomint.Step.Refine.{IsStart, absorb, progress-Steps}
use simperby.Vetomint.Kept.{Steps-Kept}
use simperby.Vetomint.Votes.{progress-finalized}
use simperby.Vetomint.Spent.{broadcasts}

feed_panics :
    (now : Timestamp) (rs : List ConsensusResponse) (s : ConsensusState)
    → broadcasts rs ≢ 0
    → feed none rs now s ≡ none
unfolding feed answer ◌then_extend◌
feed_panics now [] s h = absurd (h refl)
feed_panics now (broadcast_proposal _ _ _ ∷ rs) s h = refl
feed_panics now (broadcast_prevote _ _ ∷ rs) s h = refl
feed_panics now (broadcast_precommit _ _ ∷ rs) s h = refl
feed_panics now (finalize_block _ _ _ ∷ rs) s h = ground (arith, feed_panics now rs s h)
feed_panics now (violation_report _ _ ∷ rs) s h = ground (arith, feed_panics now rs s h)

absorb-height_info :
    (e : ConsensusEvent) (s : ConsensusState) → (absorb e s).height_info ≡ s.height_info
unfolding insert_proposal insert_prevote insert_precommit
absorb-height_info (ConsensusEvent.block_proposal_received p v vr who round f) s = refl
absorb-height_info (ConsensusEvent.skip_round round) s = refl
absorb-height_info (ConsensusEvent.block_candidate_updated p) s = refl
absorb-height_info (ConsensusEvent.prevote p who round) s = refl
absorb-height_info (ConsensusEvent.precommit p who round) s = refl
absorb-height_info ConsensusEvent.start s = refl
absorb-height_info ConsensusEvent.timer s = refl

-- `progress` never changes what is fixed for the height.
pub progress-height_info :
    (e : ConsensusEvent) (now : Timestamp) (s : ConsensusState) (rs : List ConsensusResponse)
    (t : ConsensusState)
    → ¬ IsStart e
    → progress e now s ≡ some (rs, t)
    → t.height_info ≡ s.height_info
progress-height_info e now s rs t ns h = elim (Option-cases s.finalized) [
  | inl live ↦
      let kept = Steps-Kept (progress-Steps e now s rs t ns live h) in
      kept.height_info ∙ absorb-height_info e s
  | inr ((p, proof, round), ended) ↦ let same = progress-finalized e now s ended in ground arith
]

-- A node that is not a validator panics as soon as the state machine sends out a proposal or a vote,
-- which it does without asking whether the node is a validator.
pub vetomint_progress-observer :
    (fuel : ℕ) (e : ConsensusEvent) (now : Timestamp) (v : Vetomint) (rs : List ConsensusResponse)
    (s : ConsensusState)
    → ¬ IsStart e
    → v.state.height_info.this_node_index ≡ none
    → progress e now v.state ≡ some (rs, s)
    → broadcasts rs ≢ 0
    → vetomint_progress (suc fuel) e now v ≡ panicked
unfolding vetomint_progress loop
vetomint_progress-observer fuel e now v rs s ns absent first speaks =
    let kept = progress-height_info e now v.state rs s ns first in
    let still : s.height_info.this_node_index ≡ none =
      ap (λ (h : HeightInfo). h.this_node_index) kept ∙ absent in
    let stuck = feed_panics now rs s speaks in ground arith
