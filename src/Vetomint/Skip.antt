-- ===== src/Vetomint/Skip.antt =====
-- `ConsensusEvent::SkipRound` in vetomint/src/progress.rs, which is handled as an invalid proposal of
-- block 0 by validator 0.
use simperby.Base.{ℕ, ◌≡◌, ◌≢◌, none, some, [], arith, compare, Ordering}
use simperby.Base.Ordered.{map_get, map_get-map_insert_self}
use simperby.Vetomint.Types.{ValidatorIndex, Round, Timestamp, ConsensusEvent, ConsensusState}
use simperby.Vetomint.Monad.{Handler, ◌then_extend◌}
use simperby.Vetomint.Proposer.{decide_proposer}
use simperby.Vetomint.Handlers.{on_proposal, on_4f_non_nil_prevote_in_prevote_step}
use simperby.Vetomint.Late.{on_4f_non_nil_precommit}
use simperby.Vetomint.Progress.{
  insert_proposal, skipping, receive_proposal, unless_finalized, dispatch, progress,
}

compare_refl : (n : ℕ) → compare n n ≡ Ordering.eq
compare_refl n = ground arith

-- Whatever was known of block 0 is replaced by an invalid proposal.
known_skipping :
    (r : Round) (s : ConsensusState)
    → map_get compare 0 (insert_proposal (skipping r) s).proposals ≡ some (skipping r)
unfolding insert_proposal
known_skipping r s = map_get-map_insert_self compare compare_refl 0 (skipping r) s.proposals

-- In a state that knows the skipping proposal, the handlers of a proposal find it without its leader.
module _ (r : Round) (s : ConsensusState) {leader : ValidatorIndex}
    (known : map_get compare 0 s.proposals ≡ some (skipping r))
    (led : decide_proposer r s.height_info ≡ some leader) (other : leader ≢ 0) where
  on_proposal_idle : on_proposal r 0 s ≡ some ([], s)
  unfolding on_proposal
  on_proposal_idle = ground arith

  on_4f_prevote_idle : on_4f_non_nil_prevote_in_prevote_step r 0 s ≡ some ([], s)
  unfolding on_4f_non_nil_prevote_in_prevote_step
  on_4f_prevote_idle = ground arith

  on_4f_precommit_idle : on_4f_non_nil_precommit r 0 s ≡ some ([], s)
  unfolding on_4f_non_nil_precommit
  on_4f_precommit_idle = ground arith

then_extend_idle :
    (m k : Handler) (s : ConsensusState)
    → m s ≡ some ([], s)
    → k s ≡ some ([], s)
    → (m then_extend k) s ≡ some ([], s)
unfolding ◌then_extend◌
then_extend_idle m k s hm hk = ground arith

receive_skipping :
    (r : Round) (s : ConsensusState) {leader : ValidatorIndex}
    → decide_proposer r s.height_info ≡ some leader
    → leader ≢ 0
    → receive_proposal (skipping r) s ≡ some ([], insert_proposal (skipping r) s)
unfolding receive_proposal insert_proposal
receive_skipping r s led other =
    let t = insert_proposal (skipping r) s in
    let known = known_skipping r s in
    then_extend_idle (on_proposal r 0) _ t (on_proposal_idle r t known led other) (
      then_extend_idle (on_4f_non_nil_prevote_in_prevote_step r 0) (on_4f_non_nil_precommit r 0) t
        (on_4f_prevote_idle r t known led other) (on_4f_precommit_idle r t known led other))

-- A request to skip a round that validator 0 does not lead sends nothing out and moves no step: all
-- that it does is to replace what is known of block 0 by an invalid proposal.
pub progress-skip_round :
    (r : Round) (now : Timestamp) (s : ConsensusState) {leader : ValidatorIndex}
    → s.finalized ≡ none
    → decide_proposer r s.height_info ≡ some leader
    → leader ≢ 0
    → (progress (ConsensusEvent.skip_round r) now s ≡ some ([], insert_proposal (skipping r) s))
      × (map_get compare 0 (insert_proposal (skipping r) s).proposals ≡ some (skipping r))
unfolding progress dispatch unless_finalized
progress-skip_round r now s live led other =
    let done = receive_skipping r s led other in (ground arith, known_skipping r s)
