-- ===== src/Vetomint/Sets.antt =====
-- The votes that a state holds are sets: `prevotes` and `precommits` of vetomint/src/state.rs stay in
-- ascending order.
use simperby.Base.{
  ◌≡◌, ◌≢◌, ◌<◌, ◌*◌, ◌&&◌, sym, ◌∙◌, subst, true, none, some, List, [], ◌∷◌, arith, Ordering, inl,
  inr, Option-cases,
}
use simperby.Base.Word.{u64_mod, sum}
use simperby.Base.Sorted.{IsOrder, IsAscending, IsAscending-IsNodup, set_insert-IsAscending}
use simperby.Vetomint.Types.{
  BlockIdentifier, ValidatorIndex, Round, Timestamp, HeightInfo, Vote, compare_vote, ConsensusEvent,
  ConsensusResponse, ConsensusState, new,
}
use simperby.Vetomint.Tally.{get_total_precommits_on_proposal}
use simperby.Vetomint.Misbehavior.{check_double_precommit}
use simperby.Vetomint.Progress.{progress, insert_proposal, insert_prevote, insert_precommit}
use simperby.Vetomint.Step.{IsQuorum}
use simperby.Vetomint.Step.Ending.{then_extend_cases}
use simperby.Vetomint.Step.Refine.{absorb, progress-Steps}
use simperby.Vetomint.Kept.{Kept, Steps-Kept, start_round-Kept}
use simperby.Vetomint.Votes.{progress-finalized, progress-start, run}
use simperby.Vetomint.Weight.{weight}
use simperby.Vetomint.Caught.{IsAccused}
use simperby.Vetomint.Quorum.{precommitted, quorums-IsAccused}

compare_vote_trans :
    (a b c : Vote)
    → compare_vote a b ≡ Ordering.lt
    → compare_vote b c ≡ Ordering.lt
    → compare_vote a c ≡ Ordering.lt
compare_vote_trans a b c h k = ground arith

pub compare_vote-IsOrder : IsOrder compare_vote
compare_vote-IsOrder = record {
  same = λ a. ground arith;
  eq = λ a b h. ground arith;
  flip = λ a b h. ground arith;
  trans = compare_vote_trans;
}

-- The votes that a state holds are in ascending order.
abbrev pub HasSets : ConsensusState → Type 0
HasSets s =
    IsAscending compare_vote compare_vote-IsOrder s.prevotes
    × IsAscending compare_vote compare_vote-IsOrder s.precommits

HasSets-Kept : {s t : ConsensusState} → Kept s t → HasSets s → HasSets t
HasSets-Kept kept h = (rw kept.prevotes h.0, rw kept.precommits h.1)

absorb-HasSets : (e : ConsensusEvent) (s : ConsensusState) → HasSets s → HasSets (absorb e s)
unfolding insert_proposal insert_prevote insert_precommit
absorb-HasSets (ConsensusEvent.block_proposal_received p v vr who round f) s h = h
absorb-HasSets (ConsensusEvent.skip_round round) s h = h
absorb-HasSets (ConsensusEvent.block_candidate_updated p) s h = h
absorb-HasSets (ConsensusEvent.prevote p who round) s h =
    (set_insert-IsAscending compare_vote compare_vote-IsOrder _ s.prevotes h.0, h.1)
absorb-HasSets (ConsensusEvent.precommit p who round) s h =
    (h.0, set_insert-IsAscending compare_vote compare_vote-IsOrder _ s.precommits h.1)
absorb-HasSets ConsensusEvent.start s h = h
absorb-HasSets ConsensusEvent.timer s h = h

started-HasSets :
    (e : ConsensusEvent) (now : Timestamp) (s t : ConsensusState) (rs : List ConsensusResponse)
    → HasSets s
    → s.finalized ≡ none
    → progress e now s ≡ some (rs, t)
    → HasSets t
started-HasSets ConsensusEvent.start now s t rs h live done =
    HasSets-Kept (start_round-Kept 0 now (sym (progress-start now s live) ∙ done)) h
started-HasSets e now s t rs h live done =
    HasSets-Kept (Steps-Kept (progress-Steps e now s rs t (λ x. x) live done))
      (absorb-HasSets e s h)

pub progress-HasSets :
    (e : ConsensusEvent) (now : Timestamp) (s t : ConsensusState) (rs : List ConsensusResponse)
    → HasSets s
    → progress e now s ≡ some (rs, t)
    → HasSets t
progress-HasSets e now s t rs h done = elim (Option-cases s.finalized) [
  | inl live ↦ started-HasSets e now s t rs h live done
  | inr ((p, proof, round), ended) ↦
      let same = progress-finalized e now s ended in
      let stays : s ≡ t = ground arith in subst HasSets stays h
]

pub run-HasSets :
    (events : List (ConsensusEvent × Timestamp)) (s t : ConsensusState)
    (rs : List ConsensusResponse)
    → HasSets s
    → run events s ≡ some (rs, t)
    → HasSets t
unfolding run
run-HasSets [] s t rs h done = let stays : s ≡ t = ground arith in subst HasSets stays h
run-HasSets ((e, now) ∷ events) s t rs h done =
    let (xs, u, ys, head, tail, joined) =
      then_extend_cases (progress e now) (run events) s rs t done in
    run-HasSets events u t ys (progress-HasSets e now s u xs h head) tail

-- In every state that a node reaches from the beginning of a height by any events: if it holds
-- precommits of more than two thirds of the voting power for each of two blocks in one round, then
-- validators with more than a third of the voting power have precommitted both, and the check of that
-- round accuses each of them. Three times the total power must fit 64 bits.
pub run-quorums-IsAccused :
    (height_info : HeightInfo) (events : List (ConsensusEvent × Timestamp)) (t : ConsensusState)
    (rs : List ConsensusResponse) (r : Round) (p q : BlockIdentifier)
    → run events (new height_info) ≡ some (rs, t)
    → sum t.height_info.validators * 3 < u64_mod
    → p ≢ q
    → IsQuorum t (get_total_precommits_on_proposal t r p)
    → IsQuorum t (get_total_precommits_on_proposal t r q)
    → (sum t.height_info.validators
        < weight (λ i. precommitted t r p i && precommitted t r q i) t.height_info.validators * 3)
      × ((i : ValidatorIndex)
          → (precommitted t r p i && precommitted t r q i) ≡ true
          → IsAccused i (check_double_precommit t r))
unfolding new
run-quorums-IsAccused height_info events t rs r p q reached small differ quorum_p quorum_q =
    let sets = run-HasSets events (new height_info) t rs (tt, tt) reached in
    let once = IsAscending-IsNodup compare_vote compare_vote-IsOrder t.precommits sets.1 in
    quorums-IsAccused t r p q once small differ quorum_p quorum_q
