-- ===== src/Vetomint/Tests.antt =====
-- The theorems about the consensus state machine at small inputs.
use simperby.Base.{
  ◌+◌, ◌*◌, ◌<◌, ◌≤◌, ◌≡◌, ◌≢◌, ◌⊎◌, ◌&&◌, refl, true, none, some, List, [], ◌∷◌, arith, compare,
  In,
}
use simperby.Base.Int.{pos}
use simperby.Base.Word.{add_u64, sum}
use simperby.Base.Ordered.{map_get}
use simperby.Base.Sorted.{IsAscending-IsNodup}
use simperby.Vetomint.Types.{
  ValidatorIndex, Timestamp, HeightInfo, compare_vote, Misbehavior, ConsensusEvent,
  ConsensusResponse, broadcast_proposal, broadcast_prevote, broadcast_precommit, finalize_block,
  ConsensusState, new,
}
use simperby.Vetomint.Votes.{run, prevotes_in, precommits_in, run-votes_once}
use simperby.Vetomint.Misbehavior.{check_double_prevote, check_double_precommit}
use simperby.Vetomint.Progress.{progress, insert_proposal, skipping}
use simperby.Vetomint.Feedback.{panicked, exhausted, vetomint_progress}
use simperby.Vetomint.Step.{Steps}
use simperby.Vetomint.Step.Refine.{absorb, progress-Steps}
use simperby.Vetomint.Precommit.{AllPrecommits, HasPolka, progress-HasPolka}
use simperby.Vetomint.Weight.{weight}
use simperby.Vetomint.Quorum.{precommitted}
use simperby.Vetomint.Sets.{compare_vote-IsOrder, run-quorums-IsAccused}
use simperby.Vetomint.Safe.{IsWellFormed}
use simperby.Vetomint.Live.{run-total}
use simperby.Vetomint.Ends.{Passes, vetomint_progress-ends}
use simperby.Vetomint.Caught.{IsAccused, check_double-IsAccused}
use simperby.Vetomint.Accuse.{ballot, AllGuilty, check_double_prevote-AllGuilty}
use simperby.Vetomint.Observer.{vetomint_progress-observer}
use simperby.Vetomint.Skip.{progress-skip_round}
use simperby.Vetomint.Timeouts.{precommit_timeout_at_once}
use simperby.Vetomint.Finality.{IsDecided, run_decides}
use simperby.Vetomint.Samples.{
  machine, four, deciding, voting, ready, proposed, Answer, state_of, responses_of,
}

abbrev decided : Answer
decided = run deciding (new (four (some 0)))

run_deciding :
    (decided ≡ some (responses_of decided, state_of decided))
    × (responses_of decided
        ≡ broadcast_proposal 0 none 0
          ∷ broadcast_prevote (some 0) 0
          ∷ broadcast_precommit (some 0) 0
          ∷ finalize_block 0 0 (0 ∷ 1 ∷ 2 ∷ [])
          ∷ [])
    × ((state_of decided).finalized ≡ some (0, 0 ∷ 1 ∷ 2 ∷ [], 0))
unfolding machine
run_deciding = (refl, refl, refl)

run_decides_example : IsDecided (state_of decided) 0 (0 ∷ 1 ∷ 2 ∷ []) 0
unfolding machine
run_decides_example =
    run_decides (four (some 0)) deciding (state_of decided) (responses_of decided) 0
      (0 ∷ 1 ∷ 2 ∷ []) 0 run_deciding.0 (omega arith) run_deciding.2

-- The leader's proposal and two prevotes come in.
abbrev proposing : List (ConsensusEvent × Timestamp)
proposing =
    (ConsensusEvent.start, pos 0)
    ∷ (proposed, pos 1)
    ∷ (ConsensusEvent.prevote (some 0) 1 0, pos 2)
    ∷ (ConsensusEvent.prevote (some 0) 2 0, pos 3)
    ∷ []

abbrev two_prevotes : Answer
two_prevotes = run proposing (new (four (some 0)))

abbrev third_prevote : ConsensusEvent
third_prevote = ConsensusEvent.prevote (some 0) 0 0

abbrev locking : Answer
locking = progress third_prevote (pos 4) (state_of two_prevotes)

progress-HasPolka_example : AllPrecommits (HasPolka (state_of locking)) (responses_of locking)
unfolding machine
progress-HasPolka_example =
    progress-HasPolka (four (some 0)) proposing (state_of two_prevotes) (responses_of two_prevotes)
      third_prevote (pos 4) (state_of locking) (responses_of locking) refl refl (omega arith)

abbrev voted : Answer
voted = run voting ready

run-votes_once_example :
    (prevotes_in 0 (responses_of voted) ≤ 1)
    × (precommits_in 0 (responses_of voted) ≤ 1)
    × ((state_of voted).round ≤ ready.round + 7)
unfolding machine
run-votes_once_example =
    run-votes_once 0 voting ready (responses_of voted) (state_of voted) (omega arith)
      (λ h. h, (λ h. h, (λ h. h, (λ h. h, (λ h. h, (λ h. h, (λ h. h, tt))))))) refl

-- Validators 1 and 2 precommit two blocks.
abbrev torn_votes : List (ConsensusEvent × Timestamp)
torn_votes =
    (ConsensusEvent.start, pos 0)
    ∷ (ConsensusEvent.precommit (some 0) 0 0, pos 1)
    ∷ (ConsensusEvent.precommit (some 0) 1 0, pos 2)
    ∷ (ConsensusEvent.precommit (some 0) 2 0, pos 3)
    ∷ (ConsensusEvent.precommit (some 1) 1 0, pos 4)
    ∷ (ConsensusEvent.precommit (some 1) 2 0, pos 5)
    ∷ (ConsensusEvent.precommit (some 1) 3 0, pos 6)
    ∷ []

abbrev torn : Answer
torn = run torn_votes (new (four none))

run-quorums-IsAccused_example :
    (sum (state_of torn).height_info.validators
      < weight
          (λ i. precommitted (state_of torn) 0 0 i && precommitted (state_of torn) 0 1 i)
          (state_of torn).height_info.validators
        * 3)
    × ((i : ValidatorIndex)
        → (precommitted (state_of torn) 0 0 i && precommitted (state_of torn) 0 1 i) ≡ true
        → IsAccused i (check_double_precommit (state_of torn) 0))
unfolding machine
run-quorums-IsAccused_example =
    run-quorums-IsAccused (four none) torn_votes (state_of torn) (responses_of torn) 0 0 1 refl
      (omega arith) (λ h. omega arith) (record { power = 3; counted = refl; enough = refl })
      (record { power = 3; counted = refl; enough = refl })

run-total_example :
    (result : List ConsensusResponse × ConsensusState) × (run deciding (new (four (some 0)))
      ≡ some result)
    × IsWellFormed result.1
unfolding machine
run-total_example = run-total (four (some 0)) deciding (omega arith) (
  tt,
  (
    tt,
    (omega arith, (omega arith, (omega arith, (omega arith, (omega arith, (omega arith, tt)))))),
  ),
)

abbrev opened : Answer
opened = progress proposed (pos 1) ready

progress-Steps_example : Steps 1 (absorb proposed ready) (responses_of opened) (state_of opened)
unfolding machine
progress-Steps_example =
    progress-Steps proposed (pos 1) ready (responses_of opened) (state_of opened) (λ h. h) refl refl

vetomint_progress-ends_example :
    ((u : ConsensusState)
      → vetomint_progress 10 proposed (pos 1) (record { state = ready }) ≢ exhausted u)
    ⊎ Passes 1 (pos 1) (responses_of opened) (state_of opened)
unfolding machine
vetomint_progress-ends_example =
    vetomint_progress-ends 1 10 proposed (pos 1) (record { state = ready }) (responses_of opened)
      (state_of opened) (λ h. h) (omega arith) (omega arith) (omega arith) refl

abbrev double_vote : ConsensusState
unfolding machine
double_vote = record ready {
  prevotes = ballot none 3 0 ∷ ballot (some 0) 3 0 ∷ [];
  precommits = ballot none 2 0 ∷ ballot (some 0) 2 0 ∷ [];
}

check_double-IsAccused_example :
    (In (ballot none 3 0) double_vote.prevotes
      → In (ballot (some 0) 3 0) double_vote.prevotes
      → IsAccused 3 (check_double_prevote double_vote 0))
    × (In (ballot none 3 0) double_vote.precommits
        → In (ballot (some 0) 3 0) double_vote.precommits
        → IsAccused 3 (check_double_precommit double_vote 0))
check_double-IsAccused_example =
    check_double-IsAccused double_vote 0 (ballot none 3 0) (ballot (some 0) 3 0) (λ h. ground arith)
      refl refl refl

check_double_prevote-AllGuilty_example :
    AllGuilty Misbehavior.double_prevote 0 double_vote.prevotes (check_double_prevote double_vote 0)
unfolding double_vote
check_double_prevote-AllGuilty_example = check_double_prevote-AllGuilty double_vote 0 (
    IsAscending-IsNodup compare_vote compare_vote-IsOrder double_vote.prevotes
      ((refl, tt), (tt, tt)))

-- The same node without a place among the validators.
abbrev watching : ConsensusState
watching = state_of (run ((ConsensusEvent.start, pos 0) ∷ []) (new (four none)))

abbrev watched : Answer
watched = progress proposed (pos 1) watching

vetomint_progress-observer_example :
    vetomint_progress 1 proposed (pos 1) (record { state = watching }) ≡ panicked
unfolding machine
vetomint_progress-observer_example =
    vetomint_progress-observer 0 proposed (pos 1) (record { state = watching })
      (responses_of watched) (state_of watched) (λ h. h) refl refl (λ h. omega arith)

progress-skip_round_example :
    (progress (ConsensusEvent.skip_round 1) (pos 1) ready
      ≡ some ([], insert_proposal (skipping 1) ready))
    × (map_get compare 0 (insert_proposal (skipping 1) ready).proposals ≡ some (skipping 1))
unfolding machine
progress-skip_round_example =
    progress-skip_round 1 (pos 1) ready {leader = 1} refl refl (λ h. omega arith)

-- Three validators have precommitted, two of them no block.
abbrev splitting : Answer
splitting =
    run
      ((ConsensusEvent.start, pos 0)
        ∷ (ConsensusEvent.precommit none 0 0, pos 1)
        ∷ (ConsensusEvent.precommit none 1 0, pos 2)
        ∷ (ConsensusEvent.precommit (some 0) 2 0, pos 3)
        ∷ [])
      (new (four none))

abbrev fourth : Answer
fourth = progress (ConsensusEvent.precommit (some 0) 3 0) (pos 1000) (state_of splitting)

-- A prevote comes in between.
abbrev between : List (ConsensusEvent × Timestamp)
between = (ConsensusEvent.prevote none 1 0, pos 1000) ∷ []

abbrev waiting : Answer
waiting = run between (state_of fourth)

precommit_timeout_at_once_example :
    (ys : List ConsensusResponse) × (w : ConsensusState) × (progress ConsensusEvent.timer
        (pos 1000)
        (state_of waiting)
      ≡ some (ys, w))
    × (w.round ≡ add_u64 (state_of splitting).round 1)
unfolding machine
precommit_timeout_at_once_example =
    precommit_timeout_at_once (ballot (some 0) 3 0) (pos 1000) (pos 1000) (state_of splitting)
      (state_of fourth) (state_of waiting) (responses_of fourth) (responses_of waiting) 4 between 1
      refl refl refl refl refl refl refl refl refl (omega arith) refl

-- Validators of which one has power 1 and the other all the rest up to 2 ^ 63: the product by which two
-- thirds are asked for wraps to 0, and the first one alone finalizes the block.
abbrev lopsided : HeightInfo
lopsided = record {
  validators = 1 ∷ 9223372036854775807 ∷ [];
  this_node_index = some 1;
  timestamp = pos 0;
  consensus_params = record { timeout_ms = 1000; repeat_round_for_first_leader = 1 };
  initial_block_candidate = 0;
}

abbrev one_precommit : List (ConsensusEvent × Timestamp)
one_precommit =
    (ConsensusEvent.start, pos 0)
    ∷ (proposed, pos 1)
    ∷ (ConsensusEvent.precommit (some 0) 0 0, pos 2)
    ∷ []

overflow_finalizes : (state_of (run one_precommit (new lopsided))).finalized ≡ some (0, 0 ∷ [], 0)
unfolding machine
overflow_finalizes = refl
