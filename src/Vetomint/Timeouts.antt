-- ===== src/Vetomint/Timeouts.antt =====
-- The timeout of precommits in vetomint/src/progress.rs: `on_5f_precommit` sets it, no event takes it
-- back, and the timer event ends the round by it.
use simperby.Base.{
  ℕ, ◌≡◌, inl, inr, none, some, true, false, List, [], ◌∷◌, ◌++◌, arith, Ordering, compare, ap,
  subst, sym, ◌∙◌, In, Option-cases, Bool-cases, refl, ◌==◌, ◌&&◌,
}
use simperby.Base.Int.{pos, ◌≤ℤ◌, leb_ℤ}
use simperby.Base.Word.{add_u64}
use simperby.Base.Ordered.{set_insert, set_contains, In-set_insert_self}
use simperby.Vetomint.Types.{
  Round, Timestamp, ValidatorIndex, Vote, ConsensusStep, broadcast_prevote, ConsensusEvent,
  ConsensusResponse, ConsensusState,
}
use simperby.Vetomint.Monad.{Handler, ◌then_extend◌}
use simperby.Vetomint.Proposer.{decide_proposer}
use simperby.Vetomint.Tally.{get_total_precommits}
use simperby.Vetomint.Handlers.{compare_schedule, five_sixths, start_round, is_propose}
use simperby.Vetomint.Late.{on_5f_precommit}
use simperby.Vetomint.Progress.{
  propose_timeout, propose_timeouts, precommit_timeouts, on_timer, dispatch, unless_finalized,
  receive_precommit, insert_precommit, progress,
}
use simperby.Vetomint.Step.Ending.{then_extend_cases}
use simperby.Vetomint.Step.Refine.{after_5f_precommit, after_5f_precommit-Refines}
use simperby.Vetomint.Votes.{run}
use simperby.Vetomint.Scheduled.{IsScheduled, Steps-IsScheduled, run-IsScheduled}

compare_schedule_eq : (a b : Round × Timestamp) → compare_schedule a b ≡ Ordering.eq → a ≡ b
compare_schedule_eq (r, t) (r', t') h = ground arith

on_5f_precommit-IsScheduled :
    (s t : ConsensusState) (rs : List ConsensusResponse) (power : ℕ)
    → set_contains compare s.round s.for_the_first_time_2 ≡ false
    → get_total_precommits s s.round ≡ some power
    → five_sixths s power ≡ true
    → on_5f_precommit s.round s ≡ some (rs, t)
    → IsScheduled (s.round, pos 1000) t
unfolding on_5f_precommit
on_5f_precommit-IsScheduled s t rs power new counted enough h =
    let entries : t.precommit_timeout_schedules
        ≡ set_insert compare_schedule (s.round, pos 1000) s.precommit_timeout_schedules =
      ground arith in
    rw entries (
      In-set_insert_self compare_schedule compare_schedule_eq (s.round, pos 1000)
        s.precommit_timeout_schedules)

-- A precommit that brings more than five sixths schedules the timeout of its round.
precommit-IsScheduled :
    (ballot : Vote) (now : Timestamp) (s t : ConsensusState) (rs : List ConsensusResponse)
    (power : ℕ)
    → s.finalized ≡ none
    → ballot.round ≡ s.round
    → set_contains compare s.round s.for_the_first_time_2 ≡ false
    → get_total_precommits (insert_precommit ballot s) s.round ≡ some power
    → five_sixths (insert_precommit ballot s) power ≡ true
    → progress (ConsensusEvent.precommit ballot.proposal ballot.signer ballot.round) now s
      ≡ some (rs, t)
    → IsScheduled (s.round, pos 1000) t
unfolding progress dispatch unless_finalized receive_precommit insert_precommit
precommit-IsScheduled ballot now s t rs power live at new counted enough done =
    let v = insert_precommit ballot s in
    let received : (on_5f_precommit ballot.round then_extend after_5f_precommit ballot now) v
        ≡ some (rs, t) =
      ground arith in
    let (xs, u, ys, head, tail, joined) =
      then_extend_cases (on_5f_precommit ballot.round) (after_5f_precommit ballot now) v rs t
        received in
    Steps-IsScheduled (s.round, pos 1000) (after_5f_precommit-Refines ballot now u ys t tail)
      (on_5f_precommit-IsScheduled v u xs power new counted enough
        (subst (λ r. on_5f_precommit r v ≡ some (xs, u)) at head))

then_extend_some :
    (m k : Handler) (s u t : ConsensusState) (xs ys : List ConsensusResponse)
    → m s ≡ some (xs, u)
    → k u ≡ some (ys, t)
    → (m then_extend k) s ≡ some (xs ++ ys, t)
unfolding ◌then_extend◌
then_extend_some m k s u t xs ys first second = ground arith

-- What the loop over the propose timeouts leaves alone.
record IsNear (s t : ConsensusState) : Type 0 where
  round : t.round ≡ s.round
  height_info : t.height_info ≡ s.height_info
  schedules : t.precommit_timeout_schedules ≡ s.precommit_timeout_schedules

propose_timeout-total :
    (entry : Round × Timestamp) (now : Timestamp) (s : ConsensusState)
    → (xs : List ConsensusResponse) × (t : ConsensusState) × (propose_timeout entry now s
        ≡ some (xs, t))
      × IsNear s t
unfolding propose_timeout
propose_timeout-total (r, timeout) now s =
    elim (Bool-cases (leb_ℤ timeout now && (r == s.round && is_propose s.step))) [
      | inl passes ↦ (
        broadcast_prevote none r ∷ [],
        record s { step = ConsensusStep.prevote },
        ground arith,
        record { round = refl; height_info = refl; schedules = refl },
      )
      | inr waits ↦
          ([], s, ground arith, record { round = refl; height_info = refl; schedules = refl })
    ]

-- The loop never panics.
propose_timeouts-total :
    (entries : List (Round × Timestamp)) (now : Timestamp) (s : ConsensusState)
    → (xs : List ConsensusResponse) × (t : ConsensusState) × (propose_timeouts entries now s
        ≡ some (xs, t))
      × IsNear s t
unfolding propose_timeouts
propose_timeouts-total [] now s =
    ([], s, refl, record { round = refl; height_info = refl; schedules = refl })
propose_timeouts-total (entry ∷ entries) now s =
    let (xs, u, head, near) = propose_timeout-total entry now s in
    let (ys, t, tail, next_near) = propose_timeouts-total entries now u in
    (
      xs ++ ys,
      t,
      then_extend_some (propose_timeout entry now) (propose_timeouts entries now) s u t xs ys head
          tail,
      record {
        round = next_near.round ∙ near.round;
        height_info = next_near.height_info ∙ near.height_info;
        schedules = next_near.schedules ∙ near.schedules;
      },
    )

-- The loop of the timer starts the next round if any timeout of the round has passed.
precommit_timeouts_passed :
    (r : Round) (timeout now : Timestamp) (entries : List (Round × Timestamp)) (s : ConsensusState)
    → In (r, timeout) entries
    → timeout ≤ℤ now
    → r ≡ s.round
    → precommit_timeouts entries now s ≡ start_round (add_u64 s.round 1) now s
unfolding precommit_timeouts
precommit_timeouts_passed r timeout now [] s h past now_in = absurd h
precommit_timeouts_passed r timeout now ((r', timeout') ∷ entries) s (inl e) past now_in =
    ground arith
precommit_timeouts_passed r timeout now ((r', timeout') ∷ entries) s (inr h) past now_in =
    ground (arith, precommit_timeouts_passed r timeout now entries s h past now_in)

start_round-total :
    (r leader : ℕ) (now : Timestamp) (s : ConsensusState)
    → decide_proposer r s.height_info ≡ some leader
    → (xs : List ConsensusResponse) × (t : ConsensusState) × (start_round r now s ≡ some (xs, t))
      × (t.round ≡ r)
unfolding start_round
start_round-total r leader now s led = elim (Option-cases (start_round r now s)) [
  | inl panics ↦ absurd (ground arith)
  | inr ((xs, t), started) ↦ (xs, t, started, ground arith)
]

progress-timer :
    (now : Timestamp) (u : ConsensusState)
    → u.finalized ≡ none
    → progress ConsensusEvent.timer now u
      ≡ (propose_timeouts u.propose_timeout_schedules now
            then_extend precommit_timeouts u.precommit_timeout_schedules now)
          u
unfolding progress dispatch unless_finalized on_timer
progress-timer now u live = ground arith

-- The timer event leaves a round whose precommit timeout has passed.
timer-leaves :
    (now timeout : Timestamp) (u : ConsensusState) (leader : ℕ)
    → u.finalized ≡ none
    → IsScheduled (u.round, timeout) u
    → timeout ≤ℤ now
    → decide_proposer (add_u64 u.round 1) u.height_info ≡ some leader
    → (ys : List ConsensusResponse) × (w : ConsensusState) × (progress ConsensusEvent.timer now u
        ≡ some (ys, w))
      × (w.round ≡ add_u64 u.round 1)
timer-leaves now timeout u leader live scheduled past led =
    let (xs, v, proposed, near) = propose_timeouts-total u.propose_timeout_schedules now u in
    let led_v : decide_proposer (add_u64 u.round 1) v.height_info ≡ some leader =
      rw near.height_info led in
    let (ys, w, started, round) = start_round-total (add_u64 u.round 1) leader now v led_v in
    let passed =
      precommit_timeouts_passed u.round timeout now u.precommit_timeout_schedules v scheduled past
        (sym near.round) in
    let same = ap (λ r. start_round (add_u64 r 1) now v) near.round in
    (
      xs ++ ys,
      w,
      progress-timer now u live
          ∙ then_extend_some (propose_timeouts u.propose_timeout_schedules now)
              (precommit_timeouts u.precommit_timeout_schedules now) u v w xs ys proposed
              (passed ∙ same ∙ started),
      round,
    )

-- Once a precommit for the round of a node has brought precommits of more than five sixths of the
-- voting power, for the first time in that round, the first timer event from 1000 milliseconds after
-- the UNIX epoch on takes the node to the next round, however soon after that precommit it comes and
-- whatever events come between, if the node is still in the round, has finalized no block and the next
-- round has a leader.
pub precommit_timeout_at_once :
    (ballot : Vote) (now later : Timestamp) (s t u : ConsensusState)
    (rs rs' : List ConsensusResponse) (power : ℕ) (events : List (ConsensusEvent × Timestamp))
    (leader : ValidatorIndex)
    → s.finalized ≡ none
    → ballot.round ≡ s.round
    → set_contains compare s.round s.for_the_first_time_2 ≡ false
    → get_total_precommits (insert_precommit ballot s) s.round ≡ some power
    → five_sixths (insert_precommit ballot s) power ≡ true
    → progress (ConsensusEvent.precommit ballot.proposal ballot.signer ballot.round) now s
      ≡ some (rs, t)
    → run events t ≡ some (rs', u)
    → u.round ≡ s.round
    → u.finalized ≡ none
    → pos 1000 ≤ℤ later
    → decide_proposer (add_u64 s.round 1) u.height_info ≡ some leader
    → (ys : List ConsensusResponse) × (w : ConsensusState) × (progress ConsensusEvent.timer later u
        ≡ some (ys, w))
      × (w.round ≡ add_u64 s.round 1)
precommit_timeout_at_once ballot now later s t u rs rs' power events leader live at new counted
      enough done reached stays unfinished past led =
    let first = precommit-IsScheduled ballot now s t rs power live at new counted enough done in
    let scheduled = run-IsScheduled (s.round, pos 1000) events t u rs' reached first in
    let (ys, w, moved, round) =
      timer-leaves later (pos 1000) u leader unfinished
        (subst (λ r. IsScheduled (r, pos 1000) u) (sym stays) scheduled) past
        (ap (λ r. decide_proposer (add_u64 r 1) u.height_info) stays ∙ led) in
    (ys, w, moved, round ∙ ap (λ r. add_u64 r 1) stays)
