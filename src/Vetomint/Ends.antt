-- ===== src/Vetomint/Ends.antt =====
-- `Vetomint::progress` in vetomint/src/lib.rs ends: each round of its loop but the last spends a
-- proposal, a prevote or a precommit.
use simperby.Base.{
  ℕ, zero, suc, ◌+◌, ◌*◌, ◌-◌, ◌≤◌, ◌<◌, ◌≡◌, ◌≢◌, refl, true, Option, none, some, List, [], ◌∷◌,
  ◌++◌, arith, inl, inr, ◌⊎◌, Option-cases, subst, sym, Bool-cases, ltb,
}
use simperby.Base.Word.{u64_mod}
use simperby.Vetomint.Types.{
  ValidatorIndex, Round, Timestamp, ConsensusStep, ConsensusEvent, ConsensusResponse,
  broadcast_proposal, broadcast_prevote, broadcast_precommit, finalize_block, violation_report,
  ConsensusState,
}
use simperby.Vetomint.Monad.{◌then_extend◌}
use simperby.Vetomint.Progress.{progress}
use simperby.Vetomint.Feedback.{
  Vetomint, reply, answer, feed, Outcome, finished, panicked, exhausted, loop, vetomint_progress,
}
use simperby.Vetomint.Step.Ending.{then_extend_cases}
use simperby.Vetomint.Step.Refine.{IsStart}
use simperby.Vetomint.Spent.{broadcasts, votes_left, allowance, Pays, Pays-append, progress-Pays}

-- Some round of the loop leaves a state that is past the round `last`.
pub data Passes (last : Round) (now : Timestamp)
    : List ConsensusResponse → ConsensusState → Type 0 where
  passed :
      (rs said : List ConsensusResponse) (s t : ConsensusState)
      → feed s.height_info.this_node_index rs now s ≡ some (said, t)
      → last < t.round
      → Passes last now rs s
  later :
      (rs said : List ConsensusResponse) (s t : ConsensusState)
      → feed s.height_info.this_node_index rs now s ≡ some (said, t)
      → Passes last now said t
      → Passes last now rs s

idle-Pays : (last : Round) (s : ConsensusState) → Pays last 0 s [] s
idle-Pays last s = omega arith

answer-Pays :
    (last : Round) (now : Timestamp) (this : Option ValidatorIndex) (r : ConsensusResponse)
    (s : ConsensusState) (rs : List ConsensusResponse) (t : ConsensusState)
    → s.round + broadcasts (r ∷ []) < u64_mod
    → answer now (reply this r) s ≡ some (rs, t)
    → Pays last (broadcasts (r ∷ [])) s rs t
unfolding answer
answer-Pays last now none (broadcast_proposal p vr round) s rs t small h = absurd (ground arith)
answer-Pays last now none (broadcast_prevote p round) s rs t small h = absurd (ground arith)
answer-Pays last now none (broadcast_precommit p round) s rs t small h = absurd (ground arith)
answer-Pays last now (some i) (broadcast_proposal p vr round) s rs t small h =
    progress-Pays last (ConsensusEvent.block_proposal_received p true vr i round true) now s rs t
      small (λ x. x) h
answer-Pays last now (some i) (broadcast_prevote p round) s rs t small h =
    progress-Pays last (ConsensusEvent.prevote p i round) now s rs t small (λ x. x) h
answer-Pays last now (some i) (broadcast_precommit p round) s rs t small h =
    progress-Pays last (ConsensusEvent.precommit p i round) now s rs t small (λ x. x) h
answer-Pays last now this (finalize_block p round proof) s rs t small h = ground arith
answer-Pays last now this (violation_report who m) s rs t small h = ground arith

broadcasts-cons :
    (r : ConsensusResponse) (rs : List ConsensusResponse)
    → broadcasts (r ∷ rs) ≡ broadcasts (r ∷ []) + broadcasts rs
broadcasts-cons (broadcast_proposal _ _ _) rs = omega arith
broadcasts-cons (broadcast_prevote _ _) rs = omega arith
broadcasts-cons (broadcast_precommit _ _) rs = omega arith
broadcasts-cons (finalize_block _ _ _) rs = omega arith
broadcasts-cons (violation_report _ _) rs = omega arith

feed-Pays :
    (last : Round) (now : Timestamp) (this : Option ValidatorIndex) (rs : List ConsensusResponse)
    (s : ConsensusState) (said : List ConsensusResponse) (t : ConsensusState)
    → s.round + broadcasts rs < u64_mod
    → feed this rs now s ≡ some (said, t)
    → Pays last (broadcasts rs) s said t
unfolding feed
feed-Pays last now this [] s said t small h = ground arith
feed-Pays last now this (r ∷ rs) s said t small h =
    let (xs, u, ys, head, tail, joined) =
      then_extend_cases (answer now (reply this r)) (feed this rs now) s said t h in
    let parts = broadcasts-cons r rs in
    let first = answer-Pays last now this r s xs u (omega arith) head in
    let others = feed-Pays last now this rs u ys t (omega arith) tail in
    let both =
      subst (λ l. Pays last (broadcasts (r ∷ []) + broadcasts rs) s l t) (sym joined)
        (Pays-append last first others) in
    subst (λ n. Pays last n s said t) (sym parts) both

-- Without a broadcast nothing is fed back.
feed_silent :
    (now : Timestamp) (this : Option ValidatorIndex) (rs : List ConsensusResponse)
    (s : ConsensusState)
    → broadcasts rs ≡ 0
    → feed this rs now s ≡ some ([], s)
unfolding feed answer ◌then_extend◌
feed_silent now this [] s h = refl
feed_silent now this (broadcast_proposal _ _ _ ∷ rs) s h = absurd (omega arith)
feed_silent now this (broadcast_prevote _ _ ∷ rs) s h = absurd (omega arith)
feed_silent now this (broadcast_precommit _ _ ∷ rs) s h = absurd (omega arith)
feed_silent now this (finalize_block _ _ _ ∷ rs) s h = ground (arith, feed_silent now this rs s h)
feed_silent now this (violation_report _ _ ∷ rs) s h = ground (arith, feed_silent now this rs s h)

feed_spends :
    (last : Round) (now : Timestamp) (rs : List ConsensusResponse) (s : ConsensusState)
    (x : ConsensusResponse) (xs : List ConsensusResponse) (t : ConsensusState)
    → last + allowance last s + broadcasts rs < u64_mod
    → s.round ≤ last
    → t.round ≤ last
    → feed s.height_info.this_node_index rs now s ≡ some (x ∷ xs, t)
    → allowance last t + broadcasts (x ∷ xs) < allowance last s + broadcasts rs
feed_spends last now rs s x xs t small within inside fed =
    let pays = feed-Pays last now s.height_info.this_node_index rs s (x ∷ xs) t (omega arith) fed in
    let speaks : broadcasts rs ≢ 0 = λ none_left.
      let silence = feed_silent now s.height_info.this_node_index rs s none_left in ground arith in
    omega (arith, pays.paid inside)

-- With fuel for what can still be sent out in the rounds up to `last`, the loop ends by itself or by
-- a panic, unless the node passes the round `last` in it.
loop_ends :
    (last : Round) (fuel : ℕ) (now : Timestamp) (rs final : List ConsensusResponse)
    (s u : ConsensusState)
    → s.round ≤ last
    → allowance last s + broadcasts rs < fuel
    → last + allowance last s + broadcasts rs < u64_mod
    → loop fuel now rs final s ≡ exhausted u
    → Passes last now rs s
unfolding loop
loop_ends last zero now rs final s u within enough small h = absurd (omega arith)
loop_ends last (suc fuel) now rs final s u within enough small h =
    elim (Option-cases (feed s.height_info.this_node_index rs now s)) [
      | inl broken ↦ absurd (ground arith)
      | inr (([], t), fed) ↦ absurd (ground arith)
      | inr ((x ∷ xs, t), fed) ↦ elim (Bool-cases (ltb last t.round)) [
        | inl past ↦ passed rs (x ∷ xs) s t fed (ground arith)
        | inr inside ↦
            let less = feed_spends last now rs s x xs t small within (ground arith) fed in
            later rs (x ∷ xs) s t fed (
              loop_ends last fuel now (x ∷ xs) (final ++ x ∷ xs) t u (ground arith) (omega arith)
                (omega arith) (ground arith))
      ]
    ]

votes_left-le : (step : ConsensusStep) → votes_left step ≤ 2
votes_left-le ConsensusStep.initial = omega arith
votes_left-le ConsensusStep.propose = omega arith
votes_left-le ConsensusStep.prevote = omega arith
votes_left-le ConsensusStep.precommit = omega arith

-- What running out of fuel would mean.
vetomint_progress_exhausted :
    (last : Round) (fuel : ℕ) (e : ConsensusEvent) (now : Timestamp) (v : Vetomint)
    (rs : List ConsensusResponse) (s u : ConsensusState)
    → ¬ IsStart e
    → v.state.round + 1 ≤ last
    → 3 * (last - v.state.round) + 2 < fuel
    → last + 3 * (last - v.state.round) + 2 < u64_mod
    → progress e now v.state ≡ some (rs, s)
    → vetomint_progress fuel e now v ≡ exhausted u
    → Passes last now rs s
unfolding vetomint_progress allowance
vetomint_progress_exhausted last fuel e now v rs s u ns within enough small first h =
    let pays = progress-Pays last e now v.state rs s (omega arith) ns first in
    let two = votes_left-le v.state.step in
    loop_ends last fuel now rs rs s u (omega arith) (omega arith) (omega arith) (ground arith)

Outcome-cases :
    (o : Outcome)
    → ((u : ConsensusState) × (o ≡ exhausted u)) ⊎ ((u : ConsensusState) → o ≢ exhausted u)
Outcome-cases (finished rs s) = inr (λ u. ground arith)
Outcome-cases panicked = inr (λ u. ground arith)
Outcome-cases (exhausted u) = inl (u, refl)

-- `Vetomint::progress` on an event other than the start comes to an end of its own within the model's
-- fuel, once that is enough for three broadcasts in each round from the present one up to `last`, unless
-- the node passes the round `last` while it feeds its own messages back.
pub vetomint_progress-ends :
    (last : Round) (fuel : ℕ) (e : ConsensusEvent) (now : Timestamp) (v : Vetomint)
    (rs : List ConsensusResponse) (s : ConsensusState)
    → ¬ IsStart e
    → v.state.round + 1 ≤ last
    → 3 * (last - v.state.round) + 2 < fuel
    → last + 3 * (last - v.state.round) + 2 < u64_mod
    → progress e now v.state ≡ some (rs, s)
    → ((u : ConsensusState) → vetomint_progress fuel e now v ≢ exhausted u) ⊎ Passes last now rs s
vetomint_progress-ends last fuel e now v rs s ns within enough small first =
    elim (Outcome-cases (vetomint_progress fuel e now v)) [
      | inl (u, runs_out) ↦ inr (
          vetomint_progress_exhausted last fuel e now v rs s u ns within enough small first
            runs_out)
      | inr ends ↦ inl ends
    ]
