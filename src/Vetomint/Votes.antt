-- ===== src/Vetomint/Votes.antt =====
-- How often a node votes: the votes that `progress` in vetomint/src/progress.rs sends out.
use simperby.Base.{
  ℕ, none, ◌+◌, ◌≤◌, ◌<◌, ◌≡◌, refl, Bool, true, false, ◌&&◌, ◌||◌, some, List, [], ◌∷◌, ◌++◌,
  arith, ltb, ◌==◌, if◌then◌else◌, length, All, inl, inr, Option-cases, subst, sym,
}
use simperby.Base.Word.{u64_mod, add_u64}
use simperby.Vetomint.Types.{
  BlockIdentifier, ValidatorIndex, Round, Timestamp, ConsensusStep, ConsensusEvent,
  ConsensusResponse, broadcast_proposal, broadcast_prevote, broadcast_precommit, finalize_block,
  violation_report, ConsensusState,
}
use simperby.Vetomint.Monad.{Handler, nothing, ◌then_extend◌}
use simperby.Vetomint.Handlers.{start_round}
use simperby.Vetomint.Progress.{
  progress, dispatch, unless_finalized, insert_proposal, insert_prevote, insert_precommit,
}
use simperby.Vetomint.Step.{
  Step, idle, report, vote, lock, revalue, give_up, early, schedule, finalize, Steps, here, next,
  turn, AreReports,
}
use simperby.Vetomint.Step.Ending.{then_extend_cases}
use simperby.Vetomint.Step.Refine.{IsStart, absorb, progress-Steps}

-- The prevotes and the precommits for a round among some responses.
abbrev pub prevotes_in : Round → List ConsensusResponse → ℕ
prevotes_in r [] = 0
prevotes_in r (broadcast_prevote _ r' ∷ rs) = (if r' == r then 1 else 0) + prevotes_in r rs
prevotes_in r (_ ∷ rs) = prevotes_in r rs

abbrev pub precommits_in : Round → List ConsensusResponse → ℕ
precommits_in r [] = 0
precommits_in r (broadcast_precommit _ r' ∷ rs) = (if r' == r then 1 else 0) + precommits_in r rs
precommits_in r (_ ∷ rs) = precommits_in r rs

-- The calls of `progress` for some events, one after the other.
unfoldable pub run : List (ConsensusEvent × Timestamp) → Handler
unfolding progress ◌then_extend◌
run [] = nothing
run ((event, now) ∷ events) = progress event now then_extend run events

abbrev pub NoStart : List (ConsensusEvent × Timestamp) → Type 0
NoStart events = All (λ e. ¬ IsStart e.0) events

abbrev is_before_prevote : ConsensusStep → Bool
is_before_prevote ConsensusStep.initial = true
is_before_prevote ConsensusStep.propose = true
is_before_prevote _ = false

abbrev is_before_precommit : ConsensusStep → Bool
is_before_precommit ConsensusStep.precommit = false
is_before_precommit _ = true

-- How often a state can still prevote and precommit in a round.
prevotes_left : Round → ConsensusState → ℕ
prevotes_left r s = if ltb s.round r || (s.round == r && is_before_prevote s.step) then 1 else 0

precommits_left : Round → ConsensusState → ℕ
precommits_left r s = if ltb s.round r || (s.round == r && is_before_precommit s.step) then 1 else 0

prevotes_in-append :
    (r : Round) (xs ys : List ConsensusResponse)
    → prevotes_in r (xs ++ ys) ≡ prevotes_in r xs + prevotes_in r ys
prevotes_in-append r [] ys = omega arith
prevotes_in-append r (broadcast_prevote p r' ∷ xs) ys = omega (arith, prevotes_in-append r xs ys)
prevotes_in-append r (broadcast_proposal _ _ _ ∷ xs) ys = prevotes_in-append r xs ys
prevotes_in-append r (broadcast_precommit _ _ ∷ xs) ys = prevotes_in-append r xs ys
prevotes_in-append r (finalize_block _ _ _ ∷ xs) ys = prevotes_in-append r xs ys
prevotes_in-append r (violation_report _ _ ∷ xs) ys = prevotes_in-append r xs ys

precommits_in-append :
    (r : Round) (xs ys : List ConsensusResponse)
    → precommits_in r (xs ++ ys) ≡ precommits_in r xs + precommits_in r ys
precommits_in-append r [] ys = omega arith
precommits_in-append r (broadcast_precommit p r' ∷ xs) ys =
    omega (arith, precommits_in-append r xs ys)
precommits_in-append r (broadcast_proposal _ _ _ ∷ xs) ys = precommits_in-append r xs ys
precommits_in-append r (broadcast_prevote _ _ ∷ xs) ys = precommits_in-append r xs ys
precommits_in-append r (finalize_block _ _ _ ∷ xs) ys = precommits_in-append r xs ys
precommits_in-append r (violation_report _ _ ∷ xs) ys = precommits_in-append r xs ys

AreReports-votes :
    (r : Round) (rs : List ConsensusResponse)
    → AreReports rs
    → (prevotes_in r rs ≡ 0) × (precommits_in r rs ≡ 0)
AreReports-votes r [] h = (refl, refl)
AreReports-votes r (broadcast_proposal _ _ _ ∷ rs) h = absurd h.0
AreReports-votes r (broadcast_prevote _ _ ∷ rs) h = absurd h.0
AreReports-votes r (broadcast_precommit _ _ ∷ rs) h = absurd h.0
AreReports-votes r (finalize_block _ _ _ ∷ rs) h = absurd h.0
AreReports-votes r (violation_report _ _ ∷ rs) h = AreReports-votes r rs h.1

-- What a change sends out, it can no longer send out; and its round does not go back.
record Spends (r : Round) (k : ℕ) (s : ConsensusState) (rs : List ConsensusResponse)
    (t : ConsensusState) : Type 0 where
  prevotes : prevotes_in r rs + prevotes_left r t ≤ prevotes_left r s
  precommits : precommits_in r rs + precommits_left r t ≤ precommits_left r s
  round : t.round ≤ s.round + k

Step-Spends :
    (r : Round) {s t : ConsensusState} {rs : List ConsensusResponse}
    → Step s rs t
    → Spends r 0 s rs t
unfolding prevotes_left precommits_left
Step-Spends r (idle e f) = ground arith
Step-Spends r {rs = rs} (report reports f) = ground (arith, AreReports-votes r rs reports)
Step-Spends r (vote p at e f) = ground arith
Step-Spends r (lock p at proposed quorum e f) = ground arith
Step-Spends r (revalue p at proposed quorum e f) = ground arith
Step-Spends r (give_up at e f) = ground arith
Step-Spends r (early p at quorum e f) = ground arith
Step-Spends r (schedule first schedules keeps e f) = ground arith
Step-Spends r (finalize p round proposed quorum e f) = ground arith

start_round-Spends :
    (r : Round) (now : Timestamp) {s t : ConsensusState} {rs : List ConsensusResponse}
    → s.round + 1 < u64_mod
    → start_round (add_u64 s.round 1) now s ≡ some (rs, t)
    → Spends r 1 s rs t
unfolding prevotes_left precommits_left start_round add_u64
start_round-Spends r now small e = ground arith

Spends-append :
    {r : Round} {j k : ℕ} {s t u : ConsensusState} {xs ys : List ConsensusResponse}
    → Spends r j s xs t
    → Spends r k t ys u
    → Spends r (j + k) s (xs ++ ys) u
Spends-append {r} {xs = xs} {ys = ys} a b =
    omega (arith, prevotes_in-append r xs ys, precommits_in-append r xs ys)

Steps-Spends :
    (r : Round) {k : ℕ} {s u : ConsensusState} {rs : List ConsensusResponse}
    → s.round + k < u64_mod
    → Steps k s rs u
    → Spends r k s rs u
Steps-Spends r small here = ground arith
Steps-Spends r small (next st rest) =
    let first = Step-Spends r st in
    let both = Spends-append first (Steps-Spends r (omega arith) rest) in omega arith
Steps-Spends r small (turn {k = k} now e rest) =
    let first = start_round-Spends r now (omega arith) e in
    let both = Spends-append first (Steps-Spends r (omega arith) rest) in omega arith

absorb-Spends : (r : Round) (e : ConsensusEvent) (s : ConsensusState) → Spends r 0 s [] (absorb e s)
unfolding prevotes_left precommits_left insert_proposal insert_prevote insert_precommit
absorb-Spends r (ConsensusEvent.block_proposal_received p v vr who round f) s = omega arith
absorb-Spends r (ConsensusEvent.skip_round round) s = omega arith
absorb-Spends r (ConsensusEvent.block_candidate_updated p) s = omega arith
absorb-Spends r (ConsensusEvent.prevote p who round) s = omega arith
absorb-Spends r (ConsensusEvent.precommit p who round) s = omega arith
absorb-Spends r ConsensusEvent.start s = omega arith
absorb-Spends r ConsensusEvent.timer s = omega arith

-- A finalized state only repeats its block.
pub progress-finalized :
    (e : ConsensusEvent) (now : Timestamp) (s : ConsensusState) {p : BlockIdentifier}
    {proof : List ValidatorIndex} {r : Round}
    → s.finalized ≡ some (p, proof, r)
    → progress e now s ≡ some (finalize_block p r proof ∷ [], s)
unfolding progress unless_finalized
progress-finalized e now s h = ground arith

pub progress-start :
    (now : Timestamp) (s : ConsensusState)
    → s.finalized ≡ none
    → progress ConsensusEvent.start now s ≡ start_round 0 now s
unfolding progress dispatch unless_finalized
progress-start now s h = ground arith

progress-Spends :
    (r : Round) (e : ConsensusEvent) (now : Timestamp) (s : ConsensusState)
    (rs : List ConsensusResponse) (t : ConsensusState)
    → s.round + 1 < u64_mod
    → ¬ IsStart e
    → progress e now s ≡ some (rs, t)
    → Spends r 1 s rs t
progress-Spends r e now s rs t small ns h = elim (Option-cases s.finalized) [
  | inl live ↦
      let taken = absorb-Spends r e s in
      Spends-append taken (Steps-Spends r (omega arith) (progress-Steps e now s rs t ns live h))
  | inr ((p, proof, round), ended) ↦ let same = progress-finalized e now s ended in ground arith
]

run-Spends :
    (r : Round) (events : List (ConsensusEvent × Timestamp)) (s : ConsensusState)
    (rs : List ConsensusResponse) (t : ConsensusState)
    → s.round + length events < u64_mod
    → NoStart events
    → run events s ≡ some (rs, t)
    → Spends r (length events) s rs t
unfolding run
run-Spends r [] s rs t small ns h = ground arith
run-Spends r ((e, now) ∷ events) s rs t small ns h =
    let (xs, u, ys, head, tail, joined) =
      then_extend_cases (progress e now) (run events) s rs t h in
    let first = progress-Spends r e now s xs u (omega arith) ns.0 head in
    let rest = run-Spends r events u ys t (omega arith) ns.1 tail in
    let both =
      subst (λ l. Spends r (1 + length events) s l t) (sym joined) (Spends-append first rest) in
    omega arith

-- Over any sequence of events but the start, a node sends out at most one prevote and at most one
-- precommit for a round, and moves on by at most one round an event, as long as the round number
-- does not reach the end of its 64 bits.
pub run-votes_once :
    (r : Round) (events : List (ConsensusEvent × Timestamp)) (s : ConsensusState)
    (rs : List ConsensusResponse) (t : ConsensusState)
    → s.round + length events < u64_mod
    → NoStart events
    → run events s ≡ some (rs, t)
    → (prevotes_in r rs ≤ 1) × (precommits_in r rs ≤ 1) × (t.round ≤ s.round + length events)
unfolding prevotes_left precommits_left
run-votes_once r events s rs t small ns h =
    let spent = run-Spends r events s rs t small ns h in ground arith
