-- ===== src/Vetomint/Spent.antt =====
-- What the changes of vetomint/src/progress.rs send out: a proposal, a prevote and a precommit at most
-- in each round of the consensus.
use simperby.Base.{
  ℕ, suc, ◌+◌, ◌*◌, ◌-◌, ◌≤◌, ◌<◌, ◌≡◌, refl, some, List, [], ◌∷◌, ◌++◌, arith, inl, inr,
  Option-cases,
}
use simperby.Base.Word.{u64_mod, add_u64}
use simperby.Vetomint.Types.{
  Round, Timestamp, ConsensusStep, ConsensusEvent, ConsensusResponse, broadcast_proposal,
  broadcast_prevote, broadcast_precommit, finalize_block, violation_report, ConsensusState,
}
use simperby.Vetomint.Handlers.{start_round}
use simperby.Vetomint.Progress.{progress, insert_proposal, insert_prevote, insert_precommit}
use simperby.Vetomint.Step.{
  Step, idle, report, vote, lock, revalue, give_up, early, schedule, finalize, Steps, here, next,
  turn, AreReports,
}
use simperby.Vetomint.Step.Refine.{IsStart, absorb, progress-Steps}
use simperby.Vetomint.Votes.{progress-finalized}

-- The responses that are fed back.
abbrev pub broadcasts : List ConsensusResponse → ℕ
broadcasts [] = 0
broadcasts (broadcast_proposal _ _ _ ∷ rs) = suc (broadcasts rs)
broadcasts (broadcast_prevote _ _ ∷ rs) = suc (broadcasts rs)
broadcasts (broadcast_precommit _ _ ∷ rs) = suc (broadcasts rs)
broadcasts (_ ∷ rs) = broadcasts rs

abbrev pub votes_left : ConsensusStep → ℕ
votes_left ConsensusStep.prevote = 1
votes_left ConsensusStep.precommit = 0
votes_left _ = 2

-- What a state can still send out in the rounds up to `last`.
unfoldable pub allowance : Round → ConsensusState → ℕ
allowance last s = 3 * (last - s.round) + votes_left s.step

broadcasts-append :
    (xs ys : List ConsensusResponse) → broadcasts (xs ++ ys) ≡ broadcasts xs + broadcasts ys
broadcasts-append [] ys = omega arith
broadcasts-append (broadcast_proposal _ _ _ ∷ xs) ys = omega (arith, broadcasts-append xs ys)
broadcasts-append (broadcast_prevote _ _ ∷ xs) ys = omega (arith, broadcasts-append xs ys)
broadcasts-append (broadcast_precommit _ _ ∷ xs) ys = omega (arith, broadcasts-append xs ys)
broadcasts-append (finalize_block _ _ _ ∷ xs) ys = broadcasts-append xs ys
broadcasts-append (violation_report _ _ ∷ xs) ys = broadcasts-append xs ys

AreReports-broadcasts : (rs : List ConsensusResponse) → AreReports rs → broadcasts rs ≡ 0
AreReports-broadcasts [] h = refl
AreReports-broadcasts (broadcast_proposal _ _ _ ∷ rs) h = absurd h.0
AreReports-broadcasts (broadcast_prevote _ _ ∷ rs) h = absurd h.0
AreReports-broadcasts (broadcast_precommit _ _ ∷ rs) h = absurd h.0
AreReports-broadcasts (finalize_block _ _ _ ∷ rs) h = absurd h.0
AreReports-broadcasts (violation_report _ _ ∷ rs) h = AreReports-broadcasts rs h.1

-- A change pays for what it sends out, as long as it stays within the rounds up to `last`; and its
-- round grows by at most `k`.
pub record Pays (last : Round) (k : ℕ) (s : ConsensusState) (rs : List ConsensusResponse)
    (t : ConsensusState) : Type 0 where
  pub forward : s.round ≤ t.round
  pub bounded : t.round ≤ s.round + k
  pub paid : t.round ≤ last → broadcasts rs + allowance last t ≤ allowance last s

pub Pays-append :
    (last : Round) {j k : ℕ} {s t u : ConsensusState} {xs ys : List ConsensusResponse}
    → Pays last j s xs t
    → Pays last k t ys u
    → Pays last (j + k) s (xs ++ ys) u
Pays-append last {xs = xs} {ys = ys} a b = omega (arith, broadcasts-append xs ys)

Step-Pays :
    (last : Round) {s t : ConsensusState} {rs : List ConsensusResponse}
    → Step s rs t
    → Pays last 0 s rs t
unfolding allowance
Step-Pays last (idle e f) = ground arith
Step-Pays last {rs = rs} (report reports f) = ground (arith, AreReports-broadcasts rs reports)
Step-Pays last (vote p at e f) = ground arith
Step-Pays last (lock p at proposed quorum e f) = ground arith
Step-Pays last (revalue p at proposed quorum e f) = ground arith
Step-Pays last (give_up at e f) = ground arith
Step-Pays last (early p at quorum e f) = ground arith
Step-Pays last (schedule first schedules keeps e f) = ground arith
Step-Pays last (finalize p round proposed quorum e f) = ground arith

start_round-Pays :
    (last : Round) (now : Timestamp) (s t : ConsensusState) (rs : List ConsensusResponse)
    → s.round + 1 < u64_mod
    → start_round (add_u64 s.round 1) now s ≡ some (rs, t)
    → Pays last 1 s rs t
unfolding allowance start_round add_u64
start_round-Pays last now s t rs small e = ground arith

Steps-Pays :
    (last : Round) {k : ℕ} {s u : ConsensusState} {rs : List ConsensusResponse}
    → s.round + k < u64_mod
    → Steps k s rs u
    → Pays last k s rs u
Steps-Pays last small here = ground arith
Steps-Pays last small (next st rest) =
    let first = Step-Pays last st in
    let both = Pays-append last first (Steps-Pays last (omega arith) rest) in omega arith
Steps-Pays last {s = s} small (turn {t = t} {xs = xs} now e rest) =
    let first = start_round-Pays last now s t xs (omega arith) e in
    let both = Pays-append last first (Steps-Pays last (omega arith) rest) in omega arith

absorb-Pays :
    (last : Round) (e : ConsensusEvent) (s : ConsensusState) → Pays last 0 s [] (absorb e s)
unfolding allowance insert_proposal insert_prevote insert_precommit
absorb-Pays last (ConsensusEvent.block_proposal_received p v vr who round f) s = omega arith
absorb-Pays last (ConsensusEvent.skip_round round) s = omega arith
absorb-Pays last (ConsensusEvent.block_candidate_updated p) s = omega arith
absorb-Pays last (ConsensusEvent.prevote p who round) s = omega arith
absorb-Pays last (ConsensusEvent.precommit p who round) s = omega arith
absorb-Pays last ConsensusEvent.start s = omega arith
absorb-Pays last ConsensusEvent.timer s = omega arith

pub progress-Pays :
    (last : Round) (e : ConsensusEvent) (now : Timestamp) (s : ConsensusState)
    (rs : List ConsensusResponse) (t : ConsensusState)
    → s.round + 1 < u64_mod
    → ¬ IsStart e
    → progress e now s ≡ some (rs, t)
    → Pays last 1 s rs t
progress-Pays last e now s rs t small ns h = elim (Option-cases s.finalized) [
  | inl live ↦
      let taken = absorb-Pays last e s in
      Pays-append last taken (Steps-Pays last (omega arith) (progress-Steps e now s rs t ns live h))
  | inr ((p, proof, round), ended) ↦ let same = progress-finalized e now s ended in ground arith
]
