-- ===== src/Vetomint/Scheduled.antt =====
-- No event takes back a precommit timeout that the state of vetomint/src/state.rs holds.
use simperby.Base.{
  ℕ, ◌≡◌, inl, inr, none, some, List, [], ◌∷◌, arith, subst, sym, ◌∙◌, In, Option-cases,
}
use simperby.Base.Word.{add_u64}
use simperby.Vetomint.Types.{Round, Timestamp, ConsensusEvent, ConsensusResponse, ConsensusState}
use simperby.Vetomint.Handlers.{start_round}
use simperby.Vetomint.Progress.{insert_proposal, insert_prevote, insert_precommit, progress}
use simperby.Vetomint.Step.{
  Step, idle, report, vote, lock, revalue, give_up, early, schedule, finalize, Steps, here, next,
  turn,
}
use simperby.Vetomint.Step.Ending.{then_extend_cases}
use simperby.Vetomint.Step.Refine.{absorb, progress-Steps}
use simperby.Vetomint.Votes.{run, progress-finalized, progress-start}

-- The timeout is one of the precommit timeouts of the state.
abbrev pub IsScheduled : Round × Timestamp → ConsensusState → Type 0
IsScheduled x s = In x s.precommit_timeout_schedules

module _ (x : Round × Timestamp) where
  same-IsScheduled :
      (s t : ConsensusState)
      → t.precommit_timeout_schedules ≡ s.precommit_timeout_schedules
      → IsScheduled x s
      → IsScheduled x t
  same-IsScheduled s t e h = subst (In x) (sym e) h

  Step-IsScheduled :
      {s t : ConsensusState} {rs : List ConsensusResponse}
      → Step s rs t
      → IsScheduled x s
      → IsScheduled x t
  Step-IsScheduled {s} {t} (idle e f) h = same-IsScheduled s t (ground arith) h
  Step-IsScheduled {s} {t} (report reports f) h = same-IsScheduled s t (ground arith) h
  Step-IsScheduled {s} {t} (vote p at e f) h = same-IsScheduled s t (ground arith) h
  Step-IsScheduled {s} {t} (lock p at proposed quorum e f) h = same-IsScheduled s t (ground arith) h
  Step-IsScheduled {s} {t} (revalue p at proposed quorum e f) h =
      same-IsScheduled s t (ground arith) h
  Step-IsScheduled {s} {t} (give_up at e f) h = same-IsScheduled s t (ground arith) h
  Step-IsScheduled {s} {t} (early p at quorum e f) h = same-IsScheduled s t (ground arith) h
  Step-IsScheduled (schedule first schedules keeps e f) h =
      subst (λ (z : ConsensusState). In x z.precommit_timeout_schedules) (sym f) (keeps x h)
  Step-IsScheduled {s} {t} (finalize p round proposed quorum e f) h =
      same-IsScheduled s t (ground arith) h

  start_round-IsScheduled :
      (s t : ConsensusState) {rs : List ConsensusResponse} (r : Round) (now : Timestamp)
      → start_round r now s ≡ some (rs, t)
      → IsScheduled x s
      → IsScheduled x t
  unfolding start_round
  start_round-IsScheduled s t r now e h = same-IsScheduled s t (ground arith) h

  pub Steps-IsScheduled :
      {k : ℕ} {s t : ConsensusState} {rs : List ConsensusResponse}
      → Steps k s rs t
      → IsScheduled x s
      → IsScheduled x t
  Steps-IsScheduled here h = h
  Steps-IsScheduled (next st rest) h = Steps-IsScheduled rest (Step-IsScheduled st h)
  Steps-IsScheduled {s = s} (turn {t = t} now e rest) h =
      Steps-IsScheduled rest (start_round-IsScheduled s t (add_u64 s.round 1) now e h)

  absorb-IsScheduled :
      (e : ConsensusEvent) (s : ConsensusState) → IsScheduled x s → IsScheduled x (absorb e s)
  unfolding insert_proposal insert_prevote insert_precommit
  absorb-IsScheduled (ConsensusEvent.block_proposal_received p v vr who round f) s h = h
  absorb-IsScheduled (ConsensusEvent.skip_round round) s h = h
  absorb-IsScheduled (ConsensusEvent.block_candidate_updated p) s h = h
  absorb-IsScheduled (ConsensusEvent.prevote p who round) s h = h
  absorb-IsScheduled (ConsensusEvent.precommit p who round) s h = h
  absorb-IsScheduled ConsensusEvent.start s h = h
  absorb-IsScheduled ConsensusEvent.timer s h = h

  started-IsScheduled :
      (e : ConsensusEvent) (now : Timestamp) (s t : ConsensusState) (rs : List ConsensusResponse)
      → s.finalized ≡ none
      → progress e now s ≡ some (rs, t)
      → IsScheduled x s
      → IsScheduled x t
  started-IsScheduled ConsensusEvent.start now s t rs live done h =
      start_round-IsScheduled s t 0 now (sym (progress-start now s live) ∙ done) h
  started-IsScheduled e now s t rs live done h =
      Steps-IsScheduled (progress-Steps e now s rs t (λ n. n) live done) (absorb-IsScheduled e s h)

  progress-IsScheduled :
      (e : ConsensusEvent) (now : Timestamp) (s t : ConsensusState) (rs : List ConsensusResponse)
      → progress e now s ≡ some (rs, t)
      → IsScheduled x s
      → IsScheduled x t
  progress-IsScheduled e now s t rs done h = elim (Option-cases s.finalized) [
    | inl live ↦ started-IsScheduled e now s t rs live done h
    | inr ((p, proof, round), ended) ↦
        let same = progress-finalized e now s ended in
        let stays : s ≡ t = ground arith in subst (IsScheduled x) stays h
  ]

  pub run-IsScheduled :
      (events : List (ConsensusEvent × Timestamp)) (s t : ConsensusState)
      (rs : List ConsensusResponse)
      → run events s ≡ some (rs, t)
      → IsScheduled x s
      → IsScheduled x t
  unfolding run
  run-IsScheduled [] s t rs done h =
      let stays : s ≡ t = ground arith in subst (IsScheduled x) stays h
  run-IsScheduled ((e, now) ∷ events) s t rs done h =
      let (xs, u, ys, head, tail, joined) =
        then_extend_cases (progress e now) (run events) s rs t done in
      run-IsScheduled events u t ys tail (progress-IsScheduled e now s u xs head h)
