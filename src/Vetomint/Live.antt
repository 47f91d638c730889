-- ===== src/Vetomint/Live.antt =====
-- No sequence of validators' events makes `progress` of vetomint/src/progress.rs panic.
use simperby.Base.{
  ◌<◌, ◌≡◌, refl, sym, ◌∙◌, some, List, [], ◌∷◌, ◌++◌, arith, inl, inr, All, length, Option-cases,
}
use simperby.Vetomint.Types.{
  Timestamp, HeightInfo, ConsensusEvent, ConsensusResponse, ConsensusState, new,
}
use simperby.Vetomint.Monad.{◌then_extend◌}
use simperby.Vetomint.Progress.{progress}
use simperby.Vetomint.Kept.{start_round-Kept}
use simperby.Vetomint.Votes.{run, progress-finalized, progress-start}
use simperby.Vetomint.Observer.{progress-height_info}
use simperby.Vetomint.Safe.{IsWellFormed}
use simperby.Vetomint.Total.{IsSigned, progress-total}

start-height_info :
    (now : Timestamp) (s : ConsensusState) (rs : List ConsensusResponse) (t : ConsensusState)
    → progress ConsensusEvent.start now s ≡ some (rs, t)
    → t.height_info ≡ s.height_info
start-height_info now s rs t done = elim (Option-cases s.finalized) [
  | inl live ↦
      let kept = start_round-Kept 0 now (sym (progress-start now s live) ∙ done) in kept.height_info
  | inr ((p, proof, round), ended) ↦
      let same = progress-finalized ConsensusEvent.start now s ended in ground arith
]

any-height_info :
    (e : ConsensusEvent) (now : Timestamp) (s : ConsensusState) (rs : List ConsensusResponse)
    (t : ConsensusState)
    → progress e now s ≡ some (rs, t)
    → t.height_info ≡ s.height_info
any-height_info ConsensusEvent.start now s rs t done = start-height_info now s rs t done
any-height_info e now s rs t done = progress-height_info e now s rs t (λ h. h) done

-- Every vote among the events is that of a validator.
abbrev pub AllSigned : List (ConsensusEvent × Timestamp) → ConsensusState → Type 0
AllSigned events s = All (λ e. IsSigned e.0 s) events

IsSigned-moved :
    (e : ConsensusEvent) (s t : ConsensusState)
    → t.height_info ≡ s.height_info
    → IsSigned e s
    → IsSigned e t
IsSigned-moved (ConsensusEvent.prevote p who r) s t same ours = rw same ours
IsSigned-moved (ConsensusEvent.precommit p who r) s t same ours = rw same ours
IsSigned-moved (ConsensusEvent.block_proposal_received p v vr who r f) s t same ours = tt
IsSigned-moved (ConsensusEvent.skip_round r) s t same ours = tt
IsSigned-moved (ConsensusEvent.block_candidate_updated p) s t same ours = tt
IsSigned-moved ConsensusEvent.start s t same ours = tt
IsSigned-moved ConsensusEvent.timer s t same ours = tt

AllSigned-moved :
    (events : List (ConsensusEvent × Timestamp)) (s t : ConsensusState)
    → t.height_info ≡ s.height_info
    → AllSigned events s
    → AllSigned events t
AllSigned-moved [] s t same ours = tt
AllSigned-moved (e ∷ events) s t same ours =
    (IsSigned-moved e.0 s t same ours.0, AllSigned-moved events s t same ours.1)

run_from-total :
    (events : List (ConsensusEvent × Timestamp)) (s : ConsensusState)
    → IsWellFormed s
    → AllSigned events s
    → (result : List ConsensusResponse × ConsensusState) × (run events s ≡ some result)
      × IsWellFormed result.1
unfolding run ◌then_extend◌
run_from-total [] s well ours = (([], s), refl, well)
run_from-total ((e, now) ∷ events) s well ours =
    let ((xs, u), first, well_u) = progress-total e now s ours.0 well in
    let same = any-height_info e now s xs u first in
    let ((ys, t), rest, well_t) =
      run_from-total events u well_u (AllSigned-moved events s u same ours.1) in
    ((xs ++ ys, t), ground arith, well_t)

-- From the beginning of a height with at least one validator, the state machine never panics on any
-- sequence of events, in any order, whose votes are those of validators.
pub run-total :
    (height_info : HeightInfo) (events : List (ConsensusEvent × Timestamp))
    → 0 < length height_info.validators
    → AllSigned events (new height_info)
    → (result : List ConsensusResponse × ConsensusState) × (run events (new height_info)
        ≡ some result)
      × IsWellFormed result.1
unfolding new
run-total height_info events some_validator ours =
    run_from-total events (new height_info)
      (record { some_validator = some_validator; prevoters = tt; precommitters = tt }) ours
