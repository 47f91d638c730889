-- ===== src/Vetomint/Finality.antt =====
-- When a block is finalized: what the `finalized` field of vetomint/src/state.rs stands for.
use simperby.Base.{
  ℕ, ◌≡◌, ◌*◌, ◌<◌, ◌==◌, any, map, select, ap, Option, none, some, List, [], ◌∷◌, arith, inl, inr,
  Option-cases, sym, ◌∙◌, refl, subst,
}
use simperby.Base.Word.{add_u64, u64_mod, sum}
use simperby.Base.Sorted.{IsNodup, IsAscending-IsNodup}
use simperby.Vetomint.Types.{
  BlockIdentifier, ValidatorIndex, Round, Timestamp, HeightInfo, new, ConsensusEvent,
  ConsensusResponse, ConsensusState, Vote, compare_vote,
}
use simperby.Vetomint.Tally.{in_round_on, get_total_precommits_on_proposal}
use simperby.Vetomint.Handlers.{start_round}
use simperby.Vetomint.Late.{proof_of}
use simperby.Vetomint.Progress.{progress, insert_proposal, insert_prevote, insert_precommit}
use simperby.Vetomint.Step.{
  Step, idle, report, vote, lock, revalue, give_up, early, schedule, finalize, Steps, here, next,
  turn, IsProposed, IsQuorum,
}
use simperby.Vetomint.Step.Ending.{then_extend_cases}
use simperby.Vetomint.Step.Refine.{absorb, progress-Steps}
use simperby.Vetomint.Kept.{
  Kept, Step-Kept, start_round-Kept, IsProposed-Kept, precommit-IsQuorum-Kept,
}
use simperby.Vetomint.Votes.{progress-finalized, progress-start, run}
use simperby.Vetomint.Weight.{weight, voted_for, signs}
use simperby.Vetomint.Quorum.{tally-voted_for, signs-select}
use simperby.Vetomint.Sets.{compare_vote-IsOrder, run-HasSets}

-- What the code has checked when it finalizes a block, with its own tally of the votes.
record IsCounted (s : ConsensusState) (p : BlockIdentifier) (proof : List ValidatorIndex)
    (r : Round) : Type 0 where
  proposed : IsProposed s r p
  quorum : IsQuorum s (get_total_precommits_on_proposal s r p)
  signers : proof ≡ proof_of s.precommits r p

abbrev Decided : ConsensusState → Option (BlockIdentifier × List ValidatorIndex × Round) → Type 0
Decided s none = Unit
Decided s (some (p, proof, r)) = IsCounted s p proof r

Decided-Kept :
    {s t : ConsensusState} (f : Option (BlockIdentifier × List ValidatorIndex × Round))
    → Kept s t
    → Decided s f
    → Decided t f
Decided-Kept none kept h = tt
Decided-Kept (some (p, proof, r)) kept h = record {
  proposed = IsProposed-Kept kept r p h.proposed;
  quorum = precommit-IsQuorum-Kept kept r p h.quorum;
  signers = rw kept.precommits h.signers;
}

abbrev IsSound : ConsensusState → Type 0
IsSound s = Decided s s.finalized

IsSound-same : {s t : ConsensusState} → Kept s t → t.finalized ≡ s.finalized → IsSound s → IsSound t
IsSound-same {s} {t} kept e h = subst (Decided t) (sym e) (Decided-Kept s.finalized kept h)

Step-IsSound :
    {s t : ConsensusState} {rs : List ConsensusResponse} → Step s rs t → IsSound s → IsSound t
Step-IsSound (idle e f) h = IsSound-same (ground arith) (ground arith) h
Step-IsSound (report reports f) h = IsSound-same (ground arith) (ground arith) h
Step-IsSound (vote p at e f) h = IsSound-same (ground arith) (ground arith) h
Step-IsSound (lock p at proposed quorum e f) h = IsSound-same (ground arith) (ground arith) h
Step-IsSound (revalue p at proposed quorum e f) h = IsSound-same (ground arith) (ground arith) h
Step-IsSound (give_up at e f) h = IsSound-same (ground arith) (ground arith) h
Step-IsSound (early p at quorum e f) h = IsSound-same (ground arith) (ground arith) h
Step-IsSound (schedule first schedules keeps e f) h = IsSound-same (ground arith) (ground arith) h
Step-IsSound {s} {t} (finalize p round proposed quorum e f) h =
    let kept = Step-Kept (finalize p round proposed quorum e f) in
    let ended : t.finalized ≡ some (p, proof_of s.precommits round p, round) = ground arith in
    subst (Decided t) (sym ended) (record {
      proposed = IsProposed-Kept kept round p proposed;
      quorum = precommit-IsQuorum-Kept kept round p quorum;
      signers = rw kept.precommits refl;
    })

start_round-IsSound :
    (s t : ConsensusState) (rs : List ConsensusResponse) (r : Round) (now : Timestamp)
    → start_round r now s ≡ some (rs, t)
    → IsSound s
    → IsSound t
unfolding start_round
start_round-IsSound s t rs r now e h = IsSound-same (start_round-Kept r now e) (ground arith) h

Steps-IsSound :
    {k : ℕ} {s t : ConsensusState} {rs : List ConsensusResponse}
    → Steps k s rs t
    → IsSound s
    → IsSound t
Steps-IsSound here h = h
Steps-IsSound (next st rest) h = Steps-IsSound rest (Step-IsSound st h)
Steps-IsSound {s = s} (turn {t = t} {xs = xs} now e rest) h =
    Steps-IsSound rest (start_round-IsSound s t xs (add_u64 s.round 1) now e h)

absorb-live :
    (e : ConsensusEvent) (s : ConsensusState) → s.finalized ≡ none → (absorb e s).finalized ≡ none
unfolding insert_proposal insert_prevote insert_precommit
absorb-live (ConsensusEvent.block_proposal_received p v vr who round f) s h = h
absorb-live (ConsensusEvent.skip_round round) s h = h
absorb-live (ConsensusEvent.block_candidate_updated p) s h = h
absorb-live (ConsensusEvent.prevote p who round) s h = h
absorb-live (ConsensusEvent.precommit p who round) s h = h
absorb-live ConsensusEvent.start s h = h
absorb-live ConsensusEvent.timer s h = h

live-IsSound : (s : ConsensusState) → s.finalized ≡ none → IsSound s
live-IsSound s h = subst (Decided s) (sym h) tt

started-IsSound :
    (e : ConsensusEvent) (now : Timestamp) (s t : ConsensusState) (rs : List ConsensusResponse)
    → s.finalized ≡ none
    → progress e now s ≡ some (rs, t)
    → IsSound t
started-IsSound ConsensusEvent.start now s t rs live h =
    start_round-IsSound s t rs 0 now (sym (progress-start now s live) ∙ h) (live-IsSound s live)
started-IsSound e now s t rs live h =
    Steps-IsSound (progress-Steps e now s rs t (λ x. x) live h)
      (live-IsSound (absorb e s) (absorb-live e s live))

progress-IsSound :
    (e : ConsensusEvent) (now : Timestamp) (s t : ConsensusState) (rs : List ConsensusResponse)
    → IsSound s
    → progress e now s ≡ some (rs, t)
    → IsSound t
progress-IsSound e now s t rs sound h = elim (Option-cases s.finalized) [
  | inl live ↦ started-IsSound e now s t rs live h
  | inr ((p, proof, round), ended) ↦
      let same = progress-finalized e now s ended in
      let stays : s ≡ t = ground arith in subst IsSound stays sound
]

run-IsSound :
    (events : List (ConsensusEvent × Timestamp)) (s t : ConsensusState)
    (rs : List ConsensusResponse)
    → IsSound s
    → run events s ≡ some (rs, t)
    → IsSound t
unfolding run
run-IsSound [] s t rs sound h = let stays : s ≡ t = ground arith in subst IsSound stays sound
run-IsSound ((e, now) ∷ events) s t rs sound h =
    let (xs, u, ys, head, tail, joined) =
      then_extend_cases (progress e now) (run events) s rs t h in
    run-IsSound events u t ys (progress-IsSound e now s u xs sound head) tail

-- The block is valid, was proposed by the leader of the round, and was precommitted in it by
-- validators with more than two thirds of the voting power; the proof lists exactly these.
pub record IsDecided (s : ConsensusState) (p : BlockIdentifier) (proof : List ValidatorIndex)
    (r : Round) : Type 0 where
  pub proposed : IsProposed s r p
  pub quorum :
      sum s.height_info.validators * 2
      < weight (voted_for s.precommits r p) s.height_info.validators * 3
  pub signers : (i : ValidatorIndex) → any (λ j. i == j) proof ≡ voted_for s.precommits r p i

any-signers :
    (i : ValidatorIndex) (votes : List Vote)
    → any (λ j. i == j) (map (λ v. v.signer) votes) ≡ signs votes i
any-signers i [] = refl
any-signers i (v ∷ votes) = ground (arith, any-signers i votes)

IsCounted-IsDecided :
    (s : ConsensusState) (p : BlockIdentifier) (proof : List ValidatorIndex) (r : Round)
    → IsNodup s.precommits
    → sum s.height_info.validators * 3 < u64_mod
    → IsCounted s p proof r
    → IsDecided s p proof r
unfolding get_total_precommits_on_proposal
IsCounted-IsDecided s p proof r once small h = record {
  proposed = h.proposed;
  quorum = tally-voted_for s r s.precommits once small p h.quorum;
  signers = λ i.
      ap (any (λ j. i == j)) h.signers
      ∙ any-signers i (select (in_round_on r p) s.precommits)
      ∙ signs-select r p s.precommits i;
}

-- In every state that a node reaches from the beginning of a height by any events, a finalized
-- block is valid, was proposed by the leader of its round, and was precommitted in that round, by votes
-- that the state holds, by validators with more than two thirds of the voting power; and the proof
-- lists exactly these validators. Three times the total power must fit 64 bits.
pub run_decides :
    (height_info : HeightInfo) (events : List (ConsensusEvent × Timestamp)) (t : ConsensusState)
    (rs : List ConsensusResponse) (p : BlockIdentifier) (proof : List ValidatorIndex) (r : Round)
    → run events (new height_info) ≡ some (rs, t)
    → sum t.height_info.validators * 3 < u64_mod
    → t.finalized ≡ some (p, proof, r)
    → IsDecided t p proof r
unfolding new
run_decides height_info events t rs p proof r h small ended =
    let sets = run-HasSets events (new height_info) t rs (tt, tt) h in
    let once = IsAscending-IsNodup compare_vote compare_vote-IsOrder t.precommits sets.1 in
    IsCounted-IsDecided t p proof r once small
      (subst (Decided t) ended (run-IsSound events (new height_info) t rs tt h))
