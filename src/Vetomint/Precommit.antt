-- ===== src/Vetomint/Precommit.antt =====
-- When a node precommits a block: the precommits that `progress` in vetomint/src/progress.rs sends.
use simperby.Base.{
  ℕ, ◌≡◌, ◌*◌, ◌<◌, sym, ◌∙◌, ◌⊎◌, none, some, List, [], ◌∷◌, ◌++◌, arith, inl, inr, Option-cases,
}
use simperby.Base.Word.{u64_mod, sum}
use simperby.Base.Sorted.{IsAscending-IsNodup}
use simperby.Vetomint.Types.{
  HeightInfo, new, compare_vote, BlockIdentifier, Round, Timestamp, ConsensusEvent,
  ConsensusResponse, broadcast_proposal, broadcast_prevote, broadcast_precommit, finalize_block,
  violation_report, ConsensusState,
}
use simperby.Vetomint.Tally.{get_total_prevotes_on_proposal}
use simperby.Vetomint.Handlers.{start_round, proposal_or}
use simperby.Vetomint.Progress.{progress}
use simperby.Vetomint.Step.{
  Step, idle, report, vote, lock, revalue, give_up, early, schedule, finalize, Steps, here, next,
  turn, IsQuorum, AreReports,
}
use simperby.Vetomint.Step.Refine.{progress-Steps}
use simperby.Vetomint.Kept.{Steps-Kept, prevote-IsQuorum-Kept}
use simperby.Vetomint.Votes.{progress-finalized, progress-start, run}
use simperby.Vetomint.Weight.{weight, voted_for}
use simperby.Vetomint.Quorum.{tally-voted_for}
use simperby.Vetomint.Sets.{HasSets, compare_vote-IsOrder, run-HasSets, progress-HasSets}

-- Every precommit for a block among some responses satisfies `Q`.
abbrev pub AllPrecommits : (Round → BlockIdentifier → Type 0) → List ConsensusResponse → Type 0
AllPrecommits Q [] = Unit
AllPrecommits Q (broadcast_precommit (some p) r ∷ rs) = Q r p × AllPrecommits Q rs
AllPrecommits Q (_ ∷ rs) = AllPrecommits Q rs

-- The code's tally of the prevotes for the block in the round is a quorum.
abbrev HasCounted : ConsensusState → Round → BlockIdentifier → Type 0
HasCounted s r p = IsQuorum s (get_total_prevotes_on_proposal s r p)

AllPrecommits-append :
    (Q : Round → BlockIdentifier → Type 0) (xs ys : List ConsensusResponse)
    → AllPrecommits Q xs
    → AllPrecommits Q ys
    → AllPrecommits Q (xs ++ ys)
AllPrecommits-append Q [] ys hx hy = hy
AllPrecommits-append Q (broadcast_precommit (some p) r ∷ xs) ys hx hy =
    (hx.0, AllPrecommits-append Q xs ys hx.1 hy)
AllPrecommits-append Q (broadcast_precommit none r ∷ xs) ys hx hy =
    AllPrecommits-append Q xs ys hx hy
AllPrecommits-append Q (broadcast_proposal _ _ _ ∷ xs) ys hx hy = AllPrecommits-append Q xs ys hx hy
AllPrecommits-append Q (broadcast_prevote _ _ ∷ xs) ys hx hy = AllPrecommits-append Q xs ys hx hy
AllPrecommits-append Q (finalize_block _ _ _ ∷ xs) ys hx hy = AllPrecommits-append Q xs ys hx hy
AllPrecommits-append Q (violation_report _ _ ∷ xs) ys hx hy = AllPrecommits-append Q xs ys hx hy

AreReports-AllPrecommits :
    (Q : Round → BlockIdentifier → Type 0) (rs : List ConsensusResponse)
    → AreReports rs
    → AllPrecommits Q rs
AreReports-AllPrecommits Q [] h = tt
AreReports-AllPrecommits Q (broadcast_proposal _ _ _ ∷ rs) h = absurd h.0
AreReports-AllPrecommits Q (broadcast_prevote _ _ ∷ rs) h = absurd h.0
AreReports-AllPrecommits Q (broadcast_precommit _ _ ∷ rs) h = absurd h.0
AreReports-AllPrecommits Q (finalize_block _ _ _ ∷ rs) h = absurd h.0
AreReports-AllPrecommits Q (violation_report _ _ ∷ rs) h = AreReports-AllPrecommits Q rs h.1

Step-AllPrecommits :
    {s t : ConsensusState} {rs : List ConsensusResponse}
    → Step s rs t
    → AllPrecommits (HasCounted s) rs
Step-AllPrecommits (idle e f) = rw e tt
Step-AllPrecommits {s} {rs = rs} (report reports f) =
    AreReports-AllPrecommits (HasCounted s) rs reports
Step-AllPrecommits (vote p at e f) = rw e tt
Step-AllPrecommits (lock p at proposed quorum e f) = rw e (quorum, tt)
Step-AllPrecommits (revalue p at proposed quorum e f) = rw e tt
Step-AllPrecommits (give_up at e f) = rw e tt
Step-AllPrecommits (early p at quorum e f) = rw e (quorum, tt)
Step-AllPrecommits (schedule first schedules keeps e f) = rw e tt
Step-AllPrecommits (finalize p round proposed quorum e f) = rw e tt

start_round_responses :
    (r : Round) (now : Timestamp) (s t : ConsensusState) (rs : List ConsensusResponse)
    → start_round r now s ≡ some (rs, t)
    → (rs ≡ [])
      ⊎ (rs ≡ broadcast_proposal (proposal_or s.valid_value s.block_candidate) s.valid_round r ∷ [])
unfolding start_round
start_round_responses r now s t rs e = ground arith

start_round-AllPrecommits :
    (Q : Round → BlockIdentifier → Type 0) (r : Round) (now : Timestamp) (s t : ConsensusState)
    (rs : List ConsensusResponse)
    → start_round r now s ≡ some (rs, t)
    → AllPrecommits Q rs
start_round-AllPrecommits Q r now s t rs e = elim (start_round_responses r now s t rs e) [
  | inl silent ↦ rw silent tt
  | inr proposes ↦ rw proposes tt
]

AllPrecommits-map :
    (P Q : Round → BlockIdentifier → Type 0)
    → ((r : Round) (p : BlockIdentifier) → P r p → Q r p)
    → (rs : List ConsensusResponse) → AllPrecommits P rs
    → AllPrecommits Q rs
AllPrecommits-map P Q f [] h = tt
AllPrecommits-map P Q f (broadcast_precommit (some p) r ∷ rs) h =
    (f r p h.0, AllPrecommits-map P Q f rs h.1)
AllPrecommits-map P Q f (broadcast_precommit none r ∷ rs) h = AllPrecommits-map P Q f rs h
AllPrecommits-map P Q f (broadcast_proposal _ _ _ ∷ rs) h = AllPrecommits-map P Q f rs h
AllPrecommits-map P Q f (broadcast_prevote _ _ ∷ rs) h = AllPrecommits-map P Q f rs h
AllPrecommits-map P Q f (finalize_block _ _ _ ∷ rs) h = AllPrecommits-map P Q f rs h
AllPrecommits-map P Q f (violation_report _ _ ∷ rs) h = AllPrecommits-map P Q f rs h

Steps-AllPrecommits :
    {k : ℕ} {s u : ConsensusState} {rs : List ConsensusResponse}
    → Steps k s rs u
    → AllPrecommits (HasCounted u) rs
Steps-AllPrecommits here = tt
Steps-AllPrecommits {s = s} {u = u} (next {t = t} {xs = xs} {ys = ys} st rest) =
    AllPrecommits-append (HasCounted u) xs ys
      (AllPrecommits-map (HasCounted s) (HasCounted u)
        (λ r p h. prevote-IsQuorum-Kept (Steps-Kept (next st rest)) r p h) xs
        (Step-AllPrecommits st))
      (Steps-AllPrecommits rest)
Steps-AllPrecommits {s = s} {u = u} (turn {t = t} {xs = xs} {ys = ys} now e rest) =
    AllPrecommits-append (HasCounted u) xs ys
      (start_round-AllPrecommits (HasCounted u) _ now s t xs e) (Steps-AllPrecommits rest)

progress-HasCounted :
    (e : ConsensusEvent) (now : Timestamp) (s : ConsensusState) (rs : List ConsensusResponse)
    (t : ConsensusState)
    → s.finalized ≡ none
    → progress e now s ≡ some (rs, t)
    → AllPrecommits (HasCounted t) rs
progress-HasCounted ConsensusEvent.start now s rs t live h =
    start_round-AllPrecommits (HasCounted t) 0 now s t rs (sym (progress-start now s live) ∙ h)
progress-HasCounted e now s rs t live h =
    Steps-AllPrecommits (progress-Steps e now s rs t (λ x. x) live h)

-- Validators with more than two thirds of the voting power have prevoted the block in the round.
abbrev pub HasPolka : ConsensusState → Round → BlockIdentifier → Type 0
HasPolka s r p =
    sum s.height_info.validators * 2
    < weight (voted_for s.prevotes r p) s.height_info.validators * 3

HasCounted-HasPolka :
    (s : ConsensusState)
    → HasSets s
    → sum s.height_info.validators * 3 < u64_mod
    → (r : Round) (p : BlockIdentifier) → HasCounted s r p
    → HasPolka s r p
unfolding get_total_prevotes_on_proposal
HasCounted-HasPolka s sets small r p =
    let once = IsAscending-IsNodup compare_vote compare_vote-IsOrder s.prevotes sets.0 in
    tally-voted_for s r s.prevotes once small p

-- Every precommit that a node sends out for a block in a round, in any state that it reaches from the
-- beginning of a height by any events, follows prevotes for that block in that round, which the state
-- holds, of validators with more than two thirds of the voting power. Three times the total power must
-- fit 64 bits.
pub progress-HasPolka :
    (height_info : HeightInfo) (events : List (ConsensusEvent × Timestamp)) (s : ConsensusState)
    (rs0 : List ConsensusResponse) (e : ConsensusEvent) (now : Timestamp) (t : ConsensusState)
    (rs : List ConsensusResponse)
    → run events (new height_info) ≡ some (rs0, s)
    → progress e now s ≡ some (rs, t)
    → sum t.height_info.validators * 3 < u64_mod
    → AllPrecommits (HasPolka t) rs
unfolding new
progress-HasPolka height_info events s rs0 e now t rs reached h small =
    let before = run-HasSets events (new height_info) s rs0 (tt, tt) reached in
    let sets = progress-HasSets e now s t rs before h in
    elim (Option-cases s.finalized) [
      | inl live ↦
          AllPrecommits-map (HasCounted t) (HasPolka t) (HasCounted-HasPolka t sets small) rs
            (progress-HasCounted e now s rs t live h)
      | inr ((p, proof, round), ended) ↦
          let same = progress-finalized e now s ended in
          let repeats : rs ≡ finalize_block p round proof ∷ [] = ground arith in rw repeats tt
    ]
