-- ===== src/Vetomint/Kept.antt =====
-- What the steps of the abstract machine leave alone: the votes and the proposals it has taken in.
use simperby.Base.{ℕ, ◌≡◌, ◌∙◌, some, List, arith}
use simperby.Base.Word.{add_u64}
use simperby.Vetomint.Types.{BlockIdentifier, Round, Timestamp, ConsensusResponse, ConsensusState}
use simperby.Vetomint.Handlers.{start_round, two_thirds}
use simperby.Vetomint.Tally.{
  get_total_voting_power, get_total_prevotes_on_proposal, get_total_precommits_on_proposal,
}
use simperby.Vetomint.Step.{
  Step, idle, report, vote, lock, revalue, give_up, early, schedule, finalize, Steps, here, next,
  turn, IsProposed, IsQuorum,
}

pub record Kept (s t : ConsensusState) : Type 0 where
  pub height_info : t.height_info ≡ s.height_info
  pub proposals : t.proposals ≡ s.proposals
  pub prevotes : t.prevotes ≡ s.prevotes
  pub precommits : t.precommits ≡ s.precommits

pub Step-Kept : {s t : ConsensusState} {rs : List ConsensusResponse} → Step s rs t → Kept s t
Step-Kept (idle e f) = ground arith
Step-Kept (report reports f) = ground arith
Step-Kept (vote p at e f) = ground arith
Step-Kept (lock p at proposed quorum e f) = ground arith
Step-Kept (revalue p at proposed quorum e f) = ground arith
Step-Kept (give_up at e f) = ground arith
Step-Kept (early p at quorum e f) = ground arith
Step-Kept (schedule first schedules keeps e f) = ground arith
Step-Kept (finalize p round proposed quorum e f) = ground arith

pub start_round-Kept :
    {s t : ConsensusState} {rs : List ConsensusResponse} (r : Round) (now : Timestamp)
    → start_round r now s ≡ some (rs, t)
    → Kept s t
unfolding start_round
start_round-Kept r now e = ground arith

pub Steps-Kept :
    {k : ℕ} {s t : ConsensusState} {rs : List ConsensusResponse} → Steps k s rs t → Kept s t
Steps-Kept here = ground arith
Steps-Kept (next st rest) = let first = Step-Kept st in let others = Steps-Kept rest in ground arith
Steps-Kept {s = s} (turn now e rest) =
    let first = start_round-Kept (add_u64 s.round 1) now e in
    let others = Steps-Kept rest in ground arith

module _ {s t : ConsensusState} (kept : Kept s t) (r : Round) (p : BlockIdentifier) where
  pub IsProposed-Kept : IsProposed s r p → IsProposed t r p
  IsProposed-Kept h = record {
    proposal = h.proposal;
    known = rw kept.proposals h.known;
    led = rw kept.height_info h.led;
    valid = h.valid;
  }

  two_thirds-Kept : (power : ℕ) → two_thirds t power ≡ two_thirds s power
  unfolding two_thirds get_total_voting_power
  two_thirds-Kept power = rw kept.height_info

  pub prevote-IsQuorum-Kept :
      IsQuorum s (get_total_prevotes_on_proposal s r p)
      → IsQuorum t (get_total_prevotes_on_proposal t r p)
  unfolding get_total_prevotes_on_proposal
  prevote-IsQuorum-Kept h = record {
    power = h.power;
    counted = rw (kept.height_info, kept.prevotes) h.counted;
    enough = two_thirds-Kept h.power ∙ h.enough;
  }

  pub precommit-IsQuorum-Kept :
      IsQuorum s (get_total_precommits_on_proposal s r p)
      → IsQuorum t (get_total_precommits_on_proposal t r p)
  unfolding get_total_precommits_on_proposal
  precommit-IsQuorum-Kept h = record {
    power = h.power;
    counted = rw (kept.height_info, kept.precommits) h.counted;
    enough = two_thirds-Kept h.power ∙ h.enough;
  }
