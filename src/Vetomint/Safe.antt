-- ===== src/Vetomint/Safe.antt =====
-- No panic: vetomint/src/progress.rs and vetomint/src/state.rs index the validators by the signer
-- of each vote, and take a remainder by their number.
use simperby.Base.{
  ℕ, ◌<◌, ◌≢◌, Bool, Option, none, some, List, [], ◌∷◌, arith, length, All, select, get_elem?_lt,
  inl, inr, Option-cases,
}
use simperby.Base.Word.{add_u64}
use simperby.Vetomint.Types.{BlockIdentifier, Round, VotingPower, Timestamp, Vote, ConsensusState}
use simperby.Vetomint.Monad.{Handler, ◌then_extend◌}
use simperby.Vetomint.Proposer.{decide_proposer}
use simperby.Vetomint.Tally.{
  powers, tally, get_total_prevotes, get_total_precommits, get_total_prevotes_on_proposal,
  get_total_precommits_on_proposal, get_total_prevotes_on_nil, get_total_precommits_on_nil,
  in_round, in_round_on, in_round_on_nil,
}
use simperby.Vetomint.Handlers.{
  start_round, on_proposal, on_4f_non_nil_prevote_in_propose_step,
  on_4f_non_nil_prevote_in_prevote_step, on_4f_nil_prevote,
}
use simperby.Vetomint.Late.{
  on_5f_prevote, on_5f_precommit, on_4f_nil_precommit, on_4f_non_nil_precommit,
}
use simperby.Vetomint.Step.{Refines}
use simperby.Vetomint.Kept.{Kept, Steps-Kept}

-- There are validators, and every vote that the state holds is one of theirs.
pub record IsWellFormed (s : ConsensusState) : Type 0 where
  pub some_validator : 0 < length s.height_info.validators
  pub prevoters : All (λ v. v.signer < length s.height_info.validators) s.prevotes
  pub precommitters : All (λ v. v.signer < length s.height_info.validators) s.precommits

pub IsWellFormed-Kept : {s t : ConsensusState} → Kept s t → IsWellFormed s → IsWellFormed t
IsWellFormed-Kept kept h = record {
  some_validator = rw kept.height_info h.some_validator;
  prevoters = rw (kept.height_info, kept.prevotes) h.prevoters;
  precommitters = rw (kept.height_info, kept.precommits) h.precommitters;
}

powers_total :
    (validators : List VotingPower) (counts : Vote → Bool) (votes : List Vote)
    → All (λ v. v.signer < length validators) votes
    → powers validators (select counts votes) ≢ none
unfolding powers
powers_total validators counts [] h = λ e. cc
powers_total validators counts (v ∷ votes) h =
    let (power, found) = get_elem?_lt validators v.signer h.0 in
    ground (arith, powers_total validators counts votes h.1)

tally_total :
    (validators : List VotingPower) (counts : Vote → Bool) (votes : List Vote)
    → All (λ v. v.signer < length validators) votes
    → tally validators counts votes ≢ none
unfolding tally
tally_total validators counts votes h = ground (arith, powers_total validators counts votes h)

decide_proposer_total :
    (round : Round) (s : ConsensusState)
    → IsWellFormed s
    → decide_proposer round s.height_info ≢ none
unfolding decide_proposer
decide_proposer_total round s h = ground arith

module _ (s : ConsensusState) (h : IsWellFormed s) where
  totals : (r : Round) → (get_total_prevotes s r ≢ none) × (get_total_precommits s r ≢ none)
  unfolding get_total_prevotes get_total_precommits
  totals r = (
    tally_total _ (in_round r) s.prevotes h.prevoters,
    tally_total _ (in_round r) s.precommits h.precommitters,
  )

  totals_on :
      (r : Round) (p : BlockIdentifier)
      → (get_total_prevotes_on_proposal s r p ≢ none)
        × (get_total_precommits_on_proposal s r p ≢ none)
  unfolding get_total_prevotes_on_proposal get_total_precommits_on_proposal
  totals_on r p = (
    tally_total _ (in_round_on r p) s.prevotes h.prevoters,
    tally_total _ (in_round_on r p) s.precommits h.precommitters,
  )

  totals_on_nil :
      (r : Round)
      → (get_total_prevotes_on_nil s r ≢ none) × (get_total_precommits_on_nil s r ≢ none)
  unfolding get_total_prevotes_on_nil get_total_precommits_on_nil
  totals_on_nil r = (
    tally_total _ (in_round_on_nil r) s.prevotes h.prevoters,
    tally_total _ (in_round_on_nil r) s.precommits h.precommitters,
  )

-- A handler that does not panic on a well-formed state.
abbrev pub IsSafe : Handler → Type 0
IsSafe m = (s : ConsensusState) → IsWellFormed s → m s ≢ none

module _ (r : Round) (p : BlockIdentifier) where
  pub on_proposal-IsSafe : IsSafe (on_proposal r p)
  unfolding on_proposal
  on_proposal-IsSafe s h = ground (arith, decide_proposer_total r s h)

  pub on_4f_propose-IsSafe : IsSafe (on_4f_non_nil_prevote_in_propose_step r p)
  unfolding on_4f_non_nil_prevote_in_propose_step
  on_4f_propose-IsSafe s h =
      grind (arith, decide_proposer_total r s h, λ (vr : Round). totals_on s h vr p)

  pub on_4f_prevote-IsSafe : IsSafe (on_4f_non_nil_prevote_in_prevote_step r p)
  unfolding on_4f_non_nil_prevote_in_prevote_step
  on_4f_prevote-IsSafe s h = ground (arith, decide_proposer_total r s h, totals_on s h r p)

  pub on_4f_non_nil_precommit-IsSafe : IsSafe (on_4f_non_nil_precommit r p)
  unfolding on_4f_non_nil_precommit
  on_4f_non_nil_precommit-IsSafe s h =
      ground (arith, decide_proposer_total r s h, totals_on s h r p)

pub on_4f_nil_prevote-IsSafe : (r : Round) → IsSafe (on_4f_nil_prevote r)
unfolding on_4f_nil_prevote
on_4f_nil_prevote-IsSafe r s h = ground (arith, totals_on_nil s h r)

pub on_5f_prevote-IsSafe : (r : Round) (p : Option BlockIdentifier) → IsSafe (on_5f_prevote r p)
unfolding on_5f_prevote
on_5f_prevote-IsSafe r none s h = ground (arith, totals s h r)
on_5f_prevote-IsSafe r (some p) s h = ground (arith, totals s h r, totals_on s h r p)

pub on_5f_precommit-IsSafe : (r : Round) → IsSafe (on_5f_precommit r)
unfolding on_5f_precommit
on_5f_precommit-IsSafe r s h = ground (arith, totals s h r)

pub start_round-IsSafe : (r : Round) (now : Timestamp) → IsSafe (start_round r now)
unfolding start_round
start_round-IsSafe r now s h = ground (arith, decide_proposer_total r s h)

pub on_4f_nil_precommit-IsSafe : (r : Round) (now : Timestamp) → IsSafe (on_4f_nil_precommit r now)
unfolding on_4f_nil_precommit
on_4f_nil_precommit-IsSafe r now s h =
    ground (arith, totals_on_nil s h r, start_round-IsSafe (add_u64 r 1) now s h)

pub then_extend-IsSafe :
    {j : ℕ} (m k : Handler) → Refines j m → IsSafe m → IsSafe k → IsSafe (m then_extend k)
unfolding ◌then_extend◌
then_extend-IsSafe m k steps hm hk s h = elim (Option-cases (m s)) [
  | inl panics ↦ absurd (hm s h panics)
  | inr ((xs, u), e) ↦
      let fine = hk u (IsWellFormed-Kept (Steps-Kept (steps s xs u e)) h) in ground arith
]
