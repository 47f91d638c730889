-- ===== src/Vetomint/Step/Voting.antt =====
-- The handlers of prevotes refine the abstract machine.
use simperby.Base.{
  ℕ, ◌≡◌, inl, inr, refl, Bool, ◌&&◌, Option, none, some, List, [], ◌∷◌, compare, arith, ◌==◌,
  Bool-cases, Option-cases,
}
use simperby.Base.Ordered.{map_get}
use simperby.Vetomint.Types.{
  BlockIdentifier, Round, Proposal, ConsensusResponse, ConsensusState, broadcast_prevote,
  broadcast_precommit,
}
use simperby.Vetomint.Handlers.{
  on_proposal, on_4f_non_nil_prevote_in_propose_step, on_4f_non_nil_prevote_in_prevote_step,
  on_4f_nil_prevote, is_precommit, two_thirds,
}
use simperby.Vetomint.Late.{on_5f_prevote}
use simperby.Vetomint.Tally.{is_some_eq, get_total_prevotes_on_proposal}
use simperby.Vetomint.Proposer.{decide_proposer}
use simperby.Vetomint.Step.{Step, idle, vote, lock, revalue, give_up, early}

-- The block of a vote.
abbrev block : ConsensusResponse → Option BlockIdentifier
block (broadcast_prevote p _) = p
block (broadcast_precommit p _) = p
block _ = none

pub on_proposal-Step :
    (round : Round) (p : BlockIdentifier) (s : ConsensusState) (rs : List ConsensusResponse)
    (t : ConsensusState)
    → on_proposal round p s ≡ some (rs, t)
    → Step s rs t
unfolding on_proposal
on_proposal-Step round p s [] t h = idle refl (ground arith)
on_proposal-Step round p s (r ∷ rs) t h =
    vote (block r) (ground arith) (ground arith) (ground arith)

pub on_4f_non_nil_prevote_in_propose_step-Step :
    (round : Round) (p : BlockIdentifier) (s : ConsensusState) (rs : List ConsensusResponse)
    (t : ConsensusState)
    → on_4f_non_nil_prevote_in_propose_step round p s ≡ some (rs, t)
    → Step s rs t
unfolding on_4f_non_nil_prevote_in_propose_step
on_4f_non_nil_prevote_in_propose_step-Step round p s [] t h = idle refl (ground arith)
on_4f_non_nil_prevote_in_propose_step-Step round p s (r ∷ rs) t h =
    vote (block r) (ground arith) (ground arith) (ground arith)

-- The handler's own tests, once the proposal and the power are known.
abbrev revalues : Round → ConsensusState → Proposal → ℕ → Bool
revalues round s proposal power =
    (round == s.round && is_precommit s.step)
    && (proposal.valid
        && (two_thirds s power
            && is_some_eq (decide_proposer round s.height_info) proposal.proposer))

pub on_4f_non_nil_prevote_in_prevote_step-Step :
    (round : Round) (p : BlockIdentifier) (s : ConsensusState) (rs : List ConsensusResponse)
    (t : ConsensusState)
    → on_4f_non_nil_prevote_in_prevote_step round p s ≡ some (rs, t)
    → Step s rs t
unfolding on_4f_non_nil_prevote_in_prevote_step
on_4f_non_nil_prevote_in_prevote_step-Step round p s rs t h =
    elim (Option-cases (map_get compare p s.proposals)) [
      | inl unknown ↦ idle (ground arith) (ground arith)
      | inr (proposal, known) ↦ elim (Option-cases (get_total_prevotes_on_proposal s round p)) [
        | inl uncounted ↦ idle (ground arith) (ground arith)
        | inr (power, counted) ↦ ending rs h proposal known power counted
      ]
    ]
  where
    ending :
        (rs : List ConsensusResponse)
        → on_4f_non_nil_prevote_in_prevote_step round p s ≡ some (rs, t)
        → (proposal : Proposal) → map_get compare p s.proposals ≡ some proposal
        → (power : ℕ) → get_total_prevotes_on_proposal s round p ≡ some power
        → Step s rs t
    ending [] h proposal known power counted = elim (Bool-cases (revalues round s proposal power)) [
      | inl new ↦
          revalue p (ground arith)
            (record {
              proposal = proposal;
              known = known;
              led = ground arith;
              valid = ground arith;
            })
            (record { power = power; counted = ground arith; enough = ground arith }) refl
            (ground arith)
      | inr same ↦ idle refl (ground arith)
    ]
    ending (r ∷ rs) h proposal known power counted =
        lock p (ground arith)
          (record { proposal = proposal; known = known; led = ground arith; valid = ground arith })
          (record { power = power; counted = ground arith; enough = ground arith }) (ground arith)
          (ground arith)

pub on_4f_nil_prevote-Step :
    (round : Round) (s : ConsensusState) (rs : List ConsensusResponse) (t : ConsensusState)
    → on_4f_nil_prevote round s ≡ some (rs, t)
    → Step s rs t
unfolding on_4f_nil_prevote
on_4f_nil_prevote-Step round s [] t h = idle refl (ground arith)
on_4f_nil_prevote-Step round s (r ∷ rs) t h = give_up (ground arith) (ground arith) (ground arith)

pub on_5f_prevote-Step :
    (round : Round) (p : Option BlockIdentifier) (s : ConsensusState) (rs : List ConsensusResponse)
    (t : ConsensusState)
    → on_5f_prevote round p s ≡ some (rs, t)
    → Step s rs t
unfolding on_5f_prevote
on_5f_prevote-Step round p s [] t h = idle refl (ground arith)
on_5f_prevote-Step round none s (r ∷ rs) t h = give_up (ground arith) (ground arith) (ground arith)
on_5f_prevote-Step round (some p) s (r ∷ rs) t h =
    elim (Option-cases (get_total_prevotes_on_proposal s round p)) [
      | inl uncounted ↦ absurd (ground arith)
      | inr (power, counted) ↦ elim (Bool-cases (two_thirds s power)) [
        | inl agreed ↦
            early p (ground arith)
              (record { power = power; counted = ground arith; enough = agreed }) (ground arith)
              (ground arith)
        | inr disagreed ↦ give_up (ground arith) (ground arith) (ground arith)
      ]
    ]
