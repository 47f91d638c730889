-- ===== src/Vetomint/Tally.antt =====
-- vetomint/src/state.rs: the voting powers that a state has collected. Indexing a validator that
-- does not exist panics: `none` is a panic.
use simperby.Base.{
  ℕ, Bool, true, false, ◌&&◌, Option, none, some, List, [], ◌∷◌, ◌==◌, get_elem?, select,
}
use mathlib.Core.Option
use simperby.Base.Word.{sum_u64}
use simperby.Vetomint.Types.{BlockIdentifier, Round, VotingPower, Vote, ConsensusState}

-- `self.height_info.validators[vote.signer]` for each vote, in order.
unfoldable pub powers : List VotingPower → List Vote → Option (List VotingPower)
powers validators [] = some []
powers validators (vote ∷ votes) = elim (get_elem? validators vote.signer) [
  | none ↦ none
  | some power ↦ Option.map (λ rest. power ∷ rest) (powers validators votes)
]

unfoldable pub tally : List VotingPower → (Vote → Bool) → List Vote → Option VotingPower
unfolding powers sum_u64
tally validators counts votes = Option.map sum_u64 (powers validators (select counts votes))

abbrev pub is_some_eq : Option ℕ → ℕ → Bool
is_some_eq none _ = false
is_some_eq (some a) b = a == b

abbrev pub is_none : Option ℕ → Bool
is_none none = true
is_none (some _) = false

abbrev pub in_round : Round → Vote → Bool
in_round round vote = vote.round == round

abbrev pub in_round_on : Round → BlockIdentifier → Vote → Bool
in_round_on round proposal vote = vote.round == round && is_some_eq vote.proposal proposal

abbrev pub in_round_on_nil : Round → Vote → Bool
in_round_on_nil round vote = vote.round == round && is_none vote.proposal

module _ (s : ConsensusState) where
  unfoldable pub get_total_voting_power : VotingPower
  get_total_voting_power = sum_u64 s.height_info.validators

  unfoldable pub get_total_prevotes : Round → Option VotingPower
  get_total_prevotes round = tally s.height_info.validators (in_round round) s.prevotes

  unfoldable pub get_total_precommits : Round → Option VotingPower
  get_total_precommits round = tally s.height_info.validators (in_round round) s.precommits

  unfoldable pub get_total_prevotes_on_proposal : Round → BlockIdentifier → Option VotingPower
  get_total_prevotes_on_proposal round proposal =
      tally s.height_info.validators (in_round_on round proposal) s.prevotes

  unfoldable pub get_total_precommits_on_proposal : Round → BlockIdentifier → Option VotingPower
  get_total_precommits_on_proposal round proposal =
      tally s.height_info.validators (in_round_on round proposal) s.precommits

  unfoldable pub get_total_prevotes_on_nil : Round → Option VotingPower
  get_total_prevotes_on_nil round =
      tally s.height_info.validators (in_round_on_nil round) s.prevotes

  unfoldable pub get_total_precommits_on_nil : Round → Option VotingPower
  get_total_precommits_on_nil round =
      tally s.height_info.validators (in_round_on_nil round) s.precommits
