-- ===== src/Vetomint/Misbehavior.antt =====
-- vetomint/src/misbehavior.rs: the reports of validators that voted twice in a round.
use simperby.Base.{
  ℕ, ◌+◌, Option, none, some, List, [], ◌∷◌, ◌++◌, leb, if◌then◌else◌, select, compare,
}
use simperby.Base.Ordered.{map_get, map_insert}
use simperby.Vetomint.Types.{
  ValidatorIndex, BlockIdentifier, Round, Vote, Misbehavior, ConsensusResponse, violation_report,
  ConsensusState,
}
use simperby.Vetomint.Tally.{in_round}

-- The number of votes of a signer so far, and the proposal of the first of them.
abbrev pub Seen : Type 0
Seen = List (ValidatorIndex × (ℕ × Option BlockIdentifier))

-- `validators_map.entry(vote.signer).or_insert((0, vote.proposal))`.
abbrev pub entry : Seen → Vote → ℕ × Option BlockIdentifier
entry seen vote = elim (map_get compare vote.signer seen) [
  | none ↦ (0, vote.proposal)
  | some found ↦ found
]

-- `*count += 1`.
abbrev pub counted : Seen → Vote → Seen
counted seen vote =
    let (count, origin_proposal) = entry seen vote in
    map_insert compare vote.signer (count + 1, origin_proposal) seen

abbrev pub Report : Type 0
Report = ValidatorIndex → Round → Option BlockIdentifier × Option BlockIdentifier → Misbehavior

-- `if *count >= 2 { response.extend(…) }`.
abbrev pub report_of : Report → Round → Seen → Vote → List ConsensusResponse
report_of report target_round seen vote =
    let (count, origin_proposal) = entry seen vote in
    if leb 2 (count + 1)
    then violation_report vote.signer
        (report vote.signer target_round (origin_proposal, vote.proposal))
      ∷ []
    else []

-- The loop over the votes of the round.
unfoldable pub check_votes : Report → Round → Seen → List Vote → List ConsensusResponse
check_votes report target_round seen [] = []
check_votes report target_round seen (vote ∷ votes) =
    report_of report target_round seen vote
    ++ check_votes report target_round (counted seen vote) votes

unfoldable pub check_double_prevote : ConsensusState → Round → List ConsensusResponse
unfolding check_votes
check_double_prevote s target_round =
    check_votes Misbehavior.double_prevote target_round []
      (select (in_round target_round) s.prevotes)

unfoldable pub check_double_precommit : ConsensusState → Round → List ConsensusResponse
unfolding check_votes
check_double_precommit s target_round =
    check_votes Misbehavior.double_precommit target_round []
      (select (in_round target_round) s.precommits)
