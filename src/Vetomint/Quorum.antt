-- ===== src/Vetomint/Quorum.antt =====
-- Two quorums of vetomint/src/progress.rs in one round share double voters, and
-- vetomint/src/misbehavior.rs accuses them.
use simperby.Base.{
  ◌==◌, ◌*◌, ◌<◌, ◌≡◌, ◌≢◌, inl, inr, sym, ◌∙◌, ap, subst, Bool, true, false, refl, ◌&&◌, some,
  List, [], ◌∷◌, arith, select, In, Option-cases, Bool-cases, &&-eq-true, ltb→lt,
}
use simperby.Base.Word.{u64_mod, mul_u64, sum, sum_u64, sum_u64-eq-sum}
use simperby.Base.Sorted.{IsNodup}
use simperby.Vetomint.Types.{ValidatorIndex, BlockIdentifier, Round, Vote, ConsensusState}
use simperby.Vetomint.Tally.{
  powers, tally, get_total_voting_power, get_total_precommits_on_proposal, in_round_on,
}
use simperby.Vetomint.Misbehavior.{check_double_precommit}
use simperby.Vetomint.Handlers.{two_thirds}
use simperby.Vetomint.Step.{IsQuorum}
use simperby.Vetomint.Accuse.{select-In}
use simperby.Vetomint.Caught.{IsAccused, check_double-IsAccused}
use simperby.Vetomint.Weight.{
  weight, weight-ext, is_for, voted_for, weight-overlap, weight-le-sum, signs, signs-In, OneEach,
  powers-weight,
}

select-holds : (p : Vote → Bool) (v : Vote) (vs : List Vote) → In v (select p vs) → p v ≡ true
select-holds p v [] i = absurd i
select-holds p v (w ∷ vs) i = elim (Bool-cases (p w)) [
  | inl keep ↦ elim (rw keep at i) [ inl e ↦ ap p e ∙ keep | inr j ↦ select-holds p v vs j ]
  | inr leave ↦ select-holds p v vs (rw leave at i)
]

in_round_on-vote :
    (r : Round) (p : BlockIdentifier) (v : Vote)
    → in_round_on r p v ≡ true
    → (v.round ≡ r) × (v.proposal ≡ some p)
in_round_on-vote r p v h = ground arith

selected-OneEach :
    (r : Round) (p : BlockIdentifier) (votes : List Vote)
    → IsNodup votes
    → OneEach (select (in_round_on r p) votes)
selected-OneEach r p [] once = tt
selected-OneEach r p (v ∷ votes) once = elim (Bool-cases (in_round_on r p v)) [
  | inr leave ↦ rw leave (selected-OneEach r p votes once.1)
  | inl keep ↦ rw keep (new keep, selected-OneEach r p votes once.1)
]
  where
    new : in_round_on r p v ≡ true → signs (select (in_round_on r p) votes) v.signer ≡ false
    new keep = elim (Bool-cases (signs (select (in_round_on r p) votes) v.signer)) [
      | inr no_other ↦ no_other
      | inl other ↦
          let (w, at_w, name) = signs-In (select (in_round_on r p) votes) v.signer other in
          let here = in_round_on-vote r p v keep in
          let there = in_round_on-vote r p w (select-holds (in_round_on r p) w votes at_w) in
          let same : w ≡ v = ground arith in
          absurd (once.0 (subst (λ z. In z votes) same (select-In (in_round_on r p) w votes at_w)))
    ]

-- The votes that a tally counts are those of the validators that voted for the block in the round.
pub signs-select :
    (r : Round) (p : BlockIdentifier) (votes : List Vote) (i : ValidatorIndex)
    → signs (select (in_round_on r p) votes) i ≡ voted_for votes r p i
signs-select r p [] i = refl
signs-select r p (v ∷ votes) i = elim (Bool-cases (in_round_on r p v)) [
  | inl keep ↦
      let vote = in_round_on-vote r p v keep in rw keep (ground (arith, signs-select r p votes i))
  | inr leave ↦ rw leave (signs-select r p votes i ∙ ground (arith, passed_over r p v i leave))
]
  where
    passed_over :
        (r : Round) (p : BlockIdentifier) (v : Vote) (i : ValidatorIndex)
        → in_round_on r p v ≡ false
        → (i == v.signer && (v.round == r && is_for p v.proposal)) ≡ false
    passed_over r p v i leave = ground arith

-- The validators that have precommitted the block in the round.
abbrev pub precommitted : ConsensusState → Round → BlockIdentifier → ValidatorIndex → Bool
precommitted s r p = signs (select (in_round_on r p) s.precommits)

module _ (s : ConsensusState) (r : Round) (votes : List Vote) (once : IsNodup votes)
    (small : sum s.height_info.validators * 3 < u64_mod) where
  -- A quorum is more than two thirds of the power, without overflow.
  tally-weight :
      (p : BlockIdentifier)
      → IsQuorum s (tally s.height_info.validators (in_round_on r p) votes)
      → sum s.height_info.validators * 2
        < weight (signs (select (in_round_on r p) votes)) s.height_info.validators * 3
  unfolding tally two_thirds get_total_voting_power mul_u64
  tally-weight p q =
      let validators = s.height_info.validators in
      let counted = select (in_round_on r p) votes in
      elim (Option-cases (powers validators counted)) [
        | inl broken ↦ let c = q.counted in absurd (ground arith)
        | inr (ps, e) ↦
            let count = powers-weight validators counted ps (selected-OneEach r p votes once) e in
            let bound = weight-le-sum (signs counted) validators in
            let c = q.counted in
            let power : q.power ≡ sum_u64 ps = ground arith in
            let exact = sum_u64-eq-sum ps (omega arith) in
            let total = sum_u64-eq-sum validators (omega arith) in
            let more = ltb→lt _ _ q.enough in omega arith
      ]

  -- The same of the validators that voted for the block.
  pub tally-voted_for :
      (p : BlockIdentifier)
      → IsQuorum s (tally s.height_info.validators (in_round_on r p) votes)
      → sum s.height_info.validators * 2 < weight (voted_for votes r p) s.height_info.validators * 3
  tally-voted_for p q =
      let counted = tally-weight p q in
      let same =
        weight-ext (signs (select (in_round_on r p) votes)) (voted_for votes r p)
          s.height_info.validators (signs-select r p votes) in
      omega arith

module _ (s : ConsensusState) (r : Round) (once : IsNodup s.precommits)
    (small : sum s.height_info.validators * 3 < u64_mod) where
  quorum-weight :
      (p : BlockIdentifier)
      → IsQuorum s (get_total_precommits_on_proposal s r p)
      → sum s.height_info.validators * 2 < weight (precommitted s r p) s.height_info.validators * 3
  unfolding get_total_precommits_on_proposal
  quorum-weight p q = tally-weight s r s.precommits once small p q

-- If a state holds precommits of more than two thirds of the voting power for each of two blocks in
-- one round, then validators with more than a third of the voting power have precommitted both, and
-- the check of that round accuses each of them. The state holds each vote once, and three times the
-- total power fits 64 bits.
pub quorums-IsAccused :
    (s : ConsensusState) (r : Round) (p q : BlockIdentifier)
    → IsNodup s.precommits
    → sum s.height_info.validators * 3 < u64_mod
    → p ≢ q
    → IsQuorum s (get_total_precommits_on_proposal s r p)
    → IsQuorum s (get_total_precommits_on_proposal s r q)
    → (sum s.height_info.validators
        < weight (λ i. precommitted s r p i && precommitted s r q i) s.height_info.validators * 3)
      × ((i : ValidatorIndex)
          → (precommitted s r p i && precommitted s r q i) ≡ true
          → IsAccused i (check_double_precommit s r))
quorums-IsAccused s r p q once small differ quorum_p quorum_q =
    let validators = s.height_info.validators in
    (
      omega (
        arith,
        quorum-weight s r once small p quorum_p,
        quorum-weight s r once small q quorum_q,
        weight-overlap (precommitted s r p) (precommitted s r q) validators,
      ),
      accused,
    )
  where
    accused :
        (i : ValidatorIndex)
        → (precommitted s r p i && precommitted s r q i) ≡ true
        → IsAccused i (check_double_precommit s r)
    accused i both =
        let (has_p, has_q) = &&-eq-true (precommitted s r p i) (precommitted s r q i) both in
        let (v, at_v, name_v) = signs-In (select (in_round_on r p) s.precommits) i has_p in
        let (w, at_w, name_w) = signs-In (select (in_round_on r q) s.precommits) i has_q in
        let of_v = in_round_on-vote r p v (select-holds (in_round_on r p) v s.precommits at_v) in
        let of_w = in_round_on-vote r q w (select-holds (in_round_on r q) w s.precommits at_w) in
        let apart : v ≢ w = λ e. differ (ground arith) in
        subst (λ z. IsAccused z (check_double_precommit s r)) name_w
          ((check_double-IsAccused s r v w apart (name_v ∙ sym name_w) of_v.0 of_w.0).1
            (select-In (in_round_on r p) v s.precommits at_v)
            (select-In (in_round_on r q) w s.precommits at_w))
