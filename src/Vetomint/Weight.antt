-- ===== src/Vetomint/Weight.antt =====
-- The power of a set of validators, and what the tallies of vetomint/src/state.rs have to do with it.
use simperby.Base.{
  ℕ, zero, suc, ◌+◌, ◌≤◌, ◌≡◌, inl, inr, refl, Bool, true, false, ◌&&◌, ◌||◌, Option, none, some,
  List, [], ◌∷◌, arith, ◌==◌, if◌then◌else◌, get_elem?, any, In, Option-cases, Bool-cases,
}
use simperby.Base.Word.{sum}
use simperby.Vetomint.Types.{BlockIdentifier, Round, ValidatorIndex, VotingPower, Vote}
use simperby.Vetomint.Tally.{powers}

abbrev pub weight : (ValidatorIndex → Bool) → List VotingPower → ℕ
weight f [] = 0
weight f (v ∷ vs) = (if f 0 then v else 0) + weight (λ i. f (suc i)) vs

-- Two sets overlap by what they hold together more than all.
pub weight-overlap :
    (f g : ValidatorIndex → Bool) (vs : List VotingPower)
    → weight f vs + weight g vs ≤ sum vs + weight (λ i. f i && g i) vs
weight-overlap f g [] = omega arith
weight-overlap f g (v ∷ vs) = ground (arith, weight-overlap (λ i. f (suc i)) (λ i. g (suc i)) vs)

pub weight-le-sum : (f : ValidatorIndex → Bool) (vs : List VotingPower) → weight f vs ≤ sum vs
weight-le-sum f [] = omega arith
weight-le-sum f (v ∷ vs) = ground (arith, weight-le-sum (λ i. f (suc i)) vs)

pub weight-ext :
    (f g : ValidatorIndex → Bool) (vs : List VotingPower)
    → ((i : ValidatorIndex) → f i ≡ g i)
    → weight f vs ≡ weight g vs
weight-ext f g [] same = refl
weight-ext f g (v ∷ vs) same =
    ground (arith, same 0, weight-ext (λ i. f (suc i)) (λ i. g (suc i)) vs (λ i. same (suc i)))

weight-false : (vs : List VotingPower) → weight (λ i. false) vs ≡ 0
weight-false [] = refl
weight-false (v ∷ vs) = omega (arith, weight-false vs)

-- One more validator adds its power.
weight-add :
    (f : ValidatorIndex → Bool) (vs : List VotingPower) (j : ValidatorIndex) (p : VotingPower)
    → get_elem? vs j ≡ some p
    → f j ≡ false
    → weight (λ i. i == j || f i) vs ≡ p + weight f vs
weight-add f [] j p found new = cc
weight-add f (v ∷ vs) zero p found new =
    let rest = weight-ext (λ i. suc i == 0 || f (suc i)) (λ i. f (suc i)) vs (λ i. ground arith) in
    ground arith
weight-add f (v ∷ vs) (suc j) p found new =
    let rest = weight-add (λ i. f (suc i)) vs j p found new in
    let shift =
      weight-ext (λ i. suc i == suc j || f (suc i)) (λ i. i == j || f (suc i)) vs
        (λ i. ground arith) in
    ground arith

-- The validator is among the signers of the votes.
abbrev pub signs : List Vote → ValidatorIndex → Bool
signs votes i = any (λ v. i == v.signer) votes

-- Whether what was voted for is the block.
abbrev pub is_for : BlockIdentifier → Option BlockIdentifier → Bool
is_for p none = false
is_for p (some q) = q == p

-- The validator is the signer of one of the votes for the block in the round.
abbrev pub voted_for : List Vote → Round → BlockIdentifier → ValidatorIndex → Bool
voted_for votes r p i = any (λ v. i == v.signer && (v.round == r && is_for p v.proposal)) votes

-- No two of the votes have the same signer.
abbrev pub OneEach : List Vote → Type 0
OneEach [] = Unit
OneEach (v ∷ vs) = (signs vs v.signer ≡ false) × OneEach vs

-- The tally of votes with different signers is the power of their signers.
pub powers-weight :
    (validators : List VotingPower) (votes : List Vote) (ps : List VotingPower)
    → OneEach votes
    → powers validators votes ≡ some ps
    → sum ps ≡ weight (signs votes) validators
unfolding powers
powers-weight validators [] ps once h = let none_signs = weight-false validators in ground arith
powers-weight validators (v ∷ votes) ps once h =
    elim (Option-cases (get_elem? validators v.signer)) [
      | inl missing ↦ absurd (ground arith)
      | inr (p, found) ↦ elim (Option-cases (powers validators votes)) [
        | inl broken ↦ absurd (ground arith)
        | inr (qs, rest) ↦
            let ih = powers-weight validators votes qs once.1 rest in
            let add = weight-add (signs votes) validators v.signer p found once.0 in
            let listed : ps ≡ p ∷ qs = ground arith in rw listed (omega (arith, ih, add))
      ]
    ]

pub signs-In :
    (votes : List Vote) (i : ValidatorIndex)
    → signs votes i ≡ true
    → (v : Vote) × In v votes × (v.signer ≡ i)
signs-In [] i h = cc
signs-In (v ∷ votes) i h = elim (Bool-cases (i == v.signer)) [
  | inl here ↦ (v, inl refl, ground arith)
  | inr there ↦ let (w, at_w, name) = signs-In votes i (ground arith) in (w, inr at_w, name)
]
