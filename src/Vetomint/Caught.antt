-- ===== src/Vetomint/Caught.antt =====
-- vetomint/src/misbehavior.rs accuses every validator that voted twice in the round.
use simperby.Base.{
  ℕ, suc, ◌+◌, ◌≡◌, ◌≢◌, ◌⊎◌, inl, inr, refl, sym, ap, subst, ◌∙◌, Bool, true, false, Option, some,
  List, [], ◌∷◌, ◌++◌, arith, leb, ◌==◌, ==_iff, if◌then◌else◌, compare, select, In, Bool-cases,
}
use simperby.Base.Ordered.{map_get}
use simperby.Vetomint.Types.{
  ValidatorIndex, BlockIdentifier, Round, Vote, Misbehavior, ConsensusResponse, broadcast_proposal,
  broadcast_prevote, broadcast_precommit, finalize_block, violation_report, ConsensusState,
}
use simperby.Vetomint.Tally.{in_round}
use simperby.Vetomint.Misbehavior.{
  Seen, entry, counted, Report, report_of, check_votes, check_double_prevote,
  check_double_precommit,
}
use simperby.Vetomint.Accuse.{get-insert}

-- Some report accuses the validator.
abbrev pub IsAccused : ValidatorIndex → List ConsensusResponse → Type 0
IsAccused who [] = ⊥
IsAccused who (violation_report w _ ∷ rs) = (w ≡ who) ⊎ IsAccused who rs
IsAccused who (_ ∷ rs) = IsAccused who rs

IsAccused-right :
    (who : ValidatorIndex) (xs ys : List ConsensusResponse)
    → IsAccused who ys
    → IsAccused who (xs ++ ys)
IsAccused-right who [] ys h = h
IsAccused-right who (violation_report _ _ ∷ xs) ys h = inr (IsAccused-right who xs ys h)
IsAccused-right who (broadcast_proposal _ _ _ ∷ xs) ys h = IsAccused-right who xs ys h
IsAccused-right who (broadcast_prevote _ _ ∷ xs) ys h = IsAccused-right who xs ys h
IsAccused-right who (broadcast_precommit _ _ ∷ xs) ys h = IsAccused-right who xs ys h
IsAccused-right who (finalize_block _ _ _ ∷ xs) ys h = IsAccused-right who xs ys h

IsAccused-if :
    (b : Bool) (who : ValidatorIndex) (m : Misbehavior) (ys : List ConsensusResponse)
    → b ≡ true
    → IsAccused who ((if b then violation_report who m ∷ [] else []) ++ ys)
IsAccused-if true who m ys h = inl refl
IsAccused-if false who m ys h = cc

module _ (make : Report) (r : Round) where
  -- The loop has counted a vote of the validator.
  abbrev HasVoted : ValidatorIndex → Seen → Type 0
  HasVoted who seen =
      (c : ℕ) × (p : Option BlockIdentifier) × (map_get compare who seen ≡ some (suc c, p))

  counted-HasVoted :
      (who : ValidatorIndex) (seen : Seen) (v : Vote)
      → HasVoted who seen
      → HasVoted who (counted seen v)
  counted-HasVoted who seen v (c, p, e) =
      let read = get-insert v.signer who ((entry seen v).0 + 1, (entry seen v).1) seen in
      elim (Bool-cases (v.signer == who)) [
        | inl same ↦ (suc c, p, ground arith)
        | inr other ↦ (c, p, ground arith)
      ]

  counted-HasVoted_self : (seen : Seen) (v : Vote) → HasVoted v.signer (counted seen v)
  counted-HasVoted_self seen v =
      let read = get-insert v.signer v.signer ((entry seen v).0 + 1, (entry seen v).1) seen in
      ((entry seen v).0, (entry seen v).1, ground arith)

  second_vote :
      (who : ValidatorIndex) (vs : List Vote) (seen : Seen) (w : Vote)
      → HasVoted who seen
      → In w vs
      → w.signer ≡ who
      → IsAccused who (check_votes make r seen vs)
  unfolding check_votes
  second_vote who [] seen w h i ours = absurd i
  second_vote who (v ∷ vs) seen w h (inl e) ours =
      let here : v.signer ≡ who = ap (λ (x : Vote). x.signer) (sym e) ∙ ours in
      let twice : leb 2 ((entry seen v).0 + 1) ≡ true =
        let known = h.2 in
        let found : map_get compare v.signer seen ≡ some (suc h.0, h.1) =
          ap (λ z. map_get compare z seen) here ∙ known in
        ground arith in
      subst (λ z. IsAccused z (check_votes make r seen (v ∷ vs))) here
        (IsAccused-if (leb 2 ((entry seen v).0 + 1)) v.signer _ _ twice)
  second_vote who (v ∷ vs) seen w h (inr i) ours =
      IsAccused-right who (report_of make r seen v) (check_votes make r (counted seen v) vs)
        (second_vote who vs (counted seen v) w (counted-HasVoted who seen v h) i ours)

  both_votes :
      (vs : List Vote) (seen : Seen) (v w : Vote)
      → In v vs
      → In w vs
      → v ≢ w
      → v.signer ≡ w.signer
      → IsAccused w.signer (check_votes make r seen vs)
  unfolding check_votes
  both_votes [] seen v w i j differ same = absurd i
  both_votes (x ∷ vs) seen v w (inl e) (inl e') differ same = absurd (differ (e ∙ sym e'))
  both_votes (x ∷ vs) seen v w (inl e) (inr j) differ same =
      IsAccused-right w.signer (report_of make r seen x) (check_votes make r (counted seen x) vs) (
        second_vote w.signer vs (counted seen x) w
          (subst (λ z. HasVoted z (counted seen x)) (ap (λ (y : Vote). y.signer) (sym e) ∙ same)
            (counted-HasVoted_self seen x))
          j refl)
  both_votes (x ∷ vs) seen v w (inr i) (inl e') differ same =
      IsAccused-right w.signer (report_of make r seen x) (check_votes make r (counted seen x) vs) (
        second_vote w.signer vs (counted seen x) v
          (subst (λ z. HasVoted z (counted seen x)) (ap (λ (y : Vote). y.signer) (sym e'))
            (counted-HasVoted_self seen x))
          i same)
  both_votes (x ∷ vs) seen v w (inr i) (inr j) differ same =
      IsAccused-right w.signer (report_of make r seen x) (check_votes make r (counted seen x) vs)
        (both_votes vs (counted seen x) v w i j differ same)

In-select :
    (p : Vote → Bool) (v : Vote) (vs : List Vote) → p v ≡ true → In v vs → In v (select p vs)
In-select p v [] h i = i
In-select p v (w ∷ vs) h (inl e) = rw (← e, h) (inl refl)
In-select p v (w ∷ vs) h (inr i) = elim (Bool-cases (p w)) [
  | inl keep ↦ rw keep (inr (In-select p v vs h i))
  | inr leave ↦ rw leave (In-select p v vs h i)
]

-- A validator with two different precommits in a round, which the state holds, is accused by the
-- check of that round; and so it is with two different prevotes.
pub check_double-IsAccused :
    (s : ConsensusState) (r : Round) (v w : Vote)
    → v ≢ w
    → v.signer ≡ w.signer
    → v.round ≡ r
    → w.round ≡ r
    → (In v s.prevotes → In w s.prevotes → IsAccused w.signer (check_double_prevote s r))
      × (In v s.precommits → In w s.precommits → IsAccused w.signer (check_double_precommit s r))
unfolding check_double_prevote check_double_precommit
check_double-IsAccused s r v w differ same at_v at_w =
    let here = (==_iff v.round r).1 at_v in
    let there = (==_iff w.round r).1 at_w in
    (
      λ i j.
          both_votes Misbehavior.double_prevote r (select (in_round r) s.prevotes) [] v w
            (In-select (in_round r) v s.prevotes here i)
            (In-select (in_round r) w s.prevotes there j) differ same,
      λ i j.
          both_votes Misbehavior.double_precommit r (select (in_round r) s.precommits) [] v w
            (In-select (in_round r) v s.precommits here i)
            (In-select (in_round r) w s.precommits there j) differ same,
    )
