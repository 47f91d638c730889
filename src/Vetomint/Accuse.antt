-- ===== src/Vetomint/Accuse.antt =====
-- vetomint/src/misbehavior.rs accuses only validators that voted twice in the round.
use simperby.Base.{
  ℕ, ◌+◌, ◌≡◌, ◌≢◌, inl, inr, refl, sym, subst, ap, ◌∙◌, ==_iff, Bool, true, false, Option, some,
  List, [], ◌∷◌, ◌++◌, arith, leb, ◌==◌, if◌then◌else◌, compare, select, All, In, Option-cases,
  Bool-cases,
}
use simperby.Base.Ordered.{map_get, map_insert}
use simperby.Base.Sorted.{IsNodup, All-In}
use simperby.Vetomint.Types.{
  ValidatorIndex, BlockIdentifier, Round, Vote, Misbehavior, ConsensusResponse, broadcast_proposal,
  broadcast_prevote, broadcast_precommit, finalize_block, violation_report, ConsensusState,
}
use simperby.Vetomint.Tally.{in_round}
use simperby.Vetomint.Misbehavior.{Seen, entry, counted, Report, check_votes, check_double_prevote}

abbrev pub ballot : Option BlockIdentifier → ValidatorIndex → Round → Vote
ballot p who r = record { proposal = p; signer = who; round = r }

-- Two different votes of a validator in the round, which the report names.
pub record IsGuilty (make : Report) (r : Round) (votes : List Vote) (who : ValidatorIndex)
    (m : Misbehavior) : Type 0 where
  pub first : Option BlockIdentifier
  pub second : Option BlockIdentifier
  pub named : m ≡ make who r (first, second)
  pub voted_first : In (ballot first who r) votes
  pub voted_second : In (ballot second who r) votes
  pub different : first ≢ second

abbrev pub AllGuilty : Report → Round → List Vote → List ConsensusResponse → Type 0
AllGuilty make r votes [] = Unit
AllGuilty make r votes (violation_report who m ∷ rs) =
    IsGuilty make r votes who m × AllGuilty make r votes rs
AllGuilty make r votes (_ ∷ rs) = ⊥

-- Reading a map after an insertion.
pub get-insert :
    {V : Type 0} (k j : ℕ) (v : V) (m : List (ℕ × V))
    → map_get compare j (map_insert compare k v m)
      ≡ (if k == j then some v else map_get compare j m)
unfolding map_get map_insert
get-insert k j v [] = ground arith
get-insert k j v ((i, w) ∷ m) = ground (arith, get-insert k j v m)

module _ (make : Report) (r : Round) (votes : List Vote) where
  -- What the map says of a signer is backed by a vote that the loop has passed.
  abbrev IsBacked : List Vote → Seen → Type 0
  IsBacked done seen =
      (who : ValidatorIndex) (c : ℕ) (p : Option BlockIdentifier)
      → map_get compare who seen ≡ some (c, p)
      → In (ballot p who r) done

  abbrev IsNew : List Vote → Vote → Type 0
  IsNew done v = (¬ In v done) × (v.round ≡ r) × In v votes

  counted-IsBacked :
      (done : List Vote) (seen : Seen) (v : Vote)
      → v.round ≡ r
      → IsBacked done seen
      → IsBacked (v ∷ done) (counted seen v)
  counted-IsBacked done seen v at back who c p found =
      let (n, origin) = entry seen v in
      let read = get-insert v.signer who (n + 1, origin) seen in
      elim (Bool-cases (v.signer == who)) [
        | inr other ↦ inr (back who c p (ground arith))
        | inl same ↦ elim (Option-cases (map_get compare v.signer seen)) [
          | inl unseen ↦ inl (ground arith)
          | inr ((c', p'), e) ↦
              let before = back v.signer c' p' e in
              let name : ballot p' v.signer r ≡ ballot p who r = ground arith in
              inr (subst (λ b. In b done) name before)
        ]
      ]

  AllGuilty-if :
      (b : Bool) (who : ValidatorIndex) (m : Misbehavior)
      → (b ≡ true → IsGuilty make r votes who m)
      → AllGuilty make r votes (if b then violation_report who m ∷ [] else [])
  AllGuilty-if true who m h = (h refl, tt)
  AllGuilty-if false who m h = tt

  AllGuilty-append :
      (xs ys : List ConsensusResponse)
      → AllGuilty make r votes xs
      → AllGuilty make r votes ys
      → AllGuilty make r votes (xs ++ ys)
  AllGuilty-append [] ys hx hy = hy
  AllGuilty-append (violation_report who m ∷ xs) ys hx hy = (hx.0, AllGuilty-append xs ys hx.1 hy)
  AllGuilty-append (broadcast_proposal _ _ _ ∷ xs) ys hx hy = absurd hx
  AllGuilty-append (broadcast_prevote _ _ ∷ xs) ys hx hy = absurd hx
  AllGuilty-append (broadcast_precommit _ _ ∷ xs) ys hx hy = absurd hx
  AllGuilty-append (finalize_block _ _ _ ∷ xs) ys hx hy = absurd hx

  report-IsGuilty :
      (done : List Vote) (seen : Seen) (v : Vote)
      → IsBacked done seen
      → All (λ d. In d votes) done
      → IsNew done v
      → leb 2 ((entry seen v).0 + 1) ≡ true
      → IsGuilty make r votes v.signer (make v.signer r ((entry seen v).1, v.proposal))
  report-IsGuilty done seen v back known new twice =
      elim (Option-cases (map_get compare v.signer seen)) [
        | inl unseen ↦ absurd (ground arith)
        | inr ((c, p), e) ↦
            let before = back v.signer c p e in
            let now : v ≡ ballot v.proposal v.signer r = ground arith in
            record {
              first = p;
              second = v.proposal;
              named = ground arith;
              voted_first = All-In (λ d. In d votes) (ballot p v.signer r) done known before;
              voted_second = subst (λ b. In b votes) now new.2;
              different = λ same.
                  new.0
                    (subst (λ b. In b done) (ap (λ q. ballot q v.signer r) same ∙ sym now) before);
            }
      ]

  check_votes-AllGuilty :
      (vs done : List Vote) (seen : Seen)
      → IsBacked done seen
      → All (λ d. In d votes) done
      → All (IsNew done) vs
      → IsNodup vs
      → AllGuilty make r votes (check_votes make r seen vs)
  unfolding check_votes
  check_votes-AllGuilty [] done seen back known new once = tt
  check_votes-AllGuilty (v ∷ vs) done seen back known new once =
      AllGuilty-append _ (check_votes make r (counted seen v) vs)
        (AllGuilty-if (leb 2 ((entry seen v).0 + 1)) v.signer _
          (report-IsGuilty done seen v back known new.0))
        (check_votes-AllGuilty vs (v ∷ done) (counted seen v)
          (counted-IsBacked done seen v new.0.1 back) (new.0.2, known) (still_new vs new.1 once.0)
          once.1)
    where
      still_new : (ws : List Vote) → All (IsNew done) ws → (¬ In v ws) → All (IsNew (v ∷ done)) ws
      still_new [] h absent = tt
      still_new (w ∷ ws) h absent = (
        (λ i. elim i [ inl e ↦ absent (inl (sym e)) | inr old ↦ h.0.0 old ], h.0.1, h.0.2),
        still_new ws h.1 (λ i. absent (inr i)),
      )

-- The votes of a round are among the votes, and are of the round.
selected :
    (r : Round) (votes vs : List Vote)
    → All (λ v. In v votes) vs
    → All (λ v. (¬ In v []) × (v.round ≡ r) × In v votes) (select (in_round r) vs)
selected r votes [] h = tt
selected r votes (v ∷ vs) h = elim (Bool-cases (v.round == r)) [
  | inl here ↦ rw here ((λ i. i, (==_iff v.round r).0 here, h.0), selected r votes vs h.1)
  | inr away ↦ rw away (selected r votes vs h.1)
]

pub select-In : (p : Vote → Bool) (v : Vote) (vs : List Vote) → In v (select p vs) → In v vs
select-In p v [] i = i
select-In p v (w ∷ vs) i = elim (Bool-cases (p w)) [
  | inl keep ↦ elim (rw keep at i) [ inl e ↦ inl e | inr j ↦ inr (select-In p v vs j) ]
  | inr leave ↦ inr (select-In p v vs (rw leave at i))
]

select-IsNodup : (p : Vote → Bool) (vs : List Vote) → IsNodup vs → IsNodup (select p vs)
select-IsNodup p [] h = tt
select-IsNodup p (v ∷ vs) h = elim (Bool-cases (p v)) [
  | inl keep ↦ rw keep (λ i. h.0 (select-In p v vs i), select-IsNodup p vs h.1)
  | inr leave ↦ rw leave (select-IsNodup p vs h.1)
]

All-In_self : (xs vs : List Vote) → ((v : Vote) → In v vs → In v xs) → All (λ v. In v xs) vs
All-In_self xs [] h = tt
All-In_self xs (v ∷ vs) h = (h v (inl refl), All-In_self xs vs (λ w i. h w (inr i)))

-- Every report of a double prevote names a validator with two different prevotes in the round, which
-- the state holds, and quotes them, if the state holds each vote once.
pub check_double_prevote-AllGuilty :
    (s : ConsensusState) (r : Round)
    → IsNodup s.prevotes
    → AllGuilty Misbehavior.double_prevote r s.prevotes (check_double_prevote s r)
unfolding check_double_prevote map_get
check_double_prevote-AllGuilty s r once =
    check_votes-AllGuilty Misbehavior.double_prevote r s.prevotes (select (in_round r) s.prevotes)
      [] [] (λ who c p e. cc) tt
      (selected r s.prevotes s.prevotes (All-In_self s.prevotes s.prevotes (λ v i. i)))
      (select-IsNodup (in_round r) s.prevotes once)
