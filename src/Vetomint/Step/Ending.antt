-- ===== src/Vetomint/Step/Ending.antt =====
-- The handlers of precommits, of rounds and of timeouts refine the abstract machine.
use simperby.Base.{
  ℕ, ◌+◌, append-nil, ◌≡◌, inl, inr, refl, Bool, true, false, ◌&&◌, none, some, List, [], ◌∷◌, ◌++◌,
  compare, arith, ◌==◌, Bool-cases, Option-cases, subst, sym, if◌then◌else◌, select,
}
use simperby.Base.Int.{pos, leb_ℤ}
use simperby.Base.Ordered.{In-set_insert, map_get}
use simperby.Vetomint.Types.{
  BlockIdentifier, Round, Timestamp, Vote, Misbehavior, ConsensusResponse, ConsensusState,
  ValidatorIndex, violation_report,
}
use simperby.Vetomint.Late.{on_5f_precommit, on_4f_nil_precommit, on_4f_non_nil_precommit}
use simperby.Vetomint.Tally.{
  get_total_precommits_on_proposal, get_total_precommits_on_nil, in_round,
}
use simperby.Base.Word.{add_u64}
use simperby.Vetomint.Handlers.{two_thirds, start_round, compare_schedule}
use simperby.Vetomint.Misbehavior.{
  Report, Seen, counted, check_votes, check_double_prevote, check_double_precommit,
}
use simperby.Vetomint.Monad.{Handler, ◌then_extend◌}
use simperby.Vetomint.Progress.{propose_timeout, propose_timeouts, precommit_timeouts, on_timer}
use simperby.Vetomint.Step.{
  Step, Steps, Refines, here, one, Steps-append, idle, vote, schedule, turn, finalize, AreReports,
}

pub on_5f_precommit-Step :
    (round : Round) (s : ConsensusState) (rs : List ConsensusResponse) (t : ConsensusState)
    → on_5f_precommit round s ≡ some (rs, t)
    → Step s rs t
unfolding on_5f_precommit
on_5f_precommit-Step round s rs t h =
    schedule t.for_the_first_time_2 t.precommit_timeout_schedules
      (λ x i.
        let stays =
          In-set_insert compare_schedule (round, pos 1000) x s.precommit_timeout_schedules i in
        ground arith)
      (ground arith) (ground arith)

turned :
    {s t : ConsensusState} {rs : List ConsensusResponse} (timestamp : Timestamp)
    → start_round (add_u64 s.round 1) timestamp s ≡ some (rs, t)
    → Steps 1 s rs t
turned {s} {t} {rs} timestamp e =
    subst (λ l. Steps 1 s l t) (append-nil rs) (turn {k = 0} timestamp e here)

pub on_4f_nil_precommit-Refines :
    (round : Round) (timestamp : Timestamp) → Refines 1 (on_4f_nil_precommit round timestamp)
unfolding on_4f_nil_precommit
on_4f_nil_precommit-Refines round timestamp s rs t h = elim (Bool-cases (round == s.round)) [
  | inr other ↦ one (idle (ground arith) (ground arith))
  | inl now ↦ elim (Option-cases (get_total_precommits_on_nil s round)) [
    | inl uncounted ↦ absurd (ground arith)
    | inr (power, counted) ↦ elim (Bool-cases (two_thirds s power)) [
      | inl enough ↦ turned timestamp (ground arith)
      | inr few ↦ one (idle (ground arith) (ground arith))
    ]
  ]
]

pub on_4f_non_nil_precommit-Step :
    (round : Round) (p : BlockIdentifier) (s : ConsensusState) (rs : List ConsensusResponse)
    (t : ConsensusState)
    → on_4f_non_nil_precommit round p s ≡ some (rs, t)
    → Step s rs t
unfolding on_4f_non_nil_precommit
on_4f_non_nil_precommit-Step round p s [] t h = idle refl (ground arith)
on_4f_non_nil_precommit-Step round p s (r ∷ rs) t h =
    elim (Option-cases (map_get compare p s.proposals)) [
      | inl unknown ↦ absurd (ground arith)
      | inr (proposal, known) ↦ elim (Option-cases (get_total_precommits_on_proposal s round p)) [
        | inl uncounted ↦ absurd (ground arith)
        | inr (power, counted) ↦
            finalize p round
              (record {
                proposal = proposal;
                known = known;
                led = ground arith;
                valid = ground arith;
              })
              (record { power = power; counted = counted; enough = ground arith }) (ground arith)
              (ground arith)
      ]
    ]

AreReports-append :
    (xs ys : List ConsensusResponse) → AreReports xs → AreReports ys → AreReports (xs ++ ys)
AreReports-append [] ys hx hy = hy
AreReports-append (x ∷ xs) ys hx hy = (hx.0, AreReports-append xs ys hx.1 hy)

AreReports-if :
    (b : Bool) (who : ValidatorIndex) (m : Misbehavior)
    → AreReports (if b then violation_report who m ∷ [] else [])
AreReports-if true who m = (tt, tt)
AreReports-if false who m = tt

check_votes-AreReports :
    (make : Report) (round : Round) (seen : Seen) (votes : List Vote)
    → AreReports (check_votes make round seen votes)
unfolding check_votes
check_votes-AreReports make round seen [] = tt
check_votes-AreReports make round seen (v ∷ votes) =
    AreReports-append _ _ (AreReports-if _ _ _)
      (check_votes-AreReports make round (counted seen v) votes)

pub check_double_prevote-AreReports :
    (s : ConsensusState) (round : Round) → AreReports (check_double_prevote s round)
unfolding check_double_prevote
check_double_prevote-AreReports s round =
    check_votes-AreReports Misbehavior.double_prevote round [] (select (in_round round) s.prevotes)

pub check_double_precommit-AreReports :
    (s : ConsensusState) (round : Round) → AreReports (check_double_precommit s round)
unfolding check_double_precommit
check_double_precommit-AreReports s round =
    check_votes-AreReports Misbehavior.double_precommit round []
      (select (in_round round) s.precommits)

pub propose_timeout-Step :
    (entry : Round × Timestamp) (timestamp : Timestamp) (s : ConsensusState)
    (rs : List ConsensusResponse) (t : ConsensusState)
    → propose_timeout entry timestamp s ≡ some (rs, t)
    → Step s rs t
unfolding propose_timeout
propose_timeout-Step (round, timeout) timestamp s [] t h = idle refl (ground arith)
propose_timeout-Step (round, timeout) timestamp s (r ∷ rs) t h =
    vote none (ground arith) (ground arith) (ground arith)

-- What the second handler adds to the first.
pub then_extend_cases :
    (m k : Handler) (s : ConsensusState) (rs : List ConsensusResponse) (t : ConsensusState)
    → (m then_extend k) s ≡ some (rs, t)
    → (xs : List ConsensusResponse) × (u : ConsensusState) × (ys : List ConsensusResponse) × (m s
        ≡ some (xs, u))
      × (k u ≡ some (ys, t))
      × (rs ≡ xs ++ ys)
unfolding ◌then_extend◌
then_extend_cases m k s rs t h = elim (Option-cases (m s)) [
  | inl panics ↦ absurd (ground arith)
  | inr ((xs, u), e) ↦ elim (Option-cases (k u)) [
    | inl panics ↦ absurd (ground arith)
    | inr ((ys, v), e') ↦ (xs, u, ys, e, ground arith, ground arith)
  ]
]

pub then_extend-Refines :
    {i j : ℕ} (m k : Handler) → Refines i m → Refines j k → Refines (i + j) (m then_extend k)
then_extend-Refines {i} {j} m k hm hk s rs t h =
    let (xs, u, ys, e, e', joined) = then_extend_cases m k s rs t h in
    subst (λ l. Steps (i + j) s l t) (sym joined) (Steps-append (hm s xs u e) (hk u ys t e'))

pub propose_timeouts-Refines :
    (entries : List (Round × Timestamp)) (timestamp : Timestamp)
    → Refines 0 (propose_timeouts entries timestamp)
unfolding propose_timeouts
propose_timeouts-Refines [] timestamp s rs t h = one (idle (ground arith) (ground arith))
propose_timeouts-Refines (e ∷ entries) timestamp s rs t h =
    then_extend-Refines {i = 0} {j = 0} (propose_timeout e timestamp)
      (propose_timeouts entries timestamp)
      (λ s rs t h. one (propose_timeout-Step e timestamp s rs t h))
      (propose_timeouts-Refines entries timestamp) s rs t h

pub precommit_timeouts-Refines :
    (entries : List (Round × Timestamp)) (timestamp : Timestamp)
    → Refines 1 (precommit_timeouts entries timestamp)
unfolding precommit_timeouts
precommit_timeouts-Refines [] timestamp s rs t h = one (idle (ground arith) (ground arith))
precommit_timeouts-Refines ((round, timeout) ∷ entries) timestamp s rs t h =
    elim (Bool-cases (leb_ℤ timeout timestamp && round == s.round)) [
      | inl passed ↦ turned timestamp (ground arith)
      | inr waiting ↦ precommit_timeouts-Refines entries timestamp s rs t (ground arith)
    ]

pub on_timer-Refines : (timestamp : Timestamp) → Refines 1 (on_timer timestamp)
unfolding on_timer
on_timer-Refines timestamp s =
    then_extend-Refines {i = 0} {j = 1} (propose_timeouts s.propose_timeout_schedules timestamp)
      (precommit_timeouts s.precommit_timeout_schedules timestamp)
      (propose_timeouts-Refines s.propose_timeout_schedules timestamp)
      (precommit_timeouts-Refines s.precommit_timeout_schedules timestamp) s
