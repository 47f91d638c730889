-- ===== src/Vetomint/Step.antt =====
-- An abstract machine for vetomint/src/progress.rs: the changes of state that its handlers are made
-- of, each with what it requires, xs a step relation.
pub mod Voting
pub mod Ending
pub mod Refine
use simperby.Base.{
  In, ℕ, suc, ◌+◌, arith, ◌≡◌, true, Option, none, some, List, [], ◌∷◌, ◌++◌, compare, subst, sym,
  append-nil, append_assoc,
}
use simperby.Base.Word.{add_u64}
use simperby.Base.Ordered.{map_get}
use simperby.Vetomint.Types.{
  BlockIdentifier, ValidatorIndex, Round, Timestamp, Proposal, ConsensusStep, ConsensusResponse,
  broadcast_prevote, broadcast_precommit, finalize_block, violation_report, ConsensusState,
}
use simperby.Vetomint.Proposer.{decide_proposer}
use simperby.Vetomint.Tally.{
  get_total_prevotes_on_proposal, get_total_precommits_on_proposal, get_total_precommits_on_nil,
  get_total_prevotes,
}
use simperby.Vetomint.Handlers.{two_thirds, five_sixths, start_round}
use simperby.Vetomint.Late.{proof_of}

-- A power that more than two thirds of the validators have given.
pub record IsQuorum (s : ConsensusState) (votes : Option ℕ) : Type 0 where
  pub power : ℕ
  pub counted : votes ≡ some power
  pub enough : two_thirds s power ≡ true

-- The block was proposed by the leader of the round, and is valid.
pub record IsProposed (s : ConsensusState) (round : Round) (block : BlockIdentifier) : Type 0 where
  pub proposal : Proposal
  pub known : map_get compare block s.proposals ≡ some proposal
  pub led : decide_proposer round s.height_info ≡ some proposal.proposer
  pub valid : proposal.valid ≡ true

abbrev pub IsReport : ConsensusResponse → Type 0
IsReport (violation_report _ _) = Unit
IsReport _ = ⊥

abbrev pub AreReports : List ConsensusResponse → Type 0
AreReports [] = Unit
AreReports (r ∷ rs) = IsReport r × AreReports rs

pub data Step (s : ConsensusState) (rs : List ConsensusResponse) (t : ConsensusState) : Type 0 where
  idle : rs ≡ [] → t ≡ s → Step s rs t
  report : AreReports rs → t ≡ s → Step s rs t
  vote :
      (p : Option BlockIdentifier)
      → s.step ≡ ConsensusStep.propose
      → rs ≡ broadcast_prevote p s.round ∷ []
      → t ≡ record s { step = ConsensusStep.prevote }
      → Step s rs t
  lock :
      (p : BlockIdentifier)
      → s.step ≡ ConsensusStep.prevote
      → IsProposed s s.round p
      → IsQuorum s (get_total_prevotes_on_proposal s s.round p)
      → rs ≡ broadcast_precommit (some p) s.round ∷ []
      → t ≡ record s {
        valid_value = some p;
        valid_round = some s.round;
        locked_value = some p;
        locked_round = some s.round;
        step = ConsensusStep.precommit;
      }
      → Step s rs t
  revalue :
      (p : BlockIdentifier)
      → s.step ≡ ConsensusStep.precommit
      → IsProposed s s.round p
      → IsQuorum s (get_total_prevotes_on_proposal s s.round p)
      → rs ≡ []
      → t ≡ record s { valid_value = some p; valid_round = some s.round }
      → Step s rs t
  give_up :
      s.step ≡ ConsensusStep.prevote
      → rs ≡ broadcast_precommit none s.round ∷ []
      → t ≡ record s { step = ConsensusStep.precommit }
      → Step s rs t
  early :
      (p : BlockIdentifier)
      → s.step ≡ ConsensusStep.prevote
      → IsQuorum s (get_total_prevotes_on_proposal s s.round p)
      → rs ≡ broadcast_precommit (some p) s.round ∷ []
      → t ≡ record s { step = ConsensusStep.precommit }
      → Step s rs t
  schedule :
      (first : List Round) (schedules : List (Round × Timestamp))
      → ((x : Round × Timestamp) → In x s.precommit_timeout_schedules → In x schedules)
      → rs ≡ []
      → t ≡ record s { for_the_first_time_2 = first; precommit_timeout_schedules = schedules }
      → Step s rs t
  finalize :
      (p : BlockIdentifier) (round : Round)
      → IsProposed s round p
      → IsQuorum s (get_total_precommits_on_proposal s round p)
      → rs ≡ finalize_block p round (proof_of s.precommits round p) ∷ []
      → t ≡ record s { finalized = some (p, proof_of s.precommits round p, round) }
      → Step s rs t

-- Some steps, at most `k` of them into the next round, with the responses of all.
pub data Steps : ℕ → ConsensusState → List ConsensusResponse → ConsensusState → Type 0 where
  here : {k : ℕ} {s : ConsensusState} → Steps k s [] s
  next :
      {k : ℕ} {s t u : ConsensusState} {xs ys : List ConsensusResponse}
      → Step s xs t
      → Steps k t ys u
      → Steps k s (xs ++ ys) u
  turn :
      {k : ℕ} {s t u : ConsensusState} {xs ys : List ConsensusResponse} (now : Timestamp)
      → start_round (add_u64 s.round 1) now s ≡ some (xs, t)
      → Steps k t ys u
      → Steps (suc k) s (xs ++ ys) u

pub one :
    {k : ℕ} {s t : ConsensusState} {rs : List ConsensusResponse} → Step s rs t → Steps k s rs t
one {k} {s} {t} {rs} st = subst (λ l. Steps k s l t) (append-nil rs) (next st here)

pub Steps-more :
    {k : ℕ} {s u : ConsensusState} {rs : List ConsensusResponse} (j : ℕ)
    → Steps k s rs u
    → Steps (j + k) s rs u
Steps-more j here = here
Steps-more j (next st rest) = next st (Steps-more j rest)
Steps-more {s = s} {u = u} {rs = rs} j (turn {k = k} now e rest) =
    let e' : suc (j + k) ≡ j + suc k = omega arith in
    subst (λ n. Steps n s rs u) e' (turn now e (Steps-more j rest))

pub Steps-append :
    {j k : ℕ} {s t u : ConsensusState} {xs ys : List ConsensusResponse}
    → Steps j s xs t
    → Steps k t ys u
    → Steps (j + k) s (xs ++ ys) u
Steps-append (here {k = j}) r = Steps-more j r
Steps-append {j = j} {k = k} {u = u} {ys = ys} (next {s = s} {xs = xs} {ys = zs} st rest) r =
    subst (λ l. Steps (j + k) s l u) (sym (append_assoc xs zs ys)) (next st (Steps-append rest r))
Steps-append {k = k} {u = u} {ys = ys} (turn {k = j} {s = s} {xs = xs} {ys = zs} now e rest) r =
    let e' : suc (j + k) ≡ suc j + k = omega arith in
    subst (λ n. Steps n s ((xs ++ zs) ++ ys) u) e'
      (subst (λ l. Steps (suc (j + k)) s l u) (sym (append_assoc xs zs ys))
        (turn now e (Steps-append rest r)))

-- A handler that takes steps only, at most `k` of them into the next round.
abbrev pub Refines :
    ℕ → (ConsensusState → Option (List ConsensusResponse × ConsensusState)) → Type 0
Refines k m =
    (s : ConsensusState) (rs : List ConsensusResponse) (t : ConsensusState)
    → m s ≡ some (rs, t)
    → Steps k s rs t
