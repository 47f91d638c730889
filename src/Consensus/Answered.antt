-- ===== src/Consensus/Answered.antt =====
-- What `State::progress` of consensus/src/state.rs keeps of the collected signatures.
use simperby.Base.{
  ℕ, ◌≡◌, inl, inr, refl, subst, Option, none, some, List, [], ◌∷◌, arith, Option-cases,
}
use simperby.Base.Ordered.{map_get}
use simperby.Base.Entries.{map_get-AllEntries}
use simperby.Core.Types.{Hash256, Timestamp, ConsensusRound, TypedSignature}
use simperby.Core.Crypto.{Crypto}
use simperby.Core.Kept.{Result-cases}
use simperby.Core.Result.{ok}
use simperby.Vetomint.Types.{
  ConsensusEvent, ConsensusResponse, broadcast_proposal, broadcast_prevote, broadcast_precommit,
  finalize_block, violation_report,
}
use simperby.Vetomint.Feedback.{vetomint_progress}
use simperby.Consensus.Types.{
  ConsensusMessage, ProgressResult, Finalization, compare_block_round, State,
}
use simperby.Consensus.Progress.{
  get_block_hash, process_consensus_response_to_progress_result, tell_all, process_all,
  push_message, machine_answer, note_event, Told,
}
use simperby.Consensus.Signed.{target, AllVerify, HasValid, HasValid-same, compare_block_round_eq}

some-injective : {A : Type 0} {a b : A} → some a ≡ some b → a ≡ b
some-injective same = ground arith

module _ (c : Crypto) where
  finalized-HasValid :
      (s : State) (hash : Hash256) (round : ConsensusRound) (time : Timestamp)
      (signatures : List TypedSignature)
      → HasValid c s
      → AllVerify c (target c (hash, round)) signatures
      → HasValid c (record s {
        finalized = some (record {
          block_hash = hash;
          timestamp = time;
          proof = record { round = round; signatures = signatures };
        });
      })
  finalized-HasValid s hash round time signatures h verify = record {
    collected = h.collected;
    final = λ f same.
        subst
          (λ (g : Finalization).
            AllVerify c (target c (g.block_hash, g.proof.round)) g.proof.signatures)
          (some-injective same) verify;
  }

  response-HasValid :
      (r : ConsensusResponse) (time : Timestamp) (s t : State) (told : Told)
      → HasValid c s
      → process_consensus_response_to_progress_result r time s ≡ ok (told, t)
      → HasValid c t
  unfolding process_consensus_response_to_progress_result
  response-HasValid (broadcast_proposal p vr round) time s t told h done =
      HasValid-same c s t (ground arith) (ground arith) h
  response-HasValid (broadcast_prevote none round) time s t told h done =
      HasValid-same c s t (ground arith) (ground arith) h
  response-HasValid (broadcast_prevote (some p) round) time s t told h done =
      HasValid-same c s t (ground arith) (ground arith) h
  response-HasValid (broadcast_precommit none round) time s t told h done =
      HasValid-same c s t (ground arith) (ground arith) h
  response-HasValid (broadcast_precommit (some p) round) time s t told h done =
      HasValid-same c s t (ground arith) (ground arith) h
  response-HasValid (violation_report who m) time s t told h done =
      HasValid-same c s t (ground arith) (ground arith) h
  response-HasValid (finalize_block p round proof) time s t told h done =
      elim (Result-cases (get_block_hash s p)) [
        | inr (inl (e, fails)) ↦ absurd (ground arith)
        | inr (inr fails) ↦ absurd (ground arith)
        | inl (hash, known) ↦
            elim (Option-cases (map_get compare_block_round (hash, round) s.precommits)) [
              | inl missing ↦ absurd (ground arith)
              | inr (signatures, found) ↦
                  let verify : AllVerify c (target c (hash, round)) signatures =
                    map_get-AllEntries compare_block_round (compare_block_round_eq c)
                      (λ e v. AllVerify c (target c e) v) (hash, round) signatures s.precommits
                      h.collected found in
                  subst (HasValid c) (ground arith)
                    (finalized-HasValid s hash round time signatures h verify)
            ]
      ]

  push_message-HasValid :
      (m : Option ConsensusMessage) (s : State) → HasValid c s → HasValid c (push_message m s)
  push_message-HasValid none s h = h
  push_message-HasValid (some m) s h = HasValid-same c s (push_message (some m) s) refl refl h

  tell_all-HasValid :
      (rs : List ConsensusResponse) (time : Timestamp) (s t : State) (told : List ProgressResult)
      → HasValid c s
      → tell_all rs time s ≡ ok (told, t)
      → HasValid c t
  unfolding tell_all
  tell_all-HasValid [] time s t told h done = subst (HasValid c) (ground arith) h
  tell_all-HasValid (r ∷ rs) time s t told h done =
      elim (Result-cases (process_consensus_response_to_progress_result r time s)) [
        | inr (inl (e, fails)) ↦ absurd (ground arith)
        | inr (inr fails) ↦ absurd (ground arith)
        | inl (((x, m), u), first) ↦ elim (Result-cases (tell_all rs time (push_message m u))) [
          | inr (inl (e, fails)) ↦ absurd (ground arith)
          | inr (inr fails) ↦ absurd (ground arith)
          | inl ((xs, w), rest) ↦ subst (HasValid c) (ground arith) (
              tell_all-HasValid rs time (push_message m u) w xs
                (push_message-HasValid m u (response-HasValid r time s u (x, m) h first)) rest)
        ]
      ]

  note_event-HasValid :
      (e : ConsensusEvent) (s : State) → HasValid c s → HasValid c (note_event e s)
  note_event-HasValid e s h = HasValid-same c s (note_event e s) (ground arith) (ground arith) h

  pub process_all-HasValid :
      (fuel : ℕ) (events : List (ConsensusEvent × Timestamp)) (s t : State)
      (told : List ProgressResult)
      → HasValid c s
      → process_all fuel events s ≡ ok (told, t)
      → HasValid c t
  unfolding process_all
  process_all-HasValid fuel [] s t told h done = subst (HasValid c) (ground arith) h
  process_all-HasValid fuel ((event, time) ∷ events) s t told h done =
      elim (Result-cases (machine_answer (vetomint_progress fuel event time s.vetomint))) [
        | inr (inl (e, fails)) ↦ absurd (ground arith)
        | inr (inr fails) ↦ absurd (ground arith)
        | inl ((rs, v), answered) ↦
            let noted = note_event event (record s { vetomint = v }) in
            elim (Result-cases (tell_all rs time noted)) [
              | inr (inl (e, fails)) ↦ absurd (ground arith)
              | inr (inr fails) ↦ absurd (ground arith)
              | inl ((xs, u), first) ↦ elim (Result-cases (process_all fuel events u)) [
                | inr (inl (e, fails)) ↦ absurd (ground arith)
                | inr (inr fails) ↦ absurd (ground arith)
                | inl ((ys, w), rest) ↦
                    let moved =
                      note_event-HasValid event (record s { vetomint = v })
                        (HasValid-same c s (record s { vetomint = v }) refl refl h) in
                    subst (HasValid c) (ground arith) (
                      process_all-HasValid fuel events u w ys
                        (tell_all-HasValid rs time noted u xs moved first) rest)
              ]
            ]
      ]
