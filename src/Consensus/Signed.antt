-- ===== src/Consensus/Signed.antt =====
-- The signatures that a node of consensus/src/state.rs collects, and its finalization.
use simperby.Base.{
  ◌≡◌, ◌⊎◌, inl, inr, refl, sym, ◌∙◌, subst, true, some, List, [], ◌∷◌, ◌++◌, arith, Ordering, All,
  Option-cases, Bool-cases, any,
}
use simperby.Base.Ordered.{map_get}
use simperby.Base.Entries.{map_get-AllEntries, map_insert-AllEntries}
use simperby.Core.Kept.{Result-cases}
use simperby.Vetomint.Types.{ConsensusEvent}
use simperby.Core.Types.{Hash256, PublicKey, Signature, Timestamp, TypedSignature}
use simperby.Core.Crypto.{Crypto}
use simperby.Core.Hash.{hash_sign_target}
use simperby.Core.Reserved.{verifies}
use simperby.Core.Result.{ok}
use simperby.Consensus.Types.{
  ConsensusMessage, Finalization, BlockRound, compare_block_round, State, event_eq,
}
use simperby.Consensus.State.{
  Dms, verify_commitment, or_empty, collect, Incoming, push_event, is_consensus_message_acceptable,
  expect, get_validator_index, convert_consensus_message_to_event, add_consensus_message, add_all,
}

module _ (c : Crypto) where
  -- What the precommits for a block in a round are signed on.
  abbrev pub target : BlockRound → Hash256
  unfolding hash_sign_target
  target (block_hash, round) =
      hash_sign_target c (record { block_hash = block_hash; round = round })

  abbrev pub AllVerify : Hash256 → List TypedSignature → Type 0
  AllVerify hash signatures = All (λ s. verifies c s hash ≡ true) signatures

  abbrev pub AllValid : List (BlockRound × List TypedSignature) → Type 0
  AllValid m = All (λ e. AllVerify (target e.0) e.1) m

  -- The collected precommits verify, and so does a finalization.
  pub record HasValid (s : State) : Type 0 where
    pub collected : AllValid s.precommits
    pub final :
        (f : Finalization)
        → s.finalized ≡ some f
        → AllVerify (target (f.block_hash, f.proof.round)) f.proof.signatures

  AllVerify-append :
      (hash : Hash256) (xs ys : List TypedSignature)
      → AllVerify hash xs
      → AllVerify hash ys
      → AllVerify hash (xs ++ ys)
  AllVerify-append hash [] ys hx hy = hy
  AllVerify-append hash (x ∷ xs) ys hx hy = (hx.0, AllVerify-append hash xs ys hx.1 hy)

  pub compare_block_round_eq : (a b : BlockRound) → compare_block_round a b ≡ Ordering.eq → a ≡ b
  compare_block_round_eq (h1, r1) (h2, r2) same = ground arith

  collect-AllValid :
      (dms : Dms) (message : ConsensusMessage) (author : PublicKey) (signature : Signature)
      (s : State)
      → verify_commitment c dms message author signature ≡ true
      → AllValid s.precommits
      → AllValid (collect message author signature s).precommits
  unfolding verify_commitment collect
  collect-AllValid dms (ConsensusMessage.non_nil_pre_committed round block_hash) author signature s
        committed valid =
      let key : BlockRound = (block_hash, round) in
      let new : TypedSignature = record { signature = signature; signer = author } in
      let before : AllVerify (target key)
          (or_empty (map_get compare_block_round key s.precommits)) =
        elim (Option-cases (map_get compare_block_round key s.precommits)) [
          | inl nothing_yet ↦ subst (λ o. AllVerify (target key) (or_empty o)) (sym nothing_yet) tt
          | inr (signatures, found) ↦
              subst (λ o. AllVerify (target key) (or_empty o)) (sym found)
                (map_get-AllEntries compare_block_round compare_block_round_eq
                  (λ e v. AllVerify (target e) v) key signatures s.precommits valid found)
        ] in
      map_insert-AllEntries compare_block_round compare_block_round_eq
        (λ e v. AllVerify (target e) v) key
        (or_empty (map_get compare_block_round key s.precommits) ++ new ∷ []) s.precommits
        (AllVerify-append (target key) (or_empty (map_get compare_block_round key s.precommits))
          (new ∷ []) before (committed, tt))
        valid
  collect-AllValid dms (ConsensusMessage.proposal round vr h) author signature s committed valid =
      valid
  collect-AllValid dms (ConsensusMessage.non_nil_pre_voted round h) author signature s committed
        valid =
      valid
  collect-AllValid dms (ConsensusMessage.nil_pre_voted round) author signature s committed valid =
      valid
  collect-AllValid dms (ConsensusMessage.nil_pre_committed round) author signature s committed
        valid =
      valid

  collect-finalized :
      (message : ConsensusMessage) (author : PublicKey) (signature : Signature) (s : State)
      → (collect message author signature s).finalized ≡ s.finalized
  unfolding collect
  collect-finalized (ConsensusMessage.non_nil_pre_committed round block_hash) author signature s =
      refl
  collect-finalized (ConsensusMessage.proposal round vr h) author signature s = refl
  collect-finalized (ConsensusMessage.non_nil_pre_voted round h) author signature s = refl
  collect-finalized (ConsensusMessage.nil_pre_voted round) author signature s = refl
  collect-finalized (ConsensusMessage.nil_pre_committed round) author signature s = refl

  pub HasValid-same :
      (s t : State)
      → t.precommits ≡ s.precommits
      → t.finalized ≡ s.finalized
      → HasValid s
      → HasValid t
  HasValid-same s t collected final h = record {
    collected = subst AllValid (sym collected) h.collected;
    final = λ f done. h.final f (sym final ∙ done);
  }

  collect-HasValid :
      (dms : Dms) (message : ConsensusMessage) (author : PublicKey) (signature : Signature)
      (s : State)
      → verify_commitment c dms message author signature ≡ true
      → HasValid s
      → HasValid (collect message author signature s)
  collect-HasValid dms message author signature s committed h = record {
    collected = collect-AllValid dms message author signature s committed h.collected;
    final = λ f done. h.final f (sym (collect-finalized message author signature s) ∙ done);
  }

  -- The message is signed by its author.
  abbrev pub IsCommitted : Dms → Incoming → Type 0
  IsCommitted dms (message, author, signature) =
      verify_commitment c dms message author signature ≡ true

  add_consensus_message-cases :
      (m : Incoming) (time : Timestamp) (s t : State)
      → add_consensus_message m time s ≡ ok t
      → (t ≡ s) ⊎ ((e : ConsensusEvent) × (t ≡ collect m.0 m.1 m.2 (push_event e time s)))
  unfolding add_consensus_message
  add_consensus_message-cases (message, author, signature) time s t done =
      elim (Bool-cases (is_consensus_message_acceptable message s)) [
        | inr refused ↦ inl (ground arith)
        | inl accepted ↦ elim (Result-cases (expect (get_validator_index author s))) [
          | inr (inl (e, fails)) ↦ absurd (ground arith)
          | inr (inr fails) ↦ absurd (ground arith)
          | inl (signer, who) ↦
              elim (Result-cases (convert_consensus_message_to_event message signer s)) [
                | inr (inl (e, fails)) ↦ absurd (ground arith)
                | inr (inr fails) ↦ absurd (ground arith)
                | inl (event, made) ↦ elim (Bool-cases (any (event_eq event) s.updated_events)) [
                  | inl again ↦ inl (ground arith)
                  | inr new ↦ inr (event, ground arith)
                ]
              ]
        ]
      ]

  add_consensus_message-HasValid :
      (dms : Dms) (m : Incoming) (time : Timestamp) (s t : State)
      → IsCommitted dms m
      → HasValid s
      → add_consensus_message m time s ≡ ok t
      → HasValid t
  add_consensus_message-HasValid dms (message, author, signature) time s t committed h done =
      elim (add_consensus_message-cases (message, author, signature) time s t done) [
        | inl same ↦ subst HasValid (sym same) h
        | inr (e, shape) ↦ subst HasValid (sym shape) (
            collect-HasValid dms message author signature (push_event e time s) committed
              (HasValid-same s (push_event e time s) refl refl h))
      ]

  pub add_all-HasValid :
      (dms : Dms) (messages : List Incoming) (time : Timestamp) (s t : State)
      → All (IsCommitted dms) messages
      → HasValid s
      → add_all messages time s ≡ ok t
      → HasValid t
  unfolding add_all
  add_all-HasValid dms [] time s t committed h done = subst HasValid (ground arith) h
  add_all-HasValid dms (m ∷ messages) time s t committed h done =
      elim (Result-cases (add_consensus_message m time s)) [
        | inl (u, first) ↦
            add_all-HasValid dms messages time u t committed.1
              (add_consensus_message-HasValid dms m time s u committed.0 h first) (ground arith)
        | inr (inl (e, fails)) ↦ absurd (ground arith)
        | inr (inr fails) ↦ absurd (ground arith)
      ]
