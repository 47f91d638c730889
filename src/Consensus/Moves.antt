-- ===== src/Consensus/Moves.antt =====
-- The operations of consensus/src/state.rs as steps, and what they keep.
use simperby.Base.{ℕ, ◌≡◌, refl, some, List, [], ◌∷◌, arith, All}
use simperby.Core.Types.{Hash256, PublicKey, Timestamp, ConsensusRound, TypedSignature, BlockHeader}
use simperby.Core.Crypto.{Crypto}
use simperby.Core.Verify.{verify_signatures}
use simperby.Core.Result.{ok}
use simperby.Vetomint.Types.{ConsensusEvent, ConsensusParams}
use simperby.Consensus.Types.{ConsensusMessage, ProgressResult, Finalization, State}
use simperby.Consensus.State.{
  Dms, new_state, unless_final, register_verified_block_hash, enter_block_hash,
  set_proposal_candidate, veto_block, veto_round, Incoming, add_consensus_messages,
  drain_messages_to_broadcast, push_event,
}
use simperby.Consensus.Progress.{progress_state}
use simperby.Consensus.Signed.{
  target, AllVerify, HasValid, HasValid-same, IsCommitted, add_all-HasValid,
}
use simperby.Consensus.Answered.{process_all-HasValid}
use mathlib.Core.List.{reverse}

-- One operation on a node, which hears only messages that are signed by their authors.
pub data Move (c : Crypto) (dms : Dms) (fuel : ℕ) (s t : State) : Type 0 where
  registers : (h : Hash256) → register_verified_block_hash h s ≡ ok t → Move c dms fuel s t
  proposes :
      (h : Hash256) (time : Timestamp)
      → set_proposal_candidate h time s ≡ ok t
      → Move c dms fuel s t
  vetoes : (h : Hash256) → veto_block h s ≡ ok t → Move c dms fuel s t
  skips :
      (round : ConsensusRound) (time : Timestamp)
      → veto_round round time s ≡ ok t
      → Move c dms fuel s t
  hears :
      (messages : List Incoming) (time : Timestamp)
      → All (IsCommitted c dms) messages
      → add_consensus_messages messages time s ≡ ok t
      → Move c dms fuel s t
  moves_on :
      (time : Timestamp) (results : List ProgressResult)
      → progress_state fuel time s ≡ ok (results, t)
      → Move c dms fuel s t
  drains :
      (messages : List ConsensusMessage)
      → drain_messages_to_broadcast s ≡ ok (messages, t)
      → Move c dms fuel s t

pub data Moves (c : Crypto) (dms : Dms) (fuel : ℕ) (s : State) : State → Type 0 where
  here : Moves c dms fuel s s
  after : {t u : State} → Moves c dms fuel s t → Move c dms fuel t u → Moves c dms fuel s u

module _ (c : Crypto) (dms : Dms) (fuel : ℕ) where
  Move-HasValid : (s t : State) → HasValid c s → Move c dms fuel s t → HasValid c t
  unfolding register_verified_block_hash enter_block_hash set_proposal_candidate veto_block
      veto_round unless_final drain_messages_to_broadcast add_consensus_messages progress_state
  Move-HasValid s t h (registers hash done) = HasValid-same c s t (ground arith) (ground arith) h
  Move-HasValid s t h (proposes hash time done) =
      HasValid-same c s t (ground arith) (ground arith) h
  Move-HasValid s t h (vetoes hash done) = HasValid-same c s t (ground arith) (ground arith) h
  Move-HasValid s t h (skips round time done) = HasValid-same c s t (ground arith) (ground arith) h
  Move-HasValid s t h (drains messages done) = HasValid-same c s t (ground arith) (ground arith) h
  Move-HasValid s t h (hears messages time committed done) =
      add_all-HasValid c dms messages time s t committed h (ground arith)
  Move-HasValid s t h (moves_on time results done) =
      let u = push_event ConsensusEvent.timer time s in
      process_all-HasValid c fuel (reverse u.to_be_processed_events)
        (record u { to_be_processed_events = [] }) t results
        (HasValid-same c s (record u { to_be_processed_events = [] }) refl refl h) (ground arith)

  Moves-HasValid : (s t : State) → HasValid c s → Moves c dms fuel s t → HasValid c t
  Moves-HasValid s t h here = h
  Moves-HasValid s t h (after {t = u} before last) =
      Move-HasValid u t (Moves-HasValid s u h before) last

new_state-HasValid :
    (c : Crypto) (header : BlockHeader) (params : ConsensusParams) (time : Timestamp)
    (key : PublicKey)
    → HasValid c (new_state header params time key)
unfolding new_state
new_state-HasValid c header params time key = record {
  collected = tt;
  final = λ f same. absurd (ground arith);
}

AllVerify-verify_signatures :
    (c : Crypto) (hash : Hash256) (signatures : List TypedSignature)
    → AllVerify c hash signatures
    → verify_signatures c hash signatures ≡ ok tt
unfolding verify_signatures
AllVerify-verify_signatures c hash [] all = refl
AllVerify-verify_signatures c hash (s ∷ signatures) all =
    let rest = AllVerify-verify_signatures c hash signatures all.1 in
    let first = all.0 in ground arith

-- Whatever operations a new node goes through, in any order, when each message that it hears is signed
-- by its author: all signatures of the finalization proof that it ends up with verify for the
-- finalized block and the proof's round, as the chain's verifier asks of them.
pub Moves-verify_signatures :
    (c : Crypto) (dms : Dms) (fuel : ℕ) (header : BlockHeader) (params : ConsensusParams)
    (time : Timestamp) (key : PublicKey) (t : State) (f : Finalization)
    → Moves c dms fuel (new_state header params time key) t
    → t.finalized ≡ some f
    → verify_signatures c (target c (f.block_hash, f.proof.round)) f.proof.signatures ≡ ok tt
Moves-verify_signatures c dms fuel header params time key t f moves done =
    let valid =
      Moves-HasValid c dms fuel (new_state header params time key) t
        (new_state-HasValid c header params time key) moves in
    AllVerify-verify_signatures c (target c (f.block_hash, f.proof.round)) f.proof.signatures
      (valid.final f done)
