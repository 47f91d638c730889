-- ===== src/Core/Samples.antt =====
-- Small inputs for the chain's verifier: a toy of the cryptography, four members, and a first block.
use simperby.Base.{ℕ, ◌+◌, ◌*◌, true, false, none, List, [], ◌∷◌, ◌==◌}
use mathlib.Core.Bool.{decide}
use simperby.Base.Int.{pos}
use simperby.Base.Word.{add_u64, mul_u64, sum_u64}
use simperby.Base.Ordered.{map_get, map_insert}
use simperby.Core.Types.{
  Hash256, PublicKey, MemberName, Member, TypedSignature, FinalizationProof, BlockHeader, Agenda,
  AgendaProof, ReservedState, Transaction, Diff, DelegationTransactionData,
  UndelegationTransactionData, TxDelegate, TxUndelegate, Commit, genesis,
}
use simperby.Core.Crypto.{Crypto}
use simperby.Core.Hash.{
  hash_sign_target, hash_header, hash_transaction, hash_agenda, hash_agenda_proof, hash_extra,
  hash_delegation, hash_undelegation, hash_commit, transactions_hash_from,
  calculate_transactions_hash, calculate_commit_merkle_root,
}
use simperby.Core.Merkle.{
  aggregate, hash_again, upper_level, merkle_tree, last_of, top_of, root, scan_level, scan_levels,
  create_merkle_proof, climb_all, verify,
}
use simperby.Core.Reserved.{
  query_public_key, is_expelled, add_power, collect_powers, get_validator_set, get_governance_set,
  delegate_loop, undelegate_loop, apply_delegate, apply_undelegate,
}
use simperby.Core.Verify.{
  verify_signatures, sign_target, verify_finalization_proof, verify_header_to_header,
}
use simperby.Core.Sequence.{
  CommitSequenceVerifier, new, distinct, check_unique, check_kept, verify_reserved_state,
}
use simperby.Core.Apply.{
  signed_weights, next_reserved_state, enter_block, block_after_proof, block_after_extra,
  first_transaction, next_transaction, enter_agenda, agenda_alone, agenda_after, proof_of_agenda,
  apply_extra, first_extra, next_extra, apply_arm, apply_commit,
}
use simperby.Core.LightClient.{new_client, update, verify_transaction_commitment}
use simperby.Core.Result.{Result, ok, err, panic}
use simperby.Core.Chained.{apply_all}
use simperby.Core.Client.{update_all}

-- Opens all that the samples compute with.
unfoldable pub chain : Unit {0}
unfolding add_u64 mul_u64 sum_u64 map_get map_insert genesis hash_sign_target hash_header
    hash_transaction hash_agenda hash_agenda_proof hash_extra hash_delegation hash_undelegation
    hash_commit transactions_hash_from calculate_transactions_hash calculate_commit_merkle_root
    aggregate hash_again upper_level merkle_tree last_of top_of root scan_level scan_levels
    create_merkle_proof climb_all verify query_public_key is_expelled add_power collect_powers
    get_validator_set get_governance_set delegate_loop undelegate_loop apply_delegate
    apply_undelegate verify_signatures sign_target verify_finalization_proof verify_header_to_header
    new distinct check_unique check_kept verify_reserved_state signed_weights next_reserved_state
    enter_block block_after_proof block_after_extra first_transaction next_transaction enter_agenda
    agenda_alone agenda_after proof_of_agenda apply_extra first_extra next_extra apply_arm
    apply_commit new_client update verify_transaction_commitment apply_all update_all decide
chain = tt

abbrev toy_hash : List ℕ → Hash256
toy_hash [] = 1
toy_hash (x ∷ xs) = 3 * x + 7 * toy_hash xs

-- A signature is the sum of the hash and the key.
abbrev pub toy : Crypto
toy = record {
  hash = toy_hash;
  verify_signature = λ s h k. s == h + k;
  hash_bytes = λ h. h ∷ [];
  text_bytes = λ t. [];
  sign_target_bytes = λ t. t.block_hash ∷ t.round ∷ [];
  header_bytes = λ h. 1 ∷ h.height ∷ [];
  transaction_bytes = λ t. 2 ∷ [];
  agenda_bytes = λ a. 3 ∷ a.height ∷ [];
  agenda_proof_bytes = λ p. 4 ∷ p.height ∷ [];
  extra_bytes = λ t. 5 ∷ [];
  delegation_bytes = λ d. 6 ∷ d.block_height ∷ [];
  undelegation_bytes = λ d. 7 ∷ d.block_height ∷ [];
  chat_log_bytes = λ l. 8 ∷ [];
}

abbrev pub sign : PublicKey → Hash256 → TypedSignature
sign key hash = record { signature = hash + key; signer = key }

abbrev pub member : PublicKey → MemberName → Member
member key name = record {
  public_key = key;
  name = name;
  governance_voting_power = 1;
  consensus_voting_power = 1;
  governance_delegatee = none;
  consensus_delegatee = none;
  expelled = false;
}

abbrev pub first_header : BlockHeader
unfolding genesis
first_header = record {
  author = 0;
  prev_block_finalization_proof = genesis;
  previous_hash = 0;
  height = 0;
  timestamp = pos 0;
  commit_merkle_root = 0;
  repository_merkle_root = 0;
  validator_set = (10, 1) ∷ (20, 1) ∷ (30, 1) ∷ (40, 1) ∷ [];
  version = "0.1.0";
}

abbrev pub first_state : ReservedState
unfolding genesis
first_state = record {
  genesis_info = record { header = first_header; genesis_proof = genesis; chain_name = "sample" };
  members = member 10 "ada" ∷ member 20 "ben" ∷ member 30 "cy" ∷ member 40 "dee" ∷ [];
  consensus_leader_order = "ada" ∷ "ben" ∷ [];
  version = "0.1.0";
}

abbrev pub fresh : CommitSequenceVerifier
unfolding new
fresh = new first_header first_state

abbrev pub first_agenda : Agenda
unfolding calculate_transactions_hash hash_header
first_agenda = record {
  height = 1;
  author = "ada";
  timestamp = pos 1;
  transactions_hash = calculate_transactions_hash toy [];
  previous_block_hash = hash_header toy first_header;
}

-- Three of the four members sign.
abbrev pub first_agenda_proof : AgendaProof
unfolding hash_agenda
first_agenda_proof =
    let hash = hash_agenda toy first_agenda in
    record {
      height = 1;
      agenda_hash = hash;
      proof = sign 10 hash ∷ sign 20 hash ∷ sign 30 hash ∷ [];
      timestamp = pos 2;
    }

abbrev pub finalizing : BlockHeader → ℕ → FinalizationProof
unfolding hash_sign_target hash_header
finalizing header round =
    let hash =
      hash_sign_target toy (record { block_hash = hash_header toy header; round = round }) in
    record { round = round; signatures = sign 10 hash ∷ sign 20 hash ∷ sign 30 hash ∷ [] }

abbrev pub second_header : BlockHeader
unfolding hash_header calculate_commit_merkle_root
second_header = record {
  author = 10;
  prev_block_finalization_proof = finalizing first_header 0;
  previous_hash = hash_header toy first_header;
  height = 1;
  timestamp = pos 3;
  commit_merkle_root =
      calculate_commit_merkle_root toy
        (Commit.agenda first_agenda ∷ Commit.agenda_proof first_agenda_proof ∷ []);
  repository_merkle_root = 0;
  validator_set = (10, 1) ∷ (20, 1) ∷ (30, 1) ∷ (40, 1) ∷ [];
  version = "0.1.0";
}

abbrev pub first_commits : List Commit
first_commits =
    Commit.agenda first_agenda
    ∷ Commit.agenda_proof first_agenda_proof
    ∷ Commit.block second_header
    ∷ []

abbrev pub delegating : TxDelegate
unfolding hash_delegation
delegating =
    let content : DelegationTransactionData = record {
      delegator = "ada";
      delegatee = "ben";
      governance = true;
      block_height = 0;
      timestamp = pos 5;
      chain_name = "sample";
    } in
    record { content = content; proof = sign 10 (hash_delegation toy content) }

abbrev pub undelegating : TxUndelegate
unfolding hash_undelegation
undelegating =
    let content : UndelegationTransactionData = record {
      delegator = "ada";
      block_height = 0;
      timestamp = pos 6;
      chain_name = "sample";
    } in
    record { content = content; proof = sign 10 (hash_undelegation toy content) }

abbrev pub result_of : {E : Type 0} → Result E ReservedState → ReservedState
result_of (ok rs) = rs
result_of (err _) = first_state
result_of panic = first_state

abbrev pub delegated_state : ReservedState
unfolding apply_delegate
delegated_state = result_of (apply_delegate toy delegating first_state)

abbrev pub sample_transaction : Transaction
sample_transaction = record {
  author = "ada";
  timestamp = pos 1;
  head = "add a file";
  body = "";
  diff = Diff.empty;
}
