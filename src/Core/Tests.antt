-- ===== src/Core/Tests.antt =====
-- The theorems about the chain's verifier at small inputs.
use simperby.Base.{
  ◌<◌, ◌≤◌, ◌≡◌, ◌≢◌, refl, true, false, some, List, [], ◌∷◌, arith, ◌⊎◌, ◌&&◌, ◌*◌, ◌-◌, get_elem?,
  map,
}
use simperby.Base.Int.{pos}
use simperby.Core.Types.{
  Hash256, FinalizationProof, BlockHeader, ReservedState, AgendaProof, delegate, Commit, TxDelegate,
  DelegationTransactionData,
}
use simperby.Core.Merkle.{MerkleProof, root, create_merkle_proof, verify}
use simperby.Core.Hash.{hash_agenda, hash_delegation}
use simperby.Core.Reserved.{Powers, get_validator_set, get_governance_set, apply_undelegate}
use simperby.Core.Verify.{is_signer, verify_header_to_header, total_power}
use simperby.Core.Sequence.{CommitSequenceVerifier, Phase, new, verify_reserved_state}
use simperby.Core.Apply.{apply_commit, proof_of_agenda}
use simperby.Core.LightClient.{new_client, verify_transaction_commitment}
use simperby.Core.Result.{Reason, Result, ok, err, panic}
use simperby.Core.Chain.{IsChild, IsChained, verify_header_to_header_iff}
use simperby.Core.Chained.{apply_all, apply_all-IsChained}
use simperby.Core.Members.{Extends}
use simperby.Core.Grows.{apply_all-Extends}
use simperby.Core.Blocked.{late_delegation-blocks}
use simperby.Core.Governance.{active_power, power_sum, get_sets-total}
use simperby.Core.Weights.{reweighed, get_governance_set-reweighed}
use simperby.Core.Delegation.{apply_delegate-total_power}
use simperby.Core.Undo.{apply_undelegate-apply_delegate}
use simperby.Core.Accepts.{IsNextState, verify_reserved_state_iff}
use simperby.Core.Proofs.{power_of, copies, finalizations-overlap, proof_of_agenda-copies}
use simperby.Core.Client.{
  IsSynced, update_all, update_all-IsSynced, verify_transaction_commitment_iff,
}
use simperby.Core.Tree.{verify-create_merkle_proof}
use simperby.Core.Samples.{
  chain, toy, sign, first_header, first_state, fresh, first_agenda, first_agenda_proof, finalizing,
  second_header, first_commits, delegating, sample_transaction, undelegating, delegated_state,
}

-- The three commits are accepted, and the second block is the header.
first_commits_accepted : (apply_all toy first_commits fresh).header ≡ second_header
unfolding chain
first_commits_accepted = refl

apply_all-IsChained_example :
    IsChained toy (apply_all toy first_commits (new first_header first_state))
apply_all-IsChained_example = apply_all-IsChained toy first_header first_state first_commits

apply_all-Extends_example :
    Extends fresh.reserved_state (apply_all toy first_commits fresh).reserved_state
apply_all-Extends_example = apply_all-Extends toy first_commits fresh

verify_header_to_header_iff_example :
    (verify_header_to_header toy first_header second_header ≡ ok tt
      → IsChild toy first_header second_header)
    × (IsChild toy first_header second_header
        → verify_header_to_header toy first_header second_header ≡ ok tt)
verify_header_to_header_iff_example = verify_header_to_header_iff toy first_header second_header

-- The verifier after an extra-agenda transaction of a later time.
abbrev behind : CommitSequenceVerifier
unfolding chain
behind = record fresh { phase = Phase.extra_agenda_transaction (pos 9) }

-- The same delegation at the time of the transaction before it.
abbrev in_time : TxDelegate
unfolding chain
in_time =
    let content : DelegationTransactionData = record delegating.content { timestamp = pos 9 } in
    record { content = content; proof = sign 10 (hash_delegation toy content) }

late_delegation-blocks_example :
    let (result, after) =
      apply_commit toy (Commit.extra_agenda_transaction (delegate delegating)) behind in
    (result ≢ ok tt)
    × (after.total_commits ≡ behind.total_commits)
    × ((apply_commit toy (Commit.extra_agenda_transaction (delegate in_time)) after).0 ≢ ok tt)
unfolding chain
late_delegation-blocks_example =
    late_delegation-blocks toy behind (pos 9) delegating in_time delegated_state refl refl refl refl

abbrev powers_of : Result Reason Powers → Powers
powers_of (ok set) = set
powers_of (err _) = []
powers_of panic = []

abbrev validators : ReservedState → Powers
unfolding chain
validators rs = powers_of (get_validator_set rs)

abbrev governors : ReservedState → Powers
unfolding chain
governors rs = powers_of (get_governance_set rs)

sets_of_delegated_state :
    (validators delegated_state ≡ (20, 2) ∷ (30, 1) ∷ (40, 1) ∷ [])
    × (governors delegated_state ≡ (20, 2) ∷ (30, 1) ∷ (40, 1) ∷ [])
unfolding chain
sets_of_delegated_state = (refl, refl)

get_sets-total_example :
    (total_power (validators delegated_state) ≡ active_power delegated_state.members)
    × (total_power (governors delegated_state) ≡ active_power delegated_state.members)
unfolding chain
get_sets-total_example =
    get_sets-total delegated_state (validators delegated_state) (governors delegated_state)
      (omega arith) refl refl

apply_delegate-total_power_example :
    (total_power (validators delegated_state) ≡ total_power (validators first_state))
    × (total_power (governors delegated_state) ≡ total_power (governors first_state))
unfolding chain
apply_delegate-total_power_example =
    apply_delegate-total_power toy delegating first_state delegated_state (validators first_state)
      (governors first_state) (validators delegated_state) (governors delegated_state) (omega arith)
      refl refl refl refl refl

apply_undelegate-apply_delegate_example :
    apply_undelegate toy undelegating delegated_state ≡ ok first_state
unfolding chain
apply_undelegate-apply_delegate_example =
    apply_undelegate-apply_delegate toy delegating undelegating first_state delegated_state
      (λ h. refl, (λ h. refl, (λ h. refl, (λ h. refl, tt)))) refl refl refl refl

get_governance_set-reweighed_example :
    get_governance_set
      (record first_state { members = map (reweighed (λ m. 0)) first_state.members })
    ≡ get_governance_set first_state
get_governance_set-reweighed_example = get_governance_set-reweighed (λ m. 0) first_state

verify_reserved_state_iff_example :
    (verify_reserved_state fresh delegated_state ≡ ok tt → IsNextState first_state delegated_state)
    × (IsNextState first_state delegated_state
        → verify_reserved_state fresh delegated_state ≡ ok tt)
unfolding new
verify_reserved_state_iff_example = verify_reserved_state_iff fresh delegated_state

finalizations-overlap_example :
    power_sum first_header.validator_set
    < power_of
        (λ k.
          is_signer (finalizing first_header 0).signatures k
          && is_signer (finalizing first_header 1).signatures k)
        first_header.validator_set
      * 3
unfolding chain
finalizations-overlap_example =
    finalizations-overlap toy first_header (finalizing first_header 0) (finalizing first_header 1)
      (omega arith) refl refl

-- Three copies of the signature of one of the four members.
abbrev copied : AgendaProof
unfolding hash_agenda
copied = record first_agenda_proof { proof = copies 3 (sign 10 (hash_agenda toy first_agenda)) }

proof_of_agenda-copies_example :
    proof_of_agenda toy fresh first_agenda copied
    ≡ ok (record fresh { phase = Phase.agenda_proof copied })
unfolding chain
proof_of_agenda-copies_example =
    proof_of_agenda-copies toy fresh first_agenda copied (governors first_state) 3
      (sign 10 (hash_agenda toy first_agenda)) 1 refl refl refl refl refl refl (omega arith)
      (omega arith)

abbrev updates : List (BlockHeader × FinalizationProof)
unfolding chain
updates = (second_header, finalizing second_header 0) ∷ []

update_all-IsSynced_example : IsSynced (update_all toy updates (new_client first_header))
unfolding updates
update_all-IsSynced_example = update_all-IsSynced toy first_header updates (omega arith)

updates_accepted : (update_all toy updates (new_client first_header)).last_header ≡ second_header
unfolding chain updates
updates_accepted = refl

verify_transaction_commitment_iff_example :
    let client = update_all toy updates (new_client first_header) in
    ((1 < client.height_offset) ⊎ (client.last_header.height < 1)
      → verify_transaction_commitment toy client sample_transaction 1 [] ≡ some false)
    × (client.height_offset ≤ 1
        → 1 ≤ client.last_header.height
        → (root_hash : Hash256) × (get_elem? client.commit_roots (1 - client.height_offset)
            ≡ some root_hash)
          × (verify_transaction_commitment toy client sample_transaction 1 []
              ≡ some (verify toy [] root_hash (toy.transaction_bytes sample_transaction))))
unfolding updates
verify_transaction_commitment_iff_example =
    verify_transaction_commitment_iff toy (update_all toy updates (new_client first_header))
      sample_transaction 1 [] (update_all-IsSynced toy first_header updates (omega arith))

-- The hashes of three pieces of data.
abbrev hashes : List Hash256
hashes = toy.hash (2 ∷ []) ∷ toy.hash (30 ∷ []) ∷ toy.hash (400 ∷ []) ∷ []

verify-create_merkle_proof_example :
    (proof : MerkleProof) × (create_merkle_proof toy hashes (toy.hash (400 ∷ [])) ≡ some proof)
    × (verify toy proof (root toy hashes) (400 ∷ []) ≡ true)
unfolding chain
verify-create_merkle_proof_example =
    verify-create_merkle_proof toy hashes (400 ∷ []) refl
      ((refl, (refl, tt)), ((refl, tt), ((refl, tt), tt)))
