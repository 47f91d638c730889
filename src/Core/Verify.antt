-- ===== src/Core/Verify.antt =====
-- core/src/verify.rs: the verification of a block header against the header before it, and of a
-- finalization proof.
use simperby.Base.{Bool, not, List, [], ◌∷◌, map, leb, ◌==◌, if◌then◌else◌, any, select}
use simperby.Base.Int.{ltb_ℤ}
use simperby.Base.Word.{add_u64, mul_u64, sum_u64}
use simperby.Core.Types.{
  PublicKey, VotingPower, Hash256, TypedSignature, FinalizationProof, BlockHeader,
}
use simperby.Core.Crypto.{Crypto}
use simperby.Core.Hash.{hash_sign_target, hash_header}
use simperby.Core.Reserved.{verifies}
use simperby.Core.Result.{
  Error, Result, ok, err, ◌>>◌, fail_if, invalid_height, invalid_previous_hash, invalid_author,
  invalid_timestamp, invalid_proof, crypto_error,
}

abbrev pub Verified : Type 0
Verified = Result Error (Unit {0})

-- The sum of the powers of a validator set.
abbrev pub total_power : List (PublicKey × VotingPower) → VotingPower
total_power set = sum_u64 (map (λ v. v.1) set)

-- `voted_validators.contains(v)`.
abbrev pub is_signer : List TypedSignature → PublicKey → Bool
is_signer signatures key = any (λ s. s.signer == key) signatures

-- The power of those validators that are among the signers, each once for each place in the set.
abbrev pub voted_power : List TypedSignature → List (PublicKey × VotingPower) → VotingPower
voted_power signatures set = sum_u64 (map (λ v. v.1) (select (λ v. is_signer signatures v.0) set))

module _ (c : Crypto) where
  -- The loop over the signatures ends at the first that does not verify.
  unfoldable pub verify_signatures : Hash256 → List TypedSignature → Verified
  verify_signatures target [] = ok tt
  verify_signatures target (s ∷ signatures) =
      if verifies c s target then verify_signatures target signatures else err crypto_error

  unfoldable pub sign_target : BlockHeader → FinalizationProof → Hash256
  unfolding hash_sign_target hash_header
  sign_target header proof =
      hash_sign_target c (record { block_hash = hash_header c header; round = proof.round })

  unfoldable pub verify_finalization_proof : BlockHeader → FinalizationProof → Verified
  unfolding verify_signatures sign_target sum_u64 mul_u64
  verify_finalization_proof header proof = do
    verify_signatures (sign_target header proof) proof.signatures
    fail_if
        (leb (mul_u64 (voted_power proof.signatures header.validator_set) 3)
          (mul_u64 (total_power header.validator_set) 2))
        invalid_proof

  unfoldable pub verify_header_to_header : BlockHeader → BlockHeader → Verified
  unfolding verify_finalization_proof add_u64 hash_header
  verify_header_to_header h1 h2 = do
    fail_if (not (h2.height == add_u64 h1.height 1)) invalid_height
    fail_if (not (h2.previous_hash == hash_header c h1)) invalid_previous_hash
    fail_if (not (any (λ v. v.0 == h2.author) h1.validator_set)) invalid_author
    fail_if (ltb_ℤ h2.timestamp h1.timestamp) invalid_timestamp
    verify_finalization_proof h1 h2.prev_block_finalization_proof
