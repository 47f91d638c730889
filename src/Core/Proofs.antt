-- ===== src/Core/Proofs.antt =====
-- How much voting power stands behind the proofs that core/src/verify.rs accepts.
use simperby.Base.{
  ℕ, zero, suc, ◌+◌, ◌*◌, ◌<◌, ◌≤◌, ◌%◌, ◌≡◌, refl, ◌∙◌, ap, Bool, true, ◌&&◌, some, List, [], ◌∷◌,
  map, arith, if◌then◌else◌, select,
}
use native.Mathlib.Nat.{mod-eq_of_lt}
use simperby.Base.Word.{add_u64, mul_u64, u64_mod, sum, sum_u64, sum_u64-eq-sum}
use simperby.Core.Types.{
  PublicKey, VotingPower, Hash256, TypedSignature, BlockHeader, FinalizationProof, Agenda,
  AgendaProof,
}
use simperby.Core.Crypto.{Crypto}
use simperby.Core.Hash.{hash_agenda}
use simperby.Core.Reserved.{Powers, get_governance_set, verifies}
use simperby.Core.Verify.{
  total_power, is_signer, voted_power, verify_signatures, verify_finalization_proof,
}
use simperby.Core.Sequence.{CommitSequenceVerifier, Phase}
use simperby.Core.Apply.{signed_weights, weight_of, proof_of_agenda}
use simperby.Core.Governance.{power_sum}
use simperby.Core.Result.{ok}

-- The mathematical sum of the powers of those that the test admits.
abbrev pub power_of : (PublicKey → Bool) → Powers → ℕ
power_of f [] = 0
power_of f ((k, v) ∷ set) = (if f k then v else 0) + power_of f set

power_of-select :
    (f : PublicKey → Bool) (set : Powers)
    → sum (map (λ v. v.1) (select (λ v. f v.0) set)) ≡ power_of f set
power_of-select f [] = refl
power_of-select f ((k, v) ∷ set) = let rest = power_of-select f set in ground arith

power_of-le : (f : PublicKey → Bool) (set : Powers) → power_of f set ≤ power_sum set
power_of-le f [] = omega arith
power_of-le f ((k, v) ∷ set) = let rest = power_of-le f set in ground arith

power_of-overlap :
    (f g : PublicKey → Bool) (set : Powers)
    → power_of f set + power_of g set ≤ power_sum set + power_of (λ k. f k && g k) set
power_of-overlap f g [] = omega arith
power_of-overlap f g ((k, v) ∷ set) = let rest = power_of-overlap f g set in ground arith

-- Without overflow, an accepted proof has signers with more than two thirds of the power.
accepted_power :
    (c : Crypto) (header : BlockHeader) (proof : FinalizationProof)
    → power_sum header.validator_set * 3 < u64_mod
    → verify_finalization_proof c header proof ≡ ok tt
    → power_sum header.validator_set * 2
      < power_of (is_signer proof.signatures) header.validator_set * 3
unfolding verify_finalization_proof mul_u64
accepted_power c header proof fits accepted =
    let set = header.validator_set in
    let signers = is_signer proof.signatures in
    let least = power_of-le signers set in
    let chosen = power_of-select signers set in
    let voted =
      sum_u64-eq-sum (map (λ v. v.1) (select (λ v. signers v.0) set)) (omega (arith, chosen)) in
    let total = sum_u64-eq-sum (map (λ v. v.1) set) (omega arith) in
    let mul_voted : (voted_power proof.signatures set * 3) % u64_mod
        ≡ voted_power proof.signatures set * 3 =
      mod-eq_of_lt (omega (arith, voted, chosen)) in
    let mul_total : (total_power set * 2) % u64_mod ≡ total_power set * 2 =
      mod-eq_of_lt (omega (arith, total)) in
    ground arith

-- Two accepted finalization proofs of one header, of whatever rounds, share signers with more than a
-- third of the power of its validator set, when three times that power is below 2 ^ 64.
pub finalizations-overlap :
    (c : Crypto) (header : BlockHeader) (proof1 proof2 : FinalizationProof)
    → power_sum header.validator_set * 3 < u64_mod
    → verify_finalization_proof c header proof1 ≡ ok tt
    → verify_finalization_proof c header proof2 ≡ ok tt
    → power_sum header.validator_set
      < power_of
          (λ k. is_signer proof1.signatures k && is_signer proof2.signatures k)
          header.validator_set
        * 3
finalizations-overlap c header proof1 proof2 fits first second =
    let a = accepted_power c header proof1 fits first in
    let b = accepted_power c header proof2 fits second in
    let both =
      power_of-overlap (is_signer proof1.signatures) (is_signer proof2.signatures)
        header.validator_set in
    omega arith

-- A list of the same signature again and again.
abbrev pub copies : ℕ → TypedSignature → List TypedSignature
copies zero s = []
copies (suc k) s = s ∷ copies k s

abbrev weights : ℕ → VotingPower → List VotingPower
weights zero w = []
weights (suc k) w = w ∷ weights k w

weights-sum : (k : ℕ) (w : VotingPower) → sum (weights k w) ≡ k * w
weights-sum zero w = omega arith
weights-sum (suc k) w = let rest = weights-sum k w in grind arith

verify_signatures-copies :
    (c : Crypto) (k : ℕ) (s : TypedSignature) (target : Hash256)
    → verifies c s target ≡ true
    → verify_signatures c target (copies k s) ≡ ok tt
unfolding verify_signatures
verify_signatures-copies c zero s target valid = refl
verify_signatures-copies c (suc k) s target valid =
    let rest = verify_signatures-copies c k s target valid in ground arith

signed_weights-copies :
    (set : Powers) (k : ℕ) (s : TypedSignature) (w : VotingPower)
    → weight_of set s.signer ≡ some w
    → signed_weights set (copies k s) ≡ ok (weights k w)
unfolding signed_weights
signed_weights-copies set zero s w found = refl
signed_weights-copies set (suc k) s w found =
    let rest = signed_weights-copies set k s w found in ground arith

-- An agenda proof counts a signature as often as it is repeated: for the present agenda, a proof that
-- consists of copies of one valid signature of one governance member is accepted as soon as their
-- number times the member's power is more than half of the total power.
pub proof_of_agenda-copies :
    (c : Crypto) (v : CommitSequenceVerifier) (agenda : Agenda) (agenda_proof : AgendaProof)
    (set : Powers) (k : ℕ) (s : TypedSignature) (w : VotingPower)
    → get_governance_set v.reserved_state ≡ ok set
    → weight_of set s.signer ≡ some w
    → verifies c s (hash_agenda c agenda) ≡ true
    → agenda_proof.proof ≡ copies k s
    → agenda_proof.height ≡ add_u64 v.header.height 1
    → agenda_proof.agenda_hash ≡ hash_agenda c agenda
    → total_power set < k * w * 2
    → k * w * 2 < u64_mod
    → proof_of_agenda c v agenda agenda_proof
      ≡ ok (record v { phase = Phase.agenda_proof agenda_proof })
unfolding proof_of_agenda mul_u64
proof_of_agenda-copies c v agenda agenda_proof set k s w governors found valid repeated height hash
      more fits =
    let signed = verify_signatures-copies c k s (hash_agenda c agenda) valid in
    let weighed = signed_weights-copies set k s w found in
    let plain = weights-sum k w in
    let total = sum_u64-eq-sum (weights k w) (omega (arith, plain)) in
    let exact : (sum_u64 (weights k w) * 2) % u64_mod ≡ sum_u64 (weights k w) * 2 =
      mod-eq_of_lt (omega (arith, total, plain)) in
    let half : total_power set < sum_u64 (weights k w) * 2 = omega (arith, total, plain, more) in
    let signed' : verify_signatures c (hash_agenda c agenda) agenda_proof.proof ≡ ok tt =
      ap (verify_signatures c (hash_agenda c agenda)) repeated ∙ signed in
    let weighed' : signed_weights set agenda_proof.proof ≡ ok (weights k w) =
      ap (signed_weights set) repeated ∙ weighed in
    ground arith
