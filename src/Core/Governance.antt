-- ===== src/Core/Governance.antt =====
-- The voting powers that core/src/reserved.rs collects from the members.
use simperby.Base.{
  ℕ, ◌+◌, ◌<◌, ◌≤◌, ◌%◌, ◌≡◌, ◌⊎◌, inl, inr, refl, ◌∙◌, Option, none, some, List, [], ◌∷◌, arith,
  map, compare, Ordering, All, if◌then◌else◌, Option-cases, Bool-cases,
}
use native.Mathlib.Nat.{mod-eq_of_lt}
use simperby.Base.Word.{add_u64, u64_mod, sum, sum_u64-eq-sum}
use simperby.Base.Ordered.{map_get, map_insert}
use simperby.Core.Types.{PublicKey, VotingPower, MemberName, Member, ReservedState}
use simperby.Core.Reserved.{
  Powers, or_self, query_public_key, add_power, collect_powers, get_validator_set,
  get_governance_set,
}
use simperby.Core.Verify.{total_power}
use simperby.Core.Result.{ok}

-- The mathematical sum of the powers.
abbrev pub power_sum : Powers → ℕ
power_sum set = sum (map (λ v. v.1) set)

-- The powers of the members that are not expelled.
abbrev pub active_power : List Member → ℕ
active_power [] = 0
active_power (m ∷ members) =
    (if m.expelled then 0 else m.consensus_voting_power) + active_power members

-- The keys are in ascending order.
abbrev IsSorted : Powers → Type 0
IsSorted [] = Unit
IsSorted ((k, _) ∷ m) = All (λ e. k < e.0) m × IsSorted m

All-weaken : (i k : PublicKey) (m : Powers) → i < k → All (λ e. k < e.0) m → All (λ e. i < e.0) m
All-weaken i k [] less above = tt
All-weaken i k (e ∷ m) less above = (omega (arith, above.0), All-weaken i k m less above.1)

above-missing : (k : PublicKey) (m : Powers) → All (λ e. k < e.0) m → map_get compare k m ≡ none
unfolding map_get
above-missing k [] above = refl
above-missing k ((j, v) ∷ m) above = ground (arith, above.0, above-missing k m above.1)

order_cases :
    (k j : PublicKey)
    → ((compare k j ≡ Ordering.lt) × (k < j))
      ⊎ ((compare k j ≡ Ordering.eq) × (k ≡ j))
      ⊎ ((compare k j ≡ Ordering.gt) × (j < k))
order_cases k j = ground arith

map_insert-above :
    (i k : PublicKey) (v : VotingPower) (m : Powers)
    → i < k
    → All (λ e. i < e.0) m
    → All (λ e. i < e.0) (map_insert compare k v m)
unfolding map_insert
map_insert-above i k v [] less above = (less, tt)
map_insert-above i k v ((j, w) ∷ m) less above =
    ground (arith, map_insert-above i k v m less above.1)

map_insert-IsSorted :
    (k : PublicKey) (v : VotingPower) (m : Powers)
    → IsSorted m
    → IsSorted (map_insert compare k v m)
unfolding map_insert
map_insert-IsSorted k v [] sorted = (tt, tt)
map_insert-IsSorted k v ((j, w) ∷ m) sorted = elim (order_cases k j) [
  | inl less ↦
      let (test, order) = less in
      rw (test, map_insert) ((order, All-weaken k j m order sorted.0), sorted)
  | inr (inl same) ↦ let (test, order) = same in rw (test, map_insert) sorted
  | inr (inr more) ↦
      let (test, order) = more in
      rw (test, map_insert)
        (map_insert-above j k v m order sorted.0, map_insert-IsSorted k v m sorted.1)
]

map_insert_new-sum :
    (k : PublicKey) (v : VotingPower) (m : Powers)
    → map_get compare k m ≡ none
    → power_sum (map_insert compare k v m) ≡ v + power_sum m
unfolding map_get map_insert
map_insert_new-sum k v [] missing = refl
map_insert_new-sum k v ((j, w) ∷ m) missing = ground (arith, map_insert_new-sum k v m)

map_insert_old-sum :
    (k : PublicKey) (v old : VotingPower) (m : Powers)
    → IsSorted m
    → map_get compare k m ≡ some old
    → power_sum (map_insert compare k v m) + old ≡ v + power_sum m
unfolding map_get map_insert
map_insert_old-sum k v old [] sorted found = ground arith
map_insert_old-sum k v old ((j, w) ∷ m) sorted found = elim (order_cases k j) [
  | inl (test, order) ↦
      let nowhere = above-missing k m (All-weaken k j m order sorted.0) in absurd (ground arith)
  | inr (inl (test, same)) ↦ rw (test, map_insert) (ground arith)
  | inr (inr (test, order)) ↦
      let rest = map_insert_old-sum k v old m sorted.1 (ground arith) in
      rw (test, map_insert) (omega (arith, rest))
]

found-le-sum :
    (k : PublicKey) (v : VotingPower) (m : Powers) → map_get compare k m ≡ some v → v ≤ power_sum m
unfolding map_get
found-le-sum k v [] found = absurd (ground arith)
found-le-sum k v ((j, w) ∷ m) found = ground (arith, found-le-sum k v m)

add_power-sum :
    (k : PublicKey) (v : VotingPower) (m : Powers)
    → IsSorted m
    → power_sum m + v < u64_mod
    → (power_sum (add_power k v m) ≡ power_sum m + v) × IsSorted (add_power k v m)
unfolding add_power add_u64
add_power-sum k v m sorted fits = elim (Option-cases (map_get compare k m)) [
  | inl missing ↦
      rw (missing, add_power)
        (omega (arith, map_insert_new-sum k v m missing), map_insert-IsSorted k v m sorted)
  | inr (old, found) ↦
      let least = found-le-sum k old m found in
      let exact : (old + v) % u64_mod ≡ old + v = mod-eq_of_lt (omega arith) in
      rw (found, add_power, add_u64, exact)
        (
          omega (arith, map_insert_old-sum k (old + v) old m sorted found),
          map_insert-IsSorted k (old + v) m sorted,
        )
]

collect_powers-sum :
    (delegatee : Member → Option MemberName) (all members : List Member) (acc set : Powers)
    → IsSorted acc
    → power_sum acc + active_power members < u64_mod
    → collect_powers delegatee all members acc ≡ ok set
    → power_sum set ≡ power_sum acc + active_power members
unfolding collect_powers
collect_powers-sum delegatee all [] acc set sorted fits done = ground arith
collect_powers-sum delegatee all (m ∷ members) acc set sorted fits done =
    elim (Bool-cases m.expelled) [
      | inl expelled ↦ ground (arith, collect_powers-sum delegatee all members acc set sorted)
      | inr active ↦ elim (Option-cases (query_public_key all (or_self (delegatee m) m.name))) [
        | inl missing ↦ absurd (ground arith)
        | inr (key, found) ↦
            let fits' : power_sum acc + m.consensus_voting_power < u64_mod = ground arith in
            let (added, sorted') = add_power-sum key m.consensus_voting_power acc sorted fits' in
            let rest =
              collect_powers-sum delegatee all members (add_power key m.consensus_voting_power acc)
                set sorted' (ground arith) (ground arith) in
            ground arith
      ]
    ]

-- When the powers of the members that are not expelled add up to less than 2 ^ 64, the validator set
-- and the governance set both have that sum as their total power, whatever the delegations are.
pub get_sets-total :
    (rs : ReservedState) (validators governors : Powers)
    → active_power rs.members < u64_mod
    → get_validator_set rs ≡ ok validators
    → get_governance_set rs ≡ ok governors
    → (total_power validators ≡ active_power rs.members)
      × (total_power governors ≡ active_power rs.members)
unfolding get_validator_set get_governance_set
get_sets-total rs validators governors fits first second =
    let bound : 0 + active_power rs.members < u64_mod = omega (arith, fits) in
    let v =
      collect_powers-sum (λ m. m.consensus_delegatee) rs.members rs.members [] validators tt bound
        first in
    let g =
      collect_powers-sum (λ m. m.governance_delegatee) rs.members rs.members [] governors tt bound
        second in
    (
      sum_u64-eq-sum (map (λ e. e.1) validators) (omega (arith, v)) ∙ omega (arith, v),
      sum_u64-eq-sum (map (λ e. e.1) governors) (omega (arith, g)) ∙ omega (arith, g),
    )
