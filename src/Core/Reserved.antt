-- ===== src/Core/Reserved.antt =====
-- core/src/reserved.rs: the members of the chain, their voting powers and delegations.
use simperby.Base.{
  Bool, true, false, not, Option, none, some, List, [], ◌∷◌, ◌==◌, if◌then◌else◌, compare,
}
use simperby.Base.Word.{add_u64}
use simperby.Base.Ordered.{map_get, map_insert}
use simperby.Base.Text.{str_eq}
use simperby.Core.Types.{
  PublicKey, VotingPower, MemberName, Member, ReservedState, TxDelegate, TxUndelegate,
  TypedSignature, Hash256,
}
use simperby.Core.Crypto.{Crypto}
use simperby.Core.Hash.{hash_delegation, hash_undelegation}
use simperby.Core.Result.{
  Reason, Result, ok, err, panic, ◌>>=◌, ◌>>◌, fail_if, key_not_found, delegator_expelled,
  delegator_not_found, same_member, wrong_key, delegatee_expelled, delegatee_not_found,
  bad_signature, already_set, not_set,
}

unfoldable pub query_name : List Member → PublicKey → Option MemberName
query_name [] key = none
query_name (m ∷ members) key = if m.public_key == key then some m.name else query_name members key

unfoldable pub query_public_key : List Member → MemberName → Option PublicKey
query_public_key [] name = none
query_public_key (m ∷ members) name =
    if str_eq m.name name then some m.public_key else query_public_key members name

unfoldable pub is_expelled : List Member → MemberName → Option Bool
is_expelled [] name = none
is_expelled (m ∷ members) name =
    if str_eq m.name name then some m.expelled else is_expelled members name

-- `map_or_else(|| name, |delegatee| delegatee)`.
abbrev pub or_self : Option MemberName → MemberName → MemberName
or_self none name = name
or_self (some delegatee) _ = delegatee

abbrev pub Powers : Type 0
Powers = List (PublicKey × VotingPower)

-- `map.entry(key).and_modify(|v| *v += power).or_insert(power)`.
unfoldable pub add_power : PublicKey → VotingPower → Powers → Powers
unfolding add_u64 map_get map_insert
add_power key power powers = elim (map_get compare key powers) [
  | none ↦ map_insert compare key power powers
  | some v ↦ map_insert compare key (add_u64 v power) powers
]

-- The `filter`, `map` and `try_fold` of the two sets, over the delegatee that a member names.
unfoldable pub collect_powers :
    (Member → Option MemberName) → List Member → List Member → Powers → Result Reason Powers
unfolding query_public_key add_power
collect_powers delegatee all [] powers = ok powers
collect_powers delegatee all (m ∷ members) powers = elim m.expelled [
  | true ↦ collect_powers delegatee all members powers
  | false ↦ elim (query_public_key all (or_self (delegatee m) m.name)) [
    | none ↦ err key_not_found
    | some key ↦
        collect_powers delegatee all members (add_power key m.consensus_voting_power powers)
  ]
]

unfoldable pub get_validator_set : ReservedState → Result Reason Powers
unfolding collect_powers
get_validator_set rs = collect_powers (λ m. m.consensus_delegatee) rs.members rs.members []

-- The source adds up `consensus_voting_power` here too.
unfoldable pub get_governance_set : ReservedState → Result Reason Powers
unfolding collect_powers
get_governance_set rs = collect_powers (λ m. m.governance_delegatee) rs.members rs.members []

-- `match self.is_expelled(name)`.
abbrev pub check_member : Option Bool → Reason → Reason → Result Reason (Unit {0})
check_member (some false) expelled missing = ok tt
check_member (some true) expelled missing = err expelled
check_member none expelled missing = err missing

-- `.expect("delegator exists")`.
abbrev pub expect : {A : Type 0} → Option A → Result Reason A
expect none = panic
expect (some a) = ok a

abbrev pub is_some : Option MemberName → Bool
is_some none = false
is_some (some _) = true

-- The member with the delegation set.
abbrev pub delegated : Bool → MemberName → Member → Member
delegated true to m = record m { governance_delegatee = some to; consensus_delegatee = some to }
delegated false to m = record m { consensus_delegatee = some to }

abbrev pub undelegated : Member → Member
undelegated m = record m { consensus_delegatee = none; governance_delegatee = none }

abbrev pub cons_ok : Member → Result Reason (List Member) → Result Reason (List Member)
cons_ok m (ok ms) = ok (m ∷ ms)
cons_ok m (err e) = err e
cons_ok m panic = panic

-- The loop of `apply_delegate`, which ends at the first member of the name.
unfoldable pub delegate_loop :
    Bool → MemberName → MemberName → List Member → Result Reason (List Member)
delegate_loop governance to name [] = ok []
delegate_loop governance to name (m ∷ members) =
    if str_eq m.name name
    then (if is_some m.consensus_delegatee
        then err already_set
        else ok (delegated governance to m ∷ members))
    else cons_ok m (delegate_loop governance to name members)

unfoldable pub undelegate_loop : MemberName → List Member → Result Reason (List Member)
undelegate_loop name [] = ok []
undelegate_loop name (m ∷ members) =
    if str_eq m.name name
    then (if is_some m.consensus_delegatee then ok (undelegated m ∷ members) else err not_set)
    else cons_ok m (undelegate_loop name members)

module _ (c : Crypto) where
  -- `TypedSignature::verify(data).is_ok()`, on the hash of the data.
  abbrev pub verifies : TypedSignature → Hash256 → Bool
  verifies s hash = c.verify_signature s.signature hash s.signer

  -- On an error the source has changed nothing.
  unfoldable pub apply_delegate : TxDelegate → ReservedState → Result Reason ReservedState
  unfolding delegate_loop is_expelled query_public_key hash_delegation
  apply_delegate tx rs = do
    let d = tx.content
    check_member (is_expelled rs.members d.delegator) delegator_expelled delegator_not_found
    fail_if (str_eq d.delegator d.delegatee) same_member
    key ← expect (query_public_key rs.members d.delegator)
    fail_if (not (key == tx.proof.signer)) wrong_key
    check_member (is_expelled rs.members d.delegatee) delegatee_expelled delegatee_not_found
    fail_if (not (verifies tx.proof (hash_delegation c d))) bad_signature
    members ← delegate_loop d.governance d.delegatee d.delegator rs.members
    ok (record rs { members = members })

  unfoldable pub apply_undelegate : TxUndelegate → ReservedState → Result Reason ReservedState
  unfolding undelegate_loop is_expelled query_public_key hash_undelegation
  apply_undelegate tx rs = do
    let d = tx.content
    check_member (is_expelled rs.members d.delegator) delegator_expelled delegator_not_found
    key ← expect (query_public_key rs.members d.delegator)
    fail_if (not (key == tx.proof.signer)) wrong_key
    fail_if (not (verifies tx.proof (hash_undelegation c d))) bad_signature
    members ← undelegate_loop d.delegator rs.members
    ok (record rs { members = members })
