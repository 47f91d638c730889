-- ===== src/Core/Weights.antt =====
-- Which of a member's two powers the governance set of core/src/reserved.rs reads.
use simperby.Base.{◌≡◌, inl, inr, refl, List, [], ◌∷◌, map, arith, Option-cases, Bool-cases}
use simperby.Core.Types.{VotingPower, MemberName, Member, ReservedState}
use simperby.Core.Reserved.{
  Powers, or_self, query_public_key, add_power, collect_powers, get_governance_set,
}

-- The member with another governance voting power.
abbrev pub reweighed : (Member → VotingPower) → Member → Member
reweighed f m = record m { governance_voting_power = f m }

query_public_key-reweighed :
    (f : Member → VotingPower) (members : List Member) (name : MemberName)
    → query_public_key (map (reweighed f) members) name ≡ query_public_key members name
unfolding query_public_key
query_public_key-reweighed f [] name = refl
query_public_key-reweighed f (m ∷ members) name =
    let rest = query_public_key-reweighed f members name in ground arith

collect_powers-reweighed :
    (f : Member → VotingPower) (all all' members : List Member) (acc : Powers)
    → ((name : MemberName) → query_public_key all' name ≡ query_public_key all name)
    → collect_powers (λ m. m.governance_delegatee) all' (map (reweighed f) members) acc
      ≡ collect_powers (λ m. m.governance_delegatee) all members acc
unfolding collect_powers
collect_powers-reweighed f all all' [] acc same = refl
collect_powers-reweighed f all all' (m ∷ members) acc same = elim (Bool-cases m.expelled) [
  | inl expelled ↦ let rest = collect_powers-reweighed f all all' members acc same in ground arith
  | inr active ↦
      let name = or_self m.governance_delegatee m.name in
      let found = same name in
      elim (Option-cases (query_public_key all name)) [
        | inl missing ↦ ground arith
        | inr (key, there) ↦
            let rest =
              collect_powers-reweighed f all all' members
                (add_power key m.consensus_voting_power acc) same in
            ground arith
      ]
]

-- The governance set does not depend on the governance voting powers: giving the members any others
-- changes nothing, since the powers added up are those of consensus.
pub get_governance_set-reweighed :
    (f : Member → VotingPower) (rs : ReservedState)
    → get_governance_set (record rs { members = map (reweighed f) rs.members })
      ≡ get_governance_set rs
unfolding get_governance_set
get_governance_set-reweighed f rs =
    collect_powers-reweighed f rs.members (map (reweighed f) rs.members) rs.members []
      (query_public_key-reweighed f rs.members)
