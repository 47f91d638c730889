-- ===== src/Core/Accepts.antt =====
-- What `verify_reserved_state` of core/src/verify.rs accepts.
use simperby.Base.{
  ◌≤◌, ◌≡◌, refl, true, false, List, [], ◌∷◌, arith, ◌==◌, any, all, length, In, subst,
}
use mathlib.Core.Bool.{decide}
use simperby.Core.Types.{PublicKey, MemberName, Member, ReservedState}
use simperby.Core.Decide.{GenesisInfo-discrete}
use simperby.Core.Sequence.{
  CommitSequenceVerifier, has_name, names_of, candidates, check_kept, check_unique,
  verify_reserved_state,
}
use simperby.Core.Result.{ok}
use simperby.Core.Names.{
  has_name-In, In-has_name, all-In, In-all, In-names_of, names_of-In, In-candidates, candidates-In,
  HasTwo, distinct_many_iff,
}

-- The name and the key of each member are new, in the order of the list.
abbrev pub AllNew : List MemberName → List PublicKey → List Member → Type 0
AllNew names keys [] = Unit
AllNew names keys (m ∷ members) =
    (has_name names m.name ≡ false)
    × (any (λ k. k == m.public_key) keys ≡ false)
    × AllNew (m.name ∷ names) (m.public_key ∷ keys) members

-- What a new reserved state has to satisfy next to the present one.
pub record IsNextState (present rs : ReservedState) : Type 0 where
  pub enough_members : 4 ≤ length rs.members
  pub leaders_active :
      (name : MemberName)
      → In name rs.consensus_leader_order
      → (m : Member) × In m rs.members × (m.name ≡ name) × (m.expelled ≡ false)
  pub enough_leaders : HasTwo rs.consensus_leader_order
  pub genesis_same : rs.genesis_info ≡ present.genesis_info
  pub all_new : AllNew [] [] rs.members
  pub names_kept :
      (old : Member) → In old present.members → (m : Member) × In m rs.members × (m.name ≡ old.name)

check_unique_iff :
    (names : List MemberName) (keys : List PublicKey) (members : List Member)
    → (check_unique names keys members ≡ ok tt → AllNew names keys members)
      × (AllNew names keys members → check_unique names keys members ≡ ok tt)
unfolding check_unique
check_unique_iff names keys [] = (λ h. tt, λ h. refl)
check_unique_iff names keys (m ∷ members) =
    let (to, from) = check_unique_iff (m.name ∷ names) (m.public_key ∷ keys) members in
    (
      λ h. (ground arith, ground arith, to (ground arith)),
      λ h. let first = h.0 in let second = h.1 in let rest = from h.2 in ground arith,
    )

check_kept_iff :
    (names : List MemberName) (members : List Member)
    → (check_kept names members ≡ ok tt → all (λ m. has_name names m.name) members ≡ true)
      × (all (λ m. has_name names m.name) members ≡ true → check_kept names members ≡ ok tt)
unfolding check_kept
check_kept_iff names [] = (λ h. refl, λ h. refl)
check_kept_iff names (m ∷ members) =
    let (to, from) = check_kept_iff names members in (λ h. ground arith, λ h. ground arith)

decide_iff_true : {P : Type 0} (d : Dec P) → (decide d ≡ true → P) × (P → decide d ≡ true)
unfolding decide
decide_iff_true (yes p) = (λ h. p, λ h. refl)
decide_iff_true (no n) = (λ h. ground arith, λ p. absurd (n p))

module _ (members : List Member) where
  leaders_iff :
      (order : List MemberName)
      → (all (has_name (candidates members)) order ≡ true
          → (name : MemberName) → In name order
          → (m : Member) × In m members × (m.name ≡ name) × (m.expelled ≡ false))
        × (((name : MemberName)
              → In name order
              → (m : Member) × In m members × (m.name ≡ name) × (m.expelled ≡ false))
            → all (has_name (candidates members)) order ≡ true)
  leaders_iff order = (
    λ h name i. In-candidates members name (
        has_name-In (candidates members) name
          (all-In (has_name (candidates members)) order h name i)),
    λ active. In-all (has_name (candidates members)) order λ name i.
        let (m, at, named, in_) = active name i in
        In-has_name (candidates members) name
          (subst (λ n. In n (candidates members)) named (candidates-In members m at in_)),
  )

  kept_iff :
      (present : List Member)
      → (all (λ m. has_name (names_of members) m.name) present ≡ true
          → (old : Member) → In old present
          → (m : Member) × In m members × (m.name ≡ old.name))
        × (((old : Member) → In old present → (m : Member) × In m members × (m.name ≡ old.name))
            → all (λ m. has_name (names_of members) m.name) present ≡ true)
  kept_iff present = (
    λ h old i. In-names_of members old.name (
        has_name-In (names_of members) old.name
          (all-In (λ m. has_name (names_of members) m.name) present h old i)),
    λ stay.
        In-all (λ m. has_name (names_of members) m.name) present
          λ old i.
            let (m, at, named) = stay old i in
            In-has_name (names_of members) old.name
              (subst (λ n. In n (names_of members)) named (names_of-In members m at)),
  )

-- `verify_reserved_state` accepts exactly the states that satisfy what the comments in it list: at least
-- four members, no name and no key twice, each leader the name of a member that is not expelled, two
-- different leaders, the same genesis info, and a member of the name of every present member. The order
-- of the leaders is free.
pub verify_reserved_state_iff :
    (v : CommitSequenceVerifier) (rs : ReservedState)
    → (verify_reserved_state v rs ≡ ok tt → IsNextState v.reserved_state rs)
      × (IsNextState v.reserved_state rs → verify_reserved_state v rs ≡ ok tt)
unfolding verify_reserved_state
verify_reserved_state_iff v rs =
    let d = decide_iff_true (GenesisInfo-discrete rs.genesis_info v.reserved_state.genesis_info) in
    let unique = check_unique_iff [] [] rs.members in
    let kept = check_kept_iff (names_of rs.members) v.reserved_state.members in
    let stay = kept_iff rs.members v.reserved_state.members in
    let leaders = leaders_iff rs.members rs.consensus_leader_order in
    let many = distinct_many_iff rs.consensus_leader_order in
    (
      λ h. record {
        enough_members = ground arith;
        leaders_active = leaders.0 (ground arith);
        enough_leaders = many.0 (ground arith);
        genesis_same = d.0 (ground arith);
        all_new = unique.0 (ground arith);
        names_kept = stay.0 (kept.0 (ground arith));
      },
      λ next.
          let enough_members = next.enough_members in
          let leaders_active = leaders.1 next.leaders_active in
          let enough_leaders = many.1 next.enough_leaders in
          let same = d.1 next.genesis_same in
          let new = unique.1 next.all_new in
          let remain = kept.1 (stay.1 next.names_kept) in ground arith,
    )
