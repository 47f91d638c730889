-- ===== src/Core/Members.antt =====
-- core/src/verify.rs and core/src/reserved.rs: what stays of the reserved state while the verifier
-- accepts commits, and the delegations.
use simperby.Base.{
  ◌≡◌, ◌⊎◌, refl, ◌∙◌, ap, subst, Bool, true, false, List, [], ◌∷◌, arith, Bool-cases, inl, inr,
}
use mathlib.Core.Bool.{decide}
use simperby.Base.Text.{str_eq, str_eq→eq}
use simperby.Core.Types.{MemberName, Member, ReservedState}
use simperby.Core.Decide.{GenesisInfo-discrete}
use simperby.Core.Reserved.{delegate_loop, undelegate_loop, cons_ok, delegated, undelegated}
use simperby.Core.Sequence.{
  CommitSequenceVerifier, has_name, names_of, check_kept, verify_reserved_state,
}
use simperby.Core.Result.{Reason, Result, ok, err, panic}

decide-true : {P : Type 0} (d : Dec P) → decide d ≡ true → P
unfolding decide
decide-true (yes p) h = p
decide-true (no _) h = ground arith

-- The second state has the genesis info of the first, and each of its member names.
pub record Extends (before after : ReservedState) : Type 0 where
  pub genesis_info : after.genesis_info ≡ before.genesis_info
  pub names :
      (name : MemberName)
      → has_name (names_of before.members) name ≡ true
      → has_name (names_of after.members) name ≡ true

pub Extends-refl : (rs : ReservedState) → Extends rs rs
Extends-refl rs = record { genesis_info = refl; names = λ name h. h }

pub Extends-trans :
    {rs1 rs2 rs3 : ReservedState} → Extends rs1 rs2 → Extends rs2 rs3 → Extends rs1 rs3
Extends-trans first second = record {
  genesis_info = second.genesis_info ∙ first.genesis_info;
  names = λ name h. second.names name (first.names name h);
}

pub same_names :
    (before after : ReservedState)
    → after.genesis_info ≡ before.genesis_info
    → names_of after.members ≡ names_of before.members
    → Extends before after
same_names before after genesis names = record {
  genesis_info = genesis;
  names = λ name h. ap (λ ns. has_name ns name) names ∙ h;
}

has_name-cons :
    (m : Member) (members : List Member) (name : MemberName)
    → has_name (names_of (m ∷ members)) name ≡ true
    → (m.name ≡ name) ⊎ (has_name (names_of members) name ≡ true)
has_name-cons m members name h = elim (Bool-cases (str_eq m.name name)) [
  | inl same ↦ inl (str_eq→eq m.name name same)
  | inr differs ↦ inr (ground arith)
]

check_kept-names :
    (names : List MemberName) (members : List Member) (name : MemberName)
    → check_kept names members ≡ ok tt
    → has_name (names_of members) name ≡ true
    → has_name names name ≡ true
unfolding check_kept
check_kept-names names [] name accepted h = ground arith
check_kept-names names (m ∷ members) name accepted h = elim (has_name-cons m members name h) [
  | inl same ↦ subst (λ n. has_name names n ≡ true) same (ground arith)
  | inr below ↦ check_kept-names names members name (ground arith) below
]

-- A state that `verify_reserved_state` accepts has the genesis info and the names of the one before.
pub verify_reserved_state-Extends :
    (v : CommitSequenceVerifier) (rs : ReservedState)
    → verify_reserved_state v rs ≡ ok tt
    → Extends v.reserved_state rs
unfolding verify_reserved_state
verify_reserved_state-Extends v rs accepted = record {
  genesis_info =
      decide-true (GenesisInfo-discrete rs.genesis_info v.reserved_state.genesis_info)
        (ground arith);
  names =
      λ name. check_kept-names (names_of rs.members) v.reserved_state.members name (ground arith);
}

pub cons_ok-inverse :
    (m : Member) (r : Result Reason (List Member)) (after : List Member)
    → cons_ok m r ≡ ok after
    → (ms : List Member) × (r ≡ ok ms) × (after ≡ m ∷ ms)
cons_ok-inverse m (ok ms) after accepted = (ms, refl, ground arith)
cons_ok-inverse m (err _) after accepted = ground arith
cons_ok-inverse m panic after accepted = ground arith

cons_names :
    (m n : Member) (after before ms : List Member)
    → after ≡ n ∷ ms
    → n.name ≡ m.name
    → names_of ms ≡ names_of before
    → names_of after ≡ names_of (m ∷ before)
cons_names m n after before ms shape head tail = cc

delegated-name :
    (governance : Bool) (to : MemberName) (m : Member) → (delegated governance to m).name ≡ m.name
delegated-name true to m = refl
delegated-name false to m = refl

pub delegate_loop-names :
    (governance : Bool) (to name : MemberName) (members after : List Member)
    → delegate_loop governance to name members ≡ ok after
    → names_of after ≡ names_of members
unfolding delegate_loop
delegate_loop-names governance to name [] after accepted = ground arith
delegate_loop-names governance to name (m ∷ members) after accepted =
    elim (Bool-cases (str_eq m.name name)) [
      | inl same ↦
          cons_names m (delegated governance to m) after members members (ground arith)
            (delegated-name governance to m) refl
      | inr differs ↦
          let (ms, inner, shape) =
            cons_ok-inverse m (delegate_loop governance to name members) after (ground arith) in
          cons_names m m after members ms shape refl
            (delegate_loop-names governance to name members ms inner)
    ]

pub undelegate_loop-names :
    (name : MemberName) (members after : List Member)
    → undelegate_loop name members ≡ ok after
    → names_of after ≡ names_of members
unfolding undelegate_loop
undelegate_loop-names name [] after accepted = ground arith
undelegate_loop-names name (m ∷ members) after accepted = elim (Bool-cases (str_eq m.name name)) [
  | inl same ↦ cons_names m (undelegated m) after members members (ground arith) refl refl
  | inr differs ↦
      let (ms, inner, shape) =
        cons_ok-inverse m (undelegate_loop name members) after (ground arith) in
      cons_names m m after members ms shape refl (undelegate_loop-names name members ms inner)
]
