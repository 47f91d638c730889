-- ===== src/Repository/Format/Sound.antt =====
-- What a commit that `from_semantic_commit` of repository/src/format.rs returns has to do with the text.
use Prim.Native.String.{String}
use simperby.Base.{
  ℕ, ◌≡◌, true, subst, ◌==◌, ◌⊎◌, Option, none, some, inl, inr, arith, Bool-cases, Option-cases,
  ==_iff,
}
use simperby.Base.Text.{str_eq, str_eq→eq}
use simperby.Base.Decimal.{parse_u64}
use simperby.Core.Types.{Commit, ExtraAgendaTransaction, Transaction, delegate, undelegate, report}
use simperby.Core.Result.{ok, ok_parts}
use simperby.Repository.Types.{
  FormatError, delegator_mismatch, delegatee_mismatch, bad_body, SemanticCommit,
}
use simperby.Repository.Library.{Codec, Groups, Library}
use simperby.Repository.Format.{
  commit_pattern, from_semantic_commit, commit_type, title_height, read_dated, read_delegate,
  read_undelegate, read_special, or_fail, check_group,
}

-- The kind of the title: the first of its three places that the pattern captures.
abbrev pub IsKind : Groups → String → Type 0
IsKind groups kind =
    (groups 2 ≡ some kind)
    ⊎ ((groups 2 ≡ none) × (groups 8 ≡ some kind))
    ⊎ ((groups 2 ≡ none) × (groups 8 ≡ none) × (groups 16 ≡ some kind))

commit_type-IsKind :
    (groups : Groups) (kind : String) → commit_type groups ≡ ok kind → IsKind groups kind
unfolding commit_type
commit_type-IsKind groups kind h = elim (Option-cases (groups 2)) [
  | inr (a, first) ↦ inl (ground arith)
  | inl no_first ↦ elim (Option-cases (groups 8)) [
    | inr (a, second) ↦ inr (inl (no_first, ground arith))
    | inl no_second ↦ elim (Option-cases (groups 16)) [
      | inr (a, third) ↦ inr (inr (no_first, no_second, ground arith))
      | inl no_third ↦ absurd (ground arith)
    ]
  ]
]

-- The number that the title shows.
abbrev pub Shows : Groups → ℕ → ℕ → Type 0
Shows groups place height =
    (text : String) × (groups place ≡ some text) × (parse_u64 text ≡ some height)

module _ (lib : Library) (groups : Groups) (body : String) where
  -- The title has the kind of the commit, the body holds the commit, and the title agrees with it.
  abbrev pub Vouches : Commit → Type 0
  Vouches (Commit.agenda a) =
      IsKind groups "agenda" × (lib.agenda_json.from_str body ≡ some a) × Shows groups 6 a.height
  Vouches (Commit.block b) =
      IsKind groups "block" × (lib.block_json.from_str body ≡ some b) × Shows groups 6 b.height
  Vouches (Commit.agenda_proof p) =
      IsKind groups "agenda-proof"
      × (lib.agenda_proof_json.from_str body ≡ some p)
      × Shows groups 6 p.height
  Vouches (Commit.extra_agenda_transaction (delegate tx)) =
      IsKind groups "tx-delegate"
      × (lib.extra_json.from_str body ≡ some (delegate tx))
      × (groups 9 ≡ some tx.content.delegator)
      × (groups 12 ≡ some tx.content.delegatee)
  Vouches (Commit.extra_agenda_transaction (undelegate tx)) =
      IsKind groups "tx-undelegate"
      × (lib.extra_json.from_str body ≡ some (undelegate tx))
      × (groups 17 ≡ some tx.content.delegator)
  Vouches (Commit.extra_agenda_transaction (report _)) = ⊥
  Vouches (Commit.transaction _) = ⊥
  Vouches (Commit.chat_log _) = ⊥

  read_dated_inv :
      {A : Type 0} (codec : Codec A) (height_of : A → ℕ) (commit : A → Commit) (r : Commit)
      → read_dated codec height_of commit groups body ≡ ok r
      → (a : A) × (commit a ≡ r) × (codec.from_str body ≡ some a) × Shows groups 6 (height_of a)
  unfolding read_dated title_height
  read_dated_inv codec height_of commit r h = elim (Option-cases (codec.from_str body)) [
    | inl e ↦ absurd (ground arith)
    | inr (a, e) ↦ elim (Option-cases (groups 6)) [
      | inl g ↦ absurd (ground arith)
      | inr (text, g) ↦ elim (Option-cases (parse_u64 text)) [
        | inl p ↦ absurd (ground arith)
        | inr (n, p) ↦ elim (Bool-cases (n == height_of a)) [
          | inl same ↦ (a, ground arith, e, (text, g, rw ((==_iff n (height_of a)).0 same) at p))
          | inr differs ↦ absurd (ground arith)
        ]
      ]
    ]
  ]

  or_fail-eq-ok :
      {A : Type 0} (o : Option A) (e : FormatError) {a : A} → or_fail o e ≡ ok a → o ≡ some a
  or_fail-eq-ok none e h = absurd (ground arith)
  or_fail-eq-ok (some a) e h = ground arith

  check_group_inv :
      (group : Option String) (name : String) (e : FormatError) {u : Unit {0}}
      → check_group group name e ≡ ok u
      → group ≡ some name
  check_group_inv none name e h = absurd (ground arith)
  check_group_inv (some text) name e h = ground (arith, str_eq→eq text name)

  read_delegate-Vouches :
      (tx : ExtraAgendaTransaction) (r : Commit)
      → IsKind groups "tx-delegate"
      → lib.extra_json.from_str body ≡ some tx
      → read_delegate groups tx ≡ ok r
      → Vouches r
  unfolding read_delegate
  read_delegate-Vouches (undelegate tx) r of_kind e h = absurd (ground arith)
  read_delegate-Vouches (report tx) r of_kind e h = absurd (ground arith)
  read_delegate-Vouches (delegate tx) r of_kind e h =
      let (_, g9, h1) =
        ok_parts (check_group (groups 9) tx.content.delegator delegator_mismatch) _ h in
      let (_, g12, h2) =
        ok_parts (check_group (groups 12) tx.content.delegatee delegatee_mismatch) _ h1 in
      let same : Commit.extra_agenda_transaction (delegate tx) ≡ r = ground arith in
      subst Vouches same (
        of_kind,
        e,
        check_group_inv _ _ delegator_mismatch g9,
        check_group_inv _ _ delegatee_mismatch g12,
      )

  read_undelegate-Vouches :
      (tx : ExtraAgendaTransaction) (r : Commit)
      → IsKind groups "tx-undelegate"
      → lib.extra_json.from_str body ≡ some tx
      → read_undelegate groups tx ≡ ok r
      → Vouches r
  unfolding read_undelegate
  read_undelegate-Vouches (delegate tx) r of_kind e h = absurd (ground arith)
  read_undelegate-Vouches (report tx) r of_kind e h = absurd (ground arith)
  read_undelegate-Vouches (undelegate tx) r of_kind e h =
      let (_, g17, h1) =
        ok_parts (check_group (groups 17) tx.content.delegator delegator_mismatch) _ h in
      let same : Commit.extra_agenda_transaction (undelegate tx) ≡ r = ground arith in
      subst Vouches same (of_kind, e, check_group_inv _ _ delegator_mismatch g17)

  read_dated-Vouches :
      {A : Type 0} (codec : Codec A) (height_of : A → ℕ) (commit : A → Commit) (r : Commit)
      → ((a : A) → codec.from_str body ≡ some a → Shows groups 6 (height_of a) → Vouches (commit a))
      → read_dated codec height_of commit groups body ≡ ok r
      → Vouches r
  read_dated-Vouches codec height_of commit r vouch h =
      let (a, same, e, shown) = read_dated_inv codec height_of commit r h in
      subst Vouches same (vouch a e shown)

  read_special-Vouches :
      (kind : String) (r : Commit)
      → IsKind groups kind
      → read_special lib kind groups body ≡ ok r
      → Vouches r
  unfolding read_special
  read_special-Vouches kind r of_kind h = elim (Bool-cases (str_eq kind "agenda")) [
    | inl is ↦
        read_dated-Vouches lib.agenda_json (λ a. a.height) Commit.agenda r
          (λ a e t. (named "agenda" is, e, t)) (rw is at h)
    | inr isnt ↦ elim (Bool-cases (str_eq kind "block")) [
      | inl is ↦
          read_dated-Vouches lib.block_json (λ b. b.height) Commit.block r
            (λ b e t. (named "block" is, e, t)) (rw (isnt, is) at h)
      | inr isnt2 ↦ elim (Bool-cases (str_eq kind "agenda-proof")) [
        | inl is ↦
            read_dated-Vouches lib.agenda_proof_json (λ p. p.height) Commit.agenda_proof r
              (λ p e t. (named "agenda-proof" is, e, t)) (rw (isnt, isnt2, is) at h)
        | inr isnt3 ↦ elim (Bool-cases (str_eq kind "tx-delegate")) [
          | inl is ↦
              let (tx, e, read) =
                ok_parts (or_fail (lib.extra_json.from_str body) bad_body) _
                  (rw (isnt, isnt2, isnt3, is) at h) in
              read_delegate-Vouches tx r (named "tx-delegate" is) (or_fail-eq-ok _ bad_body e) read
          | inr isnt4 ↦ elim (Bool-cases (str_eq kind "tx-undelegate")) [
            | inl is ↦
                let (tx, e, read) =
                  ok_parts (or_fail (lib.extra_json.from_str body) bad_body) _
                    (rw (isnt, isnt2, isnt3, isnt4, is) at h) in
                read_undelegate-Vouches tx r (named "tx-undelegate" is) (or_fail-eq-ok _ bad_body e)
                  read
            | inr isnt5 ↦ absurd (ground arith)
          ]
        ]
      ]
    ]
  ]
    where
      named : (name : String) → str_eq kind name ≡ true → IsKind groups name
      named name is = subst (IsKind groups) (str_eq→eq kind name is) of_kind

-- The text as a transaction.
abbrev pub plain : SemanticCommit → Transaction
plain s = record {
  author = s.author;
  timestamp = s.timestamp;
  head = s.title;
  body = s.body;
  diff = s.diff;
}

-- The commit is the text itself, as a transaction, or a special commit that the body holds and the
-- title agrees with in its kind and its content.
abbrev pub IsReadFrom : Library → SemanticCommit → Commit → Type 0
IsReadFrom lib s commit =
    ((lib.captures commit_pattern s.title ≡ none) × (commit ≡ Commit.transaction (plain s)))
    ⊎ ((groups : Groups) × (lib.captures commit_pattern s.title ≡ some groups)
        × Vouches lib groups s.body commit)

-- What `from_semantic_commit` accepts is either a transaction that is the text itself, where the title
-- does not match the pattern, or a special commit that the body encodes and whose kind is the one that
-- the title captures, where the title also shows the height of an agenda, a block or an agenda proof, or
-- the names of a delegation or an undelegation. No report and no chat log is ever read.
pub from_semantic_commit_sound :
    (lib : Library) (s : SemanticCommit) (commit : Commit)
    → from_semantic_commit lib s ≡ ok commit
    → IsReadFrom lib s commit
unfolding from_semantic_commit
from_semantic_commit_sound lib s commit h =
    elim (Option-cases (lib.captures commit_pattern s.title)) [
      | inl unmatched ↦ inl (unmatched, ground arith)
      | inr (groups, matched) ↦
          let (kind, typed, special) =
            ok_parts (commit_type groups) _ (rw (matched, from_semantic_commit) at h) in
          inr (
            groups,
            matched,
            read_special-Vouches lib groups s.body kind commit
                (commit_type-IsKind groups kind typed) special,
          )
    ]
