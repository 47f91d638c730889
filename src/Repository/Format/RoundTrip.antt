-- ===== src/Repository/Format/RoundTrip.antt =====
-- The conversions of repository/src/format.rs undo one another where the title and the body can be read.
use Prim.Native.String.{String}
use simperby.Base.{ℕ, ◌<◌, ◌≡◌, refl, ◌∙◌, none, some, arith}
use simperby.Base.Text.{str_eq_self}
use simperby.Base.Word.{u64_mod}
use simperby.Base.Decimal.{decimal, parse_u64-decimal}
use simperby.Core.Types.{
  BlockHeader, ReservedState, Commit, TxDelegate, TxUndelegate, delegate, undelegate, report,
}
use simperby.Core.Crypto.{Crypto}
use simperby.Core.Result.{ok}
use simperby.Repository.Types.{SemanticCommit}
use simperby.Repository.Library.{Codec, Groups, Library, Encodes}
use simperby.Repository.Format.{
  commit_pattern, agenda_title, block_title, agenda_proof_title, delegate_title, undelegate_title,
  to_semantic_commit, from_semantic_commit, commit_type, title_height, read_dated, read_delegate,
  read_undelegate, read_special,
}

module _ (lib : Library) where
  -- The pattern splits a title of the kind into its word and its number.
  abbrev pub SplitsHeight : String → String → ℕ → Type 0
  SplitsHeight title kind height =
      (groups : Groups) × (lib.captures commit_pattern title ≡ some groups)
      × (groups 2 ≡ some kind)
      × (groups 6 ≡ some (decimal height))
      × (height < u64_mod)

  -- `regex` and `serde_json` do at the commit's title and body what their documents say: the groups of
  -- the pattern are the parts of the title, and the body is read as it was written.
  abbrev pub IsLegible : Commit → Type 0
  IsLegible (Commit.agenda a) =
      (body : String) × Encodes lib.agenda_json a body
      × SplitsHeight (agenda_title a.height) "agenda" a.height
  IsLegible (Commit.block b) =
      (body : String) × Encodes lib.block_json b body
      × SplitsHeight (block_title b.height) "block" b.height
  IsLegible (Commit.agenda_proof p) =
      (body : String) × Encodes lib.agenda_proof_json p body
      × SplitsHeight (agenda_proof_title p.height) "agenda-proof" p.height
  IsLegible (Commit.transaction t) = lib.captures commit_pattern t.head ≡ none
  IsLegible (Commit.extra_agenda_transaction (delegate tx)) =
      (body : String) × Encodes lib.extra_json (delegate tx) body
      × (groups : Groups) × (lib.captures commit_pattern (delegate_title tx) ≡ some groups)
      × (groups 2 ≡ none)
      × (groups 8 ≡ some "tx-delegate")
      × (groups 9 ≡ some tx.content.delegator)
      × (groups 12 ≡ some tx.content.delegatee)
  IsLegible (Commit.extra_agenda_transaction (undelegate tx)) =
      (body : String) × Encodes lib.extra_json (undelegate tx) body
      × (groups : Groups) × (lib.captures commit_pattern (undelegate_title tx) ≡ some groups)
      × (groups 2 ≡ none)
      × (groups 8 ≡ none)
      × (groups 16 ≡ some "tx-undelegate")
      × (groups 17 ≡ some tx.content.delegator)
  IsLegible (Commit.extra_agenda_transaction (report tx)) = Unit {0}
  IsLegible (Commit.chat_log _) = Unit {0}

  read_dated_lem :
      {A : Type 0} (codec : Codec A) (height_of : A → ℕ) (commit : A → Commit) (groups : Groups)
      (body : String) (a : A)
      → codec.from_str body ≡ some a
      → groups 6 ≡ some (decimal (height_of a))
      → height_of a < u64_mod
      → read_dated codec height_of commit groups body ≡ ok (commit a)
  unfolding read_dated title_height
  read_dated_lem codec height_of commit groups body a e g h =
      ground (arith, parse_u64-decimal (height_of a) h)

  read_block :
      (groups : Groups) (body : String)
      → read_special lib "block" groups body
        ≡ read_dated lib.block_json (λ b. b.height) Commit.block groups body
  unfolding read_special
  read_block groups body = refl

  read_delegate_lem :
      (groups : Groups) (body : String) (tx : TxDelegate)
      → lib.extra_json.from_str body ≡ some (delegate tx)
      → groups 9 ≡ some tx.content.delegator
      → groups 12 ≡ some tx.content.delegatee
      → read_special lib "tx-delegate" groups body
        ≡ ok (Commit.extra_agenda_transaction (delegate tx))
  unfolding read_special read_delegate
  read_delegate_lem groups body tx r g9 g12 =
      ground (arith, str_eq_self tx.content.delegator, str_eq_self tx.content.delegatee)

  read_undelegate_lem :
      (groups : Groups) (body : String) (tx : TxUndelegate)
      → lib.extra_json.from_str body ≡ some (undelegate tx)
      → groups 17 ≡ some tx.content.delegator
      → read_special lib "tx-undelegate" groups body
        ≡ ok (Commit.extra_agenda_transaction (undelegate tx))
  unfolding read_special read_undelegate
  read_undelegate_lem groups body tx r g17 = ground (arith, str_eq_self tx.content.delegator)

  from_special :
      (s : SemanticCommit) (groups : Groups) (kind : String)
      → lib.captures commit_pattern s.title ≡ some groups
      → commit_type groups ≡ ok kind
      → from_semantic_commit lib s ≡ read_special lib kind groups s.body
  unfolding from_semantic_commit
  from_special s groups kind m k = rw (from_semantic_commit, m, k)

block_parts :
    (c : Crypto) (lib : Library) (b : BlockHeader) (rs : ReservedState) (s : SemanticCommit)
    (body : String)
    → lib.block_json.to_string b ≡ some body
    → to_semantic_commit c lib (Commit.block b) rs ≡ ok s
    → (s.title ≡ block_title b.height) × (s.body ≡ body)
unfolding to_semantic_commit
block_parts c lib b rs s body w h = ground arith

delegate_parts :
    (c : Crypto) (lib : Library) (tx : TxDelegate) (rs : ReservedState) (s : SemanticCommit)
    (body : String)
    → lib.extra_json.to_string (delegate tx) ≡ some body
    → to_semantic_commit c lib (Commit.extra_agenda_transaction (delegate tx)) rs ≡ ok s
    → (s.title ≡ delegate_title tx) × (s.body ≡ body)
unfolding to_semantic_commit
delegate_parts c lib tx rs s body w h = ground arith

undelegate_parts :
    (c : Crypto) (lib : Library) (tx : TxUndelegate) (rs : ReservedState) (s : SemanticCommit)
    (body : String)
    → lib.extra_json.to_string (undelegate tx) ≡ some body
    → to_semantic_commit c lib (Commit.extra_agenda_transaction (undelegate tx)) rs ≡ ok s
    → (s.title ≡ undelegate_title tx) × (s.body ≡ body)
unfolding to_semantic_commit
undelegate_parts c lib tx rs s body w h = ground arith

-- A commit whose title and body are legible is read back as it was: agendas, blocks, agenda proofs,
-- transactions, delegations and undelegations.
pub from_semantic_commit-to_semantic_commit :
    (c : Crypto) (lib : Library) (commit : Commit) (rs : ReservedState) (s : SemanticCommit)
    → IsLegible lib commit
    → to_semantic_commit c lib commit rs ≡ ok s
    → from_semantic_commit lib s ≡ ok commit
unfolding to_semantic_commit from_semantic_commit
from_semantic_commit-to_semantic_commit c lib (Commit.agenda a) rs s
      (body, (w, r), (groups, m, g2, g6, low)) h =
    ground (
      arith,
      read_dated_lem lib lib.agenda_json (λ a. a.height) Commit.agenda groups body a r g6 low,
    )
from_semantic_commit-to_semantic_commit c lib (Commit.block b) rs s
      (body, (w, r), (groups, m, g2, g6, low)) h =
    let (title, content) = block_parts c lib b rs s body w h in
    from_special lib s groups "block" (rw title m) (rw (commit_type, g2))
    ∙ rw content (
        read_block lib groups body
        ∙ read_dated_lem lib lib.block_json (λ b. b.height) Commit.block groups body b r g6 low)
from_semantic_commit-to_semantic_commit c lib (Commit.agenda_proof p) rs s
      (body, (w, r), (groups, m, g2, g6, low)) h =
    ground (
      arith,
      read_dated_lem lib lib.agenda_proof_json (λ p. p.height) Commit.agenda_proof groups body p r
          g6 low,
    )
from_semantic_commit-to_semantic_commit c lib (Commit.transaction t) rs s legible h = ground arith
from_semantic_commit-to_semantic_commit c lib (Commit.extra_agenda_transaction (delegate tx)) rs s
      (body, (w, r), groups, m, g2, g8, g9, g12) h =
    let (title, content) = delegate_parts c lib tx rs s body w h in
    from_special lib s groups "tx-delegate" (rw title m) (rw (commit_type, g2, g8))
    ∙ rw content (read_delegate_lem lib groups body tx r g9 g12)
from_semantic_commit-to_semantic_commit c lib (Commit.extra_agenda_transaction (undelegate tx)) rs s
      (body, (w, r), groups, m, g2, g8, g16, g17) h =
    let (title, content) = undelegate_parts c lib tx rs s body w h in
    from_special lib s groups "tx-undelegate" (rw title m) (rw (commit_type, g2, g8, g16))
    ∙ rw content (read_undelegate_lem lib groups body tx r g17)
from_semantic_commit-to_semantic_commit c lib (Commit.extra_agenda_transaction (report tx)) rs s
      legible h =
    absurd (ground arith)
from_semantic_commit-to_semantic_commit c lib (Commit.chat_log _) rs s legible h =
    absurd (ground arith)
