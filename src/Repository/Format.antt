-- ===== src/Repository/Format.antt =====
-- repository/src/format.rs: a commit as a title and a body, and back.
pub mod RoundTrip
pub mod Sound
pub mod Message
use Prim.Native.String.{String, ◌++◌ as ◌<>◌}
use simperby.Base.{ℕ, not, Option, none, some, List, ◌==◌, if◌then◌else◌, Bool, true, false}
use simperby.Base.Int.{ℤ, pos, negsuc}
use simperby.Base.Text.{str_eq}
use simperby.Base.Decimal.{decimal, parse_u64}
use simperby.Core.Types.{
  BlockHeader, Agenda, AgendaProof, ExtraAgendaTransaction, Transaction, ReservedState, Commit,
  Diff, TxDelegate, TxUndelegate, delegate, undelegate, report,
}
use simperby.Core.Crypto.{Crypto}
use simperby.Core.Result.{Result, ok, err, panic, ◌>>=◌, ◌>>◌, fail_if}
use simperby.Core.Reserved.{query_name, apply_delegate, apply_undelegate}
use simperby.Repository.Types.{
  SemanticCommit, RawCommit, LastFinalizationProof, FormatError, unknown_commit_author, bad_body,
  missing_capture, bad_number, height_mismatch, delegator_mismatch, delegatee_mismatch,
  wrong_transaction, unknown_type, unknown_author,
}
use simperby.Repository.Library.{Codec, Groups, Library}

abbrev pub Formatted : Type 0 → Type 0
Formatted = Result FormatError

-- `.ok_or_else(…)?`.
abbrev pub or_fail : {A : Type 0} → Option A → FormatError → Formatted A
or_fail none e = err e
or_fail (some a) e = ok a

-- `.unwrap()`.
abbrev pub unwrap : {A E : Type 0} → Option A → Result E A
unwrap none = panic
unwrap (some a) = ok a

abbrev pub unwrap_ok : {A E F : Type 0} → Result E A → Result F A
unwrap_ok (ok a) = ok a
unwrap_ok (err _) = panic
unwrap_ok panic = panic

abbrev pub commit_pattern : String
commit_pattern =
    "^>(((agenda)|(block)|(agenda-proof)): (\\d+))|((tx-delegate): ((\\D+)-(\\d+)) to ((\\D+)-(\\d+)))|((tx-undelegate): ((\\D+)-(\\d+)))$"

abbrev pub fp_pattern : String
fp_pattern = "^>fp: (\\d+)$"

-- The titles of the five special commits.
unfoldable pub agenda_title : ℕ → String
agenda_title height = ">agenda: " <> decimal height

unfoldable pub block_title : ℕ → String
block_title height = ">block: " <> decimal height

unfoldable pub agenda_proof_title : ℕ → String
agenda_proof_title height = ">agenda-proof: " <> decimal height

unfoldable pub delegate_title : TxDelegate → String
delegate_title tx = ">tx-delegate: " <> (tx.content.delegator <> (" to " <> tx.content.delegatee))

unfoldable pub undelegate_title : TxUndelegate → String
undelegate_title tx = ">tx-undelegate: " <> tx.content.delegator

unfoldable pub fp_title : ℕ → String
fp_title height = ">fp: " <> decimal height

-- `if block_header.author == PublicKey::zero() { … } else { … }`.
unfoldable pub author_name : ReservedState → BlockHeader → Formatted String
unfolding query_name
author_name rs header =
    if header.author == 0
    then ok "genesis"
    else or_fail (query_name rs.members header.author) unknown_author

module _ (c : Crypto) (lib : Library) where
  unfoldable pub to_semantic_commit : Commit → ReservedState → Formatted SemanticCommit
  unfolding agenda_title block_title agenda_proof_title delegate_title undelegate_title author_name
      apply_delegate apply_undelegate
  to_semantic_commit (Commit.agenda agenda) rs = do
    body ← unwrap (lib.agenda_json.to_string agenda)
    ok (record {
      title = agenda_title agenda.height;
      body = body;
      diff = Diff.empty;
      author = agenda.author;
      timestamp = agenda.timestamp;
    })
  to_semantic_commit (Commit.block header) rs = do
    body ← unwrap (lib.block_json.to_string header)
    author ← author_name rs header
    ok (record {
      title = block_title header.height;
      body = body;
      diff = Diff.empty;
      author = author;
      timestamp = header.timestamp;
    })
  to_semantic_commit (Commit.transaction tx) rs = ok (record {
    title = tx.head;
    body = tx.body;
    diff = tx.diff;
    author = tx.author;
    timestamp = tx.timestamp;
  })
  to_semantic_commit (Commit.agenda_proof proof) rs = do
    body ← unwrap (lib.agenda_proof_json.to_string proof)
    ok (record {
      title = agenda_proof_title proof.height;
      body = body;
      diff = Diff.empty;
      author = unknown_commit_author;
      timestamp = proof.timestamp;
    })
  to_semantic_commit (Commit.extra_agenda_transaction (delegate tx)) rs = do
    body ← unwrap (lib.extra_json.to_string (delegate tx))
    after ← unwrap_ok (apply_delegate c tx rs)
    ok (record {
      title = delegate_title tx;
      body = body;
      diff = Diff.reserved after;
      author = tx.content.delegator;
      timestamp = tx.content.timestamp;
    })
  to_semantic_commit (Commit.extra_agenda_transaction (undelegate tx)) rs = do
    body ← unwrap (lib.extra_json.to_string (undelegate tx))
    after ← unwrap_ok (apply_undelegate c tx rs)
    ok (record {
      title = undelegate_title tx;
      body = body;
      diff = Diff.reserved after;
      author = tx.content.delegator;
      timestamp = tx.content.timestamp;
    })
  to_semantic_commit (Commit.extra_agenda_transaction (report tx)) rs = do
    _ ← unwrap (lib.extra_json.to_string (report tx))
    panic
  to_semantic_commit (Commit.chat_log _) rs = panic

-- `captures.get(2).or_else(|| captures.get(8)).or_else(|| captures.get(16))`.
abbrev pub or_else : {A : Type 0} → Option A → Option A → Option A
or_else none b = b
or_else (some a) b = some a

unfoldable pub commit_type : Groups → Formatted String
commit_type groups = or_fail (or_else (or_else (groups 2) (groups 8)) (groups 16)) missing_capture

unfoldable pub title_height : Groups → Formatted ℕ
title_height groups = do
  text ← or_fail (groups 6) missing_capture
  or_fail (parse_u64 text) bad_number

-- The body, and the height of the title, which must be the one in the body.
unfoldable pub read_dated :
    {A : Type 0} → Codec A → (A → ℕ) → (A → Commit) → Groups → String → Formatted Commit
unfolding title_height
read_dated codec height_of commit groups body = do
  a ← or_fail (codec.from_str body) bad_body
  height ← title_height groups
  fail_if (not (height == height_of a)) height_mismatch
  ok (commit a)

-- The group must be the name that the body gives.
abbrev pub check_group : Option String → String → FormatError → Formatted (Unit {0})
check_group group name e =
    or_fail group missing_capture >>= λ text. fail_if (not (str_eq text name)) e

unfoldable pub read_delegate : Groups → ExtraAgendaTransaction → Formatted Commit
read_delegate groups (delegate tx) = do
  check_group (groups 9) tx.content.delegator delegator_mismatch
  check_group (groups 12) tx.content.delegatee delegatee_mismatch
  ok (Commit.extra_agenda_transaction (delegate tx))
read_delegate groups (undelegate _) = err wrong_transaction
read_delegate groups (report _) = err wrong_transaction

unfoldable pub read_undelegate : Groups → ExtraAgendaTransaction → Formatted Commit
read_undelegate groups (undelegate tx) = do
  check_group (groups 17) tx.content.delegator delegator_mismatch
  ok (Commit.extra_agenda_transaction (undelegate tx))
read_undelegate groups (delegate _) = err wrong_transaction
read_undelegate groups (report _) = err wrong_transaction

module _ (lib : Library) where
  -- `match commit_type`.
  unfoldable pub read_special : String → Groups → String → Formatted Commit
  unfolding read_dated read_delegate read_undelegate
  read_special kind groups body =
      if str_eq kind "agenda"
      then read_dated lib.agenda_json (λ a. a.height) Commit.agenda groups body
      else if str_eq kind "block"
      then read_dated lib.block_json (λ b. b.height) Commit.block groups body
      else if str_eq kind "agenda-proof"
      then read_dated lib.agenda_proof_json (λ p. p.height) Commit.agenda_proof groups body
      else if str_eq kind "tx-delegate"
      then (or_fail (lib.extra_json.from_str body) bad_body >>= read_delegate groups)
      else if str_eq kind "tx-undelegate"
      then (or_fail (lib.extra_json.from_str body) bad_body >>= read_undelegate groups)
      else err unknown_type

  unfoldable pub from_semantic_commit : SemanticCommit → Formatted Commit
  unfolding commit_type read_special
  from_semantic_commit s = elim (lib.captures commit_pattern s.title) [
    | some groups ↦ commit_type groups >>= λ kind. read_special kind groups s.body
    | none ↦ ok (
        Commit.transaction (record {
          author = s.author;
          timestamp = s.timestamp;
          head = s.title;
          body = s.body;
          diff = s.diff;
        }))
  ]

  unfoldable pub fp_to_semantic_commit : LastFinalizationProof → Formatted SemanticCommit
  unfolding fp_title
  fp_to_semantic_commit fp = do
    body ← unwrap (lib.fp_json.to_string fp)
    ok (record {
      title = fp_title fp.height;
      body = body;
      diff = Diff.empty;
      author = unknown_commit_author;
      timestamp = pos 0;
    })

  unfoldable pub fp_from_semantic_commit : SemanticCommit → Formatted LastFinalizationProof
  fp_from_semantic_commit s = elim (lib.captures fp_pattern s.title) [
    | some groups ↦ do
      text ← or_fail (groups 1) missing_capture
      height ← or_fail (parse_u64 text) bad_number
      fp ← or_fail (lib.fp_json.from_str s.body) bad_body
      fail_if (not (height == fp.height)) height_mismatch
      ok fp
    | none ↦ err unknown_type
  ]
