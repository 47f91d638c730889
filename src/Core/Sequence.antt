-- ===== src/Core/Sequence.antt =====
-- core/src/verify.rs: `CommitSequenceVerifier` and its check of a new reserved state.
use simperby.Base.{
  ℕ, ◌+◌, Bool, not, List, [], ◌∷◌, map, ltb, leb, ◌==◌, if◌then◌else◌, any, all, length, select,
}
use mathlib.Core.Bool.{decide}
use simperby.Base.Text.{str_eq}
use simperby.Core.Types.{
  PublicKey, MemberName, Member, Timestamp, BlockHeader, Transaction, Agenda, AgendaProof,
  ReservedState, FinalizationProof, Commit,
}
use simperby.Core.Crypto.{Crypto}
use simperby.Core.Decide.{GenesisInfo-discrete}
use simperby.Core.Verify.{Verified, verify_finalization_proof}
use simperby.Core.Result.{
  ok, ◌>>◌, fail_if, too_few_members, invalid_leader, too_few_leaders, genesis_changed,
  duplicate_name, duplicate_key, member_removed,
}

-- The last commit that was accepted, with what the next one is checked against.
pub data Phase : Type 0 where
  transaction : (last_transaction : Transaction) (preceding_transactions : List Transaction) → Phase
  agenda : Agenda → Phase
  agenda_proof : AgendaProof → Phase
  extra_agenda_transaction : (last_extra_agenda_timestamp : Timestamp) → Phase
  block : Phase

pub record CommitSequenceVerifier : Type 0 where
  pub header : BlockHeader
  pub phase : Phase
  pub reserved_state : ReservedState
  pub commits_for_next_block : List Commit
  pub total_commits : List Commit

-- `CommitSequenceVerifier::new`.
unfoldable pub new : BlockHeader → ReservedState → CommitSequenceVerifier
new start_header reserved_state = record {
  header = start_header;
  phase = Phase.block;
  reserved_state = reserved_state;
  commits_for_next_block = [];
  total_commits = Commit.block start_header ∷ [];
}

-- The headers among the commits, with their places, from the given place on.
unfoldable pub headers_from : ℕ → List Commit → List (BlockHeader × ℕ)
headers_from i [] = []
headers_from i (Commit.block header ∷ commits) = (header, i) ∷ headers_from (i + 1) commits
headers_from i (_ ∷ commits) = headers_from (i + 1) commits

unfoldable pub get_block_headers : CommitSequenceVerifier → List (BlockHeader × ℕ)
unfolding headers_from
get_block_headers v = headers_from 0 v.total_commits

unfoldable pub verify_last_header_finalization :
    Crypto → CommitSequenceVerifier → FinalizationProof → Verified
unfolding verify_finalization_proof
verify_last_header_finalization c v proof = verify_finalization_proof c v.header proof

abbrev pub has_name : List MemberName → MemberName → Bool
has_name names name = any (λ n. str_eq n name) names

-- A `HashSet` of names: each of them once.
unfoldable pub distinct : List MemberName → List MemberName
distinct [] = []
distinct (n ∷ names) = let rest = distinct names in if has_name rest n then rest else n ∷ rest

-- The loop over the members that collects their names and keys.
unfoldable pub check_unique : List MemberName → List PublicKey → List Member → Verified
check_unique names keys [] = ok tt
check_unique names keys (m ∷ members) = do
  fail_if (has_name names m.name) duplicate_name
  fail_if (any (λ k. k == m.public_key) keys) duplicate_key
  check_unique (m.name ∷ names) (m.public_key ∷ keys) members

-- The loop over the members of the present state.
unfoldable pub check_kept : List MemberName → List Member → Verified
check_kept names [] = ok tt
check_kept names (m ∷ members) = do
  fail_if (not (has_name names m.name)) member_removed
  check_kept names members

abbrev pub names_of : List Member → List MemberName
names_of members = map (λ m. m.name) members

abbrev pub candidates : List Member → List MemberName
candidates members = names_of (select (λ m. not m.expelled) members)

unfoldable pub verify_reserved_state : CommitSequenceVerifier → ReservedState → Verified
unfolding distinct check_unique check_kept
verify_reserved_state v rs = do
  fail_if (ltb (length rs.members) 4) too_few_members
  fail_if (not (all (has_name (candidates rs.members)) rs.consensus_leader_order)) invalid_leader
  fail_if (leb (length (distinct rs.consensus_leader_order)) 1) too_few_leaders
  fail_if (not (decide (GenesisInfo-discrete rs.genesis_info v.reserved_state.genesis_info)))
      genesis_changed
  check_unique [] [] rs.members
  check_kept (names_of rs.members) v.reserved_state.members
