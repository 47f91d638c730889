-- ===== src/Repository/Samples.antt =====
-- Small inputs for the repository: texts and their encodings, and a history with two branches.
use Prim.Native.String.{String}
use simperby.Base.{Option, none, some, List, [], ◌∷◌, ◌==◌, if◌then◌else◌}
use simperby.Base.Int.{pos}
use simperby.Base.Text.{str_eq}
use simperby.Base.Decimal.{digit_char, digit_of, digits_of, decimal, parse_digits, parse_u64}
use simperby.Base.Word.{mul_i64, to_bits}
use simperby.Core.Types.{BlockHeader, Agenda, AgendaProof, Commit, delegate}
use simperby.Core.Hash.{
  hash_header, hash_agenda, calculate_commit_merkle_root, calculate_transactions_hash,
}
use simperby.Core.Sequence.{headers_from, get_block_headers, verify_last_header_finalization}
use simperby.Core.Samples.{
  chain, toy, sign, first_header, first_agenda, first_agenda_proof, finalizing, second_header,
  delegating,
}
use simperby.Repository.Types.{CommitHash}
use simperby.Repository.Library.{Library, Codec, Groups}
use simperby.Repository.Git.{GitCommit}
use simperby.Repository.Toy.{Store}
use simperby.Repository.Format.{
  fp_pattern, agenda_title, block_title, agenda_proof_title, delegate_title, fp_title, author_name,
  to_semantic_commit, commit_type, title_height, read_dated, read_delegate, read_undelegate,
  read_special, from_semantic_commit, fp_to_semantic_commit, fp_from_semantic_commit,
}
use simperby.Repository.Format.Message.{split_blank_line, title_and_body, div_i64}
use simperby.Repository.Raw.Action.{◌>>=◌, pure, lift, reads, relabel}
use simperby.Repository.Raw.Branches.{list_branches, locate_branch, delete_branch}
use simperby.Repository.Raw.Walk.{get_head, find_merge_base, query_commit_path}
use simperby.Repository.Raw.Commits.{show_commit, read_semantic_commit}
use simperby.Repository.Raw.Work.{
  checkout, read_reserved_state, read_reserved_state_at_commit, list_remotes,
}
use simperby.Repository.Read.{
  with_each, locate_each, read_local_branches, get_last_finalized_block_commit_hash,
  read_last_finalized_reserved_state, verify_all, parse_each, read_commits,
  read_last_finalized_block_header, read_last_finalization_proof, read_last_finalization_info,
  read_and_verify_commits_from_last_finalized_block,
}
use simperby.Repository.Candidates.{
  candidates_among, branch_candidates, branches_candidates, read_candidates, read_agendas,
  read_governance_approved_agendas, read_blocks,
}
use simperby.Repository.Clean.{
  drop_invalid, drop_outdated, clean_branch, clean_each, remove_remotes, clean,
}

-- Opens all that the samples compute with.
unfoldable pub repository : Unit {0}
unfolding chain digit_char digit_of digits_of decimal parse_digits parse_u64 mul_i64 to_bits
    headers_from get_block_headers verify_last_header_finalization agenda_title block_title
    agenda_proof_title delegate_title fp_title author_name to_semantic_commit commit_type
    title_height read_dated read_delegate read_undelegate read_special from_semantic_commit
    fp_to_semantic_commit fp_from_semantic_commit split_blank_line title_and_body div_i64 ◌>>=◌ pure
    lift reads relabel list_branches locate_branch delete_branch get_head find_merge_base
    query_commit_path show_commit read_semantic_commit checkout read_reserved_state
    read_reserved_state_at_commit list_remotes with_each locate_each read_local_branches
    get_last_finalized_block_commit_hash read_last_finalized_reserved_state verify_all parse_each
    read_commits read_last_finalized_block_header read_last_finalization_proof
    read_last_finalization_info read_and_verify_commits_from_last_finalized_block candidates_among
    branch_candidates branches_candidates read_candidates read_agendas
    read_governance_approved_agendas read_blocks drop_invalid drop_outdated clean_branch clean_each
    remove_remotes clean
repository = tt

-- The next block, after an agenda and its proof.
abbrev pub second_agenda : Agenda
unfolding calculate_transactions_hash hash_header
second_agenda = record {
  height = 2;
  author = "ben";
  timestamp = pos 4;
  transactions_hash = calculate_transactions_hash toy [];
  previous_block_hash = hash_header toy second_header;
}

abbrev pub second_agenda_proof : AgendaProof
unfolding hash_agenda
second_agenda_proof =
    let hash = hash_agenda toy second_agenda in
    record {
      height = 2;
      agenda_hash = hash;
      proof = sign 10 hash ∷ sign 20 hash ∷ sign 30 hash ∷ [];
      timestamp = pos 5;
    }

abbrev pub third_header : BlockHeader
unfolding hash_header calculate_commit_merkle_root
third_header = record {
  author = 10;
  prev_block_finalization_proof = finalizing second_header 0;
  previous_hash = hash_header toy second_header;
  height = 2;
  timestamp = pos 6;
  commit_merkle_root = calculate_commit_merkle_root toy (
      Commit.block second_header
      ∷ Commit.agenda second_agenda
      ∷ Commit.agenda_proof second_agenda_proof
      ∷ []);
  repository_merkle_root = 0;
  validator_set = (10, 1) ∷ (20, 1) ∷ (30, 1) ∷ (40, 1) ∷ [];
  version = "0.1.0";
}

abbrev pub two_rounds : List (Commit × CommitHash)
two_rounds =
    (Commit.agenda first_agenda, 4)
    ∷ (Commit.agenda_proof first_agenda_proof, 5)
    ∷ (Commit.block second_header, 6)
    ∷ (Commit.agenda second_agenda, 7)
    ∷ (Commit.agenda_proof second_agenda_proof, 8)
    ∷ (Commit.block third_header, 9)
    ∷ []

-- The groups of a title with a height.
abbrev dated : String → String → Groups
dated kind height i = if i == 2 then some kind else if i == 6 then some height else none

abbrev pub delegation_groups : Groups
delegation_groups i =
    if i == 8
    then some "tx-delegate"
    else if i == 9
    then some "ada"
    else if i == 12
    then some "ben"
    else none

abbrev one_group : String → Groups
one_group height i = if i == 1 then some height else none

abbrev sample_captures : String → String → Option Groups
sample_captures pattern text =
    if str_eq pattern fp_pattern
    then (if str_eq text ">fp: 0"
        then some (one_group "0")
        else if str_eq text ">fp: 1"
        then some (one_group "1")
        else none)
    else if str_eq text ">block: 0"
    then some (dated "block" "0")
    else if str_eq text ">block: 1"
    then some (dated "block" "1")
    else if str_eq text ">agenda: 1"
    then some (dated "agenda" "1")
    else if str_eq text ">agenda-proof: 1"
    then some (dated "agenda-proof" "1")
    else if str_eq text ">tx-delegate: ada to ben"
    then some delegation_groups
    else none

-- One value, and its text.
abbrev codec_of : {A : Type 0} → String → A → Codec A
codec_of name a = record {
  to_string = λ _. some name;
  from_str = λ text. if str_eq text name then some a else none;
}

abbrev pub sample_library : Library
sample_library = record {
  captures = sample_captures;
  agenda_json = codec_of "agenda" first_agenda;
  block_json = record {
    to_string = λ b. some (if b.height == 0 then "block 0" else "block 1");
    from_str = λ text.
        if str_eq text "block 0"
        then some first_header
        else if str_eq text "block 1"
        then some second_header
        else none;
  };
  agenda_proof_json = codec_of "proof" first_agenda_proof;
  extra_json = codec_of "delegation" (delegate delegating);
  fp_json = record {
    to_string = λ fp. some (if fp.height == 0 then "fp 0" else "fp 1");
    from_str = λ text.
        if str_eq text "fp 0"
        then some (record { height = 0; proof = record { round = 0; signatures = [] } })
        else if str_eq text "fp 1"
        then some (record { height = 1; proof = finalizing second_header 0 })
        else none;
  };
  hash_text = λ h. "0123456789abcdef";
}

abbrev node : List CommitHash → String → String → GitCommit
node parents title body = record {
  parents = parents;
  tree = 1;
  message = some title;
  summary = some title;
  body = some body;
  author_name = some "Simperby";
  author_email = some "hi@simperby.net";
  seconds = pos 0;
}

abbrev pub sample_places : String → Option CommitHash
sample_places b =
    if str_eq b "finalized"
    then some 2
    else if str_eq b "fp"
    then some 3
    else if str_eq b "a-1"
    then some 5
    else if str_eq b "b-1"
    then some 6
    else none

-- The first block is finalized; an approved agenda stands on it, and a block on that.
abbrev pub sample_store : Store
sample_store = record {
  names = "finalized" ∷ "fp" ∷ "a-1" ∷ "b-1" ∷ [];
  place = sample_places;
  current = some "finalized";
  detached = 2;
  commits =
      (6, node (5 ∷ []) ">block: 1" "block 1")
      ∷ (5, node (4 ∷ []) ">agenda-proof: 1" "proof")
      ∷ (4, node (2 ∷ []) ">agenda: 1" "agenda")
      ∷ (3, node (2 ∷ []) ">fp: 0" "fp 0")
      ∷ (2, node (1 ∷ []) ">block: 0" "block 0")
      ∷ (1, node [] "start" "")
      ∷ [];
}
