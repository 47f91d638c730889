-- ===== src/Repository/Read.antt =====
-- repository/src/interpret/read.rs: what is read from the repository.
pub mod Verified
pub mod Restart
use Prim.Native.String.{String, ◌++◌ as ◌<>◌}
use text.Mathlib.Text.{starts_with}
use simperby.Base.{
  ℕ, Bool, true, false, not, ◌||◌, Option, none, some, List, [], ◌∷◌, ◌++◌, ◌==◌, if◌then◌else◌,
}
use simperby.Base.Text.{str_eq}
use simperby.Base.Word.{add_u64}
use simperby.Core.Types.{
  BlockHeader, BlockHeight, Hash256, ReservedState, Commit, FinalizationProof,
}
use simperby.Core.Crypto.{Crypto}
use simperby.Core.Hash.{hash_header, hash_agenda, hash_agenda_proof}
use simperby.Core.Result.{Result, Error, ok, err, panic, ◌>>=◌, ◌>>◌, map_err}
use simperby.Core.Sequence.{CommitSequenceVerifier, new}
use simperby.Core.Apply.{Applied, apply_commit}
use simperby.Repository.Types.{
  Branch, CommitHash, SemanticCommit, RawCommit, LastFinalizationProof, FinalizationInfo, RawError,
  RepositoryError, CommitError, FormatError, not_found, raw_error, format_error, integrity_error,
  verification_error, rejected, unread, unparsed, finalized_branch_name, fp_branch_name, bad_body,
}
use simperby.Repository.Library.{Library}
use simperby.Repository.Format.{from_semantic_commit, fp_from_semantic_commit, block_title, or_fail}
use simperby.Repository.Git.{Git}
use simperby.Repository.Raw.Branches.{list_branches, locate_branch}
use simperby.Repository.Raw.Walk.{find_merge_base, query_commit_path, get_initial_commit}
use simperby.Repository.Raw.Commits.{read_semantic_commit}
use simperby.Repository.Raw.Work.{read_reserved_state_at_commit}

abbrev pub Reading : Type 0 → Type 0
Reading = Result RepositoryError

-- `?` on a result of the raw repository.
abbrev pub raws : {A : Type 0} → Result RawError A → Reading A
raws = map_err raw_error

abbrev pub formats : {A : Type 0} → Result FormatError A → Reading A
formats = map_err format_error

-- `raw::Error::NotFound(_) => IntegrityError, _ => e`.
abbrev pub not_found_is_broken : RawError → RepositoryError
not_found_is_broken RawError.not_found = integrity_error
not_found_is_broken RawError.git2_error = raw_error RawError.git2_error
not_found_is_broken RawError.invalid_repository = raw_error RawError.invalid_repository
not_found_is_broken RawError.unknown = raw_error RawError.unknown

abbrev pub commits_error : CommitError → RepositoryError
commits_error (unread e) = raw_error e
commits_error (unparsed e _) = format_error e

abbrev block_of : Commit → Reading BlockHeader
block_of (Commit.block header) = ok header
block_of _ = err integrity_error

-- `if let Ok(x) = r { Ok(x) } else { Err(…) }`.
abbrev pub or_broken : {E A : Type 0} → Result E A → Reading A
or_broken (ok a) = ok a
or_broken (err _) = err integrity_error
or_broken panic = panic

abbrev pub is_ok : {E A : Type 0} → Result E A → Bool
is_ok (ok _) = true
is_ok (err _) = false
is_ok panic = false

module _ (g : Git) where
  -- `read_commit` of each commit of the path, with its hash.
  unfoldable pub with_each :
      {A : Type 0}
      → (CommitHash → g.Repo → Result RawError A)
      → List CommitHash
      → g.Repo
      → Result RawError (List (A × CommitHash))
  with_each read [] r = ok []
  with_each read (hash ∷ hashes) r =
      read hash r >>= λ a. with_each read hashes r >>= λ more. ok ((a, hash) ∷ more)

  unfoldable pub locate_each : List Branch → g.Repo → Result RawError (List (Branch × CommitHash))
  unfolding locate_branch
  locate_each [] r = ok []
  locate_each (b ∷ bs) r =
      locate_branch g b r >>= λ hash. locate_each bs r >>= λ more. ok ((b, hash) ∷ more)

  unfoldable pub read_local_branches : g.Repo → Reading (List (Branch × CommitHash))
  unfolding locate_each list_branches
  read_local_branches r = do
    names ← raws (list_branches g r)
    located ← raws (locate_each names r)
    ok (g.walk_set located)

  unfoldable pub get_last_finalized_block_commit_hash : g.Repo → Reading CommitHash
  get_last_finalized_block_commit_hash r =
      map_err not_found_is_broken (locate_branch g finalized_branch_name r)

  unfoldable pub read_last_finalized_reserved_state : g.Repo → Reading ReservedState
  unfolding get_last_finalized_block_commit_hash
  read_last_finalized_reserved_state r = do
    hash ← get_last_finalized_block_commit_hash r
    raws (read_reserved_state_at_commit g hash r)

  unfoldable pub read_raw_commits :
      CommitHash → CommitHash → g.Repo → Reading (List (RawCommit × CommitHash))
  unfolding with_each
  read_raw_commits ancestor descendant r = do
    path ← raws (query_commit_path g ancestor descendant r)
    raws (with_each (simperby.Repository.Raw.Commits.read_commit g) path r)

module _ {A : Type 0} where
  abbrev pub last_of : List A → Option A
  last_of [] = none
  last_of (x ∷ []) = some x
  last_of (x ∷ (y ∷ ys)) = last_of (y ∷ ys)

  -- `list[list.len() - 2]`.
  abbrev pub second_to_last : List A → Option A
  second_to_last [] = none
  second_to_last (x ∷ []) = none
  second_to_last (x ∷ (y ∷ [])) = some x
  second_to_last (x ∷ (y ∷ (z ∷ zs))) = second_to_last (y ∷ (z ∷ zs))

-- `csv.apply_commit` on each of the commits, up to the first that is refused.
unfoldable pub verify_all :
    Crypto → List Commit → CommitSequenceVerifier → Result Error CommitSequenceVerifier
unfolding apply_commit
verify_all c [] csv = ok csv
verify_all c (commit ∷ commits) csv =
    let (result, next) = apply_commit c commit csv in
    elim result [ ok _ ↦ verify_all c commits next | err e ↦ err e | panic ↦ panic ]

abbrev pub commits_of : List (Commit × CommitHash) → List Commit
commits_of [] = []
commits_of ((commit, _) ∷ more) = commit ∷ commits_of more

-- `Ok(Ok(_))` is `ok (ok _)`: the outer error is one of reading, the inner one of the branch.
abbrev pub verdict :
    Result Error CommitSequenceVerifier → Reading (Result RepositoryError CommitSequenceVerifier)
verdict (ok csv) = ok (ok csv)
verdict (err e) = ok (err (verification_error e))
verdict panic = panic

module _ (lib : Library) (g : Git) where
  -- `from_semantic_commit` on each, with the hash of the first that is no commit.
  unfoldable pub parse_each :
      List (SemanticCommit × CommitHash) → Result CommitError (List (Commit × CommitHash))
  parse_each [] = ok []
  parse_each ((s, hash) ∷ more) =
      map_err (λ e. unparsed e hash) (from_semantic_commit lib s) >>= λ commit.
      parse_each more >>= λ rest. ok ((commit, hash) ∷ rest)

  unfoldable pub read_commits :
      CommitHash → CommitHash → g.Repo → Result CommitError (List (Commit × CommitHash))
  unfolding with_each parse_each
  read_commits ancestor descendant r = do
    path ← map_err unread (query_commit_path g ancestor descendant r)
    texts ← map_err unread (with_each g (read_semantic_commit g) path r)
    parse_each texts

  unfoldable pub read_commit : CommitHash → g.Repo → Reading Commit
  read_commit hash r = do
    s ← raws (read_semantic_commit g hash r)
    formats (from_semantic_commit lib s)

  unfoldable pub read_last_finalized_block_header : g.Repo → Reading BlockHeader
  read_last_finalized_block_header r = do
    hash ← raws (locate_branch g finalized_branch_name r)
    s ← raws (read_semantic_commit g hash r)
    commit ← formats (from_semantic_commit lib s)
    block_of commit

  unfoldable pub read_last_finalization_proof : g.Repo → Reading LastFinalizationProof
  read_last_finalization_proof r = do
    hash ← map_err not_found_is_broken (locate_branch g fp_branch_name r)
    s ← raws (read_semantic_commit g hash r)
    or_broken (fp_from_semantic_commit lib s)

  unfoldable pub read_last_finalization_info : g.Repo → Reading FinalizationInfo
  unfolding read_last_finalized_block_header get_last_finalized_block_commit_hash
      read_last_finalized_reserved_state read_last_finalization_proof
  read_last_finalization_info r = do
    header ← read_last_finalized_block_header r
    commit_hash ← get_last_finalized_block_commit_hash g r
    reserved_state ← read_last_finalized_reserved_state g r
    fp ← read_last_finalization_proof r
    ok (record {
      header = header;
      commit_hash = commit_hash;
      reserved_state = reserved_state;
      proof = fp.proof;
    })

  -- The commits whose titles are those of the blocks of the height and of the next.
  unfoldable pub two_blocks :
      BlockHeight → List (SemanticCommit × CommitHash) → List (SemanticCommit × CommitHash)
  unfolding add_u64
  two_blocks height [] = []
  two_blocks height ((s, hash) ∷ more) =
      if str_eq s.title (block_title height) || str_eq s.title (block_title (add_u64 height 1))
      then (s, hash) ∷ two_blocks height more
      else two_blocks height more

  -- `commits[0]` and `commits[1]`, which panic out of range.
  unfoldable pub info_of_two :
      List (SemanticCommit × CommitHash) → g.Repo → Reading FinalizationInfo
  info_of_two [] r = panic
  info_of_two ((first, commit_hash) ∷ more) r = do
    header ← formats (or_fail (lib.block_json.from_str first.body) bad_body)
    next ← second more
    next_header ← formats (or_fail (lib.block_json.from_str next.body) bad_body)
    reserved_state ← raws (read_reserved_state_at_commit g commit_hash r)
    ok (record {
      header = header;
      commit_hash = commit_hash;
      reserved_state = reserved_state;
      proof = next_header.prev_block_finalization_proof;
    })
    where
      second : List (SemanticCommit × CommitHash) → Reading SemanticCommit
      second [] = panic
      second ((s, _) ∷ _) = ok s

  unfoldable pub read_finalization_info : BlockHeight → g.Repo → Reading FinalizationInfo
  unfolding read_last_finalized_block_header read_last_finalization_info with_each two_blocks
      info_of_two get_last_finalized_block_commit_hash
  read_finalization_info height r = do
    last ← read_last_finalized_block_header r
    elim (height == last.height) [
      | true ↦ read_last_finalization_info r
      | false ↦ do
        initial ← raws (get_initial_commit g r)
        finalized ← get_last_finalized_block_commit_hash g r
        path ← raws (query_commit_path g initial finalized r)
        texts ← raws (with_each g (read_semantic_commit g) path r)
        info_of_two (two_blocks height texts) r
    ]

  unfoldable pub read_and_verify_commits_from_last_finalized_block :
      Crypto → CommitHash → g.Repo → Reading (Result RepositoryError CommitSequenceVerifier)
  unfolding read_last_finalization_info read_commits verify_all new
  read_and_verify_commits_from_last_finalized_block c tip r = do
    lfi ← read_last_finalization_info r
    base ← raws (find_merge_base g lfi.commit_hash tip r)
    elim (base == lfi.commit_hash) [
      | false ↦ ok (err rejected)
      | true ↦ do
        s ← raws (read_semantic_commit g tip r)
        elim (is_ok (fp_from_semantic_commit lib s)) [
          | true ↦ ok (err rejected)
          | false ↦ do
            commits ← map_err commits_error (read_commits lfi.commit_hash tip r)
            verdict (verify_all c (commits_of commits) (new lfi.header lfi.reserved_state))
        ]
    ]
