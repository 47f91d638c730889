-- ===== src/Repository/Finalize/Proved.antt =====
-- What must hold for `finalize` of repository/src/interpret/create.rs to change anything.
use simperby.Base.{◌≡◌, ◌≢◌, refl, sym, ◌∙◌, ap, ◌⊎◌, inl, inr, some, arith, Option-cases}
use simperby.Core.Types.{BlockHeader, Commit, FinalizationProof}
use simperby.Core.Crypto.{Crypto}
use simperby.Core.Result.{Result, ok, err, panic, map_err-eq-ok}
use simperby.Core.Sequence.{CommitSequenceVerifier, verify_last_header_finalization}
use simperby.Core.Verify.{verify_finalization_proof}
use simperby.Repository.Types.{CommitHash, RepositoryError}
use simperby.Repository.Library.{Library}
use simperby.Repository.Git.{Git}
use simperby.Repository.Raw.Action.{lift}
use simperby.Repository.Raw.Rules.{after_reads, after_lift}
use simperby.Repository.Acts.{after_expect}
use simperby.Repository.Read.{last_of, read_and_verify_commits_from_last_finalized_block}
use simperby.Repository.Read.Verified.{
  IsValidBranch, read_and_verify_commits-IsValidBranch, Chain-last,
}
use simperby.Repository.Create.{verified}
use simperby.Repository.Finalize.{joined, block_in, finalize}

proved_at :
    (c : Crypto) (csv : CommitSequenceVerifier) (proof : FinalizationProof) {u : Unit {0}}
    → verify_last_header_finalization c csv proof ≡ ok u
    → verify_finalization_proof c csv.header proof ≡ ok tt
unfolding verify_last_header_finalization
proved_at c csv proof h = ground arith

module _ (c : Crypto) (lib : Library) (g : Git) where
  -- The branch of the commit is valid and ends with a block, which is the last header of the verifier,
  -- and the proof finalizes it.
  pub record IsFinalizable (r : g.Repo) (block_commit_hash : CommitHash) (proof : FinalizationProof)
      : Type 0 where
    pub csv : CommitSequenceVerifier
    pub valid : IsValidBranch c lib g r block_commit_hash csv
    pub block : BlockHeader
    pub ends : last_of csv.total_commits ≡ some (Commit.block block)
    pub is_header : csv.header ≡ block
    pub proved : verify_finalization_proof c block proof ≡ ok tt

  -- An outcome that is a failure and leaves the repository as it was.
  abbrev pub IsUnchanged : {A : Type 0} → g.Repo → Result RepositoryError A × g.Repo → Type 0
  IsUnchanged r o = (o.1 ≡ r) × ((a : _) → o.0 ≢ ok a)

  joined_ok :
      (m : Result RepositoryError (Result RepositoryError CommitSequenceVerifier))
      (csv : CommitSequenceVerifier)
      → joined c lib g m ≡ ok csv
      → m ≡ ok (ok csv)
  joined_ok (ok v) csv h = ap ok h
  joined_ok (err e) csv h = absurd (ground arith)
  joined_ok panic csv h = absurd (ground arith)

  block_in_lem :
      (commit : Commit) (block : BlockHeader)
      → block_in commit ≡ some block
      → commit ≡ Commit.block block
  block_in_lem (Commit.block b) block h = ground arith
  block_in_lem (Commit.transaction _) block h = absurd (ground arith)
  block_in_lem (Commit.agenda _) block h = absurd (ground arith)
  block_in_lem (Commit.agenda_proof _) block h = absurd (ground arith)
  block_in_lem (Commit.extra_agenda_transaction _) block h = absurd (ground arith)
  block_in_lem (Commit.chat_log _) block h = absurd (ground arith)

  -- `finalize` fails and leaves the repository as it was, unless the branch of the commit begins at the
  -- last finalized block, all its commits are accepted by the verifier, the blocks among them in a chain,
  -- the last commit is a block, and the proof finalizes that block.
  pub finalize-IsFinalizable :
      (block_commit_hash : CommitHash) (proof : FinalizationProof) (r : g.Repo)
      → IsUnchanged r (finalize c lib g block_commit_hash proof r)
        ⊎ IsFinalizable r block_commit_hash proof
  unfolding finalize lift
  finalize-IsFinalizable block_commit_hash proof r = after_reads T _ _ r failed broken λ csv read.
      after_expect g T (last_of csv.total_commits) _ r broken λ commit last.
        elim (Option-cases (block_in commit)) [
          | inl other ↦ rw other (failed _)
          | inr (block, is) ↦ rw is (
              after_lift T _ _ r failed broken λ _ accepted.
                inr (finalizable csv commit block (joined_ok _ csv read) last is accepted))
        ]
    where
      T : Result RepositoryError CommitHash × g.Repo → Type 0
      T o = IsUnchanged r o ⊎ IsFinalizable r block_commit_hash proof

      failed : (e : RepositoryError) → T (err e, r)
      failed e = inl (refl, λ a h. absurd (ground arith))

      broken : T (panic, r)
      broken = inl (refl, λ a h. absurd (ground arith))

      at_header :
          (csv : CommitSequenceVerifier) (block : BlockHeader)
          → csv.header ≡ block
          → {u : Unit {0}} → verify_last_header_finalization c csv proof ≡ ok u
          → verify_finalization_proof c block proof ≡ ok tt
      at_header csv block same accepted =
          ap (λ h. verify_finalization_proof c h proof) (sym same) ∙ proved_at c csv proof accepted

      finalizable :
          (csv : CommitSequenceVerifier) (commit : Commit) (block : BlockHeader)
          → read_and_verify_commits_from_last_finalized_block lib g c block_commit_hash r
            ≡ ok (ok csv)
          → last_of csv.total_commits ≡ some commit
          → block_in commit ≡ some block
          → {u : Unit {0}} → verified (verify_last_header_finalization c csv proof) ≡ ok u
          → IsFinalizable r block_commit_hash proof
      finalizable csv commit block read last is accepted =
          let valid = read_and_verify_commits-IsValidBranch c lib g block_commit_hash r csv read in
          let ends = last ∙ ap some (block_in_lem commit block is) in
          let is_header = Chain-last c block valid.chained ends in
          record {
            csv = csv;
            valid = valid;
            block = block;
            ends = ends;
            is_header = is_header;
            proved = at_header csv block is_header (map_err-eq-ok _ _ accepted);
          }
