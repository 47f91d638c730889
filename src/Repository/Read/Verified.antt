-- ===== src/Repository/Read/Verified.antt =====
-- The verifier after commits that it has all accepted, as repository/src/interpret/read.rs runs it.
use simperby.Base.{
  ◌≡◌, refl, sym, ◌∙◌, ap, some, subst, List, [], ◌∷◌, ◌++◌, append_assoc, append-nil, arith, inl,
  inr, false, Bool-cases, ◌==◌, ==_iff,
}
use simperby.Core.Types.{BlockHeader, ReservedState, Commit}
use simperby.Core.Crypto.{Crypto}
use simperby.Core.Kept.{Result-cases}
use simperby.Core.Result.{Result, Error, ok, err, panic, map_err, by_parts, map_err-eq-ok}
use simperby.Core.Sequence.{CommitSequenceVerifier, new}
use simperby.Core.Apply.{Applied, pushed, apply_arm, apply_commit}
use simperby.Core.Chain.{Chain, start, other, child, IsChained}
use simperby.Core.Chained.{apply_all, apply_all-IsChained}
use simperby.Core.Trace.{apply_arm-Trace, apply_arm-Enters}
use simperby.Repository.Types.{CommitHash, SemanticCommit, FinalizationInfo}
use simperby.Repository.Library.{Library}
use simperby.Repository.Format.{fp_from_semantic_commit}
use simperby.Repository.Git.{Git}
use simperby.Repository.Raw.Walk.{find_merge_base}
use simperby.Repository.Raw.Commits.{read_semantic_commit}
use simperby.Repository.Read.{
  verify_all, last_of, commits_of, is_ok, raws, verdict, commits_error, read_last_finalization_info,
  read_commits, read_and_verify_commits_from_last_finalized_block,
}

last_of-append : {A : Type 0} (xs : List A) (x : A) → last_of (xs ++ x ∷ []) ≡ some x
last_of-append [] x = refl
last_of-append (y ∷ []) x = refl
last_of-append (y ∷ (z ∷ zs)) x = last_of-append (z ∷ zs) x

some_inj : {a b : Commit} → some a ≡ some b → a ≡ b
some_inj h = ground arith

block_inj : {a b : BlockHeader} → Commit.block a ≡ Commit.block b → a ≡ b
block_inj h = ground arith

module _ (c : Crypto) where
  -- All accepted: each is applied in turn.
  pub verify_all-eq-apply_all :
      (commits : List Commit) (v w : CommitSequenceVerifier)
      → verify_all c commits v ≡ ok w
      → w ≡ apply_all c commits v
  unfolding verify_all apply_all
  verify_all-eq-apply_all [] v w h = ground arith
  verify_all-eq-apply_all (commit ∷ commits) v w h =
      elim (Result-cases (apply_commit c commit v).0) [
        | inl (_, accepted) ↦
            verify_all-eq-apply_all commits (apply_commit c commit v).1 w
              (rw (accepted, verify_all) at h)
        | inr (inl (e, refused)) ↦ absurd (ground arith)
        | inr (inr broken) ↦ absurd (ground arith)
      ]

  pushed_total :
      (v : CommitSequenceVerifier) (commit : Commit) (a : Applied)
      → (a.0 ≡ ok tt → a.1.total_commits ≡ v.total_commits)
      → (pushed commit a).0 ≡ ok tt
      → (pushed commit a).1.total_commits ≡ v.total_commits ++ commit ∷ []
  pushed_total v commit (ok _, w) same accepted = ap (λ xs. xs ++ commit ∷ []) (same refl)
  pushed_total v commit (err _, w) same accepted = absurd (ground arith)
  pushed_total v commit (panic, w) same accepted = absurd (ground arith)

  apply_commit-total :
      (commit : Commit) (v : CommitSequenceVerifier)
      → (apply_commit c commit v).0 ≡ ok tt
      → (apply_commit c commit v).1.total_commits ≡ v.total_commits ++ commit ∷ []
  unfolding apply_commit
  apply_commit-total (Commit.block header) v accepted =
      pushed_total v (Commit.block header) (apply_arm c v (Commit.block header) v.phase)
        (λ h.
          ap (λ (t : BlockHeader × List Commit × List Commit). t.1)
            (apply_arm-Enters c v header v.phase h).1)
        accepted
  apply_commit-total commit v accepted =
      pushed_total v commit (apply_arm c v commit v.phase)
        (λ _.
          ap (λ (t : BlockHeader × List Commit × List Commit). t.1)
            (apply_arm-Trace c v commit v.phase (λ h. h)))
        accepted

  -- The verifier then holds these commits after those that it had.
  pub verify_all-total :
      (commits : List Commit) (v w : CommitSequenceVerifier)
      → verify_all c commits v ≡ ok w
      → w.total_commits ≡ v.total_commits ++ commits
  unfolding verify_all
  verify_all-total [] v w h =
      let same : w ≡ v = ground arith in
      ap (λ (x : CommitSequenceVerifier). x.total_commits) same ∙ sym (append-nil v.total_commits)
  verify_all-total (commit ∷ commits) v w h = elim (Result-cases (apply_commit c commit v).0) [
    | inl (_, accepted) ↦
        verify_all-total commits (apply_commit c commit v).1 w (rw (accepted, verify_all) at h)
        ∙ ap (λ xs. xs ++ commits) (apply_commit-total commit v accepted)
        ∙ append_assoc v.total_commits (commit ∷ []) commits
    | inr (inl (e, refused)) ↦ absurd (ground arith)
    | inr (inr broken) ↦ absurd (ground arith)
  ]

  module _ (header : BlockHeader) (rs : ReservedState) (commits : List Commit)
      (csv : CommitSequenceVerifier)
      (verified : verify_all c commits (new header rs) ≡ ok csv) where
    -- Its commits are the start header and these, and the blocks among them form a chain.
    pub verified_commits : csv.total_commits ≡ Commit.block header ∷ commits
    unfolding new
    verified_commits = verify_all-total commits (new header rs) csv verified

    pub verified_chain : IsChained c csv
    verified_chain =
        subst (IsChained c) (sym (verify_all-eq-apply_all commits (new header rs) csv verified))
          (apply_all-IsChained c header rs commits)

  -- The header of a chain that ends with a block is that block.
  pub Chain-last :
      {h : BlockHeader} {commits : List Commit} (b : BlockHeader)
      → Chain c h commits
      → last_of commits ≡ some (Commit.block b)
      → h ≡ b
  Chain-last b (start h) e = ground arith
  Chain-last b (other {commits} commit chain plain) e =
      absurd (plain b (some_inj (sym (last_of-append commits commit) ∙ e)))
  Chain-last b (child {commits} h' chain is_child) e =
      block_inj (some_inj (sym (last_of-append commits (Commit.block h')) ∙ e))

verdict_ok :
    (v : Result Error CommitSequenceVerifier) (csv : CommitSequenceVerifier)
    → verdict v ≡ ok (ok csv)
    → v ≡ ok csv
verdict_ok (ok v) csv h = ground arith
verdict_ok (err e) csv h = absurd (ground arith)
verdict_ok panic csv h = absurd (ground arith)

module _ (c : Crypto) (lib : Library) (g : Git) where
  -- The commits from the last finalized block to `tip` have been read and accepted.
  pub record AreAccepted (r : g.Repo) (lfi : FinalizationInfo) (tip : CommitHash)
      (commits : List (Commit × CommitHash)) (csv : CommitSequenceVerifier) : Type 0 where
    pub info : read_last_finalization_info lib g r ≡ ok lfi
    pub read : read_commits lib g lfi.commit_hash tip r ≡ ok commits
    pub verified : verify_all c (commits_of commits) (new lfi.header lfi.reserved_state) ≡ ok csv

  -- The branch of `tip` begins at the last finalized block, is not that of a finalization proof, and the
  -- verifier holds its commits after the finalized block, the blocks among them in a chain.
  pub record IsValidBranch (r : g.Repo) (tip : CommitHash) (csv : CommitSequenceVerifier)
      : Type 0 where
    pub lfi : FinalizationInfo
    pub commits : List (Commit × CommitHash)
    pub are_accepted : AreAccepted r lfi tip commits csv
    pub based : find_merge_base g lfi.commit_hash tip r ≡ ok lfi.commit_hash
    pub text : SemanticCommit
    pub is_text : read_semantic_commit g tip r ≡ ok text
    pub no_proof : is_ok (fp_from_semantic_commit lib text) ≡ false
    pub holds : csv.total_commits ≡ Commit.block lfi.header ∷ commits_of commits
    pub chained : IsChained c csv

  -- A verifier is returned only for a branch whose commits were all read and all accepted, in order, on
  -- top of the last finalized block.
  pub read_and_verify_commits-IsValidBranch :
      (tip : CommitHash) (r : g.Repo) (csv : CommitSequenceVerifier)
      → read_and_verify_commits_from_last_finalized_block lib g c tip r ≡ ok (ok csv)
      → IsValidBranch r tip csv
  unfolding read_and_verify_commits_from_last_finalized_block
  read_and_verify_commits-IsValidBranch tip r csv h =
      by_parts (read_last_finalization_info lib g r) _ h λ lfi info h1.
        by_parts (raws (find_merge_base g lfi.commit_hash tip r)) _ h1 λ base found h2.
          elim (Bool-cases (base == lfi.commit_hash)) [
            | inr differs ↦ absurd (ground arith)
            | inl same ↦
                by_parts (raws (read_semantic_commit g tip r)) _ (rw same at h2) λ s text h3.
                  elim (Bool-cases (is_ok (fp_from_semantic_commit lib s))) [
                    | inl proof ↦ absurd (ground arith)
                    | inr no_proof ↦
                        by_parts (map_err commits_error (read_commits lib g lfi.commit_hash tip r))
                          _ (rw no_proof at h3)
                          λ commits read h4.
                            let accepted = verdict_ok _ csv h4 in
                            record {
                              lfi = lfi;
                              commits = commits;
                              are_accepted = record {
                                info = info;
                                read = map_err-eq-ok commits_error _ read;
                                verified = accepted;
                              };
                              based =
                                  map_err-eq-ok _ _ found
                                  ∙ ap ok ((==_iff base lfi.commit_hash).0 same);
                              text = s;
                              is_text = map_err-eq-ok _ _ text;
                              no_proof = no_proof;
                              holds =
                                  verified_commits c lfi.header lfi.reserved_state
                                    (commits_of commits) csv accepted;
                              chained =
                                  verified_chain c lfi.header lfi.reserved_state
                                    (commits_of commits) csv accepted;
                            }
                  ]
          ]
