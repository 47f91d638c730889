-- ===== src/Repository/Read/Restart.antt =====
-- The commits since the last block, of which core/src/verify.rs asks the Merkle root, in a verifier that
-- has gone on past a block and in one that starts there.
use simperby.Base.{
  ◌≡◌, ◌≢◌, refl, sym, ◌∙◌, ap, List, [], ◌∷◌, ◌++◌, ◌==◌, ==_iff, append_assoc, append-nil, arith,
  inl, inr, Bool-cases,
}
use simperby.Core.Types.{BlockHeader, ReservedState, Commit}
use simperby.Core.Crypto.{Crypto}
use simperby.Core.Hash.{calculate_commit_merkle_root}
use simperby.Core.Kept.{Result-cases}
use simperby.Core.Result.{Result, Error, ok, err, panic, by_parts, fail_if, invalid_timestamp}
use simperby.Base.Int.{ltb_ℤ}
use simperby.Core.Verify.{verify_header_to_header}
use simperby.Core.Sequence.{CommitSequenceVerifier, Phase, new}
use simperby.Core.Apply.{
  Applied, pushed, settle, enter_block, block_after_proof, block_after_extra, apply_arm,
  apply_commit,
}
use simperby.Core.Trace.{IsBlock, apply_arm-Trace, apply_arm-Enters}
use simperby.Repository.Read.{verify_all}

pushed-pending :
    (commit : Commit) (a : Applied) (xs : List Commit)
    → (a.0 ≡ ok tt → a.1.commits_for_next_block ≡ xs)
    → (pushed commit a).0 ≡ ok tt
    → (pushed commit a).1.commits_for_next_block ≡ xs ++ commit ∷ []
pushed-pending commit (ok _, w) xs same accepted = ap (λ ys. ys ++ commit ∷ []) (same refl)
pushed-pending commit (err _, w) xs same accepted = absurd (ground arith)
pushed-pending commit (panic, w) xs same accepted = absurd (ground arith)

pushed_ok : (commit : Commit) (a : Applied) → (pushed commit a).0 ≡ ok tt → a.0 ≡ ok tt
pushed_ok commit (ok _, w) h = refl
pushed_ok commit (err _, w) h = absurd (ground arith)
pushed_ok commit (panic, w) h = absurd (ground arith)

-- No block among them.
abbrev pub ArePlain : List Commit → Type 0
ArePlain [] = Unit
ArePlain (commit ∷ commits) = (¬ IsBlock commit) × ArePlain commits

module _ (c : Crypto) where
  apply_plain-pending :
      (commit : Commit) (v : CommitSequenceVerifier)
      → ¬ IsBlock commit
      → (apply_commit c commit v).0 ≡ ok tt
      → (apply_commit c commit v).1.commits_for_next_block ≡ v.commits_for_next_block ++ commit ∷ []
  unfolding apply_commit
  apply_plain-pending commit v plain accepted =
      pushed-pending commit (apply_arm c v commit v.phase) v.commits_for_next_block
        (λ _.
          ap (λ (t : BlockHeader × List Commit × List Commit). t.2)
            (apply_arm-Trace c v commit v.phase plain))
        accepted

  apply_block-pending :
      (header : BlockHeader) (v : CommitSequenceVerifier)
      → (apply_commit c (Commit.block header) v).0 ≡ ok tt
      → (apply_commit c (Commit.block header) v).1.commits_for_next_block ≡ Commit.block header ∷ []
  unfolding apply_commit
  apply_block-pending header v accepted =
      pushed-pending (Commit.block header) (apply_arm c v (Commit.block header) v.phase) []
        (λ h.
          ap (λ (t : BlockHeader × List Commit × List Commit). t.2)
            (apply_arm-Enters c v header v.phase h).1)
        accepted

  -- The root that a block must have.
  HasRoot : CommitSequenceVerifier → BlockHeader → Type 0
  HasRoot v header =
      calculate_commit_merkle_root c v.commits_for_next_block ≡ header.commit_merkle_root

  enter_block-root :
      (v : CommitSequenceVerifier) (header : BlockHeader) {w : CommitSequenceVerifier}
      → enter_block c v header ≡ ok w
      → HasRoot v header
  unfolding enter_block HasRoot
  enter_block-root v header h =
      elim (Bool-cases
        (calculate_commit_merkle_root c v.commits_for_next_block == header.commit_merkle_root)) [
          | inl same ↦ (==_iff _ _).0 same
          | inr other ↦ absurd (ground arith)
        ]

  settled :
      (v : CommitSequenceVerifier) (r : Result Error CommitSequenceVerifier)
      → (settle v r).0 ≡ ok tt
      → (w : CommitSequenceVerifier) × (r ≡ ok w)
  settled v (ok w) h = (w, refl)
  settled v (err _) h = absurd (ground arith)
  settled v panic h = absurd (ground arith)

  apply_arm-root :
      (v : CommitSequenceVerifier) (header : BlockHeader) (phase : Phase)
      → (apply_arm c v (Commit.block header) phase).0 ≡ ok tt
      → HasRoot v header
  unfolding apply_arm block_after_proof block_after_extra
  apply_arm-root v header (Phase.agenda_proof _) h =
      let (w, e) = settled v (block_after_proof c v header) h in
      by_parts (verify_header_to_header c v.header header) _ e
        λ _ _ entered. enter_block-root v header entered
  apply_arm-root v header (Phase.extra_agenda_transaction last) h =
      let (w, e) = settled v (block_after_extra c v last header) h in
      by_parts (verify_header_to_header c v.header header) _ e λ _ _ e'.
        by_parts (fail_if (ltb_ℤ header.timestamp last) invalid_timestamp) _ e'
          λ _ _ entered. enter_block-root v header entered
  apply_arm-root v header phase h = absurd (ground arith)

  apply_block-root :
      (header : BlockHeader) (v : CommitSequenceVerifier)
      → (apply_commit c (Commit.block header) v).0 ≡ ok tt
      → HasRoot v header
  unfolding apply_commit
  apply_block-root header v accepted =
      apply_arm-root v header v.phase (pushed_ok (Commit.block header) _ accepted)

  -- The first commit is accepted, and the rest behind it.
  verify_all-cons :
      (commit : Commit) (commits : List Commit) (v w : CommitSequenceVerifier)
      → verify_all c (commit ∷ commits) v ≡ ok w
      → ((apply_commit c commit v).0 ≡ ok tt)
        × (verify_all c commits (apply_commit c commit v).1 ≡ ok w)
  unfolding verify_all
  verify_all-cons commit commits v w h = elim (Result-cases (apply_commit c commit v).0) [
    | inl (_, fine) ↦ (fine, rw (fine, verify_all) at h)
    | inr (inl (e, refused)) ↦ absurd (ground arith)
    | inr (inr broken) ↦ absurd (ground arith)
  ]

  -- A block behind commits that are none has the root over these and what was there before.
  verify_all-root :
      (commits : List Commit) (header : BlockHeader) (v w : CommitSequenceVerifier)
      → ArePlain commits
      → verify_all c (commits ++ Commit.block header ∷ []) v ≡ ok w
      → calculate_commit_merkle_root c (v.commits_for_next_block ++ commits)
        ≡ header.commit_merkle_root
  unfolding HasRoot
  verify_all-root [] header v w plain h =
      ap (calculate_commit_merkle_root c) (append-nil v.commits_for_next_block)
      ∙ apply_block-root header v (verify_all-cons (Commit.block header) [] v w h).0
  verify_all-root (commit ∷ commits) header v w (plain, rest) h =
      let (fine, later) = verify_all-cons commit (commits ++ Commit.block header ∷ []) v w h in
      let pending = apply_plain-pending commit v plain fine in
      ap (calculate_commit_merkle_root c) (
        sym (append_assoc v.commits_for_next_block (commit ∷ []) commits)
        ∙ ap (λ xs. xs ++ commits) (sym pending))
      ∙ verify_all-root commits header (apply_commit c commit v).1 w rest later

  -- Commits that a verifier accepts after a block, up to the next block, are refused by a verifier that
  -- starts at the first block, if the Merkle root over that block and the commits between the two
  -- is not the root over these commits alone.
  pub verify_all_restart :
      (first second : BlockHeader) (commits : List Commit) (rs : ReservedState)
      (v w : CommitSequenceVerifier)
      → ArePlain commits
      → verify_all c (Commit.block first ∷ (commits ++ Commit.block second ∷ [])) v ≡ ok w
      → calculate_commit_merkle_root c (Commit.block first ∷ commits)
        ≢ calculate_commit_merkle_root c commits
      → (w' : CommitSequenceVerifier)
      → verify_all c (commits ++ Commit.block second ∷ []) (new first rs) ≢ ok w'
  unfolding new
  verify_all_restart first second commits rs v w plain accepted differ w' again =
      let (fine, later) =
        verify_all-cons (Commit.block first) (commits ++ Commit.block second ∷ []) v w accepted in
      let pending = apply_block-pending first v fine in
      let behind =
        verify_all-root commits second (apply_commit c (Commit.block first) v).1 w plain later in
      let alone = verify_all-root commits second (new first rs) w' plain again in
      differ (
        ap (λ xs. calculate_commit_merkle_root c (xs ++ commits)) (sym pending)
        ∙ behind
        ∙ sym alone)
