-- ===== src/Repository/Sync/Safe.antt =====
-- Where `sync` of repository/src/interpret/works.rs can move the `finalized` branch.
use simperby.Base.{
  ◌≡◌, refl, ◌∙◌, true, ◌⊎◌, inl, inr, some, List, ◌==◌, ltb, length, get_elem?, Bool-cases,
}
use simperby.Core.Types.{Commit}
use simperby.Core.Crypto.{Crypto}
use simperby.Core.Kept.{Result-cases}
use simperby.Core.Result.{Result, ok, err, panic}
use simperby.Core.Sequence.{
  CommitSequenceVerifier, new, get_block_headers, verify_last_header_finalization,
}
use simperby.Repository.Types.{
  CommitHash, LastFinalizationProof, FinalizationInfo, RepositoryError, FormatError, Received,
  finalized_branch_name, unread, unparsed,
}
use simperby.Repository.Library.{Library}
use simperby.Repository.Format.{fp_from_semantic_commit}
use simperby.Repository.Git.{Git}
use simperby.Repository.Raw.Action.{pure, lift}
use simperby.Repository.Raw.Rules.{Ends, Ends-any, after_reads, after_step}
use simperby.Repository.Raw.Laws.{IsLawful}
use simperby.Repository.Raw.Branches.{locate_branch}
use simperby.Repository.Read.{
  last_of, second_to_last, is_ok, read_last_finalization_info, read_commits, verify_all, commits_of,
}
use simperby.Repository.Read.Verified.{AreAccepted}
use simperby.Repository.Acts.{after_expect, Acts, advance_finalized_branch}
use simperby.Repository.Sync.Frame.{
  IsOther, name_branch-Frames, name_branch-Named, add_branch-Frames,
}
use simperby.Repository.Advance.Moved.{advance_finalized_branch-IsMovedTo}
use simperby.Repository.Advance.{finalized_view, locate-view, IsMovedTo}
use simperby.Repository.Sync.{
  Naming, ends_with_block, receive_commits, finish_finalized, finalize_earlier, name_branch,
  finish_branch, sync_fp, sync_branch, sync,
}
use simperby.Repository.Sync.Cause.{IsProved, IsPassed, IsSafe, block_of_end, IsMovedTo-IsSafe}

module _ (c : Crypto) (lib : Library) (g : Git) where
  module _ (laws : IsLawful g) where
    advance-IsSafe :
        (hash : CommitHash) (fp : LastFinalizationProof) (r : g.Repo)
        → (IsProved c lib g r hash ⊎ IsPassed c lib g r hash)
        → IsSafe c lib g r (advance_finalized_branch lib g hash fp r).1
    advance-IsSafe hash fp r cause =
        go (advance_finalized_branch lib g hash fp r)
          (advance_finalized_branch-IsMovedTo g laws hash lib fp r)
      where
        go :
            (o : Result RepositoryError (Unit {0}) × g.Repo)
            → Ends
                (λ _ r'. locate_branch g finalized_branch_name r' ≡ ok hash)
                (IsMovedTo g hash r)
                o
            → IsSafe c lib g r o.1
        go (ok a, r') at = inr (hash, at, cause)
        go (err e, r') moved = IsMovedTo-IsSafe c lib g hash r r' cause moved
        go (panic, r') moved = IsMovedTo-IsSafe c lib g hash r r' cause moved

    finish_finalized-IsSafe :
        (r : g.Repo) (lfi : FinalizationInfo) (tip : CommitHash)
        (commits : List (Commit × CommitHash)) (csv : CommitSequenceVerifier)
        (fp : LastFinalizationProof)
        → AreAccepted c lib g r lfi tip commits csv
        → IsSafe c lib g r (finish_finalized c lib g fp commits csv r).1
    unfolding finish_finalized pure
    finish_finalized-IsSafe r lfi tip commits csv fp good =
        after_expect g (λ o. IsSafe c lib g r o.1) (last_of commits) _ r (inl refl)
          λ (commit, hash) last. elim (Bool-cases (ends_with_block commit)) [
            | inr other ↦ rw other (inl refl)
            | inl block ↦
                elim (Bool-cases (is_ok (verify_last_header_finalization c csv fp.proof))) [
                  | inr bad ↦ rw (block, bad) (inl refl)
                  | inl proved ↦
                      rw (block, proved)
                        (after_step (λ o. IsSafe c lib g r o.1) (λ _. IsSafe c lib g r)
                          (IsSafe c lib g r) (advance_finalized_branch lib g hash fp) _ r
                          (Ends-any (IsSafe c lib g r) _
                            (advance-IsSafe hash fp r (inl (proof commit hash last block proved))))
                          (λ r' e h. h) (λ r' h. h) (λ _ r' h. h))
                ]
          ]
      where
        proof :
            (commit : Commit) (hash : CommitHash)
            → last_of commits ≡ some (commit, hash)
            → ends_with_block commit ≡ true
            → is_ok (verify_last_header_finalization c csv fp.proof) ≡ true
            → IsProved c lib g r hash
        proof commit hash last block proved =
            let (header, e) = block_of_end c lib g commit block in
            record {
              lfi = lfi;
              tip = tip;
              commits = commits;
              csv = csv;
              are_accepted = good;
              header = header;
              is_last = rw e at last;
              fp = fp;
              proved = proved;
            }

    finalize_earlier-IsSafe :
        (r : g.Repo) (lfi : FinalizationInfo) (tip : CommitHash)
        (commits : List (Commit × CommitHash)) (csv : CommitSequenceVerifier)
        → AreAccepted c lib g r lfi tip commits csv
        → IsSafe c lib g r (finalize_earlier c lib g commits csv r).1
    unfolding finalize_earlier pure
    finalize_earlier-IsSafe r lfi tip commits csv good =
        elim (Bool-cases (ltb 2 (length (get_block_headers csv)))) [
          | inr few ↦ rw (few, finalize_earlier) (inl refl)
          | inl many ↦
              rw (many, finalize_earlier)
                (after_expect g (λ o. IsSafe c lib g r o.1) (last_of (get_block_headers csv)) _ r
                  (inl refl)
                  λ (last, _) _.
                    after_expect g (λ o. IsSafe c lib g r o.1)
                      (second_to_last (get_block_headers csv)) _ r (inl refl)
                      λ (second, index) is_second.
                        after_expect g (λ o. IsSafe c lib g r o.1) (get_elem? commits index) _ r
                          (inl refl)
                          λ (commit, hash) is_there. advance-IsSafe hash _ r (
                            inr (record {
                              lfi = lfi;
                              tip = tip;
                              commits = commits;
                              csv = csv;
                              are_accepted = good;
                              header = second;
                              index = index;
                              is_second = is_second;
                              commit = commit;
                              is_there = is_there;
                            })))
        ]

    IsSafe-Same :
        (r r' r'' : g.Repo)
        → IsSafe c lib g r r'
        → finalized_view g r'' ≡ finalized_view g r'
        → IsSafe c lib g r r''
    IsSafe-Same r r' r'' (inl same) e = inl (e ∙ same)
    IsSafe-Same r r' r'' (inr (hash, at, cause)) e = inr (hash, locate-view g r' r'' e ∙ at, cause)

    finish_branch-IsSafe :
        (r : g.Repo) (lfi : FinalizationInfo) (tip : CommitHash)
        (commits : List (Commit × CommitHash)) (csv : CommitSequenceVerifier)
        → AreAccepted c lib g r lfi tip commits csv
        → IsSafe c lib g r (finish_branch c lib g tip commits csv r).1
    unfolding finish_branch
    finish_branch-IsSafe r lfi tip commits csv good =
        after_step T (λ _. IsSafe c lib g r) (IsSafe c lib g r)
          (finalize_earlier c lib g commits csv) _ r
          (Ends-any (IsSafe c lib g r) _ (finalize_earlier-IsSafe r lfi tip commits csv good))
          (λ r' e h. h) (λ r' h. h)
          λ _ r1 safe1. after_expect g T (last_of commits) _ r1 safe1 λ (commit, _) _.
            after_step T (λ naming r'. IsSafe c lib g r r' × IsOther naming) (IsSafe c lib g r)
              (name_branch c lib g commit commits) _ r1
              (both (name_branch c lib g commit commits r1)
                (IsSafe-Same r r1 _ safe1 ((name_branch-Frames c lib g laws commit commits).at r1))
                (name_branch-Named c lib g laws commit commits r1))
              (λ r' e h. h) (λ r' h. h)
              λ naming r2 (safe2, other).
                IsSafe-Same r r2 _ safe2 ((add_branch-Frames c lib g laws tip naming other).at r2)
      where
        T : Result RepositoryError Received × g.Repo → Type 0
        T o = IsSafe c lib g r o.1

        both :
            (o : Result RepositoryError Naming × g.Repo)
            → IsSafe c lib g r o.1
            → Ends (λ naming _. IsOther naming) (λ _. Unit {0}) o
            → Ends (λ naming r'. IsSafe c lib g r r' × IsOther naming) (IsSafe c lib g r) o
        both (ok naming, r') safe other = (safe, other)
        both (err _, r') safe other = safe
        both (panic, r') safe other = safe

    receive_commits-IsSafe :
        (r : g.Repo) (lfi : FinalizationInfo) (tip : CommitHash)
        (then_do : List (Commit × CommitHash) → CommitSequenceVerifier → Acts g Received)
        → read_last_finalization_info lib g r ≡ ok lfi
        → ((commits : List (Commit × CommitHash)) (csv : CommitSequenceVerifier)
            → AreAccepted c lib g r lfi tip commits csv
            → IsSafe c lib g r (then_do commits csv r).1)
        → IsSafe c lib g r
            (receive_commits c lib g lfi.commit_hash tip
              (new lfi.header lfi.reserved_state)
              then_do
              r).1
    unfolding receive_commits
    receive_commits-IsSafe r lfi tip then_do info going =
        elim (Result-cases (read_commits lib g lfi.commit_hash tip r)) [
          | inr (inr broken) ↦ rw (broken, receive_commits) (inl refl)
          | inr (inl (unread e, failed)) ↦ rw (failed, receive_commits) (inl refl)
          | inr (inl (unparsed e hash, failed)) ↦ rw (failed, receive_commits) (inl refl)
          | inl (commits, read) ↦
              elim (Result-cases
                (verify_all c (commits_of commits) (new lfi.header lfi.reserved_state))) [
                  | inr (inr broken) ↦ rw (read, broken, receive_commits) (inl refl)
                  | inr (inl (e, failed)) ↦ rw (read, failed, receive_commits) (inl refl)
                  | inl (csv, verified) ↦
                      rw (read, verified, receive_commits)
                        (going commits csv
                          (record { info = info; read = read; verified = verified }))
                ]
        ]

    sync_fp-IsSafe :
        (r : g.Repo) (lfi : FinalizationInfo) (tip : CommitHash) (fp : LastFinalizationProof)
        → read_last_finalization_info lib g r ≡ ok lfi
        → IsSafe c lib g r (sync_fp c lib g lfi (new lfi.header lfi.reserved_state) tip fp r).1
    unfolding sync_fp pure
    sync_fp-IsSafe r lfi tip fp info =
        after_reads (λ o. IsSafe c lib g r o.1) _ _ r (λ _. inl refl) (inl refl)
          λ ancestors _.
            after_expect g (λ o. IsSafe c lib g r o.1) (get_elem? ancestors 0) _ r (inl refl)
              λ hash _. elim (Bool-cases (hash == lfi.commit_hash)) [
                | inl same ↦ rw same (inl refl)
                | inr new_one ↦ rw new_one (
                    receive_commits-IsSafe r lfi hash (finish_finalized c lib g fp) info
                      λ commits csv good. finish_finalized-IsSafe r lfi hash commits csv fp good)
              ]

    sync_branch-IsSafe :
        (r : g.Repo) (lfi : FinalizationInfo) (tip : CommitHash)
        → read_last_finalization_info lib g r ≡ ok lfi
        → IsSafe c lib g r (sync_branch c lib g lfi (new lfi.header lfi.reserved_state) tip r).1
    unfolding sync_branch pure
    sync_branch-IsSafe r lfi tip info = elim (Bool-cases (tip == lfi.commit_hash)) [
      | inl same ↦ rw (same, sync_branch) (inl refl)
      | inr new_one ↦
          rw (new_one, sync_branch)
            (receive_commits-IsSafe r lfi tip (finish_branch c lib g tip) info
              λ commits csv good. finish_branch-IsSafe r lfi tip commits csv good)
    ]

    -- However `sync` ends, by acceptance, refusal, error or panic, the `finalized` branch is where it was
    -- or on a commit of a branch that begins at the last finalized block and whose commits up to its tip
    -- the verifier has accepted one after the other: on its last commit, which is a block that the
    -- finalization proof finalizes, or on the one at the place that the verifier gives to the last header
    -- but one.
    pub sync-IsSafe : (tip : CommitHash) (r : g.Repo) → IsSafe c lib g r (sync c lib g tip r).1
    unfolding sync pure lift
    sync-IsSafe tip r =
        after_reads (λ o. IsSafe c lib g r o.1) _ _ r (λ _. inl refl) (inl refl)
          λ lfi info.
            after_reads (λ o. IsSafe c lib g r o.1) _ _ r (λ _. inl refl) (inl refl)
              λ base _. elim (Bool-cases (base == lfi.commit_hash)) [
                | inr other ↦ rw other (inl refl)
                | inl same ↦ rw same (
                    after_reads (λ o. IsSafe c lib g r o.1) _ _ r (λ _. inl refl) (inl refl)
                      λ s _. by_tip r lfi tip info (fp_from_semantic_commit lib s))
              ]
      where
        by_tip :
            (r : g.Repo) (lfi : FinalizationInfo) (tip : CommitHash)
            → read_last_finalization_info lib g r ≡ ok lfi
            → (fp : Result FormatError LastFinalizationProof)
            → IsSafe c lib g r
                (elim fp as (λ _. Acts g Received) [
                  | ok fp ↦ sync_fp c lib g lfi (new lfi.header lfi.reserved_state) tip fp
                  | err _ ↦ sync_branch c lib g lfi (new lfi.header lfi.reserved_state) tip
                  | panic ↦ lift panic
                ]
                  r).1
        by_tip r lfi tip info (ok fp) = sync_fp-IsSafe r lfi tip fp info
        by_tip r lfi tip info (err e) = sync_branch-IsSafe r lfi tip info
        by_tip r lfi tip info panic = inl refl
