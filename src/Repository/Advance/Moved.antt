-- ===== src/Repository/Advance/Moved.antt =====
-- `advance_finalized_branch` of repository/src/interpret/works.rs: where it leaves the branch.
use simperby.Base.{◌≡◌, ◌≢◌, refl, ◌∙◌, true, ◌⊎◌, inl, inr, some, arith}
use simperby.Core.Result.{Result, ok, err, panic}
use simperby.Repository.Types.{
  CommitHash, LastFinalizationProof, RepositoryError, finalized_branch_name, fp_branch_name,
  raw_error,
}
use simperby.Repository.Library.{Library}
use simperby.Repository.Git.{Git, GitError, Reference}
use simperby.Repository.Raw.Action.{Action, ◌>>=◌, lift}
use simperby.Repository.Raw.Rules.{
  Ends, Ends-any, Ends-split, Ends-relabel, after_reads, after_lift, after_step, Frames,
  Frames-relabel,
}
use simperby.Repository.Raw.Laws.{IsLawful, IsCheckedOut}
use simperby.Repository.Raw.Branches.{locate_branch, move_branch, does}
use simperby.Repository.Raw.Commits.{create_semantic_commit}
use simperby.Repository.Raw.Work.{checkout, checkout_clean, checkout_detach}
use simperby.Repository.Format.{fp_to_semantic_commit}
use simperby.Repository.Read.{formats}
use simperby.Repository.Acts.{raw, advance_finalized_branch}
use simperby.Repository.Advance.{
  finalized_view, IsMovedTo, locate-view, Same, checkout_clean-Frames, checkout_detach-Frames,
  move_branch-Frames, checkout_lem, create_semantic_commit_lem, fp_commit_plain, finalized-ne-fp,
}

module _ (g : Git) (laws : IsLawful g) (hash : CommitHash) where
  abbrev At : g.Repo → Type 0
  At r = locate_branch g finalized_branch_name r ≡ ok hash

  At-Same : (r r' : g.Repo) → At r → Same g laws r r' → At r'
  At-Same r r' at same = locate-view g r r' same ∙ at

  Frames-At :
      {E A : Type 0} (m : Action g.Repo E A) (r : g.Repo)
      → Frames (finalized_view g) m
      → At r
      → Ends (λ _. At) At (m r)
  Frames-At m r frames at = Ends-any At (m r) (At-Same r (m r).1 at (frames.at r))

  moved_target :
      (r : g.Repo) (found : Reference)
      → g.find_branch r finalized_branch_name ≡ ok found
      → found.target ≡ some hash
      → At r
  unfolding locate_branch
  moved_target r found e t = rw (locate_branch, e, t)

  set_target_lem :
      (r r1 : g.Repo)
      → Same g laws r r1
      → Ends (λ _. At) (IsMovedTo g hash r) (does g (g.set_target finalized_branch_name hash) r1)
  set_target_lem r r1 same =
      Ends-relabel (λ _. At) (IsMovedTo g hash r) _ (g.set_target finalized_branch_name hash) r1
        (elim (is_moved (g.set_target finalized_branch_name hash r1).0) [
          | inl done ↦
              let (found, e, t) = laws.set_target_moves finalized_branch_name hash r1 done in
              let at = moved_target _ found e t in
              Ends-split (λ _. At) (IsMovedTo g hash r) _ (λ _ _. at) (inr at)
          | inr failed ↦
              Ends-split (λ _. At) (IsMovedTo g hash r) _ (λ _ e. absurd (failed e))
                (inl (
                  laws.set_target_fails finalized_branch_name hash r1 failed finalized_branch_name
                  ∙ same))
        ])
    where
      is_moved : (result : Result GitError (Unit {0})) → (result ≡ ok tt) ⊎ (result ≢ ok tt)
      is_moved (ok _) = inl refl
      is_moved (err e) = inr (λ h. absurd (ground arith))
      is_moved panic = inr (λ h. absurd (ground arith))

  move_lem :
      (r r1 : g.Repo)
      → Same g laws r r1
      → Ends (λ _. At) (IsMovedTo g hash r) (move_branch g finalized_branch_name hash r1)
  unfolding move_branch
  move_lem r r1 same =
      after_reads (Ends (λ _. At) (IsMovedTo g hash r)) _ _ r1 (λ e. inl same) (inl same)
        λ _ _. set_target_lem r r1 same

  -- The last steps, on the `fp` branch.
  commit_fp_lem :
      (lib : Library) (fp : LastFinalizationProof) (r r4 : g.Repo)
      → At r4
      → IsCheckedOut g fp_branch_name r4
      → Ends
          (λ _. At)
          (IsMovedTo g hash r)
          ((lift (formats (fp_to_semantic_commit lib fp)) >>= λ s.
              raw g (create_semantic_commit g s true) >>= λ _. raw g (checkout_detach g hash))
            r4)
  commit_fp_lem lib fp r r4 at4 there =
      after_lift T _ _ r4 (λ e. inr at4) (inr at4)
        λ s parsed.
          after_step T (λ _. At) At (raw g (create_semantic_commit g s true)) _ r4
            (Ends-relabel (λ _. At) At raw_error _ r4
              (Ends-any At _ (
                At-Same r4 _ at4 (
                  create_semantic_commit_lem g laws s true r4
                    (fp_commit_plain g laws lib fp s parsed) there))))
            (λ r' e h. inr h) (λ r' h. inr h)
            λ _ r5 at5.
              Ends-split (λ _. At) (IsMovedTo g hash r) _ (λ _ _. detached r5 at5)
                (inr (detached r5 at5))
    where
      T : Result RepositoryError (Unit {0}) × g.Repo → Type 0
      T = Ends (λ _. At) (IsMovedTo g hash r)

      detached : (r5 : g.Repo) → At r5 → At (raw g (checkout_detach g hash) r5).1
      detached r5 at5 = At-Same r5 _ at5 (
          (Frames-relabel (finalized_view g) raw_error _ (checkout_detach-Frames g laws hash)).at
            r5)

  -- `advance_finalized_branch` leaves the branch on the commit if it succeeds, and there or where it
  -- was if it does not.
  pub advance_finalized_branch-IsMovedTo :
      (lib : Library) (fp : LastFinalizationProof) (r : g.Repo)
      → Ends (λ _. At) (IsMovedTo g hash r) (advance_finalized_branch lib g hash fp r)
  unfolding advance_finalized_branch
  advance_finalized_branch-IsMovedTo lib fp r =
      after_step T (λ _. Same g laws r) (Same g laws r) (raw g (checkout_clean g)) _ r
        (Ends-any (Same g laws r) _
          ((Frames-relabel (finalized_view g) raw_error _ (checkout_clean-Frames g laws)).at r))
        (λ r' e h. inl h) (λ r' h. inl h)
        λ _ r1 same.
          after_step T (λ _. At) (IsMovedTo g hash r)
            (raw g (move_branch g finalized_branch_name hash)) _ r1
            (Ends-relabel (λ _. At) (IsMovedTo g hash r) raw_error _ r1 (move_lem r r1 same))
            (λ r' e h. h) (λ r' h. h)
            λ _ r2 at.
              after_step T (λ _. At) At (raw g (move_branch g fp_branch_name hash)) _ r2
                (Frames-At _ r2
                  (Frames-relabel (finalized_view g) raw_error _
                    (move_branch-Frames g laws fp_branch_name hash (finalized-ne-fp g laws)))
                  at)
                (λ r' e h. inr h) (λ r' h. inr h)
                λ _ r3 at3.
                  after_step T (λ _ r'. Same g laws r3 r' × IsCheckedOut g fp_branch_name r')
                    (Same g laws r3) (raw g (checkout g fp_branch_name)) _ r3
                    (Ends-relabel _ (Same g laws r3) raw_error _ r3
                      (checkout_lem g laws fp_branch_name r3))
                    (λ r' e h. inr (At-Same r3 r' at3 h)) (λ r' h. inr (At-Same r3 r' at3 h))
                    λ _ r4 h. commit_fp_lem lib fp r r4 (At-Same r3 r4 at3 h.0) h.1
    where
      T : Result RepositoryError (Unit {0}) × g.Repo → Type 0
      T = Ends (λ _. At) (IsMovedTo g hash r)
