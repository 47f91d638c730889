-- ===== src/Repository/Advance.antt =====
-- Where the `finalized` branch stands after the steps of repository/src/interpret/works.rs.
pub mod Moved
use Prim.Native.String.{String}
use simperby.Base.{
  ◌≡◌, ◌≢◌, refl, ◌∙◌, Bool, true, false, ◌⊎◌, inl, inr, Option, none, some, List, [], ◌∷◌, arith,
  if◌then◌else◌,
}
use text.Mathlib.TextEquality.{eq_iff}
use simperby.Base.Text.{str_eq}
use simperby.Core.Types.{Diff}
use simperby.Core.Result.{Result, ok, err, panic}
use simperby.Repository.Types.{
  Branch, CommitHash, SemanticCommit, LastFinalizationProof, RepositoryError, RawError,
  finalized_branch_name, fp_branch_name, raw_error,
}
use simperby.Repository.Library.{Library}
use simperby.Repository.Git.{Git, GitError, Status, Reference, GitSignature, TreeId}
use simperby.Repository.Raw.Action.{Action, ◌>>=◌, lift, reads, relabel}
use simperby.Repository.Raw.Rules.{
  Ends, Ends-any, Ends-split, Ends-relabel, after_reads, after_lift, after_step, Frames,
  Frames-reads, Frames-lift, Frames-relabel, Frames-bind, Frames-pure, Frames-bool,
}
use simperby.Repository.Raw.Laws.{IsLawful, IsCheckedOut}
use simperby.Repository.Raw.Branches.{
  locate_branch, move_branch, create_branch, delete_branch, does,
}
use simperby.Repository.Raw.Commits.{create_semantic_commit, commit_on_head}
use simperby.Repository.Raw.Work.{
  is_wt_new, remove_as, remove_path, remove_untracked, checkout, checkout_clean, checkout_detach,
}
use simperby.Repository.Format.{fp_to_semantic_commit}
use simperby.Repository.Read.{formats}
use simperby.Repository.Acts.{raw, advance_finalized_branch}

module _ (g : Git) where
  -- What `find_branch` finds of the finalized branch.
  abbrev pub finalized_view : g.Repo → Result GitError Reference
  finalized_view r = g.find_branch r finalized_branch_name

  -- The branch stands on the commit, or is as it was.
  abbrev pub IsMovedTo : CommitHash → g.Repo → g.Repo → Type 0
  IsMovedTo hash before after =
      (finalized_view after ≡ finalized_view before)
      ⊎ (locate_branch g finalized_branch_name after ≡ ok hash)

  pub locate-view :
      (r r' : g.Repo)
      → finalized_view r' ≡ finalized_view r
      → locate_branch g finalized_branch_name r' ≡ locate_branch g finalized_branch_name r
  unfolding locate_branch
  locate-view r r' e = rw e

module _ (g : Git) (laws : IsLawful g) where
  remove_as-Frames :
      (kind : Option Bool) (path : String) → Frames (finalized_view g) (remove_as g kind path)
  unfolding remove_as
  remove_as-Frames none path = Frames-pure (finalized_view g) tt
  remove_as-Frames (some true) path =
      Frames-relabel (finalized_view g) _ (g.remove_dir_all path)
        (record { at = λ r. laws.remove_dir_all_keeps path r finalized_branch_name })
  remove_as-Frames (some false) path =
      Frames-relabel (finalized_view g) _ (g.remove_file path)
        (record { at = λ r. laws.remove_file_keeps path r finalized_branch_name })

  remove_path-Frames : (path : String) → Frames (finalized_view g) (remove_path g path)
  unfolding remove_path
  remove_path-Frames path = record {
    at = λ r. (remove_as-Frames (g.metadata_is_dir path r) path).at r;
  }

  remove_untracked-Frames :
      (workdir : String) (entries : List (Status × Option String))
      → Frames (finalized_view g) (remove_untracked g workdir entries)
  unfolding remove_untracked
  remove_untracked-Frames workdir [] = Frames-pure (finalized_view g) tt
  remove_untracked-Frames workdir ((status, path) ∷ entries) =
      Frames-bool (finalized_view g) (is_wt_new status) _ _
        (Frames-bind (finalized_view g) (lift _) _ (Frames-lift (finalized_view g) _) λ name.
          Frames-bind (finalized_view g) _ _ (remove_path-Frames _)
            λ _. remove_untracked-Frames workdir entries)
        (remove_untracked-Frames workdir entries)

  pub checkout_clean-Frames : Frames (finalized_view g) (checkout_clean g)
  unfolding checkout_clean
  checkout_clean-Frames =
      Frames-bind (finalized_view g) _ _
        (Frames-relabel (finalized_view g) _ g.reset_hard
          (record { at = λ r. laws.reset_hard_keeps r finalized_branch_name }))
        λ _.
          Frames-bind (finalized_view g) (reads _) _ (Frames-reads (finalized_view g) _) λ workdir.
            Frames-bind (finalized_view g) (reads _) _ (Frames-reads (finalized_view g) _)
              λ entries. remove_untracked-Frames workdir entries

  pub move_branch-Frames :
      (b : Branch) (h : CommitHash)
      → finalized_branch_name ≢ b
      → Frames (finalized_view g) (move_branch g b h)
  unfolding move_branch
  move_branch-Frames b h differs =
      Frames-bind (finalized_view g) (reads _) _ (Frames-reads (finalized_view g) _) λ _.
        Frames-relabel (finalized_view g) _ (g.set_target b h)
          (record { at = λ r. laws.set_target_keeps b h r finalized_branch_name differs })

  pub create_branch-Frames :
      (b : Branch) (h : CommitHash)
      → finalized_branch_name ≢ b
      → Frames (finalized_view g) (create_branch g b h)
  unfolding create_branch
  create_branch-Frames b h differs =
      Frames-bind (finalized_view g) (reads _) _ (Frames-reads (finalized_view g) _) λ _.
        Frames-relabel (finalized_view g) _ (g.branch b h)
          (record { at = λ r. laws.branch_keeps b h r finalized_branch_name differs })

  pub delete_branch-Frames :
      (b : Branch) → finalized_branch_name ≢ b → Frames (finalized_view g) (delete_branch g b)
  unfolding delete_branch
  delete_branch-Frames b differs =
      Frames-bind (finalized_view g) (reads _) _ (Frames-reads (finalized_view g) _) λ _.
        Frames-bind (finalized_view g) (reads _) _ (Frames-reads (finalized_view g) _)
          λ current. if_kept (str_eq current b)
    where
      if_kept :
          (t : Bool)
          → Frames
              (finalized_view g)
              (if t then lift (err RawError.invalid_repository) else does g (g.delete_branch b))
      if_kept true = Frames-lift (finalized_view g) _
      if_kept false =
          Frames-relabel (finalized_view g) _ (g.delete_branch b)
            (record { at = λ r. laws.delete_keeps b r finalized_branch_name differs })

  pub checkout_detach-Frames : (h : CommitHash) → Frames (finalized_view g) (checkout_detach g h)
  unfolding checkout_detach
  checkout_detach-Frames h =
      Frames-bind (finalized_view g) (reads _) _ (Frames-reads (finalized_view g) _) λ _.
        Frames-bind (finalized_view g) _ _
          (Frames-relabel (finalized_view g) _ (g.checkout_commit h)
            (record { at = λ r. laws.checkout_commit_keeps h r finalized_branch_name }))
          λ _.
            Frames-relabel (finalized_view g) _ (g.set_head_detached h)
              (record { at = λ r. laws.set_head_detached_keeps h r finalized_branch_name })

  -- A step that ends in `r'`: where the finalized branch stands is as before.
  abbrev pub Same : g.Repo → g.Repo → Type 0
  Same r r' = finalized_view g r' ≡ finalized_view g r

  set_head_lem :
      (b : Branch) (r r' : g.Repo)
      → Same r r'
      → Ends (λ _ r''. Same r r'' × IsCheckedOut g b r'') (Same r) (does g (g.set_head b) r')
  set_head_lem b r r' same =
      let kept : Same r (g.set_head b r').1 =
        laws.set_head_keeps b r' finalized_branch_name ∙ same in
      Ends-relabel (λ _ r''. Same r r'' × IsCheckedOut g b r'') (Same r) _ (g.set_head b) r'
        (Ends-split (λ _ r''. Same r r'' × IsCheckedOut g b r'') (Same r) (g.set_head b r')
          (λ a e. (kept, laws.set_head_checks_out b r' e)) kept)

  pub checkout_lem :
      (b : Branch) (r : g.Repo)
      → Ends (λ _ r'. Same r r' × IsCheckedOut g b r') (Same r) (checkout g b r)
  unfolding checkout
  checkout_lem b r =
      after_step (Ends (λ _ r'. Same r r' × IsCheckedOut g b r') (Same r)) (λ _. Same r) (Same r)
        (does g (g.checkout_branch b)) _ r
        (Ends-relabel (λ _. Same r) (Same r) _ (g.checkout_branch b) r
          (Ends-any (Same r) (g.checkout_branch b r)
            (laws.checkout_branch_keeps b r finalized_branch_name)))
        (λ r' e h. h) (λ r' h. h) (λ _ r' h. set_head_lem b r r' h)

  pub finalized-ne-fp : finalized_branch_name ≢ fp_branch_name
  finalized-ne-fp e = let same = (eq_iff finalized_branch_name fp_branch_name).1 e in cc

  commit_lem :
      (signature : GitSignature) (message : String) (tree : TreeId) (r : g.Repo)
      → IsCheckedOut g fp_branch_name r
      → Same r (commit_on_head g signature message tree r).1
  unfolding commit_on_head relabel
  commit_lem signature message tree r there =
      after_reads (λ o. Same r o.1) _ _ r (λ _. refl) refl
        λ head _.
          after_reads (λ o. Same r o.1) _ _ r (λ _. refl) refl
            λ _ _.
              laws.commit_keeps signature message tree head r fp_branch_name finalized_branch_name
                there finalized-ne-fp

  -- A semantic commit with no change of files, while `fp` is checked out.
  pub create_semantic_commit_lem :
      (s : SemanticCommit) (authored : Bool) (r : g.Repo)
      → s.diff ≡ Diff.empty
      → IsCheckedOut g fp_branch_name r
      → Same r (create_semantic_commit g s authored r).1
  unfolding create_semantic_commit
  create_semantic_commit_lem s authored r plain there =
      after_reads (λ o. Same r o.1) _ _ r (λ _. refl) refl
        λ signature _. rw plain (
          after_reads (λ o. Same r o.1) _ _ r (λ _. refl) refl
            λ tree _. commit_lem signature _ tree r there)

  pub fp_commit_plain :
      (lib : Library) (fp : LastFinalizationProof) (s : SemanticCommit)
      → formats (fp_to_semantic_commit lib fp) ≡ ok s
      → s.diff ≡ Diff.empty
  unfolding fp_to_semantic_commit
  fp_commit_plain lib fp s h = ground arith
