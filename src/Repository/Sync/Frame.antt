-- ===== src/Repository/Sync/Frame.antt =====
-- The steps of `sync` that give a branch to the tip leave the `finalized` branch alone.
use Prim.Native.Char.{Char, code}
use Prim.Native.String.{String}
use text.Mathlib.TextLemmas.{cons-append, head-eq_of_cons-eq}
use simperby.Base.{
  ◌≢◌, refl, ◌∙◌, ap, Bool, true, false, inl, inr, Option, none, some, List, [], ◌∷◌, arith,
  Bool-cases, Option-cases, if◌then◌else◌,
}
use simperby.Core.Types.{Commit, Hash256}
use simperby.Core.Crypto.{Crypto}
use simperby.Core.Result.{Result}
use simperby.Repository.Types.{
  Branch, CommitHash, RepositoryError, finalized_branch_name, raw_error,
}
use simperby.Repository.Library.{Library}
use simperby.Repository.Git.{Git}
use simperby.Repository.Raw.Action.{pure, lift, reads}
use simperby.Repository.Raw.Rules.{
  Frames, Frames-pure, Frames-reads, Frames-lift, Frames-relabel, Frames-bind, Frames-bool,
  Frames-option, Ends, Ends-any, after_reads, after_step,
}
use simperby.Repository.Raw.Laws.{IsLawful}
use simperby.Repository.Raw.Branches.{locate_branch}
use simperby.Repository.Acts.{Acts, expect, agenda_branch, block_branch}
use simperby.Repository.Read.{is_ok, second_to_last}
use simperby.Repository.Advance.{finalized_view, create_branch-Frames, delete_branch-Frames}
use simperby.Repository.Sync.{
  Naming, named, refused, approves, is_approved, drop_agenda_branch, agenda_hash_of, name_branch,
  add_branch,
}

differs_at_head :
    (c d : Char) (s t : String)
    → code c ≢ code d
    → ◌≢◌ {A = String} (String.◌∷◌ c s) (String.◌∷◌ d t)
differs_at_head c d s t differ e = differ (ap code (head-eq_of_cons-eq e))

module _ (lib : Library) where
  agenda_branch_differs : (hash : Hash256) → finalized_branch_name ≢ agenda_branch lib hash
  unfolding agenda_branch
  agenda_branch_differs hash e =
      differs_at_head "f" "a" "inalized" _ (λ h. absurd (omega arith)) (e ∙ cons-append "a" "-" _)

  block_branch_differs : (hash : Hash256) → finalized_branch_name ≢ block_branch lib hash
  unfolding block_branch
  block_branch_differs hash e =
      differs_at_head "f" "b" "inalized" _ (λ h. absurd (omega arith)) (e ∙ cons-append "b" "-" _)

-- The name is not that of the finalized branch.
abbrev pub IsOther : Naming → Type 0
IsOther (named branch) = finalized_branch_name ≢ branch
IsOther (refused _) = Unit {0}

module _ (c : Crypto) (lib : Library) (g : Git) (laws : IsLawful g) where
  abbrev Leaves : {A : Type 0} → Acts g A → Type 0
  Leaves m = Frames (finalized_view g) m

  is_approved-Frames :
      (hash : Hash256) (approved : List (CommitHash × Hash256))
      → Leaves (is_approved c lib g hash approved)
  unfolding is_approved
  is_approved-Frames hash [] = Frames-pure (finalized_view g) false
  is_approved-Frames hash ((commit_hash, _) ∷ more) =
      Frames-bind (finalized_view g) (reads _) _ (Frames-reads (finalized_view g) _) λ commit.
        Frames-option (finalized_view g) (approves hash commit) (lift _) _
          (Frames-lift (finalized_view g) _)
          λ same.
            Frames-bool (finalized_view g) same (pure true) _ (Frames-pure (finalized_view g) true)
              (is_approved-Frames hash more)

  drop_agenda_branch-Frames :
      (branch : Branch)
      → finalized_branch_name ≢ branch
      → Leaves (drop_agenda_branch c lib g branch)
  unfolding drop_agenda_branch
  drop_agenda_branch-Frames branch differs = record {
    at = λ r. elim (Bool-cases (is_ok (locate_branch g branch r))) [
      | inl there ↦
          rw (there, drop_agenda_branch)
            ((Frames-relabel (finalized_view g) raw_error _
                (delete_branch-Frames g laws branch differs)).at
              r)
      | inr absent ↦ rw (absent, drop_agenda_branch) refl
    ];
  }

  expect-Frames : {A : Type 0} (o : Option A) → Leaves (expect g o)
  expect-Frames none = Frames-lift (finalized_view g) _
  expect-Frames (some a) = Frames-pure (finalized_view g) a

  pub name_branch-Frames :
      (commit : Commit) (commits : List (Commit × CommitHash))
      → Leaves (name_branch c lib g commit commits)
  unfolding name_branch
  name_branch-Frames (Commit.agenda agenda) commits =
      Frames-bind (finalized_view g) (reads _) _ (Frames-reads (finalized_view g) _) λ approved.
        Frames-bind (finalized_view g) _ _ (is_approved-Frames _ approved)
          λ done. Frames-pure (finalized_view g) _
  name_branch-Frames (Commit.agenda_proof proof) commits =
      Frames-bind (finalized_view g) _ _ (expect-Frames (second_to_last commits)) λ (parent, _).
        Frames-option (finalized_view g) (agenda_hash_of c lib g parent) (lift _) _
          (Frames-lift (finalized_view g) _)
          λ hash.
            Frames-bind (finalized_view g) _ _
              (drop_agenda_branch-Frames _ (agenda_branch_differs lib hash))
              λ _. Frames-pure (finalized_view g) _
  name_branch-Frames (Commit.block header) commits = Frames-pure (finalized_view g) _
  name_branch-Frames (Commit.transaction _) commits = Frames-pure (finalized_view g) _
  name_branch-Frames (Commit.extra_agenda_transaction _) commits = Frames-pure (finalized_view g) _
  name_branch-Frames (Commit.chat_log _) commits = Frames-pure (finalized_view g) _

  -- The name that is given is not that of the finalized branch.
  abbrev Named : Result RepositoryError Naming × g.Repo → Type 0
  Named = Ends (λ naming _. IsOther naming) (λ _. Unit {0})

  chosen :
      (done : Bool) (why : Naming) (naming : Naming)
      → IsOther why
      → IsOther naming
      → IsOther (if done then why else naming)
  chosen true why naming h k = h
  chosen false why naming h k = k

  pub name_branch-Named :
      (commit : Commit) (commits : List (Commit × CommitHash)) (r : g.Repo)
      → Named (name_branch c lib g commit commits r)
  unfolding name_branch pure lift
  name_branch-Named (Commit.agenda agenda) commits r =
      after_reads Named _ _ r (λ _. tt) tt
        λ approved _.
          after_step Named (λ _ _. Unit {0}) (λ _. Unit {0}) _ _ r (Ends-any (λ _. Unit {0}) _ tt)
            (λ _ _ _. tt) (λ _ _. tt) λ done r' _. chosen done _ _ tt (agenda_branch_differs lib _)
  name_branch-Named (Commit.agenda_proof proof) commits r =
      after_step Named (λ _ _. Unit {0}) (λ _. Unit {0}) _ _ r (Ends-any (λ _. Unit {0}) _ tt)
        (λ _ _ _. tt) (λ _ _. tt)
        λ (parent, _) r' _. elim (Option-cases (agenda_hash_of c lib g parent)) [
          | inl other ↦ rw other tt
          | inr (hash, is) ↦ rw is (
              after_step Named (λ _ _. Unit {0}) (λ _. Unit {0}) _ _ r'
                (Ends-any (λ _. Unit {0}) _ tt) (λ _ _ _. tt) (λ _ _. tt)
                λ _ r'' _. agenda_branch_differs lib _)
        ]
  name_branch-Named (Commit.block header) commits r = block_branch_differs lib _
  name_branch-Named (Commit.transaction _) commits r = tt
  name_branch-Named (Commit.extra_agenda_transaction _) commits r = tt
  name_branch-Named (Commit.chat_log _) commits r = tt

  pub add_branch-Frames :
      (tip : CommitHash) (naming : Naming) → IsOther naming → Leaves (add_branch c lib g tip naming)
  unfolding add_branch
  add_branch-Frames tip (refused why) other = record { at = λ r. refl }
  add_branch-Frames tip (named branch) other = record {
    at = λ r. elim (Bool-cases (is_ok (locate_branch g branch r))) [
      | inl there ↦ rw (there, add_branch)
      | inr absent ↦
          rw (absent, add_branch)
            ((Frames-bind (finalized_view g) _ _
                (Frames-relabel (finalized_view g) raw_error _
                  (create_branch-Frames g laws branch tip other))
                (λ _. Frames-pure (finalized_view g) _)).at
              r)
    ];
  }
