-- ===== src/Repository/Create/Made.antt =====
-- The three operations of repository/src/interpret/create.rs that make a commit on HEAD.
use simperby.Base.{refl}
use simperby.Core.Types.{
  BlockHeader, PublicKey, MemberName, Timestamp, Commit, Agenda, ExtraAgendaTransaction,
}
use Prim.Native.String.{String}
use simperby.Core.Crypto.{Crypto}
use simperby.Core.Result.{Result, err, panic, map_err-eq-ok}
use simperby.Repository.Types.{CommitHash, RepositoryError}
use simperby.Repository.Library.{Library}
use simperby.Repository.Git.{Git}
use simperby.Repository.Raw.Action.{pure, lift}
use simperby.Repository.Raw.Rules.{after_reads, after_lift}
use simperby.Repository.Read.{commits_of}
use simperby.Repository.Create.{
  new_agenda, new_block, create_agenda, create_block, create_extra_agenda_transaction,
}
use simperby.Repository.Create.Accepted.{
  Makes, after_rebased, after_any, failed, broken, accepted_on, failed_later, broken_later,
  last_step, returned,
}

module _ (c : Crypto) (lib : Library) (g : Git) (r : g.Repo) where
  create_block-Makes :
      (author : PublicKey) (now : Timestamp) (version : String)
      → Makes c lib g
          (λ (x : BlockHeader × CommitHash). Commit.block x.0)
          r
          (create_block c lib g author now version r)
  unfolding create_block pure lift
  create_block-Makes author now version = after_reads T _ _ r no bad λ _ _.
      after_reads T _ _ r no bad λ head h1. after_reads T _ _ r no bad λ finalized h2.
        after_rebased c lib g T finalized head _ r no bad λ h3.
          after_reads T _ _ r no bad λ commits h4. after_reads T _ _ r no bad λ last h5.
            after_reads T _ _ r no bad λ reserved_state h6. after_lift T _ _ r no bad λ csv h7.
              after_reads T _ _ r no bad λ fp_hash _. after_reads T _ _ r no bad λ fp_commit _.
                after_lift T _ _ r no bad λ fp _. after_lift T _ _ r no bad λ validators _.
                  after_lift T _ _ r no bad λ next h8. after_lift T _ _ r no bad λ s _.
                    let block = Commit.block (
                      new_block c lib g author now fp.proof last (commits_of commits) validators
                        version) in
                    let k =
                      accepted_on c lib g r block head finalized commits last reserved_state csv
                        next (map_err-eq-ok _ _ h1) (map_err-eq-ok _ _ h2) h3 (map_err-eq-ok _ _ h4)
                        h5 h6 (map_err-eq-ok _ _ h7) (map_err-eq-ok _ _ h8) in
                    let no' = failed_later c lib g r made block k in
                    let bad' = broken_later c lib g r made block k in
                    after_any c lib g T _ _ _ no' bad' λ _ _.
                      after_any c lib g T _ _ _ no' bad' λ _ _.
                        after_any c lib g T _ _ _ no' bad' λ result _.
                          after_any c lib g T _ _ _ no' bad' λ _ _.
                            after_any c lib g T _ _ _ no' bad'
                              λ _ s'. returned c lib g r made block _ refl k s'
    where
      made : BlockHeader × CommitHash → Commit
      made (header, _) = Commit.block header

      T : Result RepositoryError (BlockHeader × CommitHash) × g.Repo → Type 0
      T = Makes c lib g made r

      no : (e : RepositoryError) → T (err e, r)
      no = failed c lib g r made

      bad : T (panic, r)
      bad = broken c lib g r made

  create_agenda-Makes :
      (author : MemberName) (now : Timestamp)
      → Makes c lib g
          (λ (x : Agenda × CommitHash). Commit.agenda x.0)
          r
          (create_agenda c lib g author now r)
  unfolding create_agenda pure lift
  create_agenda-Makes author now = after_reads T _ _ r no bad λ last h5.
      after_reads T _ _ r no bad λ _ _. after_reads T _ _ r no bad λ head h1.
        after_reads T _ _ r no bad λ finalized h2.
          after_rebased c lib g T finalized head _ r no bad λ h3.
            after_reads T _ _ r no bad λ reserved_state h6. after_reads T _ _ r no bad λ commits h4.
              after_lift T _ _ r no bad λ csv h7. after_lift T _ _ r no bad λ next h8.
                after_lift T _ _ r no bad λ s _.
                  let agenda =
                    Commit.agenda (new_agenda c lib g author now last (commits_of commits)) in
                  let k =
                    accepted_on c lib g r agenda head finalized commits last reserved_state csv next
                      (map_err-eq-ok _ _ h1) (map_err-eq-ok _ _ h2) h3 (map_err-eq-ok _ _ h4) h5 h6
                      (map_err-eq-ok _ _ h7) (map_err-eq-ok _ _ h8) in
                  let no' = failed_later c lib g r made agenda k in
                  let bad' = broken_later c lib g r made agenda k in
                  after_any c lib g T _ _ _ no' bad' λ _ _.
                    after_any c lib g T _ _ _ no' bad' λ result _.
                      after_any c lib g T _ _ _ no' bad'
                        λ _ s'. returned c lib g r made agenda _ refl k s'
    where
      made : Agenda × CommitHash → Commit
      made (agenda, _) = Commit.agenda agenda

      T : Result RepositoryError (Agenda × CommitHash) × g.Repo → Type 0
      T = Makes c lib g made r

      no : (e : RepositoryError) → T (err e, r)
      no = failed c lib g r made

      bad : T (panic, r)
      bad = broken c lib g r made

  create_extra_agenda_transaction-Makes :
      (tx : ExtraAgendaTransaction)
      → Makes c lib g
          (λ (_ : CommitHash). Commit.extra_agenda_transaction tx)
          r
          (create_extra_agenda_transaction c lib g tx r)
  unfolding create_extra_agenda_transaction pure lift
  create_extra_agenda_transaction-Makes tx = after_reads T _ _ r no bad λ _ _.
      after_reads T _ _ r no bad λ head h1. after_reads T _ _ r no bad λ finalized h2.
        after_reads T _ _ r no bad λ reserved_state h6.
          after_rebased c lib g T finalized head _ r no bad λ h3.
            after_reads T _ _ r no bad λ commits h4. after_reads T _ _ r no bad λ last h5.
              after_lift T _ _ r no bad λ csv h7. after_lift T _ _ r no bad λ next h8.
                after_lift T _ _ r no bad λ s _.
                  let k =
                    accepted_on c lib g r (Commit.extra_agenda_transaction tx) head finalized
                      commits last reserved_state csv next (map_err-eq-ok _ _ h1)
                      (map_err-eq-ok _ _ h2) h3 (map_err-eq-ok _ _ h4) h5 h6 (map_err-eq-ok _ _ h7)
                      (map_err-eq-ok _ _ h8) in
                  after_any c lib g T _ _ _
                    (failed_later c lib g r made (Commit.extra_agenda_transaction tx) k)
                    (broken_later c lib g r made (Commit.extra_agenda_transaction tx) k)
                    λ _ s'.
                      last_step c lib g r made (Commit.extra_agenda_transaction tx) _ (λ _. refl) k
    where
      made : CommitHash → Commit
      made _ = Commit.extra_agenda_transaction tx

      T : Result RepositoryError CommitHash × g.Repo → Type 0
      T = Makes c lib g made r

      no : (e : RepositoryError) → T (err e, r)
      no = failed c lib g r made

      bad : T (panic, r)
      bad = broken c lib g r made

  -- `create_block`, `create_agenda` and `create_extra_agenda_transaction` each either fail and leave the
  -- repository as it was, or HEAD's merge base with the finalized block is the finalized block and the
  -- verifier, started at the last finalized header, accepts all the commits up to HEAD followed by the new commit; a
  -- block or an agenda that is returned is that commit.
  pub creations-Makes :
      (author : PublicKey) (name : MemberName) (now : Timestamp) (version : String)
      (tx : ExtraAgendaTransaction)
      → Makes c lib g
          (λ (x : BlockHeader × CommitHash). Commit.block x.0)
          r
          (create_block c lib g author now version r)
        × Makes c lib g
            (λ (x : Agenda × CommitHash). Commit.agenda x.0)
            r
            (create_agenda c lib g name now r)
        × Makes c lib g
            (λ (_ : CommitHash). Commit.extra_agenda_transaction tx)
            r
            (create_extra_agenda_transaction c lib g tx r)
  creations-Makes author name now version tx = (
    create_block-Makes author now version,
    create_agenda-Makes name now,
    create_extra_agenda_transaction-Makes tx,
  )
