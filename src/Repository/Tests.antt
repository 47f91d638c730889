-- ===== src/Repository/Tests.antt =====
-- The theorems about the repository at small inputs.
use Prim.Native.String.{◌++◌ as ◌<>◌}
use simperby.Base.{
  List, ◌≢◌, ◌++◌, ◌∙◌, ap, get_elem?, ◌≡◌, refl, true, false, none, [], ◌∷◌, arith, ◌⊎◌,
}
use simperby.Base.Int.{pos}
use simperby.Core.Types.{BlockHeader, Agenda, Commit, Diff, delegate}
use simperby.Core.Result.{Result, ok, err, panic}
use simperby.Core.Sequence.{CommitSequenceVerifier, new}
use simperby.Core.Samples.{
  toy, first_header, first_state, first_agenda, first_agenda_proof, second_header, finalizing,
  delegating,
}
use simperby.Repository.Types.{CommitHash, finalized_branch_name, SemanticCommit}
use simperby.Repository.Format.{to_semantic_commit, from_semantic_commit}
use simperby.Repository.Format.RoundTrip.{IsLegible, from_semantic_commit-to_semantic_commit}
use simperby.Repository.Format.Sound.{IsReadFrom, from_semantic_commit_sound}
use simperby.Repository.Format.Message.{
  div_i64, raw_commit_to_semantic_commit, raw_commit_to_semantic_commit_lem,
}
use simperby.Repository.Read.{
  is_ok, verify_all, commits_of, read_and_verify_commits_from_last_finalized_block,
}
use simperby.Repository.Read.Restart.{verify_all_restart}
use simperby.Core.Hash.{calculate_commit_merkle_root}
use simperby.Repository.Read.Verified.{IsValidBranch, read_and_verify_commits-IsValidBranch}
use simperby.Repository.Candidates.{
  agenda_of, agenda_proof_of, block_header_of, read_agendas, read_governance_approved_agendas,
  read_blocks,
}
use simperby.Repository.Candidates.Lists.{IsExactly, read_candidates_exact}
use simperby.Repository.Sync.{sync, sync_fp, receive_commits, finish_finalized, finalize_earlier}
use simperby.Repository.Sync.Cause.{IsSafe}
use simperby.Repository.Sync.Safe.{sync-IsSafe}
use simperby.Repository.Sync.Next.{finalize_earlier_takes_next}
use simperby.Repository.Finalize.{finalize, commit_fp}
use simperby.Repository.Raw.Action.{◌>>=◌}
use simperby.Repository.Raw.Branches.{move_branch, locate_branch}
use simperby.Repository.Raw.Work.{
  checkout_clean, checkout, checkout_detach, remove_untracked, get_working_directory_path,
}
use simperby.Repository.Raw.Walk.{list_ancestors, ancestors_from}
use simperby.Repository.Raw.Commits.{create_semantic_commit, commit_on_head}
use simperby.Repository.Acts.{expect, advance_finalized_branch}
use simperby.Repository.Finalize.Proved.{IsFinalizable, IsUnchanged, finalize-IsFinalizable}
use simperby.Repository.Create.{create_block, create_agenda, create_extra_agenda_transaction}
use simperby.Repository.Create.Accepted.{Makes}
use simperby.Repository.Create.Made.{creations-Makes}
use simperby.Repository.Clean.{clean}
use simperby.Repository.Clean.Tidy.{IsTidy, clean-IsTidy}
use simperby.Repository.Toy.{memory, written}
use simperby.Repository.Toy.Lawful.{memory-IsLawful}
use simperby.Repository.Samples.{
  repository, second_agenda, second_agenda_proof, third_header, two_rounds, delegation_groups,
  sample_library, sample_store,
}

abbrev value_of : {E A : Type 0} → A → Result E A → A
value_of d (ok v) = v
value_of d (err _) = d
value_of d panic = d

value_of_lem : {E A : Type 0} (d : A) (r : Result E A) → is_ok r ≡ true → r ≡ ok (value_of d r)
value_of_lem d (ok v) h = refl
value_of_lem d (err _) h = absurd (ground arith)
value_of_lem d panic h = absurd (ground arith)

abbrev start : CommitSequenceVerifier
unfolding new
start = new first_header first_state

abbrev two_rounds_verified : CommitSequenceVerifier
unfolding verify_all
two_rounds_verified =
    value_of start (verify_all toy (commits_of two_rounds) (new first_header first_state))

two_rounds_accepted :
    verify_all toy (commits_of two_rounds) (new first_header first_state) ≡ ok two_rounds_verified
unfolding repository two_rounds_verified
two_rounds_accepted =
    value_of_lem start (verify_all toy (commits_of two_rounds) (new first_header first_state)) refl

abbrev first_round_read : List (Commit × CommitHash)
first_round_read =
    (Commit.agenda first_agenda, 4) ∷ (Commit.agenda_proof first_agenda_proof, 5) ∷ []

abbrev second_round_read : List (Commit × CommitHash)
second_round_read =
    (Commit.agenda second_agenda, 7) ∷ (Commit.agenda_proof second_agenda_proof, 8) ∷ []

finalize_earlier_takes_next_example :
    finalize_earlier toy sample_library memory two_rounds two_rounds_verified ≡ (
      expect memory (get_elem? two_rounds 3) >>= λ entry.
      advance_finalized_branch sample_library memory entry.1
        (record { height = 1; proof = third_header.prev_block_finalization_proof }))
unfolding repository
finalize_earlier_takes_next_example =
    finalize_earlier_takes_next toy first_header first_state second_header third_header 6 9
      first_round_read second_round_read [] two_rounds_verified (λ h. h, (λ h. h, tt)) tt
      two_rounds_accepted sample_library memory

abbrev before_second : CommitSequenceVerifier
unfolding verify_all
before_second = value_of start (
    verify_all toy (Commit.agenda first_agenda ∷ Commit.agenda_proof first_agenda_proof ∷ [])
      (new first_header first_state))

abbrev second_round : List Commit
second_round = Commit.agenda second_agenda ∷ Commit.agenda_proof second_agenda_proof ∷ []

abbrev after_third : CommitSequenceVerifier
unfolding verify_all before_second
after_third = value_of start (
    verify_all toy (Commit.block second_header ∷ (second_round ++ Commit.block third_header ∷ []))
      before_second)

second_round_accepted :
    verify_all toy
      (Commit.block second_header ∷ (second_round ++ Commit.block third_header ∷ []))
      before_second
    ≡ ok after_third
unfolding repository before_second after_third
second_round_accepted =
    value_of_lem start
      (verify_all toy
        (Commit.block second_header ∷ (second_round ++ Commit.block third_header ∷ []))
        before_second)
      refl

roots_differ :
    calculate_commit_merkle_root toy (Commit.block second_header ∷ second_round)
    ≢ calculate_commit_merkle_root toy second_round
unfolding repository
roots_differ e = absurd (ground arith)

verify_all_restart_example :
    verify_all toy (second_round ++ Commit.block third_header ∷ []) (new second_header first_state)
    ≢ ok after_third
verify_all_restart_example =
    verify_all_restart toy second_header third_header second_round first_state before_second
      after_third (λ x. x, (λ x. x, tt)) second_round_accepted roots_differ after_third

sync-IsSafe_example :
    IsSafe toy sample_library memory sample_store (sync toy sample_library memory 6 sample_store).1
sync-IsSafe_example = sync-IsSafe toy sample_library memory memory-IsLawful 6 sample_store

finalize-IsFinalizable_example :
    IsUnchanged toy sample_library memory sample_store
      (finalize toy sample_library memory 6 (finalizing second_header 0) sample_store)
    ⊎ IsFinalizable toy sample_library memory sample_store 6 (finalizing second_header 0)
finalize-IsFinalizable_example =
    finalize-IsFinalizable toy sample_library memory 6 (finalizing second_header 0) sample_store

abbrev sample_csv : CommitSequenceVerifier
unfolding read_and_verify_commits_from_last_finalized_block
sample_csv = value_of start (
    value_of (ok start)
      (read_and_verify_commits_from_last_finalized_block sample_library memory toy 6 sample_store))

twice :
    {E F : Type 0} (d : CommitSequenceVerifier) (r : Result E (Result F CommitSequenceVerifier))
    → is_ok r ≡ true
    → is_ok (value_of (ok d) r) ≡ true
    → r ≡ ok (ok (value_of d (value_of (ok d) r)))
twice d r h k = value_of_lem (ok d) r h ∙ ap ok (value_of_lem d (value_of (ok d) r) k)

sample_read :
    read_and_verify_commits_from_last_finalized_block sample_library memory toy 6 sample_store
    ≡ ok (ok sample_csv)
unfolding repository sample_csv
sample_read =
    twice start
      (read_and_verify_commits_from_last_finalized_block sample_library memory toy 6 sample_store)
      refl refl

read_and_verify_commits-IsValidBranch_example :
    IsValidBranch toy sample_library memory sample_store 6 sample_csv
read_and_verify_commits-IsValidBranch_example =
    read_and_verify_commits-IsValidBranch toy sample_library memory 6 sample_store sample_csv
      sample_read

agendas_read : read_agendas sample_library memory toy sample_store ≡ ok ((4, 79) ∷ [])
unfolding repository
agendas_read = refl

approved_read :
    read_governance_approved_agendas sample_library memory toy sample_store ≡ ok ((5, 82) ∷ [])
unfolding repository
approved_read = refl

blocks_read : read_blocks sample_library memory toy sample_store ≡ ok ((6, 73) ∷ [])
unfolding repository
blocks_read = refl

read_candidates_exact_example :
    IsExactly sample_library memory "a-" (agenda_of toy) sample_store ((4, 79) ∷ [])
    × IsExactly sample_library memory "a-" (agenda_proof_of toy) sample_store ((5, 82) ∷ [])
    × IsExactly sample_library memory "b-" (block_header_of toy) sample_store ((6, 73) ∷ [])
read_candidates_exact_example =
    read_candidates_exact toy sample_library memory sample_store ((4, 79) ∷ []) ((5, 82) ∷ [])
      ((6, 73) ∷ []) agendas_read approved_read blocks_read

creations-Makes_example :
    Makes toy sample_library memory
      (λ (x : BlockHeader × CommitHash). Commit.block x.0)
      sample_store
      (create_block toy sample_library memory 10 (pos 3) "0.1.0" sample_store)
    × Makes toy sample_library memory
        (λ (x : Agenda × CommitHash). Commit.agenda x.0)
        sample_store
        (create_agenda toy sample_library memory "ada" (pos 3) sample_store)
    × Makes toy sample_library memory
        (λ (_ : CommitHash). Commit.extra_agenda_transaction (delegate delegating))
        sample_store
        (create_extra_agenda_transaction toy sample_library memory
          (delegate delegating)
          sample_store)
creations-Makes_example =
    creations-Makes toy sample_library memory sample_store 10 "ada" (pos 3) "0.1.0"
      (delegate delegating)

sample_cleaned : (clean toy sample_library memory false sample_store).0 ≡ ok tt
unfolding repository
sample_cleaned = refl

clean-IsTidy_example : IsTidy toy sample_library memory memory-IsLawful sample_store
clean-IsTidy_example =
    clean-IsTidy toy sample_library memory memory-IsLawful sample_store tt sample_cleaned

-- The block of the samples is finalized.
finalized_sample :
    locate_branch memory finalized_branch_name
      (finalize toy sample_library memory 6 (finalizing second_header 0) sample_store).1
    ≡ ok 6
unfolding repository finalize checkout_clean remove_untracked get_working_directory_path
    checkout_detach checkout move_branch commit_fp sync sync_fp receive_commits finish_finalized
    list_ancestors ancestors_from advance_finalized_branch create_semantic_commit commit_on_head
    written
finalized_sample = refl

abbrev no_text : SemanticCommit
no_text = record { title = ""; body = ""; diff = Diff.empty; author = ""; timestamp = pos 0 }

abbrev delegation_text : SemanticCommit
unfolding to_semantic_commit
delegation_text = value_of no_text (
    to_semantic_commit toy sample_library (Commit.extra_agenda_transaction (delegate delegating))
      first_state)

delegation-IsLegible :
    IsLegible sample_library (Commit.extra_agenda_transaction (delegate delegating))
unfolding repository
delegation-IsLegible = ("delegation", (refl, refl), delegation_groups, refl, refl, refl, refl, refl)

delegation_written :
    to_semantic_commit toy sample_library
      (Commit.extra_agenda_transaction (delegate delegating))
      first_state
    ≡ ok delegation_text
unfolding repository delegation_text
delegation_written =
    value_of_lem no_text
      (to_semantic_commit toy sample_library (Commit.extra_agenda_transaction (delegate delegating))
        first_state)
      refl

from_semantic_commit-to_semantic_commit_example :
    from_semantic_commit sample_library delegation_text
    ≡ ok (Commit.extra_agenda_transaction (delegate delegating))
from_semantic_commit-to_semantic_commit_example =
    from_semantic_commit-to_semantic_commit toy sample_library
      (Commit.extra_agenda_transaction (delegate delegating)) first_state delegation_text
      delegation-IsLegible delegation_written

abbrev agenda_text : SemanticCommit
agenda_text = record {
  title = ">agenda: 1";
  body = "agenda";
  diff = Diff.empty;
  author = "ada";
  timestamp = pos 0;
}

agenda_parsed : from_semantic_commit sample_library agenda_text ≡ ok (Commit.agenda first_agenda)
unfolding repository
agenda_parsed = refl

from_semantic_commit_sound_example :
    IsReadFrom sample_library agenda_text (Commit.agenda first_agenda)
from_semantic_commit_sound_example =
    from_semantic_commit_sound sample_library agenda_text (Commit.agenda first_agenda) agenda_parsed

raw_commit_to_semantic_commit_lem_example :
    raw_commit_to_semantic_commit (record {
      message = "title" <> ("\n\n" <> "body");
      patch = none;
      author = "ada";
      email = "ada@simperby.net";
      timestamp = pos 5000;
    })
    ≡ ok (record {
      title = "title";
      body = "body";
      diff = Diff.empty;
      author = "ada";
      timestamp = div_i64 (pos 5000) 1000;
    })
raw_commit_to_semantic_commit_lem_example =
    raw_commit_to_semantic_commit_lem "title" "body" "ada" "ada@simperby.net" (pos 5000)
      (refl, (refl, (refl, (refl, (refl, tt)))))
