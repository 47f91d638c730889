-- ===== src/Repository/Toy/Lawful.antt =====
-- The small `git2` of the tests does what the proofs of the repository use.
use simperby.Base.{◌≡◌, ◌≢◌, refl, sym, ◌∙◌, ap, inl, inr, Bool-cases, Option, none, some, arith}
use simperby.Base.Text.{str_eq, str_eq_self, str_eq→eq}
use simperby.Core.Result.{ok}
use simperby.Repository.Types.{Branch, CommitHash}
use simperby.Repository.Git.{Reference}
use simperby.Repository.Raw.Laws.{IsCheckedOut, IsLawful}
use simperby.Repository.Toy.{
  Store, put, reference_to, find, moved, made, deleted, headed, checked, head_of, advanced, memory,
}

put-other :
    (b : Branch) (h : Option CommitHash) (s : Store) (b' : Branch)
    → b' ≢ b
    → find (put b h s) b' ≡ find s b'
put-other b h s b' differs = elim (Bool-cases (str_eq b' b)) [
  | inl same ↦ absurd (differs (str_eq→eq b' b same))
  | inr other ↦ rw other
]

put-place : (b : Branch) (h : Option CommitHash) (s : Store) → (put b h s).place b ≡ h
put-place b h s = rw (str_eq_self b)

moved_target :
    (o : Option CommitHash) (b : Branch) (h : CommitHash) (s : Store)
    → (moved o b h s).0 ≡ ok tt
    → (found : Reference) × (find (moved o b h s).1 b ≡ ok found) × (found.target ≡ some h)
moved_target none b h s e = absurd (ground arith)
moved_target (some _) b h s e =
    (record { name = some b; target = some h }, ap (reference_to b) (put-place b (some h) s), refl)

moved_fails :
    (o : Option CommitHash) (b : Branch) (h : CommitHash) (s : Store)
    → (moved o b h s).0 ≢ ok tt
    → (b' : Branch) → find (moved o b h s).1 b' ≡ find s b'
moved_fails none b h s e b' = refl
moved_fails (some _) b h s e b' = absurd (e refl)

moved_keeps :
    (o : Option CommitHash) (b : Branch) (h : CommitHash) (s : Store) (b' : Branch)
    → b' ≢ b
    → find (moved o b h s).1 b' ≡ find s b'
moved_keeps none b h s b' differs = refl
moved_keeps (some _) b h s b' differs = put-other b (some h) s b' differs

made_keeps :
    (o : Option CommitHash) (b : Branch) (h : CommitHash) (s : Store) (b' : Branch)
    → b' ≢ b
    → find (made o b h s).1 b' ≡ find s b'
made_keeps none b h s b' differs = put-other b (some h) s b' differs
made_keeps (some _) b h s b' differs = refl

deleted_keeps :
    (o : Option CommitHash) (b : Branch) (s : Store) (b' : Branch)
    → b' ≢ b
    → find (deleted o b s).1 b' ≡ find s b'
deleted_keeps none b s b' differs = refl
deleted_keeps (some _) b s b' differs = put-other b none s b' differs

checked_keeps : (o : Option CommitHash) (s : Store) (b : Branch) → find (checked o s).1 b ≡ find s b
checked_keeps none s b = refl
checked_keeps (some _) s b = refl

headed_keeps :
    (o : Option CommitHash) (b : Branch) (s : Store) (b' : Branch)
    → find (headed o b s).1 b' ≡ find s b'
headed_keeps none b s b' = refl
headed_keeps (some _) b s b' = refl

headed_checks_out :
    (o : Option CommitHash) (b : Branch) (s : Store)
    → s.place b ≡ o
    → (headed o b s).0 ≡ ok tt
    → IsCheckedOut memory b (headed o b s).1
headed_checks_out none b s at e = absurd (ground arith)
headed_checks_out (some h) b s at e = record {
  reference = record { name = some b; target = some h };
  is_head = ap (reference_to b) at;
  is_named = refl;
}

head_name :
    (o : Option CommitHash) (b b' : Branch) (reference : Reference)
    → reference_to b' o ≡ ok reference
    → reference.name ≡ some b
    → b ≡ b'
head_name none b b' reference e named = absurd (ground arith)
head_name (some h) b b' reference e named = ground arith

advanced_keeps :
    (current : Option Branch) (h : CommitHash) (s s' : Store) (b b' : Branch)
    (reference : Reference)
    → head_of current s ≡ ok reference
    → reference.name ≡ some b
    → ((x : Branch) → s'.place x ≡ s.place x)
    → b' ≢ b
    → find (advanced current h s') b' ≡ find s b'
advanced_keeps none h s s' b b' reference head named same differs = ap (reference_to b') (same b')
advanced_keeps (some x) h s s' b b' reference head named same differs =
    put-other x (some h) s' b'
      (λ e. differs (e ∙ sym (head_name (s.place x) b x reference head named)))
    ∙ ap (reference_to b') (same b')

deleted_gone :
    (o : Option CommitHash) (b : Branch) (s : Store)
    → (deleted o b s).0 ≡ ok tt
    → (checked ((deleted o b s).1.place b) (deleted o b s).1).0 ≢ ok tt
deleted_gone none b s e = absurd (ground arith)
deleted_gone (some _) b s e = λ h. gone (put b none s) (put-place b none s) h
  where
    gone : (s : Store) → s.place b ≡ none → (checked (s.place b) s).0 ≢ ok tt
    gone s e h = ground arith

pub memory-IsLawful : IsLawful memory
memory-IsLawful = record {
  reset_hard_keeps = λ r b. refl;
  remove_dir_all_keeps = λ path r b. refl;
  remove_file_keeps = λ path r b. refl;
  set_target_moves = λ b h r e. moved_target (r.place b) b h r e;
  set_target_fails = λ b h r e b'. moved_fails (r.place b) b h r e b';
  set_target_keeps = λ b h r b' d. moved_keeps (r.place b) b h r b' d;
  branch_keeps = λ b h r b' d. made_keeps (r.place b) b h r b' d;
  delete_keeps = λ b r b' d. deleted_keeps (r.place b) b r b' d;
  checkout_branch_keeps = λ b r b'. checked_keeps (r.place b) r b';
  set_head_keeps = λ b r b'. headed_keeps (r.place b) b r b';
  set_head_checks_out = λ b r e. headed_checks_out (r.place b) b r refl e;
  commit_keeps = λ s message tree parent r b b' k d.
      advanced_keeps r.current _ r _ b b' k.reference k.is_head k.is_named (λ _. refl) d;
  checkout_commit_keeps = λ h r b. refl;
  set_head_detached_keeps = λ h r b. refl;
  checkout_deleted = λ b r e. deleted_gone (r.place b) b r e;
}
