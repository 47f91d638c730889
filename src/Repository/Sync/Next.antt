-- ===== src/Repository/Sync/Next.antt =====
-- The place that `sync` of repository/src/interpret/works.rs takes for the commit of the last block but one.
use simperby.Base.{
  ℕ, suc, ◌+◌, ◌<◌, ◌≡◌, ◌∙◌, refl, sym, append-nil, length-append, ap, some, List, [], ◌∷◌, ◌++◌,
  get_elem?, length, lt→ltb, arith,
}
use simperby.Core.Types.{BlockHeader, ReservedState, Commit}
use simperby.Core.Crypto.{Crypto}
use simperby.Core.Result.{ok}
use simperby.Core.Sequence.{CommitSequenceVerifier, new, headers_from, get_block_headers}
use simperby.Repository.Types.{CommitHash}
use simperby.Repository.Library.{Library}
use simperby.Repository.Git.{Git}
use simperby.Repository.Raw.Action.{◌>>=◌, pure}
use simperby.Repository.Acts.{expect, advance_finalized_branch}
use simperby.Repository.Sync.{finalize_earlier}
use simperby.Repository.Read.{last_of, second_to_last, verify_all, commits_of}
use simperby.Repository.Read.Verified.{verified_commits}
use simperby.Repository.Read.Restart.{ArePlain}

commits_of-append :
    (xs ys : List (Commit × CommitHash)) → commits_of (xs ++ ys) ≡ commits_of xs ++ commits_of ys
commits_of-append [] ys = refl
commits_of-append ((c, h) ∷ xs) ys = ap (λ l. c ∷ l) (commits_of-append xs ys)

length-commits_of : (xs : List (Commit × CommitHash)) → length (commits_of xs) ≡ length xs
length-commits_of [] = refl
length-commits_of ((c, h) ∷ xs) = omega (arith, length-commits_of xs)

-- Commits that are no blocks add no header and move the places on.
headers_from-plain :
    (k : ℕ) (xs ys : List Commit)
    → ArePlain xs
    → headers_from k (xs ++ ys) ≡ headers_from (k + length xs) ys
unfolding headers_from
headers_from-plain k [] ys plain = ap (λ n. headers_from n ys) (omega arith)
headers_from-plain k (Commit.block b ∷ xs) ys plain = absurd (plain.0 tt)
headers_from-plain k (Commit.transaction _ ∷ xs) ys plain =
    headers_from-plain (k + 1) xs ys plain.1 ∙ ap (λ n. headers_from n ys) (omega arith)
headers_from-plain k (Commit.agenda _ ∷ xs) ys plain =
    headers_from-plain (k + 1) xs ys plain.1 ∙ ap (λ n. headers_from n ys) (omega arith)
headers_from-plain k (Commit.agenda_proof _ ∷ xs) ys plain =
    headers_from-plain (k + 1) xs ys plain.1 ∙ ap (λ n. headers_from n ys) (omega arith)
headers_from-plain k (Commit.extra_agenda_transaction _ ∷ xs) ys plain =
    headers_from-plain (k + 1) xs ys plain.1 ∙ ap (λ n. headers_from n ys) (omega arith)
headers_from-plain k (Commit.chat_log _ ∷ xs) ys plain =
    headers_from-plain (k + 1) xs ys plain.1 ∙ ap (λ n. headers_from n ys) (omega arith)

headers_from-append :
    (k : ℕ) (xs ys : List Commit)
    → headers_from k (xs ++ ys) ≡ headers_from k xs ++ headers_from (k + length xs) ys
unfolding headers_from
headers_from-append k [] ys = ap (λ n. headers_from n ys) (omega arith)
headers_from-append k (Commit.block b ∷ xs) ys =
    ap (λ l. (b, k) ∷ l) (headers_from-append (k + 1) xs ys)
    ∙ ap (λ n. (b, k) ∷ (headers_from (k + 1) xs ++ headers_from n ys)) (omega arith)
headers_from-append k (Commit.transaction _ ∷ xs) ys =
    headers_from-append (k + 1) xs ys
    ∙ ap (λ n. headers_from (k + 1) xs ++ headers_from n ys) (omega arith)
headers_from-append k (Commit.agenda _ ∷ xs) ys =
    headers_from-append (k + 1) xs ys
    ∙ ap (λ n. headers_from (k + 1) xs ++ headers_from n ys) (omega arith)
headers_from-append k (Commit.agenda_proof _ ∷ xs) ys =
    headers_from-append (k + 1) xs ys
    ∙ ap (λ n. headers_from (k + 1) xs ++ headers_from n ys) (omega arith)
headers_from-append k (Commit.extra_agenda_transaction _ ∷ xs) ys =
    headers_from-append (k + 1) xs ys
    ∙ ap (λ n. headers_from (k + 1) xs ++ headers_from n ys) (omega arith)
headers_from-append k (Commit.chat_log _ ∷ xs) ys =
    headers_from-append (k + 1) xs ys
    ∙ ap (λ n. headers_from (k + 1) xs ++ headers_from n ys) (omega arith)

module _ {A : Type 0} (a b : A) where
  last_of-append : (xs : List A) → last_of (xs ++ a ∷ b ∷ []) ≡ some b
  last_of-append [] = refl
  last_of-append (x ∷ []) = refl
  last_of-append (x ∷ (y ∷ xs)) = last_of-append (y ∷ xs)

  second_to_last-append : (xs : List A) → second_to_last (xs ++ a ∷ b ∷ []) ≡ some a
  second_to_last-append [] = refl
  second_to_last-append (x ∷ []) = refl
  second_to_last-append (x ∷ (y ∷ [])) = refl
  second_to_last-append (x ∷ (y ∷ (z ∷ xs))) = second_to_last-append (y ∷ (z ∷ xs))

module _ (header last : BlockHeader) (between after : List Commit)
    (plain_between : ArePlain between) (plain_after : ArePlain after) where
  -- The headers of commits with two blocks at the end.
  last_two_headers :
      (k : ℕ) (before : List Commit)
      → headers_from k (before ++ Commit.block header ∷ (between ++ Commit.block last ∷ after))
        ≡ headers_from k before
          ++ (header, k + length before) ∷ (last, k + length before + 1 + length between) ∷ []
  unfolding headers_from
  last_two_headers k before =
      let place = k + length before in
      let none_after : headers_from (place + 1 + length between + 1) after ≡ [] =
        ap (headers_from (place + 1 + length between + 1)) (sym (append-nil after))
        ∙ headers_from-plain (place + 1 + length between + 1) after [] plain_after in
      headers_from-append k before (Commit.block header ∷ (between ++ Commit.block last ∷ after))
      ∙ ap (λ l. headers_from k before ++ (header, place) ∷ l)
          (headers_from-plain (place + 1) between (Commit.block last ∷ after) plain_between)
      ∙ ap (λ l. headers_from k before ++ (header, place) ∷ (last, place + 1 + length between) ∷ l)
          none_after

module _ (c : Crypto) (start_header : BlockHeader) (rs : ReservedState) (header last : BlockHeader)
    (hash last_hash : CommitHash) (before between after : List (Commit × CommitHash))
    (csv : CommitSequenceVerifier) where
  -- The commits that were read: the last two blocks among them, and what stands around these.
  abbrev pub around_two_blocks : List (Commit × CommitHash)
  around_two_blocks =
      before ++ (Commit.block header, hash) ∷ (between ++ (Commit.block last, last_hash) ∷ after)

  around_two_blocks_commits :
      commits_of around_two_blocks
      ≡ commits_of before
        ++ Commit.block header ∷ (commits_of between ++ Commit.block last ∷ commits_of after)
  around_two_blocks_commits =
      commits_of-append before
        ((Commit.block header, hash) ∷ (between ++ (Commit.block last, last_hash) ∷ after))
      ∙ ap (λ l. commits_of before ++ Commit.block header ∷ l)
          (commits_of-append between ((Commit.block last, last_hash) ∷ after))

  module _ (plain_between : ArePlain (commits_of between))
      (plain_after : ArePlain (commits_of after))
      (verified : verify_all c (commits_of around_two_blocks) (new start_header rs) ≡ ok csv) where
    abbrev earlier : List (BlockHeader × ℕ)
    unfolding headers_from
    earlier = (start_header, 0) ∷ headers_from 1 (commits_of before)

    headers_eq :
        get_block_headers csv
        ≡ earlier
          ++ (header, suc (length before))
            ∷ (last, suc (length before) + 1 + length (commits_of between))
            ∷ []
    unfolding get_block_headers headers_from
    headers_eq =
        let place : 1 + length (commits_of before) ≡ suc (length before) =
          omega (arith, length-commits_of before) in
        ap (headers_from 0)
          (verified_commits c start_header rs (commits_of around_two_blocks) csv verified)
        ∙ ap (λ l. (start_header, 0) ∷ headers_from 1 l) around_two_blocks_commits
        ∙ ap (λ l. (start_header, 0) ∷ l)
            (last_two_headers header last (commits_of between) (commits_of after) plain_between
              plain_after 1 (commits_of before))
        ∙ ap (λ n. earlier ++ (header, n) ∷ (last, n + 1 + length (commits_of between)) ∷ []) place

    -- Where `sync` has verified commits with at least two blocks, it advances the `finalized` branch to
    -- the commit after the last block but one, not to the commit of that block, with the height of that
    -- block and the finalization proof that the last block carries: the verifier counts the start header
    -- among its commits, and the list of the commits that were read does not hold it.
    pub finalize_earlier_takes_next :
        (lib : Library) (g : Git)
        → finalize_earlier c lib g around_two_blocks csv ≡ (
            expect g (get_elem? around_two_blocks (suc (length before))) >>= λ entry.
            advance_finalized_branch lib g entry.1
              (record { height = header.height; proof = last.prev_block_finalization_proof }))
    unfolding finalize_earlier ◌>>=◌ pure
    finalize_earlier_takes_next lib g =
        let a : BlockHeader × ℕ = (header, suc (length before)) in
        let b : BlockHeader × ℕ = (last, suc (length before) + 1 + length (commits_of between)) in
        let is_last = ap last_of headers_eq ∙ last_of-append a b earlier in
        let is_second = ap second_to_last headers_eq ∙ second_to_last-append a b earlier in
        let size = ap length headers_eq ∙ length-append earlier (a ∷ b ∷ []) in
        let many : 2 < length (get_block_headers csv) = omega arith in
        rw (finalize_earlier, lt→ltb 2 (length (get_block_headers csv)) many, is_last, is_second)
