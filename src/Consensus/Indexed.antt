-- ===== src/Consensus/Indexed.antt =====
-- The identifiers that a node of consensus/src/state.rs gives to verified blocks.
use simperby.Base.{
  ◌+◌, ◌<◌, ◌%◌, ◌≡◌, ◌≢◌, inl, inr, sym, ◌∙◌, ap, subst, none, some, List, [], ◌∷◌, arith, compare,
  All, Option-cases,
}
use native.Mathlib.Nat.{mod-eq_of_lt}
use native.Mathlib.Decide.{ℕ_discrete}
use simperby.Base.Word.{add_u64, u64_mod}
use simperby.Base.Ordered.{map_get, map_insert, map_get-map_insert_self}
use simperby.Core.Types.{Hash256}
use simperby.Vetomint.Types.{BlockIdentifier}
use simperby.Consensus.Types.{State}
use simperby.Consensus.State.{enter_block_hash}
use simperby.Consensus.Progress.{hash_of}

abbrev Index : Type 0
Index = List (Hash256 × BlockIdentifier)

-- All identifiers are below the count.
abbrev AllBelow : BlockIdentifier → Index → Type 0
AllBelow n m = All (λ e. e.1 < n) m

hash_of-map_insert_new :
    (h : Hash256) (n : BlockIdentifier) (m : Index)
    → AllBelow n m
    → map_get compare h m ≡ none
    → hash_of n (map_insert compare h n m) ≡ some h
unfolding hash_of map_insert map_get
hash_of-map_insert_new h n [] below new = ground arith
hash_of-map_insert_new h n ((j, v) ∷ m) below new =
    ground (arith, hash_of-map_insert_new h n m below.1, below.0)

hash_of-map_insert_old :
    (h : Hash256) (n i : BlockIdentifier) (m : Index)
    → i ≢ n
    → map_get compare h m ≡ none
    → hash_of i (map_insert compare h n m) ≡ hash_of i m
unfolding hash_of map_insert map_get
hash_of-map_insert_old h n i [] other new = ground arith
hash_of-map_insert_old h n i ((j, v) ∷ m) other new =
    ground (arith, hash_of-map_insert_old h n i m other)

pub map_get-map_insert_other :
    (h k : Hash256) (n : BlockIdentifier) (m : Index)
    → k ≢ h
    → map_get compare k (map_insert compare h n m) ≡ map_get compare k m
unfolding map_insert map_get
map_get-map_insert_other h k n [] other = ground arith
map_get-map_insert_other h k n ((j, v) ∷ m) other =
    ground (arith, map_get-map_insert_other h k n m other)

AllBelow-weaken : (n : BlockIdentifier) (m : Index) → AllBelow n m → AllBelow (n + 1) m
AllBelow-weaken n [] below = tt
AllBelow-weaken n (e ∷ m) below = (omega (arith, below.0), AllBelow-weaken n m below.1)

found-below :
    (h : Hash256) (n i : BlockIdentifier) (m : Index)
    → AllBelow n m
    → map_get compare h m ≡ some i
    → i < n
unfolding map_get
found-below h n i [] below found = absurd (ground arith)
found-below h n i ((j, v) ∷ m) below found = ground (arith, found-below h n i m below.1, below.0)

map_insert-AllBelow :
    (h : Hash256) (n : BlockIdentifier) (m : Index)
    → AllBelow n m
    → AllBelow (n + 1) (map_insert compare h n m)
unfolding map_insert
map_insert-AllBelow h n [] below = (omega arith, tt)
map_insert-AllBelow h n ((j, v) ∷ m) below =
    ground (arith, map_insert-AllBelow h n m below.1, AllBelow-weaken n m below.1, below.0)

-- Each block's identifier leads back to the block, and the next identifier is new.
pub record IsIndexed (s : State) : Type 0 where
  pub below : AllBelow s.block_identifier_count s.verified_block_hashes
  pub back :
      (h : Hash256) (i : BlockIdentifier)
      → map_get compare h s.verified_block_hashes ≡ some i
      → hash_of i s.verified_block_hashes ≡ some h

insert-back :
    (h : Hash256) (n : BlockIdentifier) (m : Index)
    → AllBelow n m
    → map_get compare h m ≡ none
    → ((k : Hash256) (i : BlockIdentifier) → map_get compare k m ≡ some i → hash_of i m ≡ some k)
    → (k : Hash256) (i : BlockIdentifier) → map_get compare k (map_insert compare h n m) ≡ some i
    → hash_of i (map_insert compare h n m) ≡ some k
insert-back h n m below new back k i found = elim (ℕ_discrete k h) [
  | yes same ↦
      let here = map_get-map_insert_self compare (λ a. ground arith) h n m in
      let first : i ≡ n = ground arith in
      ap (λ x. hash_of x (map_insert compare h n m)) first
      ∙ hash_of-map_insert_new h n m below new
      ∙ ap some (sym same)
  | no other ↦
      let before : map_get compare k m ≡ some i =
        sym (map_get-map_insert_other h k n m other) ∙ found in
      let less = found-below k n i m below before in
      hash_of-map_insert_old h n i m (λ e. omega arith) new ∙ back k i before
]

-- The state with one more block.
pub entered :
    (h : Hash256) (s : State)
    → map_get compare h s.verified_block_hashes ≡ none
    → s.block_identifier_count + 1 < u64_mod
    → (s.block_identifier_count + 1 ≡ (enter_block_hash h s).block_identifier_count)
      × (map_insert compare h s.block_identifier_count s.verified_block_hashes
          ≡ (enter_block_hash h s).verified_block_hashes)
unfolding enter_block_hash add_u64
entered h s new small =
    let exact : (s.block_identifier_count + 1) % u64_mod ≡ s.block_identifier_count + 1 =
      mod-eq_of_lt small in
    (ground arith, ground arith)

pub known_stays :
    (h : Hash256) (s : State) (i : BlockIdentifier)
    → map_get compare h s.verified_block_hashes ≡ some i
    → s ≡ enter_block_hash h s
unfolding enter_block_hash
known_stays h s i known = ground arith

pub enter_block_hash-IsIndexed :
    (h : Hash256) (s : State)
    → s.block_identifier_count + 1 < u64_mod
    → IsIndexed s
    → IsIndexed (enter_block_hash h s)
enter_block_hash-IsIndexed h s small indexed =
    elim (Option-cases (map_get compare h s.verified_block_hashes)) [
      | inr (i, known) ↦ subst IsIndexed (known_stays h s i known) indexed
      | inl new ↦
          let (count, map) = entered h s new small in
          record {
            below =
                subst (λ n. AllBelow n (enter_block_hash h s).verified_block_hashes) count
                  (subst (AllBelow (s.block_identifier_count + 1)) map (
                    map_insert-AllBelow h s.block_identifier_count s.verified_block_hashes
                      indexed.below));
            back =
                subst
                  (λ (m : Index).
                    (k : Hash256) (i : BlockIdentifier)
                    → map_get compare k m ≡ some i
                    → hash_of i m ≡ some k)
                  map
                  (insert-back h s.block_identifier_count s.verified_block_hashes indexed.below new
                    indexed.back);
          }
    ]
