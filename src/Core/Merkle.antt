-- ===== src/Core/Merkle.antt =====
-- core/src/merkle_tree.rs: a Merkle tree over a list of hashes, its proofs, and their verification.
use simperby.Base.{
  ℕ, zero, suc, Bool, ◌||◌, Option, none, some, List, [], ◌∷◌, ◌++◌, ◌==◌, if◌then◌else◌, any,
  length,
}
use simperby.Core.Types.{Hash256}
use simperby.Core.Crypto.{Crypto}

pub data MerkleProofEntry : Type 0 where
  left_child right_child : Hash256 → MerkleProofEntry
  only_child : MerkleProofEntry

abbrev pub MerkleProof : Type 0
MerkleProof = List MerkleProofEntry

-- The pieces of `slice.chunks(2)`.
pub data Chunk : Type 0 where
  pair : Hash256 → Hash256 → Chunk
  single : Hash256 → Chunk

abbrev pub chunks : List Hash256 → List Chunk
chunks [] = []
chunks (a ∷ []) = single a ∷ []
chunks (a ∷ b ∷ rest) = pair a b ∷ chunks rest

-- `Hash256::zero`.
abbrev pub empty_hash : Hash256
empty_hash = 0

module _ (c : Crypto) where
  -- `Hash256::aggregate`.
  unfoldable pub aggregate : Hash256 → Hash256 → Hash256
  aggregate a b = c.hash (c.hash_bytes a ++ c.hash_bytes b)

  -- `Hash256::hash` of a hash.
  unfoldable pub hash_again : Hash256 → Hash256
  hash_again a = c.hash (c.hash_bytes a)

  abbrev pub parent : Chunk → Hash256
  parent (pair a b) = aggregate a b
  parent (single a) = hash_again a

  -- The `for` loop that builds the next level.
  unfoldable pub upper_level : List Chunk → List Hash256
  upper_level [] = []
  upper_level (p ∷ ps) = parent p ∷ upper_level ps

  -- The `while` loop, on fuel: the levels from the given one up to the root. An empty level has no
  -- upper end in the source; the callers never build a tree of an empty list.
  unfoldable pub merkle_tree : ℕ → List Hash256 → List (List Hash256)
  unfolding upper_level
  merkle_tree zero level = level ∷ []
  merkle_tree (suc fuel) level =
      let rest = merkle_tree fuel (upper_level (chunks level)) in
      if length level == 1 then level ∷ [] else level ∷ rest

  -- `merkle_tree.last().unwrap().last().unwrap()`.
  unfoldable pub last_of : Hash256 → List Hash256 → Hash256
  last_of d [] = d
  last_of d (x ∷ xs) = last_of x xs

  unfoldable pub top_of : List (List Hash256) → Hash256
  unfolding last_of
  top_of [] = empty_hash
  top_of (level ∷ []) = last_of empty_hash level
  top_of (level ∷ next ∷ rest) = top_of (next ∷ rest)

  unfoldable pub root : List Hash256 → Hash256
  unfolding merkle_tree top_of
  root [] = empty_hash
  root (x ∷ xs) = top_of (merkle_tree (length (x ∷ xs)) (x ∷ xs))

  abbrev pub chunk_contains : Chunk → Hash256 → Bool
  chunk_contains (pair a b) t = a == t || b == t
  chunk_contains (single a) t = a == t

  abbrev pub chunk_entry : Chunk → Hash256 → MerkleProofEntry
  chunk_entry (pair a b) t = if a == t then MerkleProofEntry.right_child b else left_child a
  chunk_entry (single a) t = only_child

  -- The inner `for` loop over one level: the entries that it adds, and the new target.
  unfoldable pub scan_level : List Chunk → Hash256 → MerkleProof × Hash256
  scan_level [] target = ([], target)
  scan_level (p ∷ ps) target =
      let next = if chunk_contains p target then parent p else target in
      let (entries, last) = scan_level ps next in
      (if chunk_contains p target then chunk_entry p target ∷ entries else entries, last)

  -- The outer `for` loop, over all levels but the root's (`merkle_tree.pop()`).
  unfoldable pub scan_levels : List (List Hash256) → Hash256 → MerkleProof
  unfolding scan_level
  scan_levels [] target = []
  scan_levels (level ∷ []) target = []
  scan_levels (level ∷ next ∷ rest) target =
      let (entries, up) = scan_level (chunks level) target in
      entries ++ scan_levels (next ∷ rest) up

  unfoldable pub create_merkle_proof : List Hash256 → Hash256 → Option MerkleProof
  unfolding merkle_tree scan_levels
  create_merkle_proof hash_list key =
      if any (λ h. h == key) hash_list
      then some (scan_levels (merkle_tree (length hash_list) hash_list) key)
      else none

  abbrev pub climb : Hash256 → MerkleProofEntry → Hash256
  climb h (left_child sibling) = aggregate sibling h
  climb h (right_child sibling) = aggregate h sibling
  climb h only_child = hash_again h

  -- The loop of `MerkleProof::verify`.
  unfoldable pub climb_all : Hash256 → MerkleProof → Hash256
  climb_all h [] = h
  climb_all h (e ∷ es) = climb_all (climb h e) es

  -- `MerkleProof::verify(root, data).is_ok()`; otherwise the error is `UnmatchedRoot`.
  unfoldable pub verify : MerkleProof → Hash256 → List ℕ → Bool
  unfolding climb_all
  verify proof root_hash bytes = root_hash == climb_all (c.hash bytes) proof
