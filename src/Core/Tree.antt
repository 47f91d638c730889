-- ===== src/Core/Tree.antt =====
-- The Merkle proofs of core/src/merkle_tree.rs: what is proved verifies.
use simperby.Base.{
  ℕ, zero, suc, ◌+◌, ◌*◌, ◌≤◌, ◌≡◌, inl, inr, refl, sym, ◌∙◌, ap, subst, Bool, true, false, some,
  List, [], ◌∷◌, arith, ◌==◌, any, length, All, Bool-cases,
}
use simperby.Core.Types.{Hash256}
use simperby.Core.Crypto.{Crypto}
use simperby.Core.Merkle.{
  MerkleProofEntry, MerkleProof, Chunk, pair, single, chunks, aggregate, hash_again, parent,
  upper_level, merkle_tree, last_of, top_of, root, chunk_contains, chunk_entry, scan_level,
  scan_levels, create_merkle_proof, climb, climb_all, verify,
}

abbrev pub contains : List Hash256 → Hash256 → Bool
contains level t = any (λ h. h == t) level

module _ (c : Crypto) where
  abbrev holds : List Chunk → Hash256 → Bool
  holds ps t = any (λ p. chunk_contains c p t) ps

  -- No parent of a chunk is itself one of the hashes to the right of it.
  abbrev pub HasNoEcho : List Chunk → Type 0
  HasNoEcho [] = Unit
  HasNoEcho (p ∷ ps) = (holds ps (parent c p) ≡ false) × HasNoEcho ps

  abbrev pub HaveNoEcho : List (List Hash256) → Type 0
  HaveNoEcho levels = All (λ level. HasNoEcho (chunks level)) levels

  scan_level_miss :
      (ps : List Chunk) (t : Hash256) → holds ps t ≡ false → scan_level c ps t ≡ ([], t)
  unfolding scan_level
  scan_level_miss [] t missing = refl
  scan_level_miss (p ∷ ps) t missing =
      let rest = scan_level_miss ps t (ground arith) in ground arith

  climb-chunk_entry :
      (p : Chunk) (t : Hash256)
      → chunk_contains c p t ≡ true
      → climb c t (chunk_entry c p t) ≡ parent c p
  climb-chunk_entry (pair a b) t there = elim (Bool-cases (a == t)) [
    | inl here ↦ let same : a ≡ t = ground arith in rw here (ap (λ x. aggregate c x b) (sym same))
    | inr other ↦ let same : b ≡ t = ground arith in rw other (ap (λ x. aggregate c a x) (sym same))
  ]
  climb-chunk_entry (single a) t there =
      let same : a ≡ t = ground arith in ap (λ x. hash_again c x) (sym same)

  -- In a level that holds the target, one entry leads to its parent, which is in the next level.
  scan_level_hit :
      (ps : List Chunk) (t : Hash256)
      → HasNoEcho ps
      → holds ps t ≡ true
      → (e : MerkleProofEntry) × (scan_level c ps t ≡ (e ∷ [], climb c t e))
        × (contains (upper_level c ps) (climb c t e) ≡ true)
  unfolding scan_level upper_level
  scan_level_hit [] t no_echo there = absurd (ground arith)
  scan_level_hit (p ∷ ps) t no_echo there = elim (Bool-cases (chunk_contains c p t)) [
    | inl here ↦
        let up = climb-chunk_entry p t here in
        let rest = scan_level_miss ps (parent c p) no_echo.0 in
        (
          chunk_entry c p t,
          rw (here, rest) (ap (λ x. (chunk_entry c p t ∷ [], x)) (sym up)),
          rw up (ground arith),
        )
    | inr later ↦
        let (e, rest, next) = scan_level_hit ps t no_echo.1 (ground arith) in
        (e, rw later rest, ground arith)
  ]

  contains-chunks :
      (level : List Hash256) (t : Hash256) → contains level t ≡ true → holds (chunks level) t ≡ true
  contains-chunks [] t there = there
  contains-chunks (a ∷ []) t there = there
  contains-chunks (a ∷ b ∷ rest) t there = let further = contains-chunks rest t in ground arith

  upper_level-length :
      (level : List Hash256)
      → (length (upper_level c (chunks level)) * 2 ≤ length level + 1)
        × (length level ≤ length (upper_level c (chunks level)) * 2)
  unfolding upper_level
  upper_level-length [] = (omega arith, omega arith)
  upper_level-length (a ∷ []) = (omega arith, omega arith)
  upper_level-length (a ∷ b ∷ rest) =
      let (up, low) = upper_level-length rest in (omega arith, omega arith)

  merkle_tree-head :
      (fuel : ℕ) (level : List Hash256)
      → (above : List (List Hash256)) × (merkle_tree c fuel level ≡ level ∷ above)
  unfolding merkle_tree
  merkle_tree-head zero level = ([], refl)
  merkle_tree-head (suc fuel) level = elim (Bool-cases (length level == 1)) [
    | inl one ↦ ([], rw one refl)
    | inr more ↦ (merkle_tree c fuel (upper_level c (chunks level)), rw more refl)
  ]

  contains-length :
      (level : List Hash256) (t : Hash256) → contains level t ≡ true → 1 ≤ length level
  contains-length [] t there = absurd (ground arith)
  contains-length (a ∷ rest) t there = omega arith

  merkle_tree-more :
      (fuel : ℕ) (level : List Hash256)
      → (length level == 1) ≡ false
      → merkle_tree c (suc fuel) level ≡ level ∷ merkle_tree c fuel (upper_level c (chunks level))
  unfolding merkle_tree
  merkle_tree-more fuel level more = rw more refl

  merkle_tree-one :
      (fuel : ℕ) (level : List Hash256)
      → (length level == 1) ≡ true
      → merkle_tree c (suc fuel) level ≡ level ∷ []
  unfolding merkle_tree
  merkle_tree-one fuel level one = rw one refl

  -- The tree's proof for the target leads to its top.
  abbrev Leads : Hash256 → List (List Hash256) → Type 0
  Leads t levels = HaveNoEcho levels → climb_all c t (scan_levels c levels t) ≡ top_of c levels

  one-Leads :
      (level : List Hash256) (t : Hash256)
      → (length level == 1) ≡ true
      → contains level t ≡ true
      → Leads t (level ∷ [])
  unfolding climb_all scan_levels top_of last_of
  one-Leads [] t one there no_echo = absurd (ground arith)
  one-Leads (a ∷ []) t one there no_echo = ground arith
  one-Leads (a ∷ b ∷ rest) t one there no_echo = absurd (ground arith)

  more-Leads :
      (level next : List Hash256) (above : List (List Hash256)) (t : Hash256)
      → next ≡ upper_level c (chunks level)
      → contains level t ≡ true
      → ((u : Hash256) → contains next u ≡ true → Leads u (next ∷ above))
      → Leads t (level ∷ next ∷ above)
  unfolding climb_all scan_levels top_of
  more-Leads level next above t is_upper there further no_echo =
      let (e, scanned, inside) =
        scan_level_hit (chunks level) t no_echo.0 (contains-chunks level t there) in
      let rest =
        further (climb c t e) (subst (λ l. contains l (climb c t e) ≡ true) (sym is_upper) inside)
          no_echo.1 in
      rw scanned rest

  climb_all-scan_levels :
      (fuel : ℕ) (level : List Hash256) (t : Hash256)
      → length level ≤ fuel
      → contains level t ≡ true
      → Leads t (merkle_tree c fuel level)
  climb_all-scan_levels zero level t enough there =
      let some_hash = contains-length level t there in absurd (omega arith)
  climb_all-scan_levels (suc fuel) level t enough there = elim (Bool-cases (length level == 1)) [
    | inl one ↦ subst (Leads t) (sym (merkle_tree-one fuel level one)) (one-Leads level t one there)
    | inr more ↦
        let next = upper_level c (chunks level) in
        let (above, shape) = merkle_tree-head fuel next in
        let half = upper_level-length level in
        let some_hash = contains-length level t there in
        let several : 2 ≤ length level = ground arith in
        subst (Leads t)
          (sym (merkle_tree-more fuel level more ∙ ap (λ levels. level ∷ levels) shape))
          (more-Leads level next above t refl there (λ u inside.
            subst (Leads u) shape (climb_all-scan_levels fuel next u (omega arith) inside)))
  ]

  root-top :
      (hash_list : List Hash256) (t : Hash256)
      → contains hash_list t ≡ true
      → root c hash_list ≡ top_of c (merkle_tree c (length hash_list) hash_list)
  unfolding root
  root-top [] t there = absurd (ground arith)
  root-top (a ∷ rest) t there = refl

  -- Each hash of the list has a Merkle proof, and the data of that hash verifies with it against the
  -- tree's root, as long as in each level no parent is itself one of the hashes to the right of it.
  pub verify-create_merkle_proof :
      (hash_list : List Hash256) (bytes : List ℕ)
      → contains hash_list (c.hash bytes) ≡ true
      → HaveNoEcho (merkle_tree c (length hash_list) hash_list)
      → (proof : MerkleProof) × (create_merkle_proof c hash_list (c.hash bytes) ≡ some proof)
        × (verify c proof (root c hash_list) bytes ≡ true)
  unfolding create_merkle_proof verify
  verify-create_merkle_proof hash_list bytes there no_echo =
      let key = c.hash bytes in
      let top = root-top hash_list key there in
      let leads =
        climb_all-scan_levels (length hash_list) hash_list key (omega arith) there no_echo in
      (scan_levels c (merkle_tree c (length hash_list) hash_list) key, rw there refl, ground arith)
