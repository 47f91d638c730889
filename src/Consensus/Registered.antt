-- ===== src/Consensus/Registered.antt =====
-- What `register_verified_block_hash` of consensus/src/state.rs leaves for the later look-ups.
use simperby.Base.{
  ◌+◌, ◌<◌, ◌≤◌, ◌≡◌, inl, inr, refl, sym, ◌∙◌, ap, subst, none, some, List, [], ◌∷◌, arith,
  compare, In, Option-cases, length,
}
use simperby.Base.Word.{add_u64, u64_mod}
use simperby.Base.Ordered.{map_get, map_get-map_insert_self}
use simperby.Core.Types.{Hash256, BlockHeader, Timestamp, PublicKey}
use simperby.Core.Result.{ok, ◌>>=◌}
use simperby.Vetomint.Types.{BlockIdentifier, ConsensusParams}
use simperby.Consensus.Types.{State}
use simperby.Consensus.State.{
  Op, unless_final, get_block_index, enter_block_hash, register_verified_block_hash, new_state,
}
use simperby.Consensus.Progress.{get_block_hash}
use simperby.Consensus.Indexed.{
  IsIndexed, known_stays, entered, enter_block_hash-IsIndexed, map_get-map_insert_other,
}

-- The registrations of the hashes, in order.
unfoldable pub register_all : List Hash256 → Op
unfolding register_verified_block_hash
register_all [] s = ok s
register_all (h ∷ hashes) s = register_verified_block_hash h s >>= register_all hashes

-- The state has an identifier for the block.
abbrev IsKnown : Hash256 → State → Type 0
IsKnown h s = (i : BlockIdentifier) × (map_get compare h s.verified_block_hashes ≡ some i)

enter_same :
    (h : Hash256) (s : State)
    → s.block_identifier_count + 1 < u64_mod
    → IsKnown h (enter_block_hash h s)
enter_same h s small = elim (Option-cases (map_get compare h s.verified_block_hashes)) [
  | inr (i, known) ↦ subst (IsKnown h) (known_stays h s i known) (i, known)
  | inl new ↦
      let (count, map) = entered h s new small in
      (
        s.block_identifier_count,
        ap (map_get compare h) (sym map)
            ∙ map_get-map_insert_self compare (λ a. ground arith) h s.block_identifier_count
                s.verified_block_hashes,
      )
]

enter_other :
    (h k : Hash256) (s : State)
    → s.block_identifier_count + 1 < u64_mod
    → IsKnown k s
    → IsKnown k (enter_block_hash h s)
enter_other h k s small (i, found) =
    elim (Option-cases (map_get compare h s.verified_block_hashes)) [
      | inr (j, known) ↦ subst (IsKnown k) (known_stays h s j known) (i, found)
      | inl new ↦
          let (count, map) = entered h s new small in
          (
            i,
            ap (map_get compare k) (sym map)
                ∙ map_get-map_insert_other h k s.block_identifier_count s.verified_block_hashes
                    (λ same. absurd (ground arith))
                ∙ found,
          )
    ]

enter-count :
    (h : Hash256) (s : State)
    → s.block_identifier_count + 1 < u64_mod
    → ((enter_block_hash h s).block_identifier_count ≤ s.block_identifier_count + 1)
      × ((enter_block_hash h s).finalized ≡ s.finalized)
unfolding enter_block_hash add_u64
enter-count h s small = (ground arith, ground arith)

-- What the registrations come to.
record Registered (hashes : List Hash256) (s t : State) : Type 0 where
  done : register_all hashes s ≡ ok t
  indexed : IsIndexed t
  keeps : (k : Hash256) → IsKnown k s → IsKnown k t
  knows : (k : Hash256) → In k hashes → IsKnown k t

register_all-Registered :
    (hashes : List Hash256) (s : State)
    → s.finalized ≡ none
    → s.block_identifier_count + length hashes < u64_mod
    → IsIndexed s
    → (t : State) × Registered hashes s t
unfolding register_all unless_final
register_all-Registered [] s live small indexed =
    (s, record { done = refl; indexed = indexed; keeps = λ k h. h; knows = λ k h. absurd h })
register_all-Registered (h ∷ hashes) s live small indexed =
    let room : s.block_identifier_count + 1 < u64_mod = omega arith in
    let (count, same) = enter-count h s room in
    let (t, rest) =
      register_all-Registered hashes (enter_block_hash h s) (same ∙ live) (omega (arith, count))
        (enter_block_hash-IsIndexed h s room indexed) in
    (
      t,
      record {
        done = rw live rest.done;
        indexed = rest.indexed;
        keeps = λ k known. rest.keeps k (enter_other h k s room known);
        knows = λ k there. elim there [
          | inl here ↦
              rest.keeps k
                (subst (λ x. IsKnown x (enter_block_hash h s)) (sym here) (enter_same h s room))
          | inr later ↦ rest.knows k later
        ];
      },
    )

new_state-IsIndexed :
    (header : BlockHeader) (params : ConsensusParams) (time : Timestamp) (key : PublicKey)
    → IsIndexed (new_state header params time key)
unfolding new_state map_get
new_state-IsIndexed header params time key = record {
  below = tt;
  back = λ h i found. absurd (ground arith);
}

look_up :
    (s : State) (h : Hash256)
    → IsIndexed s
    → IsKnown h s
    → (i : BlockIdentifier) × (get_block_index h s ≡ ok i) × (get_block_hash s i ≡ ok h)
unfolding get_block_index get_block_hash
look_up s h indexed (i, found) =
    let back = indexed.back h i found in (i, ground arith, ground arith)

-- A new node can register any blocks, fewer than 2 ^ 64; after that each of them has an identifier, and
-- the identifier leads back to the block, so that no two blocks share one.
pub register_all-get_block_hash :
    (header : BlockHeader) (params : ConsensusParams) (time : Timestamp) (key : PublicKey)
    (hashes : List Hash256)
    → length hashes < u64_mod
    → (t : State) × (register_all hashes (new_state header params time key) ≡ ok t)
      × ((h : Hash256)
          → In h hashes
          → (i : BlockIdentifier) × (get_block_index h t ≡ ok i) × (get_block_hash t i ≡ ok h))
unfolding new_state
register_all-get_block_hash header params time key hashes small =
    let (t, all) =
      register_all-Registered hashes (new_state header params time key) refl (omega arith)
        (new_state-IsIndexed header params time key) in
    (t, all.done, λ h there. look_up t h all.indexed (all.knows h there))
