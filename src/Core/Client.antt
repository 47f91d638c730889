-- ===== src/Core/Client.antt =====
-- What the light client of core/src/light_client.rs keeps over its updates.
use simperby.Base.{
  ℕ, ◌+◌, ◌-◌, ◌<◌, ◌≤◌, ◌%◌, ◌≡◌, ◌⊎◌, inl, inr, refl, sym, ◌∙◌, ap, subst, false, some, List, [],
  ◌∷◌, ◌++◌, arith, length, length-append, get_elem?, get_elem?_lt,
}
use native.Mathlib.Nat.{mod-eq_of_lt}
use simperby.Base.Word.{add_u64, u64_mod}
use simperby.Core.Types.{Hash256, BlockHeader, FinalizationProof, Transaction}
use simperby.Core.Crypto.{Crypto}
use simperby.Core.Merkle.{MerkleProof, verify}
use simperby.Core.Verify.{verify_header_to_header}
use simperby.Core.Kept.{Result-cases}
use simperby.Core.LightClient.{LightClient, new_client, update, verify_transaction_commitment}
use simperby.Core.Result.{Error, Result, ok, err, panic}

-- The client after the headers with their proofs, in order; one that is refused is passed over.
abbrev pub kept : LightClient → Result Error LightClient → LightClient
kept client (ok client') = client'
kept client (err _) = client
kept client panic = client

unfoldable pub update_all :
    Crypto → List (BlockHeader × FinalizationProof) → LightClient → LightClient
unfolding update
update_all c [] client = client
update_all c ((header, proof) ∷ rest) client =
    update_all c rest (kept client (update c header proof client))

-- The roots of each height from the offset to the last header's, the last of them that header's.
pub record IsSynced (client : LightClient) : Type 0 where
  pub even : length client.repository_roots ≡ length client.commit_roots
  pub reach : client.last_header.height + 1 ≡ client.height_offset + length client.commit_roots
  pub small : client.last_header.height + 1 < u64_mod
  pub latest :
      get_elem? client.commit_roots (client.last_header.height - client.height_offset)
      ≡ some client.last_header.commit_merkle_root
  pub started : client.height_offset ≤ client.last_header.height

get_last : (xs : List Hash256) (x : Hash256) → get_elem? (xs ++ x ∷ []) (length xs) ≡ some x
get_last [] x = refl
get_last (y ∷ ys) x = get_last ys x

updated :
    (c : Crypto) (header : BlockHeader) (proof : FinalizationProof) (client after : LightClient)
    → update c header proof client ≡ ok after
    → (after ≡ record client {
      repository_roots = client.repository_roots ++ header.repository_merkle_root ∷ [];
      commit_roots = client.commit_roots ++ header.commit_merkle_root ∷ [];
      last_header = header;
    })
      × (header.height ≡ add_u64 client.last_header.height 1)
unfolding update verify_header_to_header
updated c header proof client after accepted = (ground arith, ground arith)

new_client-IsSynced :
    (header : BlockHeader) → header.height + 1 < u64_mod → IsSynced (new_client header)
unfolding new_client
new_client-IsSynced header small = record {
  even = refl;
  reach = refl;
  small = small;
  latest =
      let first : header.height - header.height ≡ 0 = omega arith in
      ap (get_elem? (header.commit_merkle_root ∷ [])) first;
  started = omega arith;
}

-- What the next client keeps, once its fields are known.
update-IsSynced :
    (client : LightClient) (header : BlockHeader)
    → IsSynced client
    → client.last_header.height + 2 < u64_mod
    → header.height ≡ add_u64 client.last_header.height 1
    → IsSynced (record client {
      repository_roots = client.repository_roots ++ header.repository_merkle_root ∷ [];
      commit_roots = client.commit_roots ++ header.commit_merkle_root ∷ [];
      last_header = header;
    })
unfolding add_u64
update-IsSynced client header synced room next =
    let exact : (client.last_header.height + 1) % u64_mod ≡ client.last_header.height + 1 =
      mod-eq_of_lt (omega arith) in
    let height : header.height ≡ client.last_header.height + 1 = next ∙ exact in
    let more_commits = length-append client.commit_roots (header.commit_merkle_root ∷ []) in
    let more_repositories =
      length-append client.repository_roots (header.repository_merkle_root ∷ []) in
    let place : header.height - client.height_offset ≡ length client.commit_roots =
      omega (arith, height, synced.reach) in
    record {
      even = omega (arith, more_commits, more_repositories, synced.even);
      reach = omega (arith, more_commits, height, synced.reach);
      small = omega (arith, height, room);
      latest =
          ap (get_elem? (client.commit_roots ++ header.commit_merkle_root ∷ [])) place
          ∙ get_last client.commit_roots header.commit_merkle_root;
      started = omega (arith, height, synced.started);
    }

next_height :
    (header : BlockHeader) (client : LightClient)
    → header.height ≡ add_u64 client.last_header.height 1
    → header.height ≤ client.last_header.height + 1
unfolding add_u64
next_height header client next = omega arith

kept-IsSynced :
    (c : Crypto) (header : BlockHeader) (proof : FinalizationProof) (client : LightClient)
    → IsSynced client
    → client.last_header.height + 2 < u64_mod
    → IsSynced (kept client (update c header proof client))
      × ((kept client (update c header proof client)).last_header.height
          ≤ client.last_header.height + 1)
kept-IsSynced c header proof client synced room =
    elim (Result-cases (update c header proof client)) [
      | inl (after, accepted) ↦
          let (shape, next) = updated c header proof client after accepted in
          let good = update-IsSynced client header synced room next in
          let at_header : after.last_header.height ≡ header.height =
            ap (λ (x : LightClient). x.last_header.height) shape in
          let near : header.height ≤ client.last_header.height + 1 =
            next_height header client next in
          let is_after : after ≡ kept client (update c header proof client) =
            ap (kept client) (sym accepted) in
          subst (λ x. IsSynced x × (x.last_header.height ≤ client.last_header.height + 1)) is_after
            (subst (λ x. IsSynced x) (sym shape) good, omega (arith, near, at_header))
      | inr (inl (e, refused)) ↦
          subst (λ x. IsSynced x × (x.last_header.height ≤ client.last_header.height + 1))
            (ap (kept client) (sym refused)) (synced, omega arith)
      | inr (inr refused) ↦
          subst (λ x. IsSynced x × (x.last_header.height ≤ client.last_header.height + 1))
            (ap (kept client) (sym refused)) (synced, omega arith)
    ]

update_all_from :
    (c : Crypto) (updates : List (BlockHeader × FinalizationProof)) (client : LightClient)
    → IsSynced client
    → client.last_header.height + 1 + length updates < u64_mod
    → IsSynced (update_all c updates client)
unfolding update_all
update_all_from c [] client synced room = synced
update_all_from c ((header, proof) ∷ rest) client synced room =
    let (next, near) = kept-IsSynced c header proof client synced (omega arith) in
    update_all_from c rest (kept client (update c header proof client)) next (omega (arith, near))

-- After any headers and proofs, valid or not, a light client has one commit root and one repository
-- root for each height from its first header's to its last header's, the last of the commit roots
-- being its last header's, as long as the heights stay below 2 ^ 64.
pub update_all-IsSynced :
    (c : Crypto) (header : BlockHeader) (updates : List (BlockHeader × FinalizationProof))
    → header.height + 1 + length updates < u64_mod
    → IsSynced (update_all c updates (new_client header))
unfolding new_client
update_all-IsSynced c header updates room =
    update_all_from c updates (new_client header) (new_client-IsSynced header (omega arith)) room

-- A synced client answers every request for a transaction, and never indexes out of range: outside
-- its heights the answer is false, inside it is whether the proof leads to the root of that height.
pub verify_transaction_commitment_iff :
    (c : Crypto) (client : LightClient) (tx : Transaction) (height : ℕ) (proof : MerkleProof)
    → IsSynced client
    → ((height < client.height_offset) ⊎ (client.last_header.height < height)
        → verify_transaction_commitment c client tx height proof ≡ some false)
      × (client.height_offset ≤ height
          → height ≤ client.last_header.height
          → (root : Hash256) × (get_elem? client.commit_roots (height - client.height_offset)
              ≡ some root)
            × (verify_transaction_commitment c client tx height proof
                ≡ some (verify c proof root (c.transaction_bytes tx))))
unfolding verify_transaction_commitment add_u64
verify_transaction_commitment_iff c client tx height proof synced =
    let exact : (client.height_offset + length client.commit_roots) % u64_mod
        ≡ client.height_offset + length client.commit_roots =
      mod-eq_of_lt (omega (arith, synced.reach, synced.small)) in
    let reach = synced.reach in
    (
      λ outside. ground arith,
      λ from to.
          let (root, found) =
            get_elem?_lt client.commit_roots (height - client.height_offset)
              (omega (arith, synced.reach)) in
          (root, found, ground arith),
    )
