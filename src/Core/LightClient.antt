-- ===== src/Core/LightClient.antt =====
-- core/src/light_client.rs: a client that follows the headers only.
use simperby.Base.{
  ℕ, ◌-◌, Bool, false, ◌||◌, Option, none, some, List, [], ◌∷◌, ◌++◌, ltb, leb, length, get_elem?,
  if◌then◌else◌,
}
use simperby.Base.Word.{add_u64}
use simperby.Core.Types.{Hash256, BlockHeader, FinalizationProof, Transaction}
use simperby.Core.Crypto.{Crypto}
use simperby.Core.Merkle.{MerkleProof, verify}
use simperby.Core.Verify.{verify_header_to_header, verify_finalization_proof}
use simperby.Core.Result.{Error, Result, ok, ◌>>◌}

pub record LightClient : Type 0 where
  pub repository_roots : List Hash256
  pub commit_roots : List Hash256
  pub height_offset : ℕ
  pub last_header : BlockHeader

unfoldable pub new_client : BlockHeader → LightClient
new_client header = record {
  repository_roots = header.repository_merkle_root ∷ [];
  commit_roots = header.commit_merkle_root ∷ [];
  height_offset = header.height;
  last_header = header;
}

module _ (c : Crypto) where
  -- `LightClient::update`; an error leaves the client as it is.
  unfoldable pub update : BlockHeader → FinalizationProof → LightClient → Result Error LightClient
  unfolding verify_header_to_header verify_finalization_proof
  update header proof client = do
    verify_header_to_header c client.last_header header
    verify_finalization_proof c header proof
    ok (record client {
      repository_roots = client.repository_roots ++ header.repository_merkle_root ∷ [];
      commit_roots = client.commit_roots ++ header.commit_merkle_root ∷ [];
      last_header = header;
    })

  -- Indexing out of range panics: `none`.
  unfoldable pub verify_transaction_commitment :
      LightClient → Transaction → ℕ → MerkleProof → Option Bool
  unfolding verify add_u64
  verify_transaction_commitment client tx height proof =
      if ltb height client.height_offset
        || leb (add_u64 client.height_offset (length client.commit_roots)) height
      then some false
      else elim (get_elem? client.commit_roots (height - client.height_offset)) [
        | none ↦ none
        | some root ↦ some (verify c proof root (c.transaction_bytes tx))
      ]
