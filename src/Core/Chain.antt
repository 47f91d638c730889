-- ===== src/Core/Chain.antt =====
-- The headers that `CommitSequenceVerifier` of core/src/verify.rs accepts form a chain.
use simperby.Base.{◌≡◌, ◌≢◌, true, List, [], ◌∷◌, ◌++◌, arith, ◌==◌, any}
use simperby.Base.Int.{◌≤ℤ◌}
use simperby.Base.Word.{add_u64}
use simperby.Core.Types.{BlockHeader, Commit}
use simperby.Core.Crypto.{Crypto}
use simperby.Core.Hash.{hash_header}
use simperby.Core.Verify.{verify_header_to_header, verify_finalization_proof}
use simperby.Core.Sequence.{CommitSequenceVerifier}
use simperby.Core.Result.{ok}

-- What makes one header the child of another.
pub record IsChild (c : Crypto) (h1 h2 : BlockHeader) : Type 0 where
  pub height : h2.height ≡ add_u64 h1.height 1
  pub previous : h2.previous_hash ≡ hash_header c h1
  pub author : any (λ v. v.0 == h2.author) h1.validator_set ≡ true
  pub later : h1.timestamp ≤ℤ h2.timestamp
  pub finalized : verify_finalization_proof c h1 h2.prev_block_finalization_proof ≡ ok tt

-- `verify_header_to_header` accepts exactly the children of a header: those with the next height, its
-- hash, an author of its validator set, no earlier timestamp and a finalization proof of it.
pub verify_header_to_header_iff :
    (c : Crypto) (h1 h2 : BlockHeader)
    → (verify_header_to_header c h1 h2 ≡ ok tt → IsChild c h1 h2)
      × (IsChild c h1 h2 → verify_header_to_header c h1 h2 ≡ ok tt)
unfolding verify_header_to_header
verify_header_to_header_iff c h1 h2 = (
  λ h. record {
    height = ground arith;
    previous = ground arith;
    author = ground arith;
    later = ground arith;
    finalized = ground arith;
  },
  λ child. ground arith,
)

-- The blocks among the commits, the last first, which is the verifier's header.
pub data Chain (c : Crypto) : BlockHeader → List Commit → Type 0 where
  start : (h : BlockHeader) → Chain c h (Commit.block h ∷ [])
  other :
      {h : BlockHeader} {commits : List Commit} (commit : Commit)
      → Chain c h commits
      → ((b : BlockHeader) → commit ≢ Commit.block b)
      → Chain c h (commits ++ commit ∷ [])
  child :
      {h : BlockHeader} {commits : List Commit} (h' : BlockHeader)
      → Chain c h commits
      → IsChild c h h'
      → Chain c h' (commits ++ Commit.block h' ∷ [])

abbrev pub IsChained : Crypto → CommitSequenceVerifier → Type 0
IsChained c v = Chain c v.header v.total_commits
