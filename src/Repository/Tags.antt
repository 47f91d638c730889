-- ===== src/Repository/Tags.antt =====
-- repository/src/interpret/tags.rs, genesis.rs and push.rs: votes and vetos as tags, the first commits,
-- and who may push.
use Prim.Native.String.{String, ◌++◌ as ◌<>◌}
use simperby.Base.{
  Bool, true, false, not, ◌&&◌, Option, none, some, List, [], ◌∷◌, ◌==◌, if◌then◌else◌,
}
use simperby.Core.Types.{Hash256, Commit, PublicKey, Member, TypedSignature}
use simperby.Core.Crypto.{Crypto}
use simperby.Core.Hash.{hash_header, hash_agenda}
use simperby.Core.Reserved.{verifies}
use simperby.Core.Result.{ok, err, ◌>>=◌ as ◌>>?◌}
use simperby.Repository.Types.{
  Tag, CommitHash, LastFinalizationProof, rejected, finalized_branch_name, fp_branch_name,
  tag_name_hash_digits,
}
use simperby.Repository.Library.{Library}
use simperby.Repository.Format.{to_semantic_commit, fp_to_semantic_commit}
use simperby.Repository.Git.{Git}
use simperby.Repository.Raw.Action.{◌>>=◌, ◌>>◌, lift, relabel}
use simperby.Repository.Raw.Branches.{create_tag, create_branch, locate_branch}
use simperby.Repository.Raw.Walk.{get_head}
use simperby.Repository.Raw.Commits.{create_semantic_commit}
use simperby.Repository.Raw.Work.{checkout, checkout_clean, checkout_detach, read_reserved_state}
use simperby.Repository.Read.{Reading, raws, formats, not_found_is_broken, read_commit}
use simperby.Repository.Acts.{Acts, raw, look, take_chars}

abbrev voted_hash : Crypto → Commit → Option Hash256
voted_hash c (Commit.agenda a) = some (hash_agenda c a)
voted_hash c _ = none

abbrev vetoed_hash : Crypto → Commit → Option Hash256
vetoed_hash c (Commit.block b) = some (hash_header c b)
vetoed_hash c _ = none

module _ (c : Crypto) (lib : Library) (g : Git) where
  unfoldable pub tag_name : String → Hash256 → Tag
  unfolding take_chars
  tag_name prefix hash = prefix <> take_chars tag_name_hash_digits (lib.hash_text hash)

  unfoldable pub vote : CommitHash → Acts g (Unit {0})
  unfolding read_commit create_tag tag_name
  vote commit_hash = do
    commit ← look g (read_commit lib g commit_hash)
    elim (voted_hash c commit) [
      | none ↦ lift (err rejected)
      | some hash ↦ raw g (create_tag g (tag_name "vote-" hash) commit_hash)
    ]

  unfoldable pub veto : CommitHash → Acts g (Unit {0})
  unfolding read_commit create_tag tag_name
  veto commit_hash = do
    commit ← look g (read_commit lib g commit_hash)
    elim (vetoed_hash c commit) [
      | none ↦ lift (err rejected)
      | some hash ↦ raw g (create_tag g (tag_name "veto-" hash) commit_hash)
    ]

  -- `let _ = …`: the error is dropped, what was written stays.
  abbrev ignored : Acts g (Unit {0}) → Acts g (Unit {0})
  ignored m r = let (_, r') = m r in (ok tt, r')

  unfoldable pub genesis : Acts g (Unit {0})
  unfolding read_reserved_state to_semantic_commit checkout_clean get_head create_branch checkout
      create_semantic_commit fp_to_semantic_commit locate_branch checkout_detach
  genesis = do
    reserved_state ← look g (λ r. raws (read_reserved_state g r))
    let header = reserved_state.genesis_info.header
    s ← lift (formats (to_semantic_commit c lib (Commit.block header) reserved_state))
    raw g (checkout_clean g)
    head ← look g (λ r. raws (get_head g r))
    ignored (raw g (create_branch g finalized_branch_name head))
    relabel not_found_is_broken (checkout g finalized_branch_name)
    result ← raw g (create_semantic_commit g s true)
    ignored (raw g (create_branch g fp_branch_name result))
    relabel not_found_is_broken (checkout g fp_branch_name)
    let fp : LastFinalizationProof = record {
      height = 0;
      proof = reserved_state.genesis_info.genesis_proof;
    }
    fp_commit ← lift (formats (fp_to_semantic_commit lib fp))
    _ ← raw g (create_semantic_commit g fp_commit true)
    finalized ← look g (λ r. raws (locate_branch g finalized_branch_name r))
    raw g (checkout_detach g finalized)

-- `members.iter().find(…).map(|member| !member.expelled).unwrap_or(false)`.
unfoldable pub is_member : List Member → PublicKey → Bool
is_member [] key = false
is_member (m ∷ members) key = if m.public_key == key then not m.expelled else is_member members key

-- `pushed` is the hash of the commit hash, the branch name and the timestamp, which are signed.
unfoldable pub test_push_eligibility :
    (c : Crypto) (g : Git) → TypedSignature → Hash256 → g.Repo → Reading Bool
unfolding read_reserved_state is_member
test_push_eligibility c g signature pushed r = raws (read_reserved_state g r) >>? λ rs. ok (
    is_member rs.members signature.signer
    && verifies c signature pushed
    && verifies c signature pushed)
