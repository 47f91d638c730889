-- ===== src/Core/Chained.antt =====
-- The blocks that `CommitSequenceVerifier` of core/src/verify.rs has accepted.
use simperby.Base.{◌≡◌, ◌≢◌, refl, sym, subst, List, [], ◌∷◌, ◌++◌, arith}
use simperby.Core.Types.{BlockHeader, ReservedState, Commit}
use simperby.Core.Crypto.{Crypto}
use simperby.Core.Sequence.{CommitSequenceVerifier, new}
use simperby.Core.Apply.{Applied, pushed, apply_arm, apply_commit}
use simperby.Core.Result.{ok, err, panic}
use simperby.Core.Chain.{Chain, start, other, child, IsChained}
use simperby.Core.Trace.{Trace, Enters, apply_arm-Trace, apply_arm-Enters, apply_arm_refused-Trace}

-- The verifier after the commits, in order; one that is refused is passed over.
unfoldable pub apply_all : Crypto → List Commit → CommitSequenceVerifier → CommitSequenceVerifier
unfolding apply_commit
apply_all c [] v = v
apply_all c (commit ∷ commits) v = apply_all c commits (apply_commit c commit v).1

moved :
    (c : Crypto) (v w : CommitSequenceVerifier) → Trace w ≡ Trace v → IsChained c v → IsChained c w
moved c v w same chained =
    subst (λ (t : BlockHeader × List Commit × List Commit). Chain c t.0 t.1) (sym same) chained

push_other :
    (c : Crypto) (v : CommitSequenceVerifier) (commit : Commit) (a : Applied)
    → IsChained c v
    → Trace a.1 ≡ Trace v
    → ((b : BlockHeader) → commit ≢ Commit.block b)
    → IsChained c (pushed commit a).1
push_other c v commit (ok _, w) chained same plain = other commit (moved c v w same chained) plain
push_other c v commit (err _, w) chained same plain = moved c v w same chained
push_other c v commit (panic, w) chained same plain = moved c v w same chained

push_block :
    (c : Crypto) (v : CommitSequenceVerifier) (header : BlockHeader) (a : Applied)
    → IsChained c v
    → Enters c v header a
    → (a.0 ≢ ok tt → Trace a.1 ≡ Trace v)
    → IsChained c (pushed (Commit.block header) a).1
push_block c v header (ok _, w) chained enters refused =
    let (is_child, same) = enters refl in
    subst
      (λ (t : BlockHeader × List Commit × List Commit).
        Chain c t.0 (t.1 ++ Commit.block header ∷ []))
      (sym same) (child header chained is_child)
push_block c v header (err _, w) chained enters refused =
    moved c v w (refused (ground arith)) chained
push_block c v header (panic, w) chained enters refused =
    moved c v w (refused (ground arith)) chained

apply_commit-IsChained :
    (c : Crypto) (commit : Commit) (v : CommitSequenceVerifier)
    → IsChained c v
    → IsChained c (apply_commit c commit v).1
unfolding apply_commit
apply_commit-IsChained c (Commit.block header) v chained =
    push_block c v header (apply_arm c v (Commit.block header) v.phase) chained
      (apply_arm-Enters c v header v.phase) (apply_arm_refused-Trace c v header v.phase)
apply_commit-IsChained c commit v chained =
    push_other c v commit (apply_arm c v commit v.phase) chained
      (apply_arm-Trace c v commit v.phase (λ h. h)) (λ b. ground arith)

apply_all_from :
    (c : Crypto) (commits : List Commit) (v : CommitSequenceVerifier)
    → IsChained c v
    → IsChained c (apply_all c commits v)
unfolding apply_all
apply_all_from c [] v chained = chained
apply_all_from c (commit ∷ commits) v chained =
    apply_all_from c commits _ (apply_commit-IsChained c commit v chained)

-- Whatever commits a new verifier is given, valid or not and in any order, the blocks among those it
-- has accepted form a chain from the start header to its present header: each has the next height, the
-- hash of the one before, an author of the validator set and no earlier timestamp, and carries a
-- finalization proof of the one before.
pub apply_all-IsChained :
    (c : Crypto) (start_header : BlockHeader) (rs : ReservedState) (commits : List Commit)
    → IsChained c (apply_all c commits (new start_header rs))
unfolding new
apply_all-IsChained c start_header rs commits = apply_all_from c commits _ (start start_header)
