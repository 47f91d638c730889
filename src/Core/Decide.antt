-- ===== src/Core/Decide.antt =====
-- The derived equality of core/src/types.rs that `verify_reserved_state` uses.
use native.Mathlib.Decide.{ℕ_discrete}
use simperby.Base.Int.{ℤ}
use simperby.Base.Text.{String-discrete}
use simperby.Core.Types.{GenesisInfo, BlockHeader, FinalizationProof, TypedSignature}

unfoldable pub TypedSignature-discrete : Discrete TypedSignature
TypedSignature-discrete = hlevel ℕ_discrete

unfoldable pub ℤ-discrete : Discrete ℤ
ℤ-discrete = hlevel ℕ_discrete

unfoldable pub FinalizationProof-discrete : Discrete FinalizationProof
FinalizationProof-discrete = hlevel (ℕ_discrete, TypedSignature-discrete)

unfoldable pub BlockHeader-discrete : Discrete BlockHeader
BlockHeader-discrete = hlevel (ℕ_discrete, ℤ-discrete, String-discrete, FinalizationProof-discrete)

unfoldable pub GenesisInfo-discrete : Discrete GenesisInfo
GenesisInfo-discrete =
    hlevel (ℕ_discrete, String-discrete, BlockHeader-discrete, FinalizationProof-discrete)
