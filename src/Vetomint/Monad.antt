-- ===== src/Vetomint/Monad.antt =====
-- A handler of the state machine: it changes the state and answers with responses, or panics.
use simperby.Base.{Option, none, some, List, [], ◌++◌, Bool, if◌then◌else◌}
use simperby.Vetomint.Types.{ConsensusState, ConsensusResponse}

abbrev pub M : Type 0 → Type 0
M A = ConsensusState → Option (A × ConsensusState)

abbrev pub Handler : Type 0
Handler = M (List ConsensusResponse)

infixl 5 ◌>>=◌ ◌>>◌
abbrev pub ◌>>=◌ : {A B : Type 0} → M A → (A → M B) → M B
◌>>=◌ m f s = elim (m s) [ none ↦ none | some (a, s') ↦ f a s' ]

abbrev pub ◌>>◌ : {A B : Type 0} → M A → M B → M B
m >> k = m >>= λ _. k

abbrev pub pure : {A : Type 0} → A → M A
pure a s = some (a, s)

abbrev pub modify : (ConsensusState → ConsensusState) → M (Unit {0})
modify f s = some (tt, f s)

-- `Vec::new()` with the state left alone.
abbrev pub nothing : Handler
nothing = pure []

-- `response.extend(first); response.extend(second)`.
infixr 6 ◌then_extend◌
unfoldable pub ◌then_extend◌ : Handler → Handler → Handler
first then_extend second = do a ← first; b ← second; pure (a ++ b)

-- `a && b`, where evaluating `b` may panic.
abbrev pub and_also : Bool → Option Bool → Option Bool
and_also a b = if a then b else some Bool.false
