-- ===== src/Vetomint/Feedback.antt =====
-- vetomint/src/lib.rs: `Vetomint::progress`, which feeds what the node sends out back to itself until
-- nothing more is said. `loop` is a recursion on fuel.
use simperby.Base.{ℕ, zero, suc, true, Option, none, some, List, [], ◌∷◌, ◌++◌}
use simperby.Vetomint.Types.{
  ValidatorIndex, Timestamp, HeightInfo, new, ConsensusEvent, ConsensusResponse, broadcast_proposal,
  broadcast_prevote, broadcast_precommit, finalize_block, violation_report, ConsensusState,
}
use simperby.Vetomint.Monad.{Handler, nothing, ◌then_extend◌}
use simperby.Vetomint.Progress.{progress}

pub record Vetomint : Type 0 where
  pub state : ConsensusState

-- `Vetomint::new`.
unfoldable pub new_vetomint : HeightInfo → Vetomint
new_vetomint height_info = record { state = new height_info }

-- `Vetomint::get_height_info`.
unfoldable pub get_height_info : Vetomint → HeightInfo
get_height_info v = v.state.height_info

-- What a response makes of the loop's round: no event, an event to this node, or the panic of
-- `this_node_index.unwrap()`.
pub data Reply : Type 0 where
  silent : Reply
  panics : Reply
  says : ConsensusEvent → Reply

abbrev pub from_this_node : Option ValidatorIndex → (ValidatorIndex → ConsensusEvent) → Reply
from_this_node none event = panics
from_this_node (some index) event = says (event index)

abbrev pub reply : Option ValidatorIndex → ConsensusResponse → Reply
reply this (broadcast_proposal proposal valid_round round) =
    from_this_node this
      (λ index. ConsensusEvent.block_proposal_received proposal true valid_round index round true)
reply this (broadcast_prevote proposal round) =
    from_this_node this (λ index. ConsensusEvent.prevote proposal index round)
reply this (broadcast_precommit proposal round) =
    from_this_node this (λ index. ConsensusEvent.precommit proposal index round)
reply this (finalize_block _ _ _) = silent
reply this (violation_report _ _) = silent

unfoldable pub answer : Timestamp → Reply → Handler
unfolding progress
answer now silent = nothing
answer now panics = λ _. none
answer now (says event) = progress event now

-- The `for` loop over the responses of the round before. The node's index is that of the state with
-- which the round began.
unfoldable pub feed : Option ValidatorIndex → List ConsensusResponse → Timestamp → Handler
unfolding answer ◌then_extend◌
feed this [] now = nothing
feed this (r ∷ rs) now = answer now (reply this r) then_extend feed this rs now

-- How the loop ended: by itself, by a panic, or (in the model) because its fuel ran out.
pub data Outcome : Type 0 where
  finished : List ConsensusResponse → ConsensusState → Outcome
  panicked : Outcome
  exhausted : ConsensusState → Outcome

unfoldable pub loop :
    ℕ → Timestamp → List ConsensusResponse → List ConsensusResponse → ConsensusState → Outcome
unfolding feed
loop zero now responses final_responses s = exhausted s
loop (suc fuel) now responses final_responses s =
    elim (feed s.height_info.this_node_index responses now s) [
      | none ↦ panicked
      | some (said, t) ↦ elim said [
        | [] ↦ finished final_responses t
        | x ∷ xs ↦ loop fuel now (x ∷ xs) (final_responses ++ x ∷ xs) t
      ]
    ]

unfoldable pub vetomint_progress : ℕ → ConsensusEvent → Timestamp → Vetomint → Outcome
unfolding progress loop
vetomint_progress fuel event now v = elim (progress event now v.state) [
  | none ↦ panicked
  | some (responses, s) ↦ loop fuel now responses responses s
]
