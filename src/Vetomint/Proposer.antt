-- ===== src/Vetomint/Proposer.antt =====
-- vetomint/src/lib.rs: the leader of a round, and the timeout.
use simperby.Base.{◌-◌, ◌%◌, Option, none, some, ltb, ◌==◌, if◌then◌else◌, length}
use simperby.Base.Word.{add_u64, as_i64}
use simperby.Vetomint.Types.{ValidatorIndex, Round, Timestamp, ConsensusParams, HeightInfo}

-- A remainder by zero panics.
unfoldable pub decide_proposer : Round → HeightInfo → Option ValidatorIndex
unfolding add_u64
decide_proposer round height_info =
    let first = height_info.consensus_params.repeat_round_for_first_leader in
    let n = length height_info.validators in
    if ltb round first
    then some 0
    else if n == 0
    then none
    else some (add_u64 (round - first) 1 % n)

unfoldable pub decide_timeout : ConsensusParams → Round → Timestamp
unfolding as_i64
decide_timeout params _round = as_i64 params.timeout_ms
