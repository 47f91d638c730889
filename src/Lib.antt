-- ===== src/Lib.antt =====
-- Simperby is a blockchain node whose state is a git repository. This library models the parts of it
-- that decide: the consensus state machine of one height, the verification of the chain's
-- commits, the node that stands between them, and the operations on the repository that keeps the
-- chain. It has these parts.
--
-- Vetomint (vetomint/src) is the consensus state machine. `Vetomint.Types` has its messages and its
-- state (vetomint/src/lib.rs, vetomint/src/state.rs), `Vetomint.Tally` the sums of voting power
-- (state.rs), `Vetomint.Proposer` the leader of a round and the timeout (lib.rs),
-- `Vetomint.Misbehavior` the checks for double votes (vetomint/src/misbehavior.rs),
-- `Vetomint.Handlers` and `Vetomint.Late` the handlers and `Vetomint.Progress` the function
-- `progress` that calls them (vetomint/src/progress.rs), and `Vetomint.Feedback` the method
-- `Vetomint::progress`, which feeds a node's own messages back (lib.rs). A handler takes the state
-- and returns its responses with the new state, or `none` where the source panics on an index
-- out of range or on a remainder by zero. The modules below them hold proofs: `Vetomint.Step` is an
-- abstract machine of guarded steps, `Vetomint.Step.Refine` relates `progress` to it, and the others
-- draw conclusions from that.
--
-- Core (core/src) is the chain. `Core.Types` has the data (core/src/types.rs, core/src/reserved.rs),
-- `Core.Decide` its derived equality, `Core.Hash` the hashes (core/src/hash.rs), `Core.Merkle` the
-- Merkle tree (core/src/merkle_tree.rs), `Core.Reserved` the voting powers and delegations
-- (core/src/reserved.rs), `Core.Verify` the verification of headers and finalization proofs,
-- `Core.Sequence` and `Core.Apply` the `CommitSequenceVerifier` (core/src/verify.rs), and
-- `Core.LightClient` the light client (core/src/light_client.rs). `Core.Result` has the results: an
-- error of the source is a reason without its text, and a panic is a result of its own.
--
-- Consensus (consensus/src/state.rs) is a node between the two. `Consensus.Types` has its messages, its
-- results and its state (also consensus/src/lib.rs), `Consensus.State` the operations that put events in
-- its queue, and `Consensus.Progress` the method `progress`, which hands the events to Vetomint and turns
-- the answers into messages and a finalization. The two other parts meet here: the node collects the
-- signatures of precommits, and the verifier and the light client of Core ask for those of more than
-- two thirds of the power behind the header.
--
-- Repository (repository/src) keeps the chain as git commits and branches. `Repository.Types` has its data
-- (repository/src/lib.rs, repository/src/raw/mod.rs), `Repository.Format` the texts of commits
-- (repository/src/format.rs), `Repository.Raw` the calls of `git2`
-- (repository/src/raw/implementation.rs), and on top of these, from repository/src/interpret,
-- `Repository.Read` and `Repository.Candidates` what is read (read.rs), `Repository.Acts`,
-- `Repository.Sync` and `Repository.Clean` the work on branches (works.rs), `Repository.Create` and
-- `Repository.Finalize` the new commits (create.rs) and `Repository.Tags` votes, the first commits and
-- pushes (tags.rs, genesis.rs, push.rs). An operation is an `Action` of `Repository.Raw.Action`: it takes
-- the repository and returns a value, an error or a panic with the repository as it then is, so
-- what was changed before an error stays changed. Synchronization, cleaning, approval, finalization and
-- the making of blocks and agendas run the verifier of Core on the commits that they read, which is
-- where the two parts meet. `Repository.Raw.Rules` has the rules by which the proofs follow an
-- operation, and `Repository.Toy` a repository in memory for the tests.
--
-- `Repository.Git` is the parameter for `git2` and the working directory, and the theorems that
-- speak of where a branch is take the laws of `Repository.Raw.Laws`, which `Repository.Toy.Lawful` shows to
-- hold of the repository in memory; `Repository.Library` is the parameter for `regex`, `serde_json` and `hex`.
-- The order in which a `HashSet` of branches is walked is a parameter too.
--
-- `Core.Crypto` is the parameter for what is not in this repository: the hash function, the
-- verification of a signature and the bytes of each type stand for the libraries that
-- core/src/crypto.rs and core/src/serde_spb.rs call; `Dms` of `Consensus.State` is the hash of a message
-- and of the key of its network. Hashes, keys and signatures are numbers, which
-- the code only compares and orders.
--
-- Numbers: `u64`, `usize` and the sums of powers wrap as in a release build (`Base.Word`), and theorems
-- that need no overflow say so; a debug build would panic there instead. Timestamps are `i64`.
-- `BTreeSet` and `BTreeMap` are sorted lists (`Base.Ordered`). A `HashMap` is a list as well, since the
-- code reads single keys and sums.
--
-- Fuel: `merkle_tree` runs on the length of its list, which is enough since each level is shorter than
-- the one below it until one hash is left. `vetomint_progress` runs on fuel of which three broadcasts a
-- round are enough, and `progress_state` passes it on; running out of it is a failure of its own.
-- `list_ancestors` runs on fuel, and its one caller asks for one ancestor and gives it fuel for one.
--
-- Not modelled: the network and whatever of the repository runs a process or reads a file (initialization,
-- cloning, fetching, pushing, stashes, commits with patches, .gitignore, the files of the reserved state),
-- the governance and settlement services, the storage and locks around the consensus node and the
-- repository, the whole node and its command line (input and output, and calls of other libraries), the
-- texts of errors, and `verify_state_commitment` (a todo in the source).
pub mod Base
pub mod Vetomint
pub mod Core
pub mod Consensus
pub mod Repository
