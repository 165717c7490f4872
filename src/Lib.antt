-- ===== src/Lib.antt =====
-- A verification library of the broker: its domain, crates/agent-broker-domain, which is the
-- deterministic state machine that every replica runs; the replicated commands and the command
-- sessions of crates/agent-broker-consensus; and the durable state of crates/agent-broker-storage.
--
-- The parts, and the files that model them:
--   Common            what the modules share: Boolean tests, results, ordered keys (an interface with
--                     instances for numbers, pairs, identifiers and capabilities), and the ordered maps,
--                     ordered sets, priority queues and stable sorting of Rust's standard library as lists
--   Fencing           crates/agent-broker-domain/src/fencing.rs: term, generation, lease epoch, revision
--   Quorum, Policy    quorum.rs and policy.rs of the same folder
--   Identifiers       identifiers.rs: validated identifiers and their order
--   Task              task.rs: the state of one task and its transitions claim, renew, complete,
--                     requeue_if_expired and requeue_for_member. Task/Steps and Task/Traces have the
--                     calls as data and any sequence of them
--   Group             group.rs: capabilities, members, join, heartbeat, leave, reap_stale_members.
--                     Group/Coordinator is group/coordinator.rs, Group/Checkpoint the records of
--                     checkpoint.rs
--   Machine           state_machine.rs with commands.rs and results.rs. Machine/State has the record of
--                     the state and its indexes, Machine/Monad the methods that take `&mut self`,
--                     Machine/Leases the loops over leases and queues, Machine/Registry,
--                     Machine/Claims, Machine/Membership and Machine/Retention the twelve commands,
--                     Machine/Recovery checkpoint and restore, and Machine.antt `apply`
--   Machine/Protocol  an abstract view of the machine: what a command may do to the tasks, as a step
--                     relation, and the invariants that follow from it
--   Machine/Clock     the term and the global revision
--   Machine/Outcomes, Machine/Grants
--                     what the commands on leases have found and done when they succeed
--   Machine/Pruning   what a prune removes and what it reports
--   Machine/Restore, Machine/Recovered
--                     the state that comes back from its checkpoint, and the machine restored from any
--   Machine/Values    values of the domain that their own constructors accept
--   Application       crates/agent-broker-application/src/error.rs and command_identity.rs. A text built
--                     by `format!` or `Display` is kept as what it is built from (Application/Messages)
--   Consensus         crates/agent-broker-consensus/src: Commands, Decoding and Requests model
--                     replicated_command.rs, Proposals replicated_proposal.rs, Responses with its
--                     children replicated_response.rs, Sessions and Ownership the application of a
--                     committed proposal in raft_state_machine.rs, Sidecar and Snapshots the bytes of
--                     its snapshots, Standalone standalone.rs
--   Consensus/Retries, Takeover, Once
--                     proposals that are committed again
--   Consensus/History, Steps, Fencing, Capacity, Broker
--                     sequences of proposals, as steps of the replica
--   Consensus/RoundTrip, Validated, Sidecar/RoundTrip, Snapshots/RoundTrip
--                     the conversions of commands and of snapshots
--   Storage           crates/agent-broker-storage/src: Errors models error.rs, Wires, Tasks and
--                     Snapshot snapshot_v1.rs, Journal journal_v1.rs, Repository and Journaled repository.rs
--   Storage/RoundTrip, Journal/Lookups, Repository/Records, Repository/Replay, Journaled/Compaction
--                     the proofs on them
--   Examples          concrete inputs, on which the theorems are applied
--
-- How the parts interact. A command reaches Machine.apply from Consensus/Standalone, which commits the
-- change set to the repository of Storage/Journaled before it answers, or from Consensus/Sessions, which
-- applies what the Raft log has committed and keeps the answer for a retry. A repository is loaded by
-- replaying the journal of Storage/Repository on the snapshot, and the machine is restored from that.
--
-- How the code is modelled. A method that takes `&mut self` is a function from the machine to a result
-- and the machine that it leaves, also when it fails: a change that was made before the failure is in
-- it. A `?` is the bind of that monad. A `BTreeMap` or `BTreeSet` is a list that is kept in the order of
-- its keys; a `BinaryHeap` of `Reverse` entries is a list in rising order. A `u64` is a native number,
-- and `next` and `checked_add` fail above 18,446,744,073,709,551,615. A `usize` count is a number without
-- a bound: it counts entries that are held in memory; where it is converted, `usize` has 64 bits. A
-- `String` is the list of its bytes, or of its characters where the code looks at these (objectives and
-- results). Loops are recursive on the list that they consume, so none needs fuel.
--
-- Parameters. serde_json is a record of functions (Storage.Repository.Serializer and
-- Consensus.Snapshots.SidecarSerializer); that it reads what it has written is a hypothesis. The file
-- operations of a repository are a record of functions on a disk (Storage.Journaled.Files), each of which
-- may fail. A repository of the standalone node is any implementation of the port.
--
-- What is not modelled: Display and Error of most error types, the getters, the service and the port of
-- crates/agent-broker-application, the loop over Raft log entries and the installation of the
-- snapshots, and the crates protocol, client and runtime, which hold I/O, the wire formats and the adapters
-- of the Raft library.
pub mod Common
pub mod Fencing
pub mod Quorum
pub mod Policy
pub mod Identifiers
pub mod Task
pub mod Group
pub mod Machine
pub mod Examples
pub mod Application
pub mod Consensus
pub mod Storage
