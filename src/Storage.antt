-- ===== src/Storage.antt =====
-- crates/agent-broker-storage: the logical records of the snapshot and of the journal.
pub mod Errors
pub mod Wires
pub mod Tasks
pub mod Snapshot
pub mod RoundTrip
pub mod Journal
pub mod Repository
pub mod Journaled
