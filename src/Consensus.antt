-- ===== src/Consensus.antt =====
-- crates/agent-broker-consensus: what is replicated, and how a committed entry is applied.
pub mod Commands
pub mod Decoding
pub mod Requests
pub mod Proposals
pub mod Responses
pub mod Sessions
pub mod Ownership
pub mod Retries
pub mod Takeover
pub mod Once
pub mod History
pub mod Steps
pub mod Fencing
pub mod Capacity
pub mod Broker
pub mod RoundTrip
pub mod Validated
pub mod Standalone
pub mod Sidecar
pub mod Snapshots
