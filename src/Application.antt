-- ===== src/Application.antt =====
-- crates/agent-broker-application: the application layer between the protocol and the consensus.
pub mod Messages
pub mod Errors
pub mod Identity
