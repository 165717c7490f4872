-- ===== src/Storage/Errors.antt =====
-- crates/agent-broker-storage/src/error.rs
use Prim.Native.String.{String}
use herterarchy_broker.Common.{ℕ, [], ◌∷◌}
use herterarchy_broker.Fencing.{Revision, Term}
use herterarchy_broker.Group.Checkpoint.{CheckpointError}
use herterarchy_broker.Application.Messages.{
  Message, literal, format, number, prefixed, shows_checkpoint,
}

pub data StorageError : Type 0 where
  invalid_format : Message → StorageError
  unsupported_schema_version : ℕ → StorageError
  revision_gap : (expected actual : Revision) → StorageError
  backward_term : (current incoming : Term) → StorageError
  entity_revision_rollback : (entity : String) → StorageError
  checkpoint : CheckpointError → StorageError
  serialization : Message → StorageError

-- An `io::Error` is kept as the text that it shows.
pub data RepositoryError : Type 0 where
  invalid_configuration : String → RepositoryError
  storage : StorageError → RepositoryError
  io : (operation : String) (source : Message) → RepositoryError

-- `Display for StorageError`
unfoldable pub shows_storage : StorageError → Message
shows_storage (invalid_format message) = message
shows_storage (serialization message) = message
shows_storage (unsupported_schema_version version) =
    format "unsupported Broker storage schema version {version}" (number version ∷ [])
shows_storage (revision_gap expected actual) =
    format "journal revision gap: expected {}, received {}" (number expected ∷ number actual ∷ [])
shows_storage (backward_term current incoming) =
    format "journal term moved backward: current {}, incoming {}"
      (number current ∷ number incoming ∷ [])
shows_storage (entity_revision_rollback entity) =
    prefixed entity (literal " local revision moved backward during replay")
shows_storage (checkpoint e) = prefixed "invalid Broker checkpoint: " (shows_checkpoint e)

-- `Display for RepositoryError`
unfoldable pub shows_repository : RepositoryError → Message
unfolding shows_storage
shows_repository (invalid_configuration message) = literal message
shows_repository (storage e) = shows_storage e
shows_repository (io operation source) = prefixed operation (prefixed ": " source)
