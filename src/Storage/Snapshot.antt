-- ===== src/Storage/Snapshot.antt =====
-- crates/agent-broker-storage/src/snapshot_v1.rs: the whole snapshot.
use herterarchy_broker.Common.{
  ℕ, List, map, Result, ok, ◌>>=◌, ◌>>◌, map_err, not, nat_eq, reject_if, collect,
}
use herterarchy_broker.Common.Sorting.{sort_by}
use herterarchy_broker.Fencing.{new_term}
use herterarchy_broker.Identifiers.Order.{bytes_key}
use herterarchy_broker.Machine.Recovery.{BrokerCheckpoint, from_checkpoint}
use herterarchy_broker.Application.Messages.{shows_fencing}
use herterarchy_broker.Storage.Errors.{StorageError, unsupported_schema_version, checkpoint}
use herterarchy_broker.Storage.Wires.{
  NamespaceWire, GroupWire, namespace_to_wire, namespace_from_wire, group_to_wire, group_from_wire,
  invalid_value,
}
use herterarchy_broker.Storage.Tasks.{TaskWire, task_to_wire, task_from_wire}

abbrev pub schema_version : ℕ
schema_version = 1

pub record SnapshotWire : Type 0 where
  pub groups : List GroupWire
  pub namespaces : List NamespaceWire
  pub revision : ℕ
  pub schema_version : ℕ
  pub tasks : List TaskWire
  pub term : ℕ

unfoldable pub checkpoint_to_wire : BrokerCheckpoint → SnapshotWire
unfolding namespace_to_wire task_to_wire group_to_wire sort_by
checkpoint_to_wire c = record {
  groups = sort_by (λ (g : GroupWire). g.group_id) (map group_to_wire c.groups);
  namespaces = sort_by (λ (n : NamespaceWire). n.namespace_id) (map namespace_to_wire c.namespaces);
  revision = c.revision;
  schema_version = schema_version;
  tasks = sort_by (λ (t : TaskWire). t.task_id) (map task_to_wire c.tasks);
  term = c.term;
}

unfoldable pub snapshot_from_wire : SnapshotWire → Result StorageError BrokerCheckpoint
unfolding new_term namespace_from_wire task_from_wire group_from_wire from_checkpoint
snapshot_from_wire wire = do
  reject_if (not (nat_eq wire.schema_version schema_version))
      (unsupported_schema_version wire.schema_version)
  term ← map_err (λ e. invalid_value "term" (shows_fencing e)) (new_term wire.term)
  namespaces ← collect namespace_from_wire wire.namespaces
  tasks ← collect task_from_wire wire.tasks
  groups ← collect group_from_wire wire.groups
  let c : BrokerCheckpoint = record {
    term = term;
    revision = wire.revision;
    namespaces = namespaces;
    tasks = tasks;
    groups = groups;
  }
  map_err checkpoint (from_checkpoint c) >>= λ _. ok c
