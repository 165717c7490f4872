-- ===== src/Group/Checkpoint.antt =====
-- `checkpoint` and `from_checkpoint` of a group and its members, with the record types and the
-- errors of crates/agent-broker-domain/src/checkpoint.rs.
use Prim.Native.String.{String}
use herterarchy_broker.Common.{List, [], ◌∷◌, map, Result, ok, err, ◌>>=◌, if◌then◌else◌}
use herterarchy_broker.Common.Maps.{Map, contains_key, insert, values}
use herterarchy_broker.Fencing.{Generation, Revision}
use herterarchy_broker.Identifiers.{ConsumerGroupId, ConsumerId, NamespaceId, TaskId, LeaseId}
use herterarchy_broker.Identifiers.Order.{id_key}
use herterarchy_broker.Group.CapabilitySet.{Capabilities}
use herterarchy_broker.Task.{TimestampMs}
use herterarchy_broker.Group.{ConsumerGroup, Consumer}

pub data CheckpointError : Type 0 where
  zero_entity_revision : String → CheckpointError
  duplicate_namespace : NamespaceId → CheckpointError
  duplicate_task : TaskId → CheckpointError
  duplicate_consumer_group : ConsumerGroupId → CheckpointError
  duplicate_member : ConsumerId → CheckpointError
  duplicate_active_lease : LeaseId → CheckpointError
  unknown_namespace : String → NamespaceId → CheckpointError

pub record MemberCheckpoint : Type 0 where
  pub member_id : ConsumerId
  pub capabilities : Capabilities
  pub joined_at_ms : TimestampMs
  pub last_heartbeat_at_ms : TimestampMs
  pub revision : Revision

pub record ConsumerGroupCheckpoint : Type 0 where
  pub group_id : ConsumerGroupId
  pub namespace_id : NamespaceId
  pub generation : Generation
  pub revision : Revision
  pub members : List MemberCheckpoint

unfoldable pub checkpoint_member : Consumer → MemberCheckpoint
checkpoint_member c = record {
  member_id = c.id;
  capabilities = c.capabilities;
  joined_at_ms = c.joined_at_ms;
  last_heartbeat_at_ms = c.last_heartbeat_at_ms;
  revision = c.revision;
}

unfoldable pub restore_member : MemberCheckpoint → Consumer
restore_member m = record {
  id = m.member_id;
  capabilities = m.capabilities;
  joined_at_ms = m.joined_at_ms;
  last_heartbeat_at_ms = m.last_heartbeat_at_ms;
  revision = m.revision;
}

unfoldable pub checkpoint : ConsumerGroup → ConsumerGroupCheckpoint
checkpoint g = record {
  group_id = g.id;
  namespace_id = g.namespace_id;
  generation = g.generation;
  revision = g.revision;
  members = map checkpoint_member (values g.consumers);
}

-- the loop of `from_checkpoint`; an `insert` that returns an old entry is an error
unfoldable pub restore_members :
    List MemberCheckpoint
    → Map ConsumerId Consumer
    → Result CheckpointError (Map ConsumerId Consumer)
unfolding restore_member
restore_members [] consumers = ok consumers
restore_members (m ∷ ms) consumers =
    let rest = restore_members ms (insert m.member_id (restore_member m) consumers) in
    if contains_key m.member_id consumers then err (duplicate_member m.member_id) else rest

unfoldable pub from_checkpoint : ConsumerGroupCheckpoint → Result CheckpointError ConsumerGroup
unfolding restore_members
from_checkpoint c = do
  consumers ← restore_members c.members []
  ok (record {
    id = c.group_id;
    namespace_id = c.namespace_id;
    generation = c.generation;
    revision = c.revision;
    consumers = consumers;
  })
