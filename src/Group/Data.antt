-- ===== src/Group/Data.antt =====
-- The types of crates/agent-broker-domain/src/group.rs.
use herterarchy_broker.Common.{ℕ, []}
use herterarchy_broker.Common.Maps.{Map}
use herterarchy_broker.Fencing.{FencingValueError, Generation, Revision}
use herterarchy_broker.Identifiers.{NamespaceId, ConsumerGroupId, ConsumerId}
use herterarchy_broker.Task.{TimestampMs}
use herterarchy_broker.Group.CapabilitySet.{Capabilities}

pub record Consumer : Type 0 where
  pub id : ConsumerId
  pub capabilities : Capabilities
  pub joined_at_ms : TimestampMs
  pub last_heartbeat_at_ms : TimestampMs
  pub revision : Revision

-- `Consumer::new`
unfoldable pub new_consumer : ConsumerId → Capabilities → TimestampMs → Consumer
new_consumer id capabilities now_ms = record {
  id = id;
  capabilities = capabilities;
  joined_at_ms = now_ms;
  last_heartbeat_at_ms = now_ms;
  revision = 1;
}

pub data JoinOutcome : Type 0 where
  added refreshed unchanged : JoinOutcome

pub data HeartbeatOutcome : Type 0 where
  updated unchanged : HeartbeatOutcome

pub data ConsumerGroupError : Type 0 where
  stale_generation : Generation → Generation → ConsumerGroupError
  member_not_found capability_conflict : ConsumerId → ConsumerGroupError
  member_capacity_reached : ℕ → ConsumerGroupError
  invalid_member_capacity : ConsumerGroupError
  fencing_value : FencingValueError → ConsumerGroupError

pub record ConsumerGroup : Type 0 where
  pub id : ConsumerGroupId
  pub namespace_id : NamespaceId
  pub generation : Generation
  pub revision : Revision
  pub consumers : Map ConsumerId Consumer

-- `ConsumerGroup::new`
unfoldable pub new_group : ConsumerGroupId → NamespaceId → ConsumerGroup
new_group id namespace_id = record {
  id = id;
  namespace_id = namespace_id;
  generation = 0;
  revision = 1;
  consumers = [];
}
