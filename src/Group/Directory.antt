-- ===== src/Group/Directory.antt =====
-- The read-only summaries of crates/agent-broker-domain/src/group.rs.
use herterarchy_broker.Common.{ℕ, Option, none, some, List, [], ◌∷◌, if◌then◌else◌}
use herterarchy_broker.Common.Keys.{◌==◌}
use herterarchy_broker.Fencing.{Term, Generation, Revision}
use herterarchy_broker.Identifiers.{ConsumerGroupId, NamespaceId}
use herterarchy_broker.Identifiers.Order.{id_key}
use herterarchy_broker.Group.{ConsumerGroup, consumer_count}

pub record ConsumerGroupSummary : Type 0 where
  pub group_id : ConsumerGroupId
  pub namespace_id : NamespaceId
  pub generation : Generation
  pub revision : Revision
  pub consumer_count : ℕ

pub record ConsumerGroupDirectory : Type 0 where
  pub term : Term
  pub revision : Revision
  pub groups : List ConsumerGroupSummary

-- `ConsumerGroup::summary`, by `ConsumerGroupSummary::from_group`
unfoldable pub summary : ConsumerGroup → ConsumerGroupSummary
summary g = record {
  group_id = g.id;
  namespace_id = g.namespace_id;
  generation = g.generation;
  revision = g.revision;
  consumer_count = consumer_count g;
}

-- `ConsumerGroupDirectory::group`. `binary_search_by` of a sorted slice finds a group exactly if
-- it is there.
unfoldable pub find_group :
    ConsumerGroupId → List ConsumerGroupSummary → Option ConsumerGroupSummary
find_group id [] = none
find_group id (s ∷ ss) = if s.group_id == id then some s else find_group id ss
