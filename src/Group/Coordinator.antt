-- ===== src/Group/Coordinator.antt =====
-- crates/agent-broker-domain/src/group/coordinator.rs: one group out of the registry. A change
-- of the group that `group_mut` lends is written back under its identifier.
use herterarchy_broker.Common.{
  ℕ, List, map, Result, ok, ◌>>=◌, ◌>>◌, map_err, ok_or, reject_if, not, filter,
}
use herterarchy_broker.Common.Maps.{Map, get, contains_key, insert, values}
use herterarchy_broker.Fencing.{Generation}
use herterarchy_broker.Identifiers.{ConsumerGroupId, ConsumerId, NamespaceId}
use herterarchy_broker.Identifiers.Order.{id_key}
use herterarchy_broker.Group.CapabilitySet.{Capabilities, contains_all}
use herterarchy_broker.Group
use herterarchy_broker.Group.{
  ConsumerGroup, Consumer, ConsumerGroupError, JoinOutcome, HeartbeatOutcome, member_not_found,
  require_generation,
}

pub data GroupCoordinatorError : Type 0 where
  group_not_found : ConsumerGroupId → GroupCoordinatorError
  transition : ConsumerGroupError → GroupCoordinatorError

abbrev pub Groups : Type 0
Groups = Map ConsumerGroupId ConsumerGroup

unfoldable pub group_mut : Groups → ConsumerGroupId → Result GroupCoordinatorError ConsumerGroup
group_mut groups group_id = ok_or (get group_id groups) (group_not_found group_id)

-- A method of the selected group, with its errors and its new state passed on.
unfoldable pub update_group {ℓ} :
    {A : Type ℓ}
    → Groups
    → ConsumerGroupId
    → (ConsumerGroup → Result ConsumerGroupError (A × ConsumerGroup))
    → Result GroupCoordinatorError (A × Groups)
unfolding group_mut
update_group groups group_id method = do
  group ← group_mut groups group_id
  (outcome, group') ← map_err transition (method group)
  ok (outcome, insert group_id group' groups)

unfoldable pub join :
    Groups
    → ConsumerGroupId
    → ConsumerId
    → Capabilities
    → ℕ
    → ℕ
    → Result GroupCoordinatorError (JoinOutcome × Groups)
unfolding update_group
join groups group_id member_id capabilities now_ms max_members =
    update_group groups group_id (Group.join member_id capabilities now_ms max_members)

unfoldable pub heartbeat :
    Groups
    → ConsumerGroupId
    → ConsumerId
    → Generation
    → ℕ
    → Result GroupCoordinatorError (HeartbeatOutcome × Groups)
unfolding update_group
heartbeat groups group_id member_id expected_generation now_ms =
    update_group groups group_id (Group.heartbeat member_id expected_generation now_ms)

unfoldable pub leave :
    Groups
    → ConsumerGroupId
    → ConsumerId
    → Generation
    → Result GroupCoordinatorError (Consumer × Groups)
unfolding update_group
leave groups group_id member_id expected_generation =
    update_group groups group_id (Group.leave member_id expected_generation)

unfoldable pub reap_stale_members :
    Groups → ConsumerGroupId → ℕ → ℕ → Result GroupCoordinatorError (List Consumer × Groups)
unfolding update_group
reap_stale_members groups group_id stale_before_ms max_members =
    update_group groups group_id (Group.reap_stale_members stale_before_ms max_members)

unfoldable pub require_member :
    Groups
    → ConsumerGroupId
    → ConsumerId
    → Generation
    → Result GroupCoordinatorError (NamespaceId × Generation)
unfolding group_mut
require_member groups group_id member_id expected_generation = do
  group ← group_mut groups group_id
  map_err transition (require_generation expected_generation group)
  map_err transition
      (reject_if (not (contains_key member_id group.consumers)) (member_not_found member_id))
  ok (group.namespace_id, group.generation)

unfoldable pub consumers_matching_capabilities :
    Groups → ConsumerGroupId → Capabilities → Result GroupCoordinatorError (List ConsumerId)
unfolding group_mut
consumers_matching_capabilities groups group_id required = do
  group ← group_mut groups group_id
  ok (
      map (λ consumer. consumer.id)
        (filter (λ consumer. contains_all consumer.capabilities required) (values group.consumers)))
