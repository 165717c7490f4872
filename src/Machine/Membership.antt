-- ===== src/Machine/Membership.antt =====
-- The commands of crates/agent-broker-domain/src/state_machine.rs that take members out of their
-- groups and give their leases back: leave and reap.
use herterarchy_broker.Common.{
  ℕ, ◌+◌, Bool, true, false, Option, none, some, List, [], ◌∷◌, ◌++◌, map, Result, ok, err, map_err,
  ok_or, leb, nat_eq, ltb, if◌then◌else◌, length, take, filter,
}
use herterarchy_broker.Common
use herterarchy_broker.Common.Keys.{nat_key, pair_key}
use herterarchy_broker.Common.Maps.{Map, get, insert, values}
use herterarchy_broker.Common.Sets
use herterarchy_broker.Common.Heaps.{push}
use herterarchy_broker.Fencing.{next}
use herterarchy_broker.Identifiers.{ConsumerGroupId, ConsumerId}
use herterarchy_broker.Identifiers.Order.{id_key}
use herterarchy_broker.Group.{ConsumerGroup, Consumer}
use herterarchy_broker.Group.Coordinator
use herterarchy_broker.Machine.State.{
  BrokerStateMachine, StateMachineError, or_else, invalid_capacity, consumer_group_not_found,
  fencing_value,
}
use herterarchy_broker.Machine.Commands.{LeaveConsumerGroupCommand, ReapStaleMembersCommand}
use herterarchy_broker.Machine.Results.{ConsumerGroupResult, StaleMembersReapedResult}
use herterarchy_broker.Machine.Monad.{Action, pure, self, modify, lift, ◌>>=◌, ◌>>◌, reject_if}
use herterarchy_broker.Machine.Leases.{
  metadata, next_global_revision, preflight_member_lease_requeue, requeue_member_leases,
}
use herterarchy_broker.Machine.Registry.{
  coordinate, changed_group, commit_group, consumer_group_result,
}

unfoldable pub leave_consumer_group : LeaveConsumerGroupCommand → Action ConsumerGroupResult
leave_consumer_group c = do
  next_revision ← next_global_revision
  m ← self
  lift (preflight_member_lease_requeue c.group_id c.member_id m)
  _ ← coordinate λ groups. Coordinator.leave groups c.group_id c.member_id c.expected_generation
  group ← changed_group c.group_id
  _ ← requeue_member_leases group.id c.member_id
  modify (commit_group next_revision group.id)
  m' ← self
  pure (consumer_group_result (metadata m') group)

abbrev pub Candidate : Type 0
Candidate = ℕ × (ConsumerGroupId × ConsumerId)

-- the stale members of one group
unfoldable pub group_candidates : ℕ → ConsumerGroupId → ConsumerGroup → List Candidate
group_candidates stale_before_ms group_id group =
    map (λ member. (member.last_heartbeat_at_ms, (group_id, member.id)))
      (filter (λ member. leb member.last_heartbeat_at_ms stale_before_ms) (values group.consumers))

unfoldable pub all_candidates : ℕ → Map ConsumerGroupId ConsumerGroup → List Candidate
all_candidates stale_before_ms [] = []
all_candidates stale_before_ms ((group_id, group) ∷ groups) =
    group_candidates stale_before_ms group_id group ++ all_candidates stale_before_ms groups

-- `sort_unstable`: equal entries cannot be told apart.
unfoldable pub sort : List Candidate → List Candidate
sort [] = []
sort (e ∷ es) = push e (sort es)

-- the selected members, by group and in the order of the candidates
unfoldable pub select_members :
    List Candidate → Map ConsumerGroupId (List ConsumerId) → Map ConsumerGroupId (List ConsumerId)
select_members [] selected = selected
select_members ((_, (group_id, member_id)) ∷ es) selected =
    select_members es
      (insert group_id (or_else (get group_id selected) [] ++ (member_id ∷ [])) selected)

unfoldable pub preflight_members :
    ConsumerGroupId → List ConsumerId → BrokerStateMachine → Result StateMachineError (Unit {0})
preflight_members group_id [] m = ok tt
preflight_members group_id (id ∷ ids) m =
    Common.◌>>=◌ (preflight_member_lease_requeue group_id id m)
      λ _. preflight_members group_id ids m

-- One group of the loop that checks every counter before anything is changed.
unfoldable pub preflight_group :
    ConsumerGroupId → List ConsumerId → BrokerStateMachine → Result StateMachineError (Unit {0})
preflight_group group_id member_ids m =
    Common.◌>>=◌ (ok_or (get group_id m.groups) (consumer_group_not_found group_id)) λ group.
      Common.◌>>=◌ (map_err (λ e. fencing_value e) (next "generation" group.generation)) λ _.
        Common.◌>>=◌ (map_err (λ e. fencing_value e) (next "revision" group.revision))
          λ _. preflight_members group_id member_ids m

unfoldable pub preflight_groups :
    Map ConsumerGroupId (List ConsumerId) → BrokerStateMachine → Result StateMachineError (Unit {0})
preflight_groups [] m = ok tt
preflight_groups ((group_id, member_ids) ∷ selected) m =
    Common.◌>>=◌ (preflight_group group_id member_ids m) λ _. preflight_groups selected m

unfoldable pub requeue_removed : ConsumerGroupId → List Consumer → Action (Unit {0})
requeue_removed group_id [] = pure tt
requeue_removed group_id (member ∷ members) = do
  _ ← requeue_member_leases group_id member.id
  requeue_removed group_id members

-- One group of the loop that removes: how many members went, and the group if any did.
unfoldable pub reap_group :
    ConsumerGroupId → List ConsumerId → ℕ → Action (ℕ × List ConsumerGroupId)
reap_group group_id member_ids stale_before_ms = do
  removed ←
      coordinate
        λ groups. Coordinator.reap_stale_members groups group_id stale_before_ms (length member_ids)
  requeue_removed group_id removed
  pure (length removed, elim removed [ [] ↦ [] | r ∷ rs ↦ group_id ∷ [] ])

unfoldable pub reap_groups :
    Map ConsumerGroupId (List ConsumerId) → ℕ → Action (ℕ × List ConsumerGroupId)
reap_groups [] stale_before_ms = pure (0, [])
reap_groups ((group_id, member_ids) ∷ selected) stale_before_ms = do
  (n, affected) ← reap_group group_id member_ids stale_before_ms
  (rest, others) ← reap_groups selected stale_before_ms
  pure (n + rest, affected ++ others)

-- `reap_stale_members` of the candidates that were selected
unfoldable pub reap_selected : List Candidate → ℕ → Action StaleMembersReapedResult
reap_selected candidates stale_before_ms = do
  let selected = select_members candidates []
  next_revision ← next_global_revision
  m ← self
  lift (preflight_groups selected m)
  (reaped_count, affected) ← reap_groups selected stale_before_ms
  modify λ m₁.
      if ltb 0 reaped_count
      then record m₁ {
        state = record (m₁.state) { revision = next_revision };
        changed_groups = Sets.extend affected m₁.changed_groups;
      }
      else m₁
  m' ← self
  pure (record {
    metadata = metadata m';
    reaped_count = reaped_count;
    affected_group_count = length affected;
  })

unfoldable pub reap_stale_members : ReapStaleMembersCommand → Action StaleMembersReapedResult
reap_stale_members c = do
  reject_if (nat_eq c.max_members 0) (invalid_capacity "max_members")
  m ← self
  let candidates = take c.max_members (sort (all_candidates c.stale_before_ms m.groups))
  elim candidates [
    | [] ↦ pure (record { metadata = metadata m; reaped_count = 0; affected_group_count = 0 })
    | e ∷ es ↦ reap_selected (e ∷ es) c.stale_before_ms
  ]
