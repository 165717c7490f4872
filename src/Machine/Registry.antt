-- ===== src/Machine/Registry.antt =====
-- The commands of crates/agent-broker-domain/src/state_machine.rs that register namespaces, tasks,
-- groups and members, and the command that advances the term.
use herterarchy_broker.Common.{
  ℕ, ◌+◌, Bool, true, false, ◌||◌, not, none, some, Result, ok, err, ok_or, leb, nat_eq,
  if◌then◌else◌, length,
}
use herterarchy_broker.Common.Keys.{◌==◌}
use herterarchy_broker.Common.Maps.{get, insert}
use herterarchy_broker.Common.Sets
use herterarchy_broker.Identifiers.{ConsumerGroupId}
use herterarchy_broker.Identifiers.Order.{id_key, bytes_key}
use herterarchy_broker.Task.{new_task, status}
use herterarchy_broker.Group.{
  ConsumerGroup, JoinOutcome, HeartbeatOutcome, new_group, consumer_count, member_not_found,
}
use herterarchy_broker.Group.Coordinator
use herterarchy_broker.Machine.State.{
  BrokerStateMachine, new_namespace, set_revision, set_term, set_namespaces, set_tasks, set_groups,
  or_else, invalid_capacity, capacity_exceeded, task_conflict, consumer_group_conflict,
  consumer_group_not_found, consumer_group_transition, new_term_not_greater, coordinator_error,
}
use herterarchy_broker.Machine.Commands.{
  EnsureNamespaceCommand, PublishTaskCommand, EnsureConsumerGroupCommand, JoinConsumerGroupCommand,
  HeartbeatCommand, AdvanceTermCommand,
}
use herterarchy_broker.Machine.Results.{
  MutationMetadata, NamespaceResult, TaskPublishedResult, ConsumerGroupResult, HeartbeatResult,
  TermAdvancedResult,
}
use herterarchy_broker.Machine.Monad.{
  Action, pure, self, modify, lift, fail, ◌>>=◌, ◌>>◌, reject_if,
}
use herterarchy_broker.Machine.Leases.{
  metadata, next_global_revision, require_namespace, require_term, push_ready,
}

-- `ensure_namespace` of a namespace that is not there
unfoldable pub create_namespace : EnsureNamespaceCommand → Action NamespaceResult
unfolding next_global_revision metadata
create_namespace c = do
  m ← self
  reject_if (nat_eq c.max_namespaces 0) (invalid_capacity "max_namespaces")
  reject_if (leb c.max_namespaces (length m.namespaces))
      (capacity_exceeded "Broker namespace" c.max_namespaces)
  next_revision ← next_global_revision
  modify (set_namespaces (insert c.namespace_id (new_namespace c.namespace_id) m.namespaces))
  modify (set_revision next_revision)
  modify λ m₁. record m₁ { changed_namespaces = Sets.insert c.namespace_id m₁.changed_namespaces }
  m' ← self
  pure (record {
    metadata = metadata m';
    namespace_id = c.namespace_id;
    namespace_revision = (new_namespace c.namespace_id).revision;
  })

unfoldable pub ensure_namespace : EnsureNamespaceCommand → Action NamespaceResult
ensure_namespace c m = elim (get c.namespace_id m.namespaces) [
  | some ns ↦ (
    ok (record { metadata = metadata m; namespace_id = ns.id; namespace_revision = ns.revision }),
    m,
  )
  | none ↦ create_namespace c m
]

-- `publish_task` of a task that is not there
unfoldable pub create_task : PublishTaskCommand → Action TaskPublishedResult
unfolding next_global_revision metadata push_ready
create_task c = do
  m ← self
  reject_if (nat_eq c.max_namespace_tasks 0) (invalid_capacity "max_namespace_tasks")
  let current_count = or_else (get c.namespace_id m.namespace_task_counts) 0
  reject_if (leb c.max_namespace_tasks current_count)
      (capacity_exceeded "Broker Task" c.max_namespace_tasks)
  next_revision ← next_global_revision
  let task = new_task c.task_id c.namespace_id c.objective c.created_at_ms
  modify (set_tasks (insert c.task_id task m.tasks))
  modify λ m₁. record m₁ {
    namespace_task_counts = insert c.namespace_id (current_count + 1) m₁.namespace_task_counts;
  }
  modify (push_ready c.namespace_id c.created_at_ms c.task_id)
  modify (set_revision next_revision)
  modify λ m₁. record m₁ { changed_tasks = Sets.insert c.task_id m₁.changed_tasks }
  m' ← self
  pure (record {
    metadata = metadata m';
    task_id = c.task_id;
    task_revision = task.revision;
    status = status task.state;
  })

unfoldable pub publish_task : PublishTaskCommand → Action TaskPublishedResult
publish_task c = do
  require_namespace c.namespace_id
  m ← self
  elim (get c.task_id m.tasks) [
    | some task ↦
        if not (task.namespace_id == c.namespace_id)
          || not (task.objective.text == c.objective.text)
        then fail (task_conflict c.task_id)
        else pure (record {
          metadata = metadata m;
          task_id = task.id;
          task_revision = task.revision;
          status = status task.state;
        })
    | none ↦ create_task c
  ]

unfoldable pub consumer_group_result : MutationMetadata → ConsumerGroup → ConsumerGroupResult
consumer_group_result md group = record {
  metadata = md;
  group_id = group.id;
  generation = group.generation;
  group_revision = group.revision;
  member_count = consumer_count group;
}

-- `ensure_consumer_group` of a group that is not there
unfoldable pub create_group : EnsureConsumerGroupCommand → Action ConsumerGroupResult
unfolding next_global_revision metadata consumer_group_result
create_group c = do
  m ← self
  reject_if (nat_eq c.max_namespace_groups 0) (invalid_capacity "max_namespace_groups")
  let current_count = or_else (get c.namespace_id m.namespace_group_counts) 0
  reject_if (leb c.max_namespace_groups current_count)
      (capacity_exceeded "Broker Consumer Group" c.max_namespace_groups)
  next_revision ← next_global_revision
  modify (set_groups (insert c.group_id (new_group c.group_id c.namespace_id) m.groups))
  modify λ m₁. record m₁ {
    namespace_group_counts = insert c.namespace_id (current_count + 1) m₁.namespace_group_counts;
  }
  modify (set_revision next_revision)
  modify λ m₁. record m₁ { changed_groups = Sets.insert c.group_id m₁.changed_groups }
  m' ← self
  group ← lift (ok_or (get c.group_id m'.groups) (consumer_group_conflict c.group_id))
  pure (consumer_group_result (metadata m') group)

unfoldable pub ensure_consumer_group : EnsureConsumerGroupCommand → Action ConsumerGroupResult
ensure_consumer_group c = do
  require_namespace c.namespace_id
  m ← self
  elim (get c.group_id m.groups) [
    | some group ↦
        if not (group.namespace_id == c.namespace_id)
        then fail (consumer_group_conflict c.group_id)
        else pure (consumer_group_result (metadata m) group)
    | none ↦ create_group c
  ]

-- A step of the coordinator, with its groups written back.
unfoldable pub coordinate {ℓ} :
    {A : Type ℓ}
    → (Coordinator.Groups → Result Coordinator.GroupCoordinatorError (A × Coordinator.Groups))
    → Action A
coordinate step m = elim (step m.groups) [
  | ok (outcome, groups) ↦ (ok outcome, set_groups groups m)
  | err e ↦ (err (coordinator_error e), m)
]

-- the group that a command has just changed
unfoldable pub changed_group : ConsumerGroupId → Action ConsumerGroup
changed_group group_id m = (ok_or (get group_id m.groups) (consumer_group_not_found group_id), m)

-- the global revision and the change set of a command that changed a group
abbrev pub commit_group : ℕ → ConsumerGroupId → BrokerStateMachine → BrokerStateMachine
commit_group next_revision group_id m = record m {
  state = record (m.state) { revision = next_revision };
  changed_groups = Sets.insert group_id m.changed_groups;
}

abbrev pub join_changed : JoinOutcome → Bool
join_changed JoinOutcome.unchanged = false
join_changed o = true

unfoldable pub join_consumer_group : JoinConsumerGroupCommand → Action ConsumerGroupResult
join_consumer_group c = do
  next_revision ← next_global_revision
  outcome ← coordinate λ groups.
      Coordinator.join groups c.group_id c.member_id c.capabilities c.now_ms c.max_group_members
  group ← changed_group c.group_id
  modify λ m. if join_changed outcome then commit_group next_revision group.id m else m
  m' ← self
  pure (consumer_group_result (metadata m') group)

abbrev pub heartbeat_changed : HeartbeatOutcome → Bool
heartbeat_changed HeartbeatOutcome.unchanged = false
heartbeat_changed HeartbeatOutcome.updated = true

unfoldable pub heartbeat : HeartbeatCommand → Action HeartbeatResult
heartbeat c = do
  next_revision ← next_global_revision
  outcome ←
      coordinate
        λ groups. Coordinator.heartbeat groups c.group_id c.member_id c.expected_generation c.now_ms
  group ← changed_group c.group_id
  member ← lift (
      ok_or (get c.member_id group.consumers)
        (consumer_group_transition (member_not_found c.member_id)))
  modify λ m. if heartbeat_changed outcome then commit_group next_revision group.id m else m
  m' ← self
  pure (record {
    metadata = metadata m';
    group_id = group.id;
    member_id = c.member_id;
    generation = group.generation;
    member_revision = member.revision;
  })

unfoldable pub advance_term : AdvanceTermCommand → Action TermAdvancedResult
unfolding next_global_revision require_term metadata
advance_term c = do
  require_term c.expected_term
  m ← self
  reject_if (leb c.new_term m.term) (new_term_not_greater m.term c.new_term)
  next_revision ← next_global_revision
  modify (set_term c.new_term)
  modify (set_revision next_revision)
  m' ← self
  pure (record { metadata = metadata m' })
