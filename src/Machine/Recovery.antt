-- ===== src/Machine/Recovery.antt =====
-- `checkpoint` and `from_checkpoint` of the state and the machine in
-- crates/agent-broker-domain/src/state_machine.rs, with the record types of checkpoint.rs.
use Prim.Native.String.{String}
use herterarchy_broker.Common.{
  ℕ, ◌+◌, not, List, [], ◌∷◌, map, Result, ok, err, ◌>>=◌, ◌>>◌, reject_if, nat_eq, if◌then◌else◌,
}
use herterarchy_broker.Common.Keys.{nat_key, pair_key}
use herterarchy_broker.Common.Maps.{Map, get, contains_key, insert, values}
use herterarchy_broker.Common.Sets
use herterarchy_broker.Common.Heaps.{push}
use herterarchy_broker.Fencing.{Term, Revision}
use herterarchy_broker.Identifiers.{NamespaceId, TaskId, LeaseId, ConsumerGroupId, ConsumerId}
use herterarchy_broker.Identifiers.Order.{id_key}
use herterarchy_broker.Task.{Task, TaskState}
use herterarchy_broker.Task.Checkpoint as TaskCheckpoint
use herterarchy_broker.Group.{ConsumerGroup}
use herterarchy_broker.Group.Checkpoint as GroupCheckpoint
use herterarchy_broker.Group.Checkpoint.{
  CheckpointError, MemberCheckpoint, ConsumerGroupCheckpoint, zero_entity_revision,
  duplicate_namespace, duplicate_task, duplicate_consumer_group, duplicate_active_lease,
  unknown_namespace,
}
use herterarchy_broker.Machine.State.{
  BrokerState, BrokerStateMachine, Namespace, ReadyTaskHeap, LeaseExpirationHeap, CompletedTaskHeap,
  or_else,
}

pub record NamespaceCheckpoint : Type 0 where
  pub namespace_id : NamespaceId
  pub revision : Revision

pub record BrokerCheckpoint : Type 0 where
  pub term : Term
  pub revision : Revision
  pub namespaces : List NamespaceCheckpoint
  pub tasks : List TaskCheckpoint.TaskCheckpoint
  pub groups : List ConsumerGroupCheckpoint

unfoldable pub checkpoint_namespace : Namespace → NamespaceCheckpoint
checkpoint_namespace n = record { namespace_id = n.id; revision = n.revision }

unfoldable pub namespace_of : NamespaceCheckpoint → Namespace
namespace_of c = record { id = c.namespace_id; revision = c.revision }

-- `BrokerState::checkpoint`
unfoldable pub checkpoint : BrokerState → BrokerCheckpoint
checkpoint s = record {
  term = s.term;
  revision = s.revision;
  namespaces = map checkpoint_namespace (values s.namespaces);
  tasks = map TaskCheckpoint.checkpoint (values s.tasks);
  groups = map GroupCheckpoint.checkpoint (values s.groups);
}

unfoldable pub require_positive_revision : String → ℕ → Result CheckpointError (Unit {0})
require_positive_revision entity revision =
    reject_if (nat_eq revision 0) (zero_entity_revision entity)

-- `restore_namespace`, on the map of namespaces. An `insert` that returns an old entry is an error,
-- which drops the state.
unfoldable pub restore_namespace :
    NamespaceCheckpoint
    → Map NamespaceId Namespace
    → Result CheckpointError (Map NamespaceId Namespace)
unfolding require_positive_revision
restore_namespace c namespaces = do
  require_positive_revision "namespace" c.revision
  reject_if (contains_key c.namespace_id namespaces) (duplicate_namespace c.namespace_id)
  ok (insert c.namespace_id (namespace_of c) namespaces)

unfoldable pub restore_namespaces :
    List NamespaceCheckpoint
    → Map NamespaceId Namespace
    → Result CheckpointError (Map NamespaceId Namespace)
unfolding restore_namespace
restore_namespaces [] namespaces = ok namespaces
restore_namespaces (c ∷ cs) namespaces =
    restore_namespace c namespaces >>= λ namespaces'. restore_namespaces cs namespaces'

unfoldable pub require_members : List MemberCheckpoint → Result CheckpointError (Unit {0})
unfolding require_positive_revision
require_members [] = ok tt
require_members (m ∷ ms) = require_positive_revision "member" m.revision >>= λ _. require_members ms

unfoldable pub restore_group :
    Map NamespaceId Namespace
    → ConsumerGroupCheckpoint
    → Map ConsumerGroupId ConsumerGroup
    → Result CheckpointError (Map ConsumerGroupId ConsumerGroup)
unfolding require_positive_revision require_members
restore_group namespaces c groups = do
  require_positive_revision "Consumer Group" c.revision
  require_members c.members
  reject_if (not (contains_key c.namespace_id namespaces))
      (unknown_namespace "Consumer Group" c.namespace_id)
  group ← GroupCheckpoint.from_checkpoint c
  reject_if (contains_key c.group_id groups) (duplicate_consumer_group c.group_id)
  ok (insert c.group_id group groups)

unfoldable pub restore_groups :
    Map NamespaceId Namespace
    → List ConsumerGroupCheckpoint
    → Map ConsumerGroupId ConsumerGroup
    → Result CheckpointError (Map ConsumerGroupId ConsumerGroup)
unfolding restore_group
restore_groups namespaces [] groups = ok groups
restore_groups namespaces (c ∷ cs) groups =
    restore_group namespaces c groups >>= λ groups'. restore_groups namespaces cs groups'

unfoldable pub restore_task :
    Map NamespaceId Namespace
    → TaskCheckpoint.TaskCheckpoint
    → Map TaskId Task
    → Result CheckpointError (Map TaskId Task)
unfolding require_positive_revision
restore_task namespaces c tasks = do
  require_positive_revision "task" c.revision
  reject_if (not (contains_key c.namespace_id namespaces)) (unknown_namespace "task" c.namespace_id)
  reject_if (contains_key c.task_id tasks) (duplicate_task c.task_id)
  ok (insert c.task_id (TaskCheckpoint.from_checkpoint c) tasks)

unfoldable pub restore_tasks :
    Map NamespaceId Namespace
    → List TaskCheckpoint.TaskCheckpoint
    → Map TaskId Task
    → Result CheckpointError (Map TaskId Task)
unfolding restore_task
restore_tasks namespaces [] tasks = ok tasks
restore_tasks namespaces (c ∷ cs) tasks =
    restore_task namespaces c tasks >>= λ tasks'. restore_tasks namespaces cs tasks'

unfoldable pub restore_state : BrokerCheckpoint → Result CheckpointError BrokerState
unfolding restore_namespaces restore_groups restore_tasks
restore_state c = do
  namespaces ← restore_namespaces c.namespaces []
  groups ← restore_groups namespaces c.groups []
  tasks ← restore_tasks namespaces c.tasks []
  ok (record {
    term = c.term;
    revision = c.revision;
    namespaces = namespaces;
    tasks = tasks;
    groups = groups;
  })

pub record RestoredIndexes : Type 0 where
  pub ready_tasks : Map NamespaceId ReadyTaskHeap
  pub lease_expirations : Map NamespaceId LeaseExpirationHeap
  pub active_lease_tasks : Map LeaseId TaskId
  pub member_lease_tasks : Map (ConsumerGroupId × ConsumerId) (List TaskId)
  pub completed_tasks : CompletedTaskHeap
  pub namespace_task_counts : Map NamespaceId ℕ
  pub namespace_group_counts : Map NamespaceId ℕ

abbrev pub empty_indexes : RestoredIndexes
empty_indexes = record {
  ready_tasks = [];
  lease_expirations = [];
  active_lease_tasks = [];
  member_lease_tasks = [];
  completed_tasks = [];
  namespace_task_counts = [];
  namespace_group_counts = [];
}

-- `*entry(..).or_default() += 1`
unfoldable pub count_one : NamespaceId → Map NamespaceId ℕ → Map NamespaceId ℕ
count_one id counts = insert id (or_else (get id counts) 0 + 1) counts

unfoldable pub rebuild_task_indexes :
    RestoredIndexes → Task → Result CheckpointError RestoredIndexes
rebuild_task_indexes ix task = elim task.state [
  | TaskState.queued q ↦ ok (record ix {
    ready_tasks =
        insert task.namespace_id
          (push (task.created_at_ms, task.id) (or_else (get task.namespace_id ix.ready_tasks) []))
          ix.ready_tasks;
  })
  | TaskState.leased lease ↦
      if contains_key lease.lease_id ix.active_lease_tasks
      then err (duplicate_active_lease lease.lease_id)
      else ok (record ix {
        active_lease_tasks = insert lease.lease_id task.id ix.active_lease_tasks;
        member_lease_tasks =
            insert (lease.group_id, lease.owner_member_id)
              (Sets.insert task.id
                (or_else (get (lease.group_id, lease.owner_member_id) ix.member_lease_tasks) []))
              ix.member_lease_tasks;
        lease_expirations =
            insert task.namespace_id
              (push (lease.expires_at_ms, (task.id, lease.lease_epoch))
                (or_else (get task.namespace_id ix.lease_expirations) []))
              ix.lease_expirations;
      })
  | TaskState.completed c ↦
      ok (record ix { completed_tasks = push (c.completed_at_ms, task.id) ix.completed_tasks })
]

unfoldable pub rebuild_groups : List ConsumerGroup → RestoredIndexes → RestoredIndexes
unfolding count_one
rebuild_groups [] ix = ix
rebuild_groups (g ∷ gs) ix =
    rebuild_groups gs
      (record ix { namespace_group_counts = count_one g.namespace_id ix.namespace_group_counts })

unfoldable pub rebuild_tasks : List Task → RestoredIndexes → Result CheckpointError RestoredIndexes
unfolding count_one rebuild_task_indexes
rebuild_tasks [] ix = ok ix
rebuild_tasks (t ∷ ts) ix =
    rebuild_task_indexes
      (record ix { namespace_task_counts = count_one t.namespace_id ix.namespace_task_counts }) t
    >>= λ ix'. rebuild_tasks ts ix'

unfoldable pub rebuild_indexes : BrokerState → Result CheckpointError RestoredIndexes
unfolding rebuild_groups rebuild_tasks
rebuild_indexes s = rebuild_tasks (values s.tasks) (rebuild_groups (values s.groups) empty_indexes)

-- `BrokerStateMachine::from_checkpoint`
unfoldable pub from_checkpoint : BrokerCheckpoint → Result CheckpointError BrokerStateMachine
unfolding restore_state rebuild_indexes
from_checkpoint c = do
  state ← restore_state c
  ix ← rebuild_indexes state
  ok (record {
    state = state;
    ready_tasks = ix.ready_tasks;
    lease_expirations = ix.lease_expirations;
    active_lease_tasks = ix.active_lease_tasks;
    member_lease_tasks = ix.member_lease_tasks;
    completed_tasks = ix.completed_tasks;
    namespace_task_counts = ix.namespace_task_counts;
    namespace_group_counts = ix.namespace_group_counts;
    changed_namespaces = [];
    changed_tasks = [];
    deleted_tasks = [];
    changed_groups = [];
  })
