-- ===== src/Machine/Leases.antt =====
-- The helpers of crates/agent-broker-domain/src/state_machine.rs that keep the lease indexes and
-- the ready queues: recovery of expired leases, requeueing of a member's leases, the ready task.
use herterarchy_broker.Common.{
  ℕ, ◌+◌, Bool, true, false, ◌&&◌, ◌||◌, not, Option, none, some, List, [], ◌∷◌, Result, ok, err,
  map_err, ok_or, ltb, nat_eq, if◌then◌else◌, is_some,
}
use herterarchy_broker.Common
use herterarchy_broker.Common.Keys.{◌==◌, nat_key, pair_key}
use herterarchy_broker.Common.Maps.{Map, get, insert, remove}
use herterarchy_broker.Common.Sets
use herterarchy_broker.Common.Heaps.{push}
use herterarchy_broker.Fencing.{next, Term, Generation, checked_add}
use herterarchy_broker.Identifiers.{TaskId, NamespaceId, ConsumerGroupId, ConsumerId}
use herterarchy_broker.Identifiers.Order.{id_key}
use herterarchy_broker.Task.{Task, TaskState, LeasedTask, requeue_if_expired, requeue_for_member}
use herterarchy_broker.Group.Coordinator
use herterarchy_broker.Machine.State.{
  BrokerStateMachine, StateMachineError, ReadyTaskHeap, LeaseExpirationHeap, set_tasks, or_else,
  task_transition, stale_term, timestamp_overflow, fencing_value, coordinator_error,
  namespace_not_found,
}
use herterarchy_broker.Machine.Results.{MutationMetadata}
use herterarchy_broker.Machine.Monad.{Action, pure, self, ◌>>=◌, reject_if}

unfoldable pub metadata : BrokerStateMachine → MutationMetadata
metadata m = record { term = m.term; revision = m.revision }

-- `self.state.revision.next()?`
unfoldable pub next_global_revision : Action ℕ
unfolding next
next_global_revision m = (map_err fencing_value (next "revision" m.revision), m)

unfoldable pub require_namespace : NamespaceId → Action (Unit {0})
require_namespace id = do
  m ← self
  reject_if (not (is_some (get id m.namespaces))) (namespace_not_found id)

unfoldable pub require_term : Term → Action (Unit {0})
require_term expected = do
  m ← self
  reject_if (not (nat_eq m.term expected)) (stale_term expected m.term)

unfoldable pub require_group_member :
    ConsumerGroupId → ConsumerId → Generation → Action (NamespaceId × Generation)
require_group_member group_id member_id expected_generation m = (
  map_err coordinator_error
      (Coordinator.require_member m.groups group_id member_id expected_generation),
  m,
)

unfoldable pub checked_deadline : ℕ → ℕ → Result StateMachineError ℕ
unfolding checked_add
checked_deadline now_ms duration_ms = ok_or (checked_add now_ms duration_ms) timestamp_overflow

-- `entry(namespace_id).or_default().push(..)` of the ready queues
unfoldable pub push_ready : NamespaceId → ℕ → TaskId → BrokerStateMachine → BrokerStateMachine
push_ready namespace_id created_at_ms task_id m = record m {
  ready_tasks =
      insert namespace_id
        (push (created_at_ms, task_id) (or_else (get namespace_id m.ready_tasks) [])) m.ready_tasks;
}

-- `entry(namespace_id).or_default().push(..)` of the expirations
unfoldable pub push_expiration :
    NamespaceId → ℕ → TaskId → ℕ → BrokerStateMachine → BrokerStateMachine
push_expiration namespace_id expires_at_ms task_id lease_epoch m = record m {
  lease_expirations =
      insert namespace_id
        (push (expires_at_ms, (task_id, lease_epoch))
          (or_else (get namespace_id m.lease_expirations) []))
        m.lease_expirations;
}

-- `entry((group, member)).or_default().insert(task_id)`
unfoldable pub add_member_lease_task :
    ConsumerGroupId → ConsumerId → TaskId → BrokerStateMachine → BrokerStateMachine
add_member_lease_task group_id member_id task_id m = record m {
  member_lease_tasks =
      insert (group_id, member_id)
        (Sets.insert task_id (or_else (get (group_id, member_id) m.member_lease_tasks) []))
        m.member_lease_tasks;
}

-- The entry goes when its set is empty.
unfoldable pub drop_member_task :
    ConsumerGroupId × ConsumerId
    → TaskId
    → List TaskId
    → Map (ConsumerGroupId × ConsumerId) (List TaskId)
    → Map (ConsumerGroupId × ConsumerId) (List TaskId)
drop_member_task key task_id tasks index = elim (Sets.remove task_id tasks) [
  | [] ↦ remove key index
  | t ∷ ts ↦ insert key (t ∷ ts) index
]

unfoldable pub remove_member_lease_task :
    ConsumerGroupId → ConsumerId → TaskId → BrokerStateMachine → BrokerStateMachine
unfolding drop_member_task
remove_member_lease_task group_id member_id task_id m =
    elim (get (group_id, member_id) m.member_lease_tasks) [
      | none ↦ m
      | some tasks ↦ record m {
        member_lease_tasks =
            drop_member_task (group_id, member_id) task_id tasks m.member_lease_tasks;
      }
    ]

abbrev pub mark_task : TaskId → BrokerStateMachine → BrokerStateMachine
mark_task id m = record m { changed_tasks = Sets.insert id m.changed_tasks }

-- A scan of the ready heap: the first entry whose task is queued, and the entries behind it.
unfoldable pub scan_ready : ReadyTaskHeap → Map TaskId Task → Option TaskId × ReadyTaskHeap
scan_ready [] tasks = (none, [])
scan_ready ((created_at_ms, task_id) ∷ heap) tasks =
    let rest = scan_ready heap tasks in
    elim (get task_id tasks) [
      | none ↦ rest
      | some task ↦ elim task.state [ TaskState.queued q ↦ (some task_id, heap) | _ ↦ rest ]
    ]

unfoldable pub pop_ready_task : NamespaceId → Action (Option TaskId)
pop_ready_task namespace_id m = elim (get namespace_id m.ready_tasks) [
  | none ↦ (ok none, m)
  | some heap ↦
      let (found, rest) = scan_ready heap m.tasks in
      (ok found, record m { ready_tasks = insert namespace_id rest m.ready_tasks })
]

-- The lease of a task that is leased.
abbrev pub lease_of : Option Task → Option (Task × LeasedTask)
lease_of none = none
lease_of (some task) = elim task.state [ TaskState.leased lease ↦ some (task, lease) | _ ↦ none ]

-- The first loop of `recover_expired_leases`: the entries that have run out are taken off the
-- heap, and those that still describe the lease of their task are candidates.
unfoldable pub scan_expired :
    LeaseExpirationHeap → ℕ → Map TaskId Task → List TaskId → List TaskId × LeaseExpirationHeap
scan_expired [] now_ms tasks candidates = (candidates, [])
scan_expired ((expires_at_ms, (task_id, lease_epoch)) ∷ heap) now_ms tasks candidates =
    let rest = scan_expired heap now_ms tasks (elim (lease_of (get task_id tasks)) [
      | none ↦ candidates
      | some (task, lease) ↦
          if nat_eq lease.lease_epoch lease_epoch && nat_eq lease.expires_at_ms expires_at_ms
          then Sets.insert task_id candidates
          else candidates
    ]) in
    if ltb now_ms expires_at_ms
    then (candidates, (expires_at_ms, (task_id, lease_epoch)) ∷ heap)
    else rest

-- One round of the second loop of `recover_expired_leases`, and what it adds to the count.
unfoldable pub recover_task : NamespaceId → ℕ → TaskId → Action ℕ
unfolding push_ready remove_member_lease_task
recover_task namespace_id now_ms task_id m = elim (lease_of (get task_id m.tasks)) [
  | none ↦ (ok 0, m)
  | some (task, lease) ↦ elim (requeue_if_expired now_ms task) [
    | err e ↦ (err (task_transition e), m)
    | ok (requeued, task') ↦
        let m₁ = set_tasks (insert task_id task' m.tasks) m in
        let m₂ = record m₁ { active_lease_tasks = remove lease.lease_id m₁.active_lease_tasks } in
        let m₃ = remove_member_lease_task lease.group_id lease.owner_member_id task_id m₂ in
        if requeued
        then (ok 1, mark_task task_id (push_ready namespace_id task.created_at_ms task_id m₃))
        else (ok 0, m₁)
  ]
]

unfoldable pub recover_tasks : NamespaceId → ℕ → List TaskId → Action ℕ
recover_tasks namespace_id now_ms [] = pure 0
recover_tasks namespace_id now_ms (id ∷ ids) = do
  n ← recover_task namespace_id now_ms id
  rest ← recover_tasks namespace_id now_ms ids
  pure (n + rest)

unfoldable pub recover_expired_leases : NamespaceId → ℕ → Action ℕ
recover_expired_leases namespace_id now_ms m = elim (get namespace_id m.lease_expirations) [
  | none ↦ (ok 0, m)
  | some heap ↦
      let (candidates, rest) = scan_expired heap now_ms m.tasks [] in
      recover_tasks namespace_id now_ms candidates
        (record m { lease_expirations = insert namespace_id rest m.lease_expirations })
]

-- One round of the loop of `preflight_member_lease_requeue`.
unfoldable pub preflight_task :
    ConsumerGroupId → ConsumerId → Map TaskId Task → TaskId → Result StateMachineError (Unit {0})
unfolding next
preflight_task group_id member_id tasks task_id = elim (lease_of (get task_id tasks)) [
  | none ↦ ok tt
  | some (task, lease) ↦
      if lease.group_id == group_id && lease.owner_member_id == member_id
      then map_err (λ e. fencing_value e) (Common.◌>>=◌ (next "revision" task.revision) λ _. ok tt)
      else ok tt
]

unfoldable pub preflight_tasks :
    ConsumerGroupId
    → ConsumerId
    → Map TaskId Task
    → List TaskId
    → Result StateMachineError (Unit {0})
preflight_tasks group_id member_id tasks [] = ok tt
preflight_tasks group_id member_id tasks (id ∷ ids) =
    Common.◌>>=◌ (preflight_task group_id member_id tasks id)
      λ _. preflight_tasks group_id member_id tasks ids

unfoldable pub preflight_member_lease_requeue :
    ConsumerGroupId → ConsumerId → BrokerStateMachine → Result StateMachineError (Unit {0})
preflight_member_lease_requeue group_id member_id m =
    preflight_tasks group_id member_id m.tasks
      (or_else (get (group_id, member_id) m.member_lease_tasks) [])

-- One round of the loop of `requeue_member_leases`, and what it adds to the count. The look-ups of
-- the source after the first one find the same task again.
unfoldable pub requeue_task : ConsumerGroupId → ConsumerId → TaskId → Action ℕ
unfolding push_ready
requeue_task group_id member_id task_id m = elim (lease_of (get task_id m.tasks)) [
  | none ↦ (ok 0, m)
  | some (task, lease) ↦
      if not (lease.group_id == group_id) || not (lease.owner_member_id == member_id)
      then (ok 0, m)
      else elim (requeue_for_member group_id member_id task) [
        | err e ↦ (err (task_transition e), m)
        | ok (did_requeue, task') ↦
            let m₁ = set_tasks (insert task_id task' m.tasks) m in
            let m₂ = record m₁ {
              active_lease_tasks = remove lease.lease_id m₁.active_lease_tasks;
            } in
            if did_requeue
            then (
              ok 1,
              mark_task task_id (push_ready task'.namespace_id task.created_at_ms task_id m₂),
            )
            else (ok 0, m₁)
      ]
]

unfoldable pub requeue_tasks : ConsumerGroupId → ConsumerId → List TaskId → Action ℕ
requeue_tasks group_id member_id [] = pure 0
requeue_tasks group_id member_id (id ∷ ids) = do
  n ← requeue_task group_id member_id id
  rest ← requeue_tasks group_id member_id ids
  pure (n + rest)

unfoldable pub requeue_member_leases : ConsumerGroupId → ConsumerId → Action ℕ
requeue_member_leases group_id member_id m =
    requeue_tasks group_id member_id (or_else (get (group_id, member_id) m.member_lease_tasks) [])
      (record m { member_lease_tasks = remove (group_id, member_id) m.member_lease_tasks })
