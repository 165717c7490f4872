-- ===== src/Machine/Claims.antt =====
-- The commands of crates/agent-broker-domain/src/state_machine.rs on the lease of a task: claim,
-- renew and complete.
use herterarchy_broker.Common.{
  ℕ, ◌&&◌, Option, none, some, Result, ok, err, ok_or, ltb, if◌then◌else◌,
}
use herterarchy_broker.Common.Keys.{◌==◌, nat_key, pair_key}
use herterarchy_broker.Common.Maps.{get, insert, remove}
use herterarchy_broker.Common.Heaps.{push}
use herterarchy_broker.Fencing.{Generation}
use herterarchy_broker.Identifiers.{TaskId, NamespaceId}
use herterarchy_broker.Identifiers.Order.{id_key}
use herterarchy_broker.Task
use herterarchy_broker.Task.{
  TaskState, LeasedTask, CompletionOutcome, LeaseGrant, LeaseFence, not_leased, status,
}
use herterarchy_broker.Machine.State.{
  BrokerStateMachine, set_revision, set_tasks, task_not_found, task_transition, lease_id_conflict,
}
use herterarchy_broker.Machine.Commands.{
  ClaimTaskCommand, RenewTaskLeaseCommand, CompleteTaskCommand,
}
use herterarchy_broker.Machine.Results.{
  TaskClaimResult, TaskLeaseRenewedResult, TaskCompletedResult,
}
use herterarchy_broker.Machine.Monad.{Action, pure, self, modify, lift, fail, ◌>>=◌, ◌>>◌}
use herterarchy_broker.Machine.Leases.{
  metadata, next_global_revision, require_term, require_group_member, checked_deadline,
  push_expiration, add_member_lease_task, remove_member_lease_task, mark_task, lease_of,
  recover_expired_leases, pop_ready_task,
}

-- the two results with no task
unfoldable pub empty_claim : Generation → BrokerStateMachine → TaskClaimResult
unfolding metadata
empty_claim generation m = record {
  metadata = metadata m;
  task_id = none;
  objective = none;
  task_revision = none;
  lease_id = none;
  lease_epoch = none;
  lease_expires_at_ms = none;
  generation = generation;
}

unfoldable pub task_claim_result :
    Generation → Option Task.Task → BrokerStateMachine → TaskClaimResult
unfolding metadata empty_claim
task_claim_result generation task m = elim (lease_of task) [
  | none ↦ empty_claim generation m
  | some (t, lease) ↦ record {
    metadata = metadata m;
    task_id = some t.id;
    objective = some t.objective;
    task_revision = some t.revision;
    lease_id = some lease.lease_id;
    lease_epoch = some lease.lease_epoch;
    lease_expires_at_ms = some lease.expires_at_ms;
    generation = generation;
  }
]

-- the retry of a claim whose lease identity is already active
unfoldable pub claim_again : ClaimTaskCommand → Generation → TaskId → Action TaskClaimResult
unfolding task_claim_result
claim_again c generation existing_task_id m = elim (get existing_task_id m.tasks) [
  | none ↦ (err (task_not_found existing_task_id), m)
  | some task ↦ elim (lease_of (some task)) [
    | none ↦ (err (lease_id_conflict c.lease_id), m)
    | some (t, lease) ↦
        if lease.owner_member_id == c.member_id && lease.group_id == c.group_id
        then (ok (task_claim_result generation (some task) m), m)
        else (err (lease_id_conflict c.lease_id), m)
  ]
]

abbrev pub grant_of : ClaimTaskCommand → Generation → ℕ → LeaseGrant
grant_of c generation expires_at_ms = record {
  lease_id = c.lease_id;
  owner_member_id = c.member_id;
  group_id = c.group_id;
  generation = generation;
  expires_at_ms = expires_at_ms;
}

-- `get_mut(..)`, a transition of the task, and the task as it is then
unfoldable pub transition_task {ℓ} :
    {A : Type ℓ}
    → TaskId
    → (Task.Task → Result Task.TaskTransitionError (A × Task.Task))
    → Action (A × Task.Task)
transition_task task_id step m = elim (get task_id m.tasks) [
  | none ↦ (err (task_not_found task_id), m)
  | some task ↦ elim (step task) [
    | err e ↦ (err (task_transition e), m)
    | ok (outcome, task') ↦ (ok (outcome, task'), set_tasks (insert task_id task' m.tasks) m)
  ]
]

-- `let TaskState::Leased(lease) = task.state() else { return Err(..) }`
abbrev require_leased : Task.Task → Action LeasedTask
require_leased task = elim task.state [
  | TaskState.leased lease ↦ pure lease
  | _ ↦ fail (task_transition (not_leased (status task.state)))
]

abbrev pub with_unit {ℓ} : {E : Type ℓ} → Result E Task.Task → Result E (Unit {0} × Task.Task)
with_unit (ok t) = ok (tt, t)
with_unit (err e) = err e

-- the indexes of a new lease
abbrev index_claim :
    ClaimTaskCommand → NamespaceId → TaskId → ℕ → ℕ → BrokerStateMachine → BrokerStateMachine
index_claim c namespace_id task_id expires_at_ms lease_epoch m =
    let m₁ = record m { active_lease_tasks = insert c.lease_id task_id m.active_lease_tasks } in
    push_expiration namespace_id expires_at_ms task_id lease_epoch
      (add_member_lease_task c.group_id c.member_id task_id m₁)

-- `claim_task` once a ready task has been taken off its queue
unfoldable pub claim_ready :
    ClaimTaskCommand → NamespaceId → Generation → TaskId → Action TaskClaimResult
claim_ready c namespace_id generation task_id = do
  expires_at_ms ← lift (checked_deadline c.now_ms c.lease_duration_ms)
  next_revision ← next_global_revision
  claimed ←
      transition_task task_id
        λ task. with_unit (Task.claim (grant_of c generation expires_at_ms) task)
  lease ← require_leased claimed.1
  modify (index_claim c namespace_id task_id expires_at_ms lease.lease_epoch)
  modify (mark_task task_id)
  modify (set_revision next_revision)
  m' ← self
  task ← lift (ok_or (get task_id m'.tasks) (task_not_found task_id))
  pure (record (task_claim_result generation (some task) m') {
    task_revision = some (claimed.1).revision;
  })

-- `claim_task` with no ready task: recovered leases count as one revision.
unfoldable pub claim_nothing : Generation → ℕ → Action TaskClaimResult
unfolding next_global_revision empty_claim
claim_nothing generation recovered m =
    if ltb 0 recovered
    then (next_global_revision >>= λ r.
          modify (set_revision r) >> λ m'. (ok (empty_claim generation m'), m'))
        m
    else (ok (empty_claim generation m), m)

-- `claim_task` of a lease identity that is not active
unfoldable pub claim_new : ClaimTaskCommand → NamespaceId → Generation → Action TaskClaimResult
claim_new c namespace_id generation = do
  recovered ← recover_expired_leases namespace_id c.now_ms
  found ← pop_ready_task namespace_id
  elim found [
    | none ↦ claim_nothing generation recovered
    | some task_id ↦ claim_ready c namespace_id generation task_id
  ]

unfoldable pub claim_task : ClaimTaskCommand → Action TaskClaimResult
claim_task c = do
  require_term c.expected_term
  (namespace_id, generation) ← require_group_member c.group_id c.member_id c.expected_generation
  m ← self
  elim (get c.lease_id m.active_lease_tasks) [
    | some existing_task_id ↦ claim_again c generation existing_task_id
    | none ↦ claim_new c namespace_id generation
  ]

unfoldable pub renew_task_lease : RenewTaskLeaseCommand → Action TaskLeaseRenewedResult
renew_task_lease c = do
  require_term c.expected_term
  (_, generation) ← require_group_member c.group_id c.member_id c.expected_generation
  expires_at_ms ← lift (checked_deadline c.now_ms c.lease_duration_ms)
  next_revision ← next_global_revision
  renewed ← transition_task c.task_id λ task. with_unit (
      Task.renew
        (record {
          lease_id = c.lease_id;
          owner_member_id = c.member_id;
          group_id = c.group_id;
          generation = c.expected_generation;
          lease_epoch = c.expected_lease_epoch;
          observed_at_ms = c.now_ms;
        })
        expires_at_ms task)
  lease ← require_leased renewed.1
  modify (push_expiration (renewed.1).namespace_id expires_at_ms c.task_id lease.lease_epoch)
  modify (mark_task c.task_id)
  modify (set_revision next_revision)
  m' ← self
  pure (record {
    metadata = metadata m';
    task_id = c.task_id;
    task_revision = (renewed.1).revision;
    lease_id = c.lease_id;
    lease_epoch = lease.lease_epoch;
    lease_expires_at_ms = expires_at_ms;
    generation = generation;
  })

-- the indexes of a lease that is completed
abbrev index_completion : CompleteTaskCommand → ℕ → BrokerStateMachine → BrokerStateMachine
index_completion c next_revision m =
    let m₁ = record m { active_lease_tasks = remove c.lease_id m.active_lease_tasks } in
    let m₂ = remove_member_lease_task c.group_id c.member_id c.task_id m₁ in
    let m₃ = record m₂ {
      completed_tasks = push (c.completed_at_ms, c.task_id) m₂.completed_tasks;
    } in
    set_revision next_revision (mark_task c.task_id m₃)

unfoldable pub complete_task : CompleteTaskCommand → Action TaskCompletedResult
complete_task c = do
  require_term c.expected_term
  _ ← require_group_member c.group_id c.member_id c.expected_generation
  next_revision ← next_global_revision
  completed ← transition_task c.task_id λ task.
      Task.complete
        (record {
          lease_id = c.lease_id;
          owner_member_id = c.member_id;
          group_id = c.group_id;
          generation = c.expected_generation;
          lease_epoch = c.expected_lease_epoch;
          observed_at_ms = c.completed_at_ms;
        })
        c.result task
  modify λ m. elim completed.0 [
    | CompletionOutcome.completed ↦ index_completion c next_revision m
    | CompletionOutcome.already_completed ↦ m
  ]
  m' ← self
  pure (record {
    metadata = metadata m';
    task_id = c.task_id;
    task_revision = (completed.1).revision;
    status = status (completed.1).state;
  })
