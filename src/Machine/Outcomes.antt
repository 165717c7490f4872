-- ===== src/Machine/Outcomes.antt =====
-- What a lease command of crates/agent-broker-domain/src/state_machine.rs that succeeds has found
-- and done, and what a late claim leaves behind.
use herterarchy_broker.Common.{
  ℕ, ◌+◌, ◌≤◌, ◌≡◌, inl, inr, true, some, ok, arith, Option-cases, Result-cases, is_some,
}
use herterarchy_broker.Common.Maps.{get, insert, contains_key}
use herterarchy_broker.Fencing.{u64_max, checked_add}
use herterarchy_broker.Identifiers.{NamespaceId, ConsumerGroupId, ConsumerId}
use herterarchy_broker.Identifiers.Order.{id_key}
use herterarchy_broker.Task
use herterarchy_broker.Task.{Task, TaskState, LeasedTask, CompletionOutcome, QueuedTask}
use herterarchy_broker.Group.{ConsumerGroup, require_generation}
use herterarchy_broker.Group.Coordinator.{require_member, group_mut}
use herterarchy_broker.Machine.State.{BrokerStateMachine}
use herterarchy_broker.Machine.Commands.{RenewTaskLeaseCommand, CompleteTaskCommand}
use herterarchy_broker.Machine.Results.{TaskLeaseRenewedResult, TaskCompletedResult}
use herterarchy_broker.Machine.Monad.{◌>>=◌}
use herterarchy_broker.Machine.Leases.{
  next_global_revision, require_term, require_group_member, push_expiration,
  remove_member_lease_task, checked_deadline,
}
use herterarchy_broker.Machine.Claims.{renew_task_lease, complete_task, transition_task}
use herterarchy_broker.Machine.Protocol.Leasing.{renewal_fence, completion_fence}

-- The member belongs to the group, and the group is at this generation.
abbrev pub Admits : ConsumerGroupId → ConsumerId → ℕ → BrokerStateMachine → Type 0
Admits group_id member_id generation m =
    (g : ConsumerGroup) × (get group_id m.groups ≡ some g)
    × (g.generation ≡ generation)
    × (is_some (get member_id g.consumers) ≡ true)

require_member-Admits :
    (group_id : ConsumerGroupId) (member_id : ConsumerId) (generation : ℕ) (m : BrokerStateMachine)
    (out : NamespaceId × ℕ)
    → (require_group_member group_id member_id generation m).0 ≡ ok out
    → Admits group_id member_id generation m
unfolding require_group_member require_member group_mut require_generation contains_key
require_member-Admits group_id member_id generation m out h =
    elim (Option-cases (get group_id m.groups)) [
      | inl e ↦ ground arith
      | inr (g, e) ↦ (g, e, ground arith, ground arith)
    ]

-- A completion that succeeds was sent at the current term by a member of the group at its current
-- generation, and the task that it names has made the fenced transition; no other task changed.
pub complete_task-ok :
    (c : CompleteTaskCommand) (m : BrokerStateMachine) (r : TaskCompletedResult)
    → (complete_task c m).0 ≡ ok r
    → (m.term ≡ c.expected_term)
      × Admits c.group_id c.member_id c.expected_generation m
      × ((t t' : Task) × (o : CompletionOutcome) × (get c.task_id m.tasks ≡ some t)
          × (Task.complete (completion_fence c) c.result t ≡ ok (o, t'))
          × ((complete_task c m).1.tasks ≡ insert c.task_id t' m.tasks)
          × (r.task_revision ≡ t'.revision))
unfolding complete_task require_term require_group_member transition_task next_global_revision
    remove_member_lease_task ◌>>=◌
complete_task-ok c m r h =
    elim (Result-cases (require_group_member c.group_id c.member_id c.expected_generation m).0) [
      | inr (x, e) ↦ absurd (ground arith)
      | inl (k, e) ↦ elim (Option-cases (get c.task_id m.tasks)) [
        | inl missing ↦ absurd (ground arith)
        | inr (t, et) ↦ elim (Result-cases (Task.complete (completion_fence c) c.result t)) [
          | inr (x, bad) ↦ absurd (ground arith)
          | inl (out, good) ↦ (
            ground arith,
            require_member-Admits c.group_id c.member_id c.expected_generation m k e,
            (t, out.1, out.0, et, ground arith, ground arith, ground arith),
          )
        ]
      ]
    ]

-- A renewal that succeeds was sent at the current term by a member of the group at its current
-- generation, and the task that it names has made the fenced transition to the new deadline, which
-- fits in 64 bits and is returned; no other task changed.
pub renew_task_lease-ok :
    (c : RenewTaskLeaseCommand) (m : BrokerStateMachine) (r : TaskLeaseRenewedResult)
    → (renew_task_lease c m).0 ≡ ok r
    → (m.term ≡ c.expected_term)
      × Admits c.group_id c.member_id c.expected_generation m
      × (c.now_ms + c.lease_duration_ms ≤ u64_max)
      × ((t t' : Task) × (get c.task_id m.tasks ≡ some t)
          × (Task.renew (renewal_fence c) (c.now_ms + c.lease_duration_ms) t ≡ ok t')
          × ((renew_task_lease c m).1.tasks ≡ insert c.task_id t' m.tasks)
          × (r.lease_expires_at_ms ≡ c.now_ms + c.lease_duration_ms))
unfolding renew_task_lease require_term require_group_member transition_task next_global_revision
    push_expiration checked_deadline checked_add ◌>>=◌
renew_task_lease-ok c m r h =
    let at = c.now_ms + c.lease_duration_ms in
    elim (Result-cases (require_group_member c.group_id c.member_id c.expected_generation m).0) [
      | inr (x, e) ↦ absurd (ground arith)
      | inl (k, e) ↦ elim (Option-cases (get c.task_id m.tasks)) [
        | inl missing ↦ absurd (ground arith)
        | inr (t, et) ↦ elim (Result-cases (Task.renew (renewal_fence c) at t)) [
          | inr (x, bad) ↦ absurd (ground arith)
          | inl (t', good) ↦ (
            ground arith,
            require_member-Admits c.group_id c.member_id c.expected_generation m k e,
            ground arith,
            (t, t', et, good, ground arith, ground arith),
          )
        ]
      ]
    ]
