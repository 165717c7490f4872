-- ===== src/Task/Data.antt =====
-- The types of crates/agent-broker-domain/src/task.rs. A timestamp is a `u64` of milliseconds.
use herterarchy_broker.Common.{ℕ, List}
use herterarchy_broker.Fencing.{FencingValueError, Generation, LeaseEpoch, Revision}
use herterarchy_broker.Identifiers.{TaskId, NamespaceId, ConsumerGroupId, ConsumerId, LeaseId}

abbrev pub TimestampMs : Type 0
TimestampMs = ℕ

-- A text is the list of its Unicode scalar values.
pub record TaskObjective : Type 0 where
  pub text : List ℕ

pub record TaskResult : Type 0 where
  pub text : List ℕ

pub data TaskStatus : Type 0 where
  queued leased completed : TaskStatus

pub data TaskTransitionError : Type 0 where
  not_queued not_leased : TaskStatus → TaskTransitionError
  stale_group stale_owner stale_generation stale_lease_epoch stale_lease_id : TaskTransitionError
  lease_expired already_completed : TaskTransitionError
  fencing_value : FencingValueError → TaskTransitionError

pub record QueuedTask : Type 0 where
  pub lease_epoch : LeaseEpoch

pub record LeasedTask : Type 0 where
  pub lease_id : LeaseId
  pub owner_member_id : ConsumerId
  pub group_id : ConsumerGroupId
  pub generation : Generation
  pub lease_epoch : LeaseEpoch
  pub expires_at_ms : TimestampMs

pub record LeaseGrant : Type 0 where
  pub lease_id : LeaseId
  pub owner_member_id : ConsumerId
  pub group_id : ConsumerGroupId
  pub generation : Generation
  pub expires_at_ms : TimestampMs

pub record LeaseFence : Type 0 where
  pub lease_id : LeaseId
  pub owner_member_id : ConsumerId
  pub group_id : ConsumerGroupId
  pub generation : Generation
  pub lease_epoch : LeaseEpoch
  pub observed_at_ms : TimestampMs

pub data CompletionOutcome : Type 0 where
  completed already_completed : CompletionOutcome

pub record CompletedTask : Type 0 where
  pub lease_id : LeaseId
  pub owner_member_id : ConsumerId
  pub group_id : ConsumerGroupId
  pub generation : Generation
  pub lease_epoch : LeaseEpoch
  pub result : TaskResult
  pub completed_at_ms : TimestampMs

pub data TaskState : Type 0 where
  queued : QueuedTask → TaskState
  leased : LeasedTask → TaskState
  completed : CompletedTask → TaskState

-- `TaskState::status`
unfoldable pub status : TaskState → TaskStatus
status (queued q) = TaskStatus.queued
status (leased l) = TaskStatus.leased
status (completed c) = TaskStatus.completed

pub record Task : Type 0 where
  pub id : TaskId
  pub namespace_id : NamespaceId
  pub objective : TaskObjective
  pub created_at_ms : TimestampMs
  pub revision : Revision
  pub state : TaskState

-- `Task::new`
unfoldable pub new_task : TaskId → NamespaceId → TaskObjective → TimestampMs → Task
new_task task_id namespace_id objective created_at_ms = record {
  id = task_id;
  namespace_id = namespace_id;
  objective = objective;
  created_at_ms = created_at_ms;
  revision = 1;
  state = queued (record { lease_epoch = 0 });
}
