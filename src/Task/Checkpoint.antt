-- ===== src/Task/Checkpoint.antt =====
-- `Task::checkpoint` and `Task::from_checkpoint`, with the record types of checkpoint.rs.
use herterarchy_broker.Common.{◌≡◌, refl, arith}
use herterarchy_broker.Fencing.{Generation, LeaseEpoch, Revision}
use herterarchy_broker.Identifiers.{TaskId, NamespaceId, ConsumerGroupId, ConsumerId, LeaseId}
use herterarchy_broker.Task.Data.{Task, TaskState, TaskObjective, TaskResult, TimestampMs}

pub data TaskCheckpointState : Type 0 where
  queued : LeaseEpoch → TaskCheckpointState
  leased :
      LeaseId
      → ConsumerId
      → ConsumerGroupId
      → Generation
      → LeaseEpoch
      → TimestampMs
      → TaskCheckpointState
  completed :
      LeaseId
      → ConsumerId
      → ConsumerGroupId
      → Generation
      → LeaseEpoch
      → TaskResult
      → TimestampMs
      → TaskCheckpointState

pub record TaskCheckpoint : Type 0 where
  pub task_id : TaskId
  pub namespace_id : NamespaceId
  pub objective : TaskObjective
  pub created_at_ms : TimestampMs
  pub revision : Revision
  pub state : TaskCheckpointState

unfoldable pub checkpoint_state : TaskState → TaskCheckpointState
checkpoint_state (TaskState.queued q) = queued q.lease_epoch
checkpoint_state (TaskState.leased l) =
    leased l.lease_id l.owner_member_id l.group_id l.generation l.lease_epoch l.expires_at_ms
checkpoint_state (TaskState.completed c) =
    completed c.lease_id c.owner_member_id c.group_id c.generation c.lease_epoch c.result
      c.completed_at_ms

unfoldable pub checkpoint : Task → TaskCheckpoint
unfolding checkpoint_state
checkpoint t = record {
  task_id = t.id;
  namespace_id = t.namespace_id;
  objective = t.objective;
  created_at_ms = t.created_at_ms;
  revision = t.revision;
  state = checkpoint_state t.state;
}

unfoldable pub restore_state : TaskCheckpointState → TaskState
restore_state (queued lease_epoch) = TaskState.queued (record { lease_epoch = lease_epoch })
restore_state (leased lease_id owner group generation epoch expires) = TaskState.leased (record {
  lease_id = lease_id;
  owner_member_id = owner;
  group_id = group;
  generation = generation;
  lease_epoch = epoch;
  expires_at_ms = expires;
})
restore_state (completed lease_id owner group generation epoch result at) =
    TaskState.completed (record {
      lease_id = lease_id;
      owner_member_id = owner;
      group_id = group;
      generation = generation;
      lease_epoch = epoch;
      result = result;
      completed_at_ms = at;
    })

unfoldable pub from_checkpoint : TaskCheckpoint → Task
unfolding restore_state
from_checkpoint c = record {
  id = c.task_id;
  namespace_id = c.namespace_id;
  objective = c.objective;
  created_at_ms = c.created_at_ms;
  revision = c.revision;
  state = restore_state c.state;
}

restore-checkpoint_state : (s : TaskState) → restore_state (checkpoint_state s) ≡ s
unfolding restore_state checkpoint_state
restore-checkpoint_state (TaskState.queued q) = refl
restore-checkpoint_state (TaskState.leased l) = refl
restore-checkpoint_state (TaskState.completed c) = refl

checkpoint-restore_state : (s : TaskCheckpointState) → checkpoint_state (restore_state s) ≡ s
unfolding restore_state checkpoint_state
checkpoint-restore_state (queued e) = refl
checkpoint-restore_state (leased l o g n e x) = refl
checkpoint-restore_state (completed l o g n e r x) = refl

-- A task survives being written to a checkpoint and read back.
pub from_checkpoint-checkpoint : (t : Task) → from_checkpoint (checkpoint t) ≡ t
unfolding from_checkpoint checkpoint
from_checkpoint-checkpoint t = ground (arith, restore-checkpoint_state t.state)

-- A checkpoint record survives being read and written again.
pub checkpoint-from_checkpoint : (c : TaskCheckpoint) → checkpoint (from_checkpoint c) ≡ c
unfolding from_checkpoint checkpoint
checkpoint-from_checkpoint c = ground (arith, checkpoint-restore_state c.state)
