-- ===== src/Storage/Tasks.antt =====
-- crates/agent-broker-storage/src/snapshot_v1.rs: the record of a task, and the fields that each of its
-- statuses has.
use herterarchy_broker.Common.{
  ℕ, List, [], ◌∷◌, Option, none, some, is_some, Result, ok, err, ◌||◌, ◌>>=◌, ◌>>◌, map_err,
  reject_if, if◌then◌else◌,
}
use herterarchy_broker.Identifiers.Order.{bytes_eq, bytes_key}
use herterarchy_broker.Task.Text.{new_objective, new_result}
use herterarchy_broker.Task.Checkpoint.{
  TaskCheckpoint, TaskCheckpointState, queued, leased, completed,
}
use herterarchy_broker.Application.Messages.{literal, format, string, shows_text}
use herterarchy_broker.Storage.Errors.{StorageError, invalid_format}
use herterarchy_broker.Storage.Wires.{
  invalid_value, positive_revision, required, valid_id, required_id,
}

pub record TaskWire : Type 0 where
  pub completed_at_ms : Option ℕ
  pub created_at_ms : ℕ
  pub lease_epoch : ℕ
  pub lease_expires_at_ms : Option ℕ
  pub lease_generation : Option ℕ
  pub lease_group_id : Option (List ℕ)
  pub lease_id : Option (List ℕ)
  pub lease_owner_member_id : Option (List ℕ)
  pub namespace_id : List ℕ
  pub objective : List ℕ
  pub result : Option (List ℕ)
  pub revision : ℕ
  pub status : List ℕ
  pub task_id : List ℕ

abbrev pub queued_status : List ℕ
queued_status = b'q' ∷ b'u' ∷ b'e' ∷ b'u' ∷ b'e' ∷ b'd' ∷ []

abbrev pub leased_status : List ℕ
leased_status = b'l' ∷ b'e' ∷ b'a' ∷ b's' ∷ b'e' ∷ b'd' ∷ []

abbrev pub completed_status : List ℕ
completed_status = b'c' ∷ b'o' ∷ b'm' ∷ b'p' ∷ b'l' ∷ b'e' ∷ b't' ∷ b'e' ∷ b'd' ∷ []

abbrev pub bare_task : TaskCheckpoint → TaskWire
bare_task t = record {
  completed_at_ms = none;
  created_at_ms = t.created_at_ms;
  lease_epoch = 0;
  lease_expires_at_ms = none;
  lease_generation = none;
  lease_group_id = none;
  lease_id = none;
  lease_owner_member_id = none;
  namespace_id = t.namespace_id.bytes;
  objective = t.objective.text;
  result = none;
  revision = t.revision;
  status = [];
  task_id = t.task_id.bytes;
}

-- the `match` of `task_to_wire`
unfoldable pub state_to_wire : TaskCheckpointState → TaskWire → TaskWire
state_to_wire (queued lease_epoch) wire = record wire {
  lease_epoch = lease_epoch;
  status = queued_status;
}
state_to_wire (leased lease_id owner group generation lease_epoch expires_at_ms) wire =
    record wire {
      lease_epoch = lease_epoch;
      lease_expires_at_ms = some expires_at_ms;
      lease_generation = some generation;
      lease_group_id = some group.bytes;
      lease_id = some lease_id.bytes;
      lease_owner_member_id = some owner.bytes;
      status = leased_status;
    }
state_to_wire (completed lease_id owner group generation lease_epoch result completed_at_ms) wire =
    record wire {
      completed_at_ms = some completed_at_ms;
      lease_epoch = lease_epoch;
      lease_generation = some generation;
      lease_group_id = some group.bytes;
      lease_id = some lease_id.bytes;
      lease_owner_member_id = some owner.bytes;
      result = some result.text;
      status = completed_status;
    }

unfoldable pub task_to_wire : TaskCheckpoint → TaskWire
unfolding state_to_wire
task_to_wire t = state_to_wire t.state (bare_task t)

unfoldable pub require_queued_task_fields : TaskWire → Result StorageError (Unit {0})
require_queued_task_fields wire =
    reject_if
      (is_some wire.lease_id
        || (is_some wire.lease_owner_member_id
            || (is_some wire.lease_group_id
                || (is_some wire.lease_generation
                    || (is_some wire.lease_expires_at_ms
                        || (is_some wire.completed_at_ms || is_some wire.result))))))
      (invalid_format (literal "queued task contains lease/completion fields"))

unfoldable pub require_leased_task_fields : TaskWire → Result StorageError (Unit {0})
require_leased_task_fields wire =
    reject_if (is_some wire.result || is_some wire.completed_at_ms)
      (invalid_format (literal "leased task contains completion-only fields"))

abbrev queued_from_wire : TaskWire → Result StorageError TaskCheckpointState
queued_from_wire wire = require_queued_task_fields wire >>= λ _. ok (queued wire.lease_epoch)

abbrev leased_from_wire : TaskWire → Result StorageError TaskCheckpointState
leased_from_wire wire = do
  require_leased_task_fields wire
  lease_id ← required_id wire.lease_id "task.lease_id" "lease_id"
  owner ← required_id wire.lease_owner_member_id "task.lease_owner_member_id" "member_id"
  group ← required_id wire.lease_group_id "task.lease_group_id" "group_id"
  generation ← required wire.lease_generation "task.lease_generation"
  expires_at_ms ← required wire.lease_expires_at_ms "task.lease_expires_at_ms"
  ok (leased lease_id owner group generation wire.lease_epoch expires_at_ms)

abbrev completed_from_wire : TaskWire → Result StorageError TaskCheckpointState
completed_from_wire wire = do
  reject_if (is_some wire.lease_expires_at_ms)
      (invalid_format (literal "completed task must not retain lease_expires_at_ms"))
  lease_id ← required_id wire.lease_id "task.lease_id" "lease_id"
  owner ← required_id wire.lease_owner_member_id "task.lease_owner_member_id" "member_id"
  group ← required_id wire.lease_group_id "task.lease_group_id" "group_id"
  generation ← required wire.lease_generation "task.lease_generation"
  raw ← required wire.result "task.result"
  result ← map_err (λ e. invalid_value "task.result" (shows_text e)) (new_result raw)
  completed_at_ms ← required wire.completed_at_ms "task.completed_at_ms"
  ok (completed lease_id owner group generation wire.lease_epoch result completed_at_ms)

unfoldable pub task_state_from_wire : TaskWire → Result StorageError TaskCheckpointState
unfolding require_queued_task_fields require_leased_task_fields required_id required
task_state_from_wire wire =
    if bytes_eq wire.status queued_status
    then queued_from_wire wire
    else if bytes_eq wire.status leased_status
    then leased_from_wire wire
    else if bytes_eq wire.status completed_status
    then completed_from_wire wire
    else err (invalid_format (format "unknown task status {other:?}" (string wire.status ∷ [])))

unfoldable pub task_from_wire : TaskWire → Result StorageError TaskCheckpoint
unfolding task_state_from_wire valid_id positive_revision
task_from_wire wire = do
  state ← task_state_from_wire wire
  task_id ← valid_id "task_id" "task_id" wire.task_id
  namespace_id ← valid_id "namespace_id" "task.namespace_id" wire.namespace_id
  objective ←
      map_err (λ e. invalid_value "task.objective" (shows_text e)) (new_objective wire.objective)
  revision ← positive_revision wire.revision "task.revision"
  ok (record {
    task_id = task_id;
    namespace_id = namespace_id;
    objective = objective;
    created_at_ms = wire.created_at_ms;
    revision = revision;
    state = state;
  })
