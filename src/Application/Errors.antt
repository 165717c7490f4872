-- ===== src/Application/Errors.antt =====
-- crates/agent-broker-application/src/error.rs: the stable errors that clients see.
use herterarchy_broker.Task.{TaskTransitionError}
use herterarchy_broker.Group.{ConsumerGroupError}
use herterarchy_broker.Machine.State.{StateMachineError}
use herterarchy_broker.Application.Messages.{Message, shows_machine}

pub data BrokerErrorCode : Type 0 where
  invalid_request not_found conflict capacity_exceeded stale_fence : BrokerErrorCode
  persistence_error transport_error commit_outcome_unknown internal_error : BrokerErrorCode

pub data BrokerErrorDisposition : Type 0 where
  committed rejected unknown : BrokerErrorDisposition

pub record BrokerError : Type 0 where
  pub code : BrokerErrorCode
  pub message : Message
  pub disposition : BrokerErrorDisposition

-- `BrokerError::new`
unfoldable pub new_error : BrokerErrorCode → Message → BrokerError
new_error code message = record { code = code; message = message; disposition = unknown }

unfoldable pub with_disposition : BrokerErrorDisposition → BrokerError → BrokerError
with_disposition disposition e = record e { disposition = disposition }

unfoldable pub consumer_group_error_code : ConsumerGroupError → BrokerErrorCode
consumer_group_error_code (ConsumerGroupError.stale_generation expected actual) = stale_fence
consumer_group_error_code (ConsumerGroupError.member_not_found id) = not_found
consumer_group_error_code (ConsumerGroupError.capability_conflict id) = conflict
consumer_group_error_code (ConsumerGroupError.member_capacity_reached max) = capacity_exceeded
consumer_group_error_code ConsumerGroupError.invalid_member_capacity = invalid_request
consumer_group_error_code (ConsumerGroupError.fencing_value e) = internal_error

unfoldable pub task_transition_error_code : TaskTransitionError → BrokerErrorCode
task_transition_error_code (TaskTransitionError.not_queued status) = conflict
task_transition_error_code TaskTransitionError.already_completed = conflict
task_transition_error_code (TaskTransitionError.not_leased status) = stale_fence
task_transition_error_code TaskTransitionError.stale_group = stale_fence
task_transition_error_code TaskTransitionError.stale_owner = stale_fence
task_transition_error_code TaskTransitionError.stale_generation = stale_fence
task_transition_error_code TaskTransitionError.stale_lease_epoch = stale_fence
task_transition_error_code TaskTransitionError.stale_lease_id = stale_fence
task_transition_error_code TaskTransitionError.lease_expired = stale_fence
task_transition_error_code (TaskTransitionError.fencing_value e) = internal_error

unfoldable pub state_machine_error_code : StateMachineError → BrokerErrorCode
state_machine_error_code (StateMachineError.invalid_capacity field) = invalid_request
state_machine_error_code StateMachineError.timestamp_overflow = invalid_request
state_machine_error_code (StateMachineError.capacity_exceeded resource max) = capacity_exceeded
state_machine_error_code (StateMachineError.namespace_not_found id) = not_found
state_machine_error_code (StateMachineError.task_not_found id) = not_found
state_machine_error_code (StateMachineError.consumer_group_not_found id) = not_found
state_machine_error_code (StateMachineError.task_conflict id) = conflict
state_machine_error_code (StateMachineError.lease_id_conflict id) = conflict
state_machine_error_code (StateMachineError.consumer_group_conflict id) = conflict
state_machine_error_code (StateMachineError.stale_term expected actual) = stale_fence
state_machine_error_code (StateMachineError.new_term_not_greater current new) = stale_fence
state_machine_error_code (StateMachineError.consumer_group_transition e) =
    consumer_group_error_code e
state_machine_error_code (StateMachineError.task_transition e) = task_transition_error_code e
state_machine_error_code (StateMachineError.task_count_underflow id) = internal_error
state_machine_error_code (StateMachineError.fencing_value e) = internal_error

-- `From<StateMachineError> for BrokerError`
unfoldable pub from_machine_error : StateMachineError → BrokerError
unfolding new_error
from_machine_error e = new_error (state_machine_error_code e) (shows_machine e)
