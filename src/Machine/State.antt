-- ===== src/Machine/State.antt =====
-- The types of crates/agent-broker-domain/src/state_machine.rs: the authoritative state, and the
-- machine that holds it together with its derived indexes and the change set of one command.
use Prim.Native.String.{String}
use herterarchy_broker.Common.{ℕ, Option, none, some, List, []}
use herterarchy_broker.Common.Keys.{nat_key, pair_key}
use herterarchy_broker.Common.Maps.{Map}
use herterarchy_broker.Fencing.{FencingValueError, Term, LeaseEpoch, Revision, initial_term}
use herterarchy_broker.Identifiers.{TaskId, NamespaceId, ConsumerGroupId, ConsumerId, LeaseId}
use herterarchy_broker.Identifiers.Order.{id_key}
use herterarchy_broker.Task.{Task, TaskTransitionError, TimestampMs}
use herterarchy_broker.Group.{ConsumerGroup, ConsumerGroupError}
use herterarchy_broker.Group.Coordinator.{GroupCoordinatorError, group_not_found, transition}

pub record Namespace : Type 0 where
  pub id : NamespaceId
  pub revision : Revision

-- `Namespace::new`
unfoldable pub new_namespace : NamespaceId → Namespace
new_namespace id = record { id = id; revision = 1 }

pub record BrokerState : Type 0 where
  pub term : Term
  pub revision : Revision
  pub namespaces : Map NamespaceId Namespace
  pub tasks : Map TaskId Task
  pub groups : Map ConsumerGroupId ConsumerGroup

abbrev pub ReadyTaskHeap : Type 0
ReadyTaskHeap = List (TimestampMs × TaskId)

abbrev pub LeaseExpirationHeap : Type 0
LeaseExpirationHeap = List (TimestampMs × (TaskId × LeaseEpoch))

abbrev pub CompletedTaskHeap : Type 0
CompletedTaskHeap = List (TimestampMs × TaskId)

pub data StateMachineError : Type 0 where
  invalid_capacity : String → StateMachineError
  capacity_exceeded : String → ℕ → StateMachineError
  namespace_not_found : NamespaceId → StateMachineError
  task_conflict task_not_found : TaskId → StateMachineError
  lease_id_conflict : LeaseId → StateMachineError
  stale_term : Term → Term → StateMachineError
  new_term_not_greater : Term → Term → StateMachineError
  task_count_underflow : NamespaceId → StateMachineError
  timestamp_overflow : StateMachineError
  task_transition : TaskTransitionError → StateMachineError
  consumer_group_conflict consumer_group_not_found : ConsumerGroupId → StateMachineError
  consumer_group_transition : ConsumerGroupError → StateMachineError
  fencing_value : FencingValueError → StateMachineError

-- `From<GroupCoordinatorError>`
unfoldable pub coordinator_error : GroupCoordinatorError → StateMachineError
coordinator_error (group_not_found id) = consumer_group_not_found id
coordinator_error (transition e) = consumer_group_transition e

pub record BrokerStateMachine : Type 0 where
  pub state : BrokerState
  pub open state use *
  pub ready_tasks : Map NamespaceId ReadyTaskHeap
  pub lease_expirations : Map NamespaceId LeaseExpirationHeap
  pub active_lease_tasks : Map LeaseId TaskId
  pub member_lease_tasks : Map (ConsumerGroupId × ConsumerId) (List TaskId)
  pub completed_tasks : CompletedTaskHeap
  pub namespace_task_counts : Map NamespaceId ℕ
  pub namespace_group_counts : Map NamespaceId ℕ
  pub changed_namespaces : List NamespaceId
  pub changed_tasks : List TaskId
  pub deleted_tasks : List TaskId
  pub changed_groups : List ConsumerGroupId

-- `BrokerState::default`
abbrev pub default_state : BrokerState
default_state = record {
  term = initial_term;
  revision = 0;
  namespaces = [];
  tasks = [];
  groups = [];
}

-- `BrokerStateMachine::default`
abbrev pub default_machine : BrokerStateMachine
default_machine = record {
  state = default_state;
  ready_tasks = [];
  lease_expirations = [];
  active_lease_tasks = [];
  member_lease_tasks = [];
  completed_tasks = [];
  namespace_task_counts = [];
  namespace_group_counts = [];
  changed_namespaces = [];
  changed_tasks = [];
  deleted_tasks = [];
  changed_groups = [];
}

-- assignments to the fields of `self.state`
abbrev pub set_revision : Revision → BrokerStateMachine → BrokerStateMachine
set_revision r m = record m { state = record (m.state) { revision = r } }

abbrev pub set_term : Term → BrokerStateMachine → BrokerStateMachine
set_term t m = record m { state = record (m.state) { term = t } }

abbrev pub set_namespaces : Map NamespaceId Namespace → BrokerStateMachine → BrokerStateMachine
set_namespaces ns m = record m { state = record (m.state) { namespaces = ns } }

abbrev pub set_tasks : Map TaskId Task → BrokerStateMachine → BrokerStateMachine
set_tasks ts m = record m { state = record (m.state) { tasks = ts } }

abbrev pub set_groups : Map ConsumerGroupId ConsumerGroup → BrokerStateMachine → BrokerStateMachine
set_groups gs m = record m { state = record (m.state) { groups = gs } }

-- `unwrap_or` and `unwrap_or_default`
abbrev pub or_else {ℓ} : {A : Type ℓ} → Option A → A → A
or_else none d = d
or_else (some a) d = a
