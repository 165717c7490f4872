-- ===== src/Machine.antt =====
-- crates/agent-broker-domain/src/state_machine.rs: the deterministic state machine. A command is
-- applied to the machine, and the machine that comes back stands for `&mut self` afterwards, also
-- after an error.
pub mod Commands
pub mod Results
pub mod State
pub mod Monad
pub mod Leases
pub mod Registry
pub mod Claims
pub mod Membership
pub mod Retention
pub mod Recovery
pub mod Protocol
pub mod Clock
pub mod Outcomes
pub mod Grants
pub mod Restore
pub mod Recovered
pub mod Pruning
pub mod Values
use herterarchy_broker.Common.{List, [], ◌∷◌, ok, err, Result}
use herterarchy_broker.Machine.State.{BrokerStateMachine, StateMachineError}
use herterarchy_broker.Machine.Commands.{BrokerCommand}
use herterarchy_broker.Machine.Results.{BrokerMutationResult, AppliedMutation, StateChangeSet}
use herterarchy_broker.Machine.Monad.{Action, pure, self, modify, ◌>>=◌, ◌>>◌}
use herterarchy_broker.Machine.Registry
use herterarchy_broker.Machine.Claims
use herterarchy_broker.Machine.Membership
use herterarchy_broker.Machine.Retention

unfoldable pub clear_changes : BrokerStateMachine → BrokerStateMachine
clear_changes m = record m {
  changed_namespaces = [];
  changed_tasks = [];
  deleted_tasks = [];
  changed_groups = [];
}

unfoldable pub take_changes : BrokerStateMachine → StateChangeSet
take_changes m = record {
  namespaces = m.changed_namespaces;
  tasks = m.changed_tasks;
  deleted_tasks = m.deleted_tasks;
  groups = m.changed_groups;
}

-- A result under its tag.
abbrev tag {ℓ} : {A : Type ℓ} → (A → BrokerMutationResult) → Action A → Action BrokerMutationResult
tag f action = action >>= λ r. pure (f r)

-- the `match` of `apply`
unfoldable pub dispatch : BrokerCommand → Action BrokerMutationResult
dispatch (BrokerCommand.ensure_namespace c) =
    tag BrokerMutationResult.namespace (Registry.ensure_namespace c)
dispatch (BrokerCommand.publish_task c) =
    tag BrokerMutationResult.task_published (Registry.publish_task c)
dispatch (BrokerCommand.ensure_consumer_group c) =
    tag BrokerMutationResult.consumer_group (Registry.ensure_consumer_group c)
dispatch (BrokerCommand.join_consumer_group c) =
    tag BrokerMutationResult.consumer_group (Registry.join_consumer_group c)
dispatch (BrokerCommand.heartbeat c) = tag BrokerMutationResult.heartbeat (Registry.heartbeat c)
dispatch (BrokerCommand.leave_consumer_group c) =
    tag BrokerMutationResult.consumer_group (Membership.leave_consumer_group c)
dispatch (BrokerCommand.reap_stale_members c) =
    tag BrokerMutationResult.stale_members_reaped (Membership.reap_stale_members c)
dispatch (BrokerCommand.claim_task c) = tag BrokerMutationResult.task_claim (Claims.claim_task c)
dispatch (BrokerCommand.renew_task_lease c) =
    tag BrokerMutationResult.task_lease_renewed (Claims.renew_task_lease c)
dispatch (BrokerCommand.complete_task c) =
    tag BrokerMutationResult.task_completed (Claims.complete_task c)
dispatch (BrokerCommand.prune_completed_tasks c) =
    tag BrokerMutationResult.completed_tasks_pruned (Retention.prune_completed_tasks c)
dispatch (BrokerCommand.advance_term c) =
    tag BrokerMutationResult.term_advanced (Registry.advance_term c)

unfoldable pub apply : BrokerCommand → Action AppliedMutation
unfolding clear_changes take_changes
apply command = do
  modify clear_changes
  result ← dispatch command
  m ← self
  pure (record { result = result; changes = take_changes m })

-- Any sequence of commands; what a failed one leaves behind is what the next one finds.
unfoldable pub run : List BrokerCommand → BrokerStateMachine → BrokerStateMachine
run [] m = m
run (c ∷ cs) m = run cs (apply c m).1
