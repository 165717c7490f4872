-- ===== src/Consensus/Decoding.antt =====
-- crates/agent-broker-consensus/src/replicated_command.rs: the way back from a replicated command to
-- a broker command, which runs every validated constructor again.
use Prim.Native.String.{String}
use herterarchy_broker.Common.{ℕ, List, Result, ok, err, map_err, ◌>>=◌}
use herterarchy_broker.Fencing.{Term, new_term}
use herterarchy_broker.Identifiers
use herterarchy_broker.Identifiers.{Identifier}
use herterarchy_broker.Task.{TaskObjective, TaskResult}
use herterarchy_broker.Task.Text.{new_objective, new_result}
use herterarchy_broker.Group.CapabilitySet.{Capabilities, new_capabilities}
use herterarchy_broker.Machine.Commands.{BrokerCommand}
use herterarchy_broker.Application.Messages.{
  literal, shows_identifier, shows_text, shows_capabilities, shows_fencing,
}
use herterarchy_broker.Consensus.Commands.{
  ReplicatedBrokerCommandV1, ReplicatedCommandError, validation_error, u64_to_usize,
  ensure_namespace, publish_task, ensure_consumer_group, join_consumer_group, heartbeat,
  leave_consumer_group, reap_stale_members, claim_task, renew_task_lease, complete_task,
  prune_completed_tasks, advance_term, acquire_command_session_owner,
}

-- a validated constructor, with `map_err(validation_error)`
unfoldable pub identifier : String → List ℕ → Result ReplicatedCommandError Identifier
unfolding validation_error Identifiers.new
identifier kind value =
    map_err (λ e. validation_error (shows_identifier e)) (Identifiers.new kind value)

unfoldable pub term : ℕ → Result ReplicatedCommandError Term
unfolding validation_error new_term
term value = map_err (λ e. validation_error (shows_fencing e)) (new_term value)

unfoldable pub objective_text : List ℕ → Result ReplicatedCommandError TaskObjective
unfolding validation_error
objective_text value = map_err (λ e. validation_error (shows_text e)) (new_objective value)

unfoldable pub result_text : List ℕ → Result ReplicatedCommandError TaskResult
unfolding validation_error
result_text value = map_err (λ e. validation_error (shows_text e)) (new_result value)

unfoldable pub capability_set : List (List ℕ) → Result ReplicatedCommandError Capabilities
unfolding validation_error
capability_set values =
    map_err (λ e. validation_error (shows_capabilities e)) (new_capabilities values)

unfoldable pub convert_coordination_command :
    ReplicatedBrokerCommandV1 → Result ReplicatedCommandError BrokerCommand
unfolding identifier objective_text capability_set u64_to_usize
convert_coordination_command (ensure_namespace namespace_id max_namespaces) = do
  namespace_id ← identifier "namespace_id" namespace_id
  max_namespaces ← u64_to_usize max_namespaces "max_namespaces"
  ok (
      BrokerCommand.ensure_namespace
        (record { namespace_id = namespace_id; max_namespaces = max_namespaces }))
convert_coordination_command (publish_task namespace_id task_id objective created_at_ms max_tasks) =
    do
      namespace_id ← identifier "namespace_id" namespace_id
      task_id ← identifier "task_id" task_id
      objective ← objective_text objective
      max_tasks ← u64_to_usize max_tasks "max_namespace_tasks"
      ok (
          BrokerCommand.publish_task (record {
            namespace_id = namespace_id;
            task_id = task_id;
            objective = objective;
            created_at_ms = created_at_ms;
            max_namespace_tasks = max_tasks;
          }))
convert_coordination_command (ensure_consumer_group namespace_id group_id max_groups) = do
  namespace_id ← identifier "namespace_id" namespace_id
  group_id ← identifier "group_id" group_id
  max_groups ← u64_to_usize max_groups "max_namespace_groups"
  ok (
      BrokerCommand.ensure_consumer_group (record {
        namespace_id = namespace_id;
        group_id = group_id;
        max_namespace_groups = max_groups;
      }))
convert_coordination_command (join_consumer_group group_id member_id values now_ms max_members) = do
  group_id ← identifier "group_id" group_id
  member_id ← identifier "member_id" member_id
  capabilities ← capability_set values
  max_members ← u64_to_usize max_members "max_group_members"
  ok (
      BrokerCommand.join_consumer_group (record {
        group_id = group_id;
        member_id = member_id;
        capabilities = capabilities;
        now_ms = now_ms;
        max_group_members = max_members;
      }))
convert_coordination_command (heartbeat group_id member_id expected_generation now_ms) = do
  group_id ← identifier "group_id" group_id
  member_id ← identifier "member_id" member_id
  ok (
      BrokerCommand.heartbeat (record {
        group_id = group_id;
        member_id = member_id;
        expected_generation = expected_generation;
        now_ms = now_ms;
      }))
convert_coordination_command (leave_consumer_group group_id member_id expected_generation) = do
  group_id ← identifier "group_id" group_id
  member_id ← identifier "member_id" member_id
  ok (
      BrokerCommand.leave_consumer_group (record {
        group_id = group_id;
        member_id = member_id;
        expected_generation = expected_generation;
      }))
convert_coordination_command (reap_stale_members stale_before_ms max_members) = do
  max_members ← u64_to_usize max_members "max_members"
  ok (
      BrokerCommand.reap_stale_members
        (record { stale_before_ms = stale_before_ms; max_members = max_members }))
convert_coordination_command _ = err (record {
  message = literal "replicated Broker command was routed to the wrong conversion family";
})

-- `TryFrom<ReplicatedBrokerCommandV1> for BrokerCommand`
unfoldable pub to_command : ReplicatedBrokerCommandV1 → Result ReplicatedCommandError BrokerCommand
unfolding convert_coordination_command identifier term result_text u64_to_usize
to_command (ensure_namespace namespace_id max_namespaces) =
    convert_coordination_command (ensure_namespace namespace_id max_namespaces)
to_command (publish_task namespace_id task_id objective created_at_ms max_tasks) =
    convert_coordination_command
      (publish_task namespace_id task_id objective created_at_ms max_tasks)
to_command (ensure_consumer_group namespace_id group_id max_groups) =
    convert_coordination_command (ensure_consumer_group namespace_id group_id max_groups)
to_command (join_consumer_group group_id member_id values now_ms max_members) =
    convert_coordination_command (join_consumer_group group_id member_id values now_ms max_members)
to_command (heartbeat group_id member_id expected_generation now_ms) =
    convert_coordination_command (heartbeat group_id member_id expected_generation now_ms)
to_command (leave_consumer_group group_id member_id expected_generation) =
    convert_coordination_command (leave_consumer_group group_id member_id expected_generation)
to_command (reap_stale_members stale_before_ms max_members) =
    convert_coordination_command (reap_stale_members stale_before_ms max_members)
to_command
      (claim_task group_id member_id expected_term expected_generation lease_id now_ms duration) =
    do
      group_id ← identifier "group_id" group_id
      member_id ← identifier "member_id" member_id
      expected_term ← term expected_term
      lease_id ← identifier "lease_id" lease_id
      ok (
          BrokerCommand.claim_task (record {
            group_id = group_id;
            member_id = member_id;
            expected_term = expected_term;
            expected_generation = expected_generation;
            lease_id = lease_id;
            now_ms = now_ms;
            lease_duration_ms = duration;
          }))
to_command
      (renew_task_lease task_id group_id member_id expected_term expected_generation epoch lease_id
        now_ms duration) =
    do
      task_id ← identifier "task_id" task_id
      group_id ← identifier "group_id" group_id
      member_id ← identifier "member_id" member_id
      expected_term ← term expected_term
      lease_id ← identifier "lease_id" lease_id
      ok (
          BrokerCommand.renew_task_lease (record {
            task_id = task_id;
            group_id = group_id;
            member_id = member_id;
            expected_term = expected_term;
            expected_generation = expected_generation;
            expected_lease_epoch = epoch;
            lease_id = lease_id;
            now_ms = now_ms;
            lease_duration_ms = duration;
          }))
to_command
      (complete_task task_id group_id member_id expected_term expected_generation epoch lease_id
        result completed_at_ms) =
    do
      task_id ← identifier "task_id" task_id
      group_id ← identifier "group_id" group_id
      member_id ← identifier "member_id" member_id
      expected_term ← term expected_term
      lease_id ← identifier "lease_id" lease_id
      result ← result_text result
      ok (
          BrokerCommand.complete_task (record {
            task_id = task_id;
            group_id = group_id;
            member_id = member_id;
            expected_term = expected_term;
            expected_generation = expected_generation;
            expected_lease_epoch = epoch;
            lease_id = lease_id;
            result = result;
            completed_at_ms = completed_at_ms;
          }))
to_command (prune_completed_tasks completed_before_ms max_tasks) = do
  max_tasks ← u64_to_usize max_tasks "max_tasks"
  ok (
      BrokerCommand.prune_completed_tasks
        (record { completed_before_ms = completed_before_ms; max_tasks = max_tasks }))
to_command (advance_term expected_term new_term) = do
  expected_term ← term expected_term
  new_term ← term new_term
  ok (BrokerCommand.advance_term (record { expected_term = expected_term; new_term = new_term }))
to_command (acquire_command_session_owner session_id epoch owner_instance_id) = err (record {
  message =
      literal
        "command-session owner acquisition is consensus-owned and cannot become a Broker domain command";
})
