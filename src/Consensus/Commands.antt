-- ===== src/Consensus/Commands.antt =====
-- crates/agent-broker-consensus/src/replicated_command.rs: a broker command as it is kept in the
-- replicated log, made of primitive values, and its conversions. `usize` has 64 bits.
use Prim.Native.String.{String}
use herterarchy_broker.Common.{ℕ, List, map, Result, ok, err, ltb, if◌then◌else◌, ◌>>=◌}
use herterarchy_broker.Fencing.{u64_max}
use herterarchy_broker.Machine.Commands.{BrokerCommand}
use herterarchy_broker.Application.Messages.{Message, literal, prefixed}

pub data ReplicatedBrokerCommandV1 : Type 0 where
  ensure_namespace : (namespace_id : List ℕ) (max_namespaces : ℕ) → ReplicatedBrokerCommandV1
  publish_task :
      (namespace_id task_id objective : List ℕ) (created_at_ms max_namespace_tasks : ℕ)
      → ReplicatedBrokerCommandV1
  ensure_consumer_group :
      (namespace_id group_id : List ℕ) (max_namespace_groups : ℕ) → ReplicatedBrokerCommandV1
  join_consumer_group :
      (group_id member_id : List ℕ) (capabilities : List (List ℕ)) (now_ms max_group_members : ℕ)
      → ReplicatedBrokerCommandV1
  heartbeat :
      (group_id member_id : List ℕ) (expected_generation now_ms : ℕ) → ReplicatedBrokerCommandV1
  leave_consumer_group :
      (group_id member_id : List ℕ) (expected_generation : ℕ) → ReplicatedBrokerCommandV1
  reap_stale_members : (stale_before_ms max_members : ℕ) → ReplicatedBrokerCommandV1
  claim_task :
      (group_id member_id : List ℕ) (expected_term expected_generation : ℕ) (lease_id : List ℕ)
      (now_ms lease_duration_ms : ℕ)
      → ReplicatedBrokerCommandV1
  renew_task_lease :
      (task_id group_id member_id : List ℕ)
      (expected_term expected_generation expected_lease_epoch : ℕ) (lease_id : List ℕ)
      (now_ms lease_duration_ms : ℕ)
      → ReplicatedBrokerCommandV1
  complete_task :
      (task_id group_id member_id : List ℕ)
      (expected_term expected_generation expected_lease_epoch : ℕ) (lease_id result : List ℕ)
      (completed_at_ms : ℕ)
      → ReplicatedBrokerCommandV1
  prune_completed_tasks : (completed_before_ms max_tasks : ℕ) → ReplicatedBrokerCommandV1
  advance_term : (expected_term new_term : ℕ) → ReplicatedBrokerCommandV1
  acquire_command_session_owner :
      (session_id : List ℕ) (expected_owner_epoch : ℕ) (owner_instance_id : List ℕ)
      → ReplicatedBrokerCommandV1

pub record ReplicatedCommandError : Type 0 where
  pub message : Message

unfoldable pub validation_error : Message → ReplicatedCommandError
validation_error e = record {
  message = prefixed "replicated Broker command failed domain validation: " e;
}

unfoldable pub usize_to_u64 : ℕ → String → Result ReplicatedCommandError ℕ
usize_to_u64 value field =
    if ltb u64_max value
    then err (record { message = prefixed field (literal " cannot be represented as u64") })
    else ok value

unfoldable pub u64_to_usize : ℕ → String → Result ReplicatedCommandError ℕ
u64_to_usize value field =
    if ltb u64_max value
    then err (record { message = prefixed field (literal " exceeds platform usize") })
    else ok value

-- `TryFrom<BrokerCommand> for ReplicatedBrokerCommandV1`
unfoldable pub from_command :
    BrokerCommand → Result ReplicatedCommandError ReplicatedBrokerCommandV1
unfolding usize_to_u64
from_command (BrokerCommand.ensure_namespace c) = do
  max_namespaces ← usize_to_u64 c.max_namespaces "max_namespaces"
  ok (ensure_namespace c.namespace_id.bytes max_namespaces)
from_command (BrokerCommand.publish_task c) = do
  max_tasks ← usize_to_u64 c.max_namespace_tasks "max_namespace_tasks"
  ok (publish_task c.namespace_id.bytes c.task_id.bytes c.objective.text c.created_at_ms max_tasks)
from_command (BrokerCommand.ensure_consumer_group c) = do
  max_groups ← usize_to_u64 c.max_namespace_groups "max_namespace_groups"
  ok (ensure_consumer_group c.namespace_id.bytes c.group_id.bytes max_groups)
from_command (BrokerCommand.join_consumer_group c) = do
  max_members ← usize_to_u64 c.max_group_members "max_group_members"
  let values = map (λ capability. capability.value) c.capabilities.items
  ok (join_consumer_group c.group_id.bytes c.member_id.bytes values c.now_ms max_members)
from_command (BrokerCommand.heartbeat c) =
    ok (heartbeat c.group_id.bytes c.member_id.bytes c.expected_generation c.now_ms)
from_command (BrokerCommand.leave_consumer_group c) =
    ok (leave_consumer_group c.group_id.bytes c.member_id.bytes c.expected_generation)
from_command (BrokerCommand.reap_stale_members c) = do
  max_members ← usize_to_u64 c.max_members "max_members"
  ok (reap_stale_members c.stale_before_ms max_members)
from_command (BrokerCommand.claim_task c) = ok (
    claim_task c.group_id.bytes c.member_id.bytes c.expected_term c.expected_generation
      c.lease_id.bytes c.now_ms c.lease_duration_ms)
from_command (BrokerCommand.renew_task_lease c) = ok (
    renew_task_lease c.task_id.bytes c.group_id.bytes c.member_id.bytes c.expected_term
      c.expected_generation c.expected_lease_epoch c.lease_id.bytes c.now_ms c.lease_duration_ms)
from_command (BrokerCommand.complete_task c) = ok (
    complete_task c.task_id.bytes c.group_id.bytes c.member_id.bytes c.expected_term
      c.expected_generation c.expected_lease_epoch c.lease_id.bytes c.result.text c.completed_at_ms)
from_command (BrokerCommand.prune_completed_tasks c) = do
  max_tasks ← usize_to_u64 c.max_tasks "max_tasks"
  ok (prune_completed_tasks c.completed_before_ms max_tasks)
from_command (BrokerCommand.advance_term c) = ok (advance_term c.expected_term c.new_term)
