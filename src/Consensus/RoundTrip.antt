-- ===== src/Consensus/RoundTrip.antt =====
-- A broker command that is replicated comes back as it was.
use Prim.Native.String.{String}
use herterarchy_broker.Common.{◌≤◌, ◌≡◌, ok, ◌>>=◌, arith}
use herterarchy_broker.Fencing.{u64_max}
use herterarchy_broker.Identifiers.{Identifier}
use herterarchy_broker.Task.{TaskObjective, TaskResult}
use herterarchy_broker.Group.CapabilitySet.{Capabilities, cap_key}
use herterarchy_broker.Machine.Commands.{BrokerCommand}
use herterarchy_broker.Machine.Values.{
  IsId, IsObjective, IsResult, IsCapabilities, values, new-IsId, new_objective-IsObjective,
  new_result-IsResult, new_capabilities-IsCapabilities,
}
use herterarchy_broker.Consensus.Commands.{from_command}
use herterarchy_broker.Consensus.Decoding.{
  identifier, term, objective_text, result_text, capability_set, to_command,
  convert_coordination_command,
}

identifier-IsId : (kind : String) (id : Identifier) → IsId id → identifier kind id.bytes ≡ ok id
unfolding identifier
identifier-IsId kind id h = ground (arith, new-IsId kind id h)

objective_text-IsObjective : (o : TaskObjective) → IsObjective o → objective_text o.text ≡ ok o
unfolding objective_text
objective_text-IsObjective o h = ground (arith, new_objective-IsObjective o h)

result_text-IsResult : (r : TaskResult) → IsResult r → result_text r.text ≡ ok r
unfolding result_text
result_text-IsResult r h = ground (arith, new_result-IsResult r h)

capability_set-IsCapabilities :
    (c : Capabilities) → IsCapabilities c → capability_set (values c.items) ≡ ok c
unfolding capability_set
capability_set-IsCapabilities c h = ground (arith, new_capabilities-IsCapabilities c h)

-- The values of a command are ones that their constructors accept, and its limits are of 64 bits.
abbrev pub IsSound : BrokerCommand → Type 0
IsSound (BrokerCommand.ensure_namespace c) = IsId c.namespace_id × (c.max_namespaces ≤ u64_max)
IsSound (BrokerCommand.publish_task c) =
    IsId c.namespace_id
    × IsId c.task_id
    × IsObjective c.objective
    × (c.max_namespace_tasks ≤ u64_max)
IsSound (BrokerCommand.ensure_consumer_group c) =
    IsId c.namespace_id × IsId c.group_id × (c.max_namespace_groups ≤ u64_max)
IsSound (BrokerCommand.join_consumer_group c) =
    IsId c.group_id
    × IsId c.member_id
    × IsCapabilities c.capabilities
    × (c.max_group_members ≤ u64_max)
IsSound (BrokerCommand.heartbeat c) = IsId c.group_id × IsId c.member_id
IsSound (BrokerCommand.leave_consumer_group c) = IsId c.group_id × IsId c.member_id
IsSound (BrokerCommand.reap_stale_members c) = c.max_members ≤ u64_max
IsSound (BrokerCommand.claim_task c) =
    IsId c.group_id × IsId c.member_id × (1 ≤ c.expected_term) × IsId c.lease_id
IsSound (BrokerCommand.renew_task_lease c) =
    IsId c.task_id × IsId c.group_id × IsId c.member_id × (1 ≤ c.expected_term) × IsId c.lease_id
IsSound (BrokerCommand.complete_task c) =
    IsId c.task_id
    × IsId c.group_id
    × IsId c.member_id
    × (1 ≤ c.expected_term)
    × IsId c.lease_id
    × IsResult c.result
IsSound (BrokerCommand.prune_completed_tasks c) = c.max_tasks ≤ u64_max
IsSound (BrokerCommand.advance_term c) = (1 ≤ c.expected_term) × (1 ≤ c.new_term)

-- A sound command is replicated, and comes back from the log exactly as it was.
pub to_command-from_command :
    (c : BrokerCommand) → IsSound c → (from_command c >>= to_command) ≡ ok c
unfolding from_command to_command convert_coordination_command term
to_command-from_command (BrokerCommand.ensure_namespace c) h =
    ground (arith, identifier-IsId "namespace_id" c.namespace_id (h.0))
to_command-from_command (BrokerCommand.publish_task c) h = ground (
  arith,
  identifier-IsId "namespace_id" c.namespace_id (h.0),
  identifier-IsId "task_id" c.task_id (h.1),
  objective_text-IsObjective c.objective (h.2),
)
to_command-from_command (BrokerCommand.ensure_consumer_group c) h = ground (
  arith,
  identifier-IsId "namespace_id" c.namespace_id (h.0),
  identifier-IsId "group_id" c.group_id (h.1),
)
to_command-from_command (BrokerCommand.join_consumer_group c) h = ground (
  arith,
  identifier-IsId "group_id" c.group_id (h.0),
  identifier-IsId "member_id" c.member_id (h.1),
  capability_set-IsCapabilities c.capabilities (h.2),
)
to_command-from_command (BrokerCommand.heartbeat c) h = ground (
  arith,
  identifier-IsId "group_id" c.group_id (h.0),
  identifier-IsId "member_id" c.member_id (h.1),
)
to_command-from_command (BrokerCommand.leave_consumer_group c) h = ground (
  arith,
  identifier-IsId "group_id" c.group_id (h.0),
  identifier-IsId "member_id" c.member_id (h.1),
)
to_command-from_command (BrokerCommand.reap_stale_members c) h = ground arith
to_command-from_command (BrokerCommand.claim_task c) h = ground (
  arith,
  identifier-IsId "group_id" c.group_id (h.0),
  identifier-IsId "member_id" c.member_id (h.1),
  identifier-IsId "lease_id" c.lease_id (h.3),
)
to_command-from_command (BrokerCommand.renew_task_lease c) h = ground (
  arith,
  identifier-IsId "task_id" c.task_id (h.0),
  identifier-IsId "group_id" c.group_id (h.1),
  identifier-IsId "member_id" c.member_id (h.2),
  identifier-IsId "lease_id" c.lease_id (h.4),
)
to_command-from_command (BrokerCommand.complete_task c) h = ground (
  arith,
  identifier-IsId "task_id" c.task_id (h.0),
  identifier-IsId "group_id" c.group_id (h.1),
  identifier-IsId "member_id" c.member_id (h.2),
  identifier-IsId "lease_id" c.lease_id (h.4),
  result_text-IsResult c.result (h.5),
)
to_command-from_command (BrokerCommand.prune_completed_tasks c) h = ground arith
to_command-from_command (BrokerCommand.advance_term c) h = ground arith
