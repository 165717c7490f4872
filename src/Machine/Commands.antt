-- ===== src/Machine/Commands.antt =====
-- crates/agent-broker-domain/src/commands.rs: the commands as data.
use herterarchy_broker.Common.{ℕ}
use herterarchy_broker.Fencing.{Term, Generation, LeaseEpoch}
use herterarchy_broker.Identifiers.{TaskId, NamespaceId, ConsumerGroupId, ConsumerId, LeaseId}
use herterarchy_broker.Task.{TaskObjective, TaskResult, TimestampMs}
use herterarchy_broker.Group.CapabilitySet.{Capabilities}

pub record EnsureNamespaceCommand : Type 0 where
  pub namespace_id : NamespaceId
  pub max_namespaces : ℕ

pub record PublishTaskCommand : Type 0 where
  pub namespace_id : NamespaceId
  pub task_id : TaskId
  pub objective : TaskObjective
  pub created_at_ms : TimestampMs
  pub max_namespace_tasks : ℕ

pub record EnsureConsumerGroupCommand : Type 0 where
  pub namespace_id : NamespaceId
  pub group_id : ConsumerGroupId
  pub max_namespace_groups : ℕ

pub record JoinConsumerGroupCommand : Type 0 where
  pub group_id : ConsumerGroupId
  pub member_id : ConsumerId
  pub capabilities : Capabilities
  pub now_ms : TimestampMs
  pub max_group_members : ℕ

pub record HeartbeatCommand : Type 0 where
  pub group_id : ConsumerGroupId
  pub member_id : ConsumerId
  pub expected_generation : Generation
  pub now_ms : TimestampMs

pub record LeaveConsumerGroupCommand : Type 0 where
  pub group_id : ConsumerGroupId
  pub member_id : ConsumerId
  pub expected_generation : Generation

pub record ReapStaleMembersCommand : Type 0 where
  pub stale_before_ms : TimestampMs
  pub max_members : ℕ

pub record ClaimTaskCommand : Type 0 where
  pub group_id : ConsumerGroupId
  pub member_id : ConsumerId
  pub expected_term : Term
  pub expected_generation : Generation
  pub lease_id : LeaseId
  pub now_ms : TimestampMs
  pub lease_duration_ms : ℕ

pub record RenewTaskLeaseCommand : Type 0 where
  pub task_id : TaskId
  pub group_id : ConsumerGroupId
  pub member_id : ConsumerId
  pub expected_term : Term
  pub expected_generation : Generation
  pub expected_lease_epoch : LeaseEpoch
  pub lease_id : LeaseId
  pub now_ms : TimestampMs
  pub lease_duration_ms : ℕ

pub record CompleteTaskCommand : Type 0 where
  pub task_id : TaskId
  pub group_id : ConsumerGroupId
  pub member_id : ConsumerId
  pub expected_term : Term
  pub expected_generation : Generation
  pub expected_lease_epoch : LeaseEpoch
  pub lease_id : LeaseId
  pub result : TaskResult
  pub completed_at_ms : TimestampMs

pub record PruneCompletedTasksCommand : Type 0 where
  pub completed_before_ms : TimestampMs
  pub max_tasks : ℕ

pub record AdvanceTermCommand : Type 0 where
  pub expected_term : Term
  pub new_term : Term

pub data BrokerCommand : Type 0 where
  ensure_namespace : EnsureNamespaceCommand → BrokerCommand
  publish_task : PublishTaskCommand → BrokerCommand
  ensure_consumer_group : EnsureConsumerGroupCommand → BrokerCommand
  join_consumer_group : JoinConsumerGroupCommand → BrokerCommand
  heartbeat : HeartbeatCommand → BrokerCommand
  leave_consumer_group : LeaveConsumerGroupCommand → BrokerCommand
  reap_stale_members : ReapStaleMembersCommand → BrokerCommand
  claim_task : ClaimTaskCommand → BrokerCommand
  renew_task_lease : RenewTaskLeaseCommand → BrokerCommand
  complete_task : CompleteTaskCommand → BrokerCommand
  prune_completed_tasks : PruneCompletedTasksCommand → BrokerCommand
  advance_term : AdvanceTermCommand → BrokerCommand
