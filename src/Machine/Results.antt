-- ===== src/Machine/Results.antt =====
-- crates/agent-broker-domain/src/results.rs: what a command returns.
use herterarchy_broker.Common.{ℕ, Bool, true, false, ◌&&◌, Option, List, [], ◌∷◌}
use herterarchy_broker.Fencing.{Term, Generation, LeaseEpoch, Revision}
use herterarchy_broker.Identifiers.{TaskId, NamespaceId, ConsumerGroupId, ConsumerId, LeaseId}
use herterarchy_broker.Task.{TaskObjective, TaskStatus, TimestampMs}

pub record MutationMetadata : Type 0 where
  pub term : Term
  pub revision : Revision

pub record NamespaceResult : Type 0 where
  pub metadata : MutationMetadata
  pub namespace_id : NamespaceId
  pub namespace_revision : Revision

pub record TaskPublishedResult : Type 0 where
  pub metadata : MutationMetadata
  pub task_id : TaskId
  pub task_revision : Revision
  pub status : TaskStatus

pub record ConsumerGroupResult : Type 0 where
  pub metadata : MutationMetadata
  pub group_id : ConsumerGroupId
  pub generation : Generation
  pub group_revision : Revision
  pub member_count : ℕ

pub record HeartbeatResult : Type 0 where
  pub metadata : MutationMetadata
  pub group_id : ConsumerGroupId
  pub member_id : ConsumerId
  pub generation : Generation
  pub member_revision : Revision

pub record StaleMembersReapedResult : Type 0 where
  pub metadata : MutationMetadata
  pub reaped_count : ℕ
  pub affected_group_count : ℕ

pub record TaskClaimResult : Type 0 where
  pub metadata : MutationMetadata
  pub task_id : Option TaskId
  pub objective : Option TaskObjective
  pub task_revision : Option Revision
  pub lease_id : Option LeaseId
  pub lease_epoch : Option LeaseEpoch
  pub lease_expires_at_ms : Option TimestampMs
  pub generation : Generation

pub record TaskLeaseRenewedResult : Type 0 where
  pub metadata : MutationMetadata
  pub task_id : TaskId
  pub task_revision : Revision
  pub lease_id : LeaseId
  pub lease_epoch : LeaseEpoch
  pub lease_expires_at_ms : TimestampMs
  pub generation : Generation

pub record TaskCompletedResult : Type 0 where
  pub metadata : MutationMetadata
  pub task_id : TaskId
  pub task_revision : Revision
  pub status : TaskStatus

pub record CompletedTasksPrunedResult : Type 0 where
  pub metadata : MutationMetadata
  pub pruned_count : ℕ

pub record TermAdvancedResult : Type 0 where
  pub metadata : MutationMetadata

pub record StateChangeSet : Type 0 where
  pub namespaces : List NamespaceId
  pub tasks : List TaskId
  pub deleted_tasks : List TaskId
  pub groups : List ConsumerGroupId

abbrev is_nil {ℓ} : {A : Type ℓ} → List A → Bool
is_nil [] = true
is_nil (x ∷ xs) = false

-- `StateChangeSet::is_empty`
unfoldable pub is_empty : StateChangeSet → Bool
is_empty c = is_nil c.namespaces && (is_nil c.tasks && (is_nil c.deleted_tasks && is_nil c.groups))

pub data BrokerMutationResult : Type 0 where
  namespace : NamespaceResult → BrokerMutationResult
  task_published : TaskPublishedResult → BrokerMutationResult
  consumer_group : ConsumerGroupResult → BrokerMutationResult
  heartbeat : HeartbeatResult → BrokerMutationResult
  stale_members_reaped : StaleMembersReapedResult → BrokerMutationResult
  task_claim : TaskClaimResult → BrokerMutationResult
  task_lease_renewed : TaskLeaseRenewedResult → BrokerMutationResult
  task_completed : TaskCompletedResult → BrokerMutationResult
  completed_tasks_pruned : CompletedTasksPrunedResult → BrokerMutationResult
  term_advanced : TermAdvancedResult → BrokerMutationResult

pub record AppliedMutation : Type 0 where
  pub result : BrokerMutationResult
  pub changes : StateChangeSet
