-- ===== src/Consensus/Responses/Results.antt =====
-- crates/agent-broker-consensus/src/replicated_response.rs: the result of a broker command as it is
-- kept in the replicated log, and its conversions. `usize` has 64 bits.
use Prim.Native.String.{String}
use herterarchy_broker.Common.{
  ℕ, List, Option, none, some, Result, ok, err, ltb, if◌then◌else◌, ◌>>=◌,
}
use herterarchy_broker.Fencing.{u64_max}
use herterarchy_broker.Identifiers.{Identifier}
use herterarchy_broker.Task.{TaskObjective, TaskStatus}
use herterarchy_broker.Machine.Results.{MutationMetadata, BrokerMutationResult}
use herterarchy_broker.Application.Messages.{Message, literal, prefixed}

pub record ReplicatedMutationMetadataV1 : Type 0 where
  pub term : ℕ
  pub revision : ℕ

pub data ReplicatedBrokerMutationResultV1 : Type 0 where
  namespace :
      (metadata : ReplicatedMutationMetadataV1) (namespace_id : List ℕ) (namespace_revision : ℕ)
      → ReplicatedBrokerMutationResultV1
  task_published :
      (metadata : ReplicatedMutationMetadataV1) (task_id : List ℕ) (task_revision : ℕ)
      (status : TaskStatus)
      → ReplicatedBrokerMutationResultV1
  consumer_group :
      (metadata : ReplicatedMutationMetadataV1) (group_id : List ℕ)
      (generation group_revision member_count : ℕ)
      → ReplicatedBrokerMutationResultV1
  heartbeat :
      (metadata : ReplicatedMutationMetadataV1) (group_id member_id : List ℕ)
      (generation member_revision : ℕ)
      → ReplicatedBrokerMutationResultV1
  stale_members_reaped :
      (metadata : ReplicatedMutationMetadataV1) (reaped_count affected_group_count : ℕ)
      → ReplicatedBrokerMutationResultV1
  task_claim :
      (metadata : ReplicatedMutationMetadataV1) (task_id objective : Option (List ℕ))
      (task_revision : Option ℕ) (lease_id : Option (List ℕ))
      (lease_epoch lease_expires_at_ms : Option ℕ) (generation : ℕ)
      → ReplicatedBrokerMutationResultV1
  task_lease_renewed :
      (metadata : ReplicatedMutationMetadataV1) (task_id : List ℕ) (task_revision : ℕ)
      (lease_id : List ℕ) (lease_epoch lease_expires_at_ms generation : ℕ)
      → ReplicatedBrokerMutationResultV1
  task_completed :
      (metadata : ReplicatedMutationMetadataV1) (task_id : List ℕ) (task_revision : ℕ)
      (status : TaskStatus)
      → ReplicatedBrokerMutationResultV1
  completed_tasks_pruned :
      (metadata : ReplicatedMutationMetadataV1) (pruned_count : ℕ)
      → ReplicatedBrokerMutationResultV1
  term_advanced : (metadata : ReplicatedMutationMetadataV1) → ReplicatedBrokerMutationResultV1

pub record ReplicatedResponseError : Type 0 where
  pub message : Message

unfoldable pub validation_error : Message → ReplicatedResponseError
validation_error e = record {
  message = prefixed "replicated Broker response failed domain validation: " e;
}

unfoldable pub usize_to_u64 : ℕ → String → Result ReplicatedResponseError ℕ
usize_to_u64 value field =
    if ltb u64_max value
    then err (record { message = prefixed field (literal " cannot be represented as u64") })
    else ok value

-- `From<MutationMetadata>`
unfoldable pub from_metadata : MutationMetadata → ReplicatedMutationMetadataV1
from_metadata m = record { term = m.term; revision = m.revision }

abbrev bytes_of : Option Identifier → Option (List ℕ)
bytes_of none = none
bytes_of (some id) = some id.bytes

abbrev text_of : Option TaskObjective → Option (List ℕ)
text_of none = none
text_of (some objective) = some objective.text

-- `TryFrom<BrokerMutationResult> for ReplicatedBrokerMutationResultV1`
unfoldable pub from_result :
    BrokerMutationResult → Result ReplicatedResponseError ReplicatedBrokerMutationResultV1
unfolding from_metadata usize_to_u64
from_result (BrokerMutationResult.namespace r) =
    ok (namespace (from_metadata r.metadata) r.namespace_id.bytes r.namespace_revision)
from_result (BrokerMutationResult.task_published r) =
    ok (task_published (from_metadata r.metadata) r.task_id.bytes r.task_revision r.status)
from_result (BrokerMutationResult.consumer_group r) = do
  member_count ← usize_to_u64 r.member_count "member_count"
  ok (
      consumer_group (from_metadata r.metadata) r.group_id.bytes r.generation r.group_revision
        member_count)
from_result (BrokerMutationResult.heartbeat r) = ok (
    heartbeat (from_metadata r.metadata) r.group_id.bytes r.member_id.bytes r.generation
      r.member_revision)
from_result (BrokerMutationResult.stale_members_reaped r) = do
  reaped_count ← usize_to_u64 r.reaped_count "reaped_count"
  affected_group_count ← usize_to_u64 r.affected_group_count "affected_group_count"
  ok (stale_members_reaped (from_metadata r.metadata) reaped_count affected_group_count)
from_result (BrokerMutationResult.task_claim r) = ok (
    task_claim (from_metadata r.metadata) (bytes_of r.task_id) (text_of r.objective) r.task_revision
      (bytes_of r.lease_id) r.lease_epoch r.lease_expires_at_ms r.generation)
from_result (BrokerMutationResult.task_lease_renewed r) = ok (
    task_lease_renewed (from_metadata r.metadata) r.task_id.bytes r.task_revision r.lease_id.bytes
      r.lease_epoch r.lease_expires_at_ms r.generation)
from_result (BrokerMutationResult.task_completed r) =
    ok (task_completed (from_metadata r.metadata) r.task_id.bytes r.task_revision r.status)
from_result (BrokerMutationResult.completed_tasks_pruned r) = do
  pruned_count ← usize_to_u64 r.pruned_count "pruned_count"
  ok (completed_tasks_pruned (from_metadata r.metadata) pruned_count)
from_result (BrokerMutationResult.term_advanced r) = ok (term_advanced (from_metadata r.metadata))
