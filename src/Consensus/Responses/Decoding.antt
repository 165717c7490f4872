-- ===== src/Consensus/Responses/Decoding.antt =====
-- crates/agent-broker-consensus/src/replicated_response.rs: the way back from a replicated result to
-- a broker result, which runs every validated constructor again.
use Prim.Native.String.{String}
use herterarchy_broker.Common.{
  ℕ, Bool, ◌||◌, not, List, [], ◌∷◌, all, Option, is_some, Result, ok, err, map_err, transpose, ltb,
  if◌then◌else◌, ◌>>=◌, ◌>>◌,
}
use herterarchy_broker.Fencing.{u64_max, new_term}
use herterarchy_broker.Identifiers
use herterarchy_broker.Identifiers.{Identifier}
use herterarchy_broker.Task.Text.{new_objective}
use herterarchy_broker.Machine.Results.{MutationMetadata, BrokerMutationResult}
use herterarchy_broker.Application.Messages.{
  literal, shows_identifier, shows_text, shows_fencing, prefixed,
}
use herterarchy_broker.Consensus.Responses.Results.{
  ReplicatedMutationMetadataV1, ReplicatedBrokerMutationResultV1, ReplicatedResponseError,
  validation_error, namespace, task_published, consumer_group, heartbeat, stale_members_reaped,
  task_claim, task_lease_renewed, task_completed, completed_tasks_pruned, term_advanced,
}

unfoldable pub u64_to_usize : ℕ → String → Result ReplicatedResponseError ℕ
u64_to_usize value field =
    if ltb u64_max value
    then err (record { message = prefixed field (literal " exceeds platform usize") })
    else ok value

-- `TryFrom<ReplicatedMutationMetadataV1> for MutationMetadata`
unfoldable pub to_metadata :
    ReplicatedMutationMetadataV1 → Result ReplicatedResponseError MutationMetadata
unfolding validation_error new_term
to_metadata m = do
  term ← map_err (λ e. validation_error (shows_fencing e)) (new_term m.term)
  ok (record { term = term; revision = m.revision })

-- a validated constructor, with `map_err(validation_error)`
unfoldable pub identifier : String → List ℕ → Result ReplicatedResponseError Identifier
unfolding validation_error Identifiers.new
identifier kind value =
    map_err (λ e. validation_error (shows_identifier e)) (Identifiers.new kind value)

unfoldable pub validate_claim_option_shape :
    Option (List ℕ)
    → Option (List ℕ)
    → Option ℕ
    → Option (List ℕ)
    → Option ℕ
    → Option ℕ
    → Result ReplicatedResponseError (Unit {0})
validate_claim_option_shape task_id objective task_revision lease_id lease_epoch expires_at =
    let presence : List Bool =
      is_some task_id
      ∷ is_some objective
      ∷ is_some task_revision
      ∷ is_some lease_id
      ∷ is_some lease_epoch
      ∷ is_some expires_at
      ∷ [] in
    if all (λ present. present) presence || all not presence
    then ok tt
    else err (record {
      message = literal "replicated TaskClaim response contains a partial lease payload";
    })

unfoldable pub convert_coordination_result :
    ReplicatedBrokerMutationResultV1 → Result ReplicatedResponseError BrokerMutationResult
unfolding to_metadata identifier u64_to_usize
convert_coordination_result (namespace metadata namespace_id namespace_revision) = do
  metadata ← to_metadata metadata
  namespace_id ← identifier "namespace_id" namespace_id
  ok (
      BrokerMutationResult.namespace (record {
        metadata = metadata;
        namespace_id = namespace_id;
        namespace_revision = namespace_revision;
      }))
convert_coordination_result (task_published metadata task_id task_revision status) = do
  metadata ← to_metadata metadata
  task_id ← identifier "task_id" task_id
  ok (
      BrokerMutationResult.task_published (record {
        metadata = metadata;
        task_id = task_id;
        task_revision = task_revision;
        status = status;
      }))
convert_coordination_result (consumer_group metadata group_id generation group_revision count) = do
  metadata ← to_metadata metadata
  group_id ← identifier "group_id" group_id
  member_count ← u64_to_usize count "member_count"
  ok (
      BrokerMutationResult.consumer_group (record {
        metadata = metadata;
        group_id = group_id;
        generation = generation;
        group_revision = group_revision;
        member_count = member_count;
      }))
convert_coordination_result (heartbeat metadata group_id member_id generation member_revision) = do
  metadata ← to_metadata metadata
  group_id ← identifier "group_id" group_id
  member_id ← identifier "member_id" member_id
  ok (
      BrokerMutationResult.heartbeat (record {
        metadata = metadata;
        group_id = group_id;
        member_id = member_id;
        generation = generation;
        member_revision = member_revision;
      }))
convert_coordination_result (stale_members_reaped metadata reaped_count affected_count) = do
  metadata ← to_metadata metadata
  reaped_count ← u64_to_usize reaped_count "reaped_count"
  affected_group_count ← u64_to_usize affected_count "affected_group_count"
  ok (
      BrokerMutationResult.stale_members_reaped (record {
        metadata = metadata;
        reaped_count = reaped_count;
        affected_group_count = affected_group_count;
      }))
convert_coordination_result _ = err (record {
  message = literal "replicated Broker response was routed to the wrong conversion family";
})

-- `TryFrom<ReplicatedBrokerMutationResultV1> for BrokerMutationResult`
unfoldable pub to_result :
    ReplicatedBrokerMutationResultV1 → Result ReplicatedResponseError BrokerMutationResult
unfolding convert_coordination_result validate_claim_option_shape to_metadata identifier
    u64_to_usize
to_result (namespace metadata namespace_id namespace_revision) =
    convert_coordination_result (namespace metadata namespace_id namespace_revision)
to_result (task_published metadata task_id task_revision status) =
    convert_coordination_result (task_published metadata task_id task_revision status)
to_result (consumer_group metadata group_id generation group_revision member_count) =
    convert_coordination_result
      (consumer_group metadata group_id generation group_revision member_count)
to_result (heartbeat metadata group_id member_id generation member_revision) =
    convert_coordination_result (heartbeat metadata group_id member_id generation member_revision)
to_result (stale_members_reaped metadata reaped_count affected_group_count) =
    convert_coordination_result (stale_members_reaped metadata reaped_count affected_group_count)
to_result
      (task_claim metadata task_id objective task_revision lease_id lease_epoch expires_at
        generation) =
    do
      validate_claim_option_shape task_id objective task_revision lease_id lease_epoch expires_at
      metadata ← to_metadata metadata
      task_id ← transpose (identifier "task_id") task_id
      objective ← map_err (λ e. validation_error (shows_text e)) (transpose new_objective objective)
      lease_id ← transpose (identifier "lease_id") lease_id
      ok (
          BrokerMutationResult.task_claim (record {
            metadata = metadata;
            task_id = task_id;
            objective = objective;
            task_revision = task_revision;
            lease_id = lease_id;
            lease_epoch = lease_epoch;
            lease_expires_at_ms = expires_at;
            generation = generation;
          }))
to_result
      (task_lease_renewed metadata task_id task_revision lease_id lease_epoch expires_at
        generation) =
    do
      metadata ← to_metadata metadata
      task_id ← identifier "task_id" task_id
      lease_id ← identifier "lease_id" lease_id
      ok (
          BrokerMutationResult.task_lease_renewed (record {
            metadata = metadata;
            task_id = task_id;
            task_revision = task_revision;
            lease_id = lease_id;
            lease_epoch = lease_epoch;
            lease_expires_at_ms = expires_at;
            generation = generation;
          }))
to_result (task_completed metadata task_id task_revision status) = do
  metadata ← to_metadata metadata
  task_id ← identifier "task_id" task_id
  ok (
      BrokerMutationResult.task_completed (record {
        metadata = metadata;
        task_id = task_id;
        task_revision = task_revision;
        status = status;
      }))
to_result (completed_tasks_pruned metadata pruned_count) = do
  metadata ← to_metadata metadata
  pruned_count ← u64_to_usize pruned_count "pruned_count"
  ok (
      BrokerMutationResult.completed_tasks_pruned
        (record { metadata = metadata; pruned_count = pruned_count }))
to_result (term_advanced metadata) = do
  metadata ← to_metadata metadata
  ok (BrokerMutationResult.term_advanced (record { metadata = metadata }))
