-- ===== src/Task.antt =====
-- crates/agent-broker-domain/src/task.rs: one task and its lifecycle. A method that takes
-- `&mut self` returns the new record; every `?` of these methods stands before the first
-- assignment, so on an error the record is as it was.
mod Data
pub mod Text
pub mod Checkpoint
pub mod Steps
pub mod Laws
pub mod Traces
unfoldable pub use Data.*
use Prim.Native.String.{String}
use herterarchy_broker.Common.{
  ℕ, ◌||◌, ◌&&◌, not, Bool, true, false, Result, ok, err, ◌>>=◌, ◌>>◌, map_err, reject_if, leb, ltb,
  nat_eq, if◌then◌else◌,
}
use herterarchy_broker.Common.Keys.{◌==◌}
use herterarchy_broker.Fencing.{next}
use herterarchy_broker.Identifiers.{Identifier, ConsumerGroupId, ConsumerId}
use herterarchy_broker.Identifiers.Order.{id_key, bytes_key}

-- `self.revision.next()?` in a method whose errors are transition errors
unfoldable pub next_revision : Task → Result TaskTransitionError ℕ
unfolding next
next_revision t = map_err fencing_value (next "revision" t.revision)

unfoldable pub claim : LeaseGrant → Task → Result TaskTransitionError Task
unfolding next_revision
claim grant t = elim t.state [
  | queued q ↦ do
    next_epoch ← map_err fencing_value (next "lease_epoch" q.lease_epoch)
    next_rev ← next_revision t
    ok (record t {
      state = leased (record {
        lease_id = grant.lease_id;
        owner_member_id = grant.owner_member_id;
        group_id = grant.group_id;
        generation = grant.generation;
        lease_epoch = next_epoch;
        expires_at_ms = grant.expires_at_ms;
      });
      revision = next_rev;
    })
  | _ ↦ err (not_queued (status t.state))
]

unfoldable pub fence_check : LeaseFence → LeasedTask → Result TaskTransitionError LeasedTask
fence_check fence lease = do
  reject_if (not (lease.group_id == fence.group_id)) stale_group
  reject_if (not (lease.owner_member_id == fence.owner_member_id)) stale_owner
  reject_if (not (nat_eq lease.generation fence.generation)) stale_generation
  reject_if (not (nat_eq lease.lease_epoch fence.lease_epoch)) stale_lease_epoch
  reject_if (not (lease.lease_id == fence.lease_id)) stale_lease_id
  reject_if (leb lease.expires_at_ms fence.observed_at_ms) lease_expired
  ok lease

unfoldable pub require_active_lease : LeaseFence → Task → Result TaskTransitionError LeasedTask
require_active_lease fence t = elim t.state [
  | leased lease ↦ fence_check fence lease
  | _ ↦ err (not_leased (status t.state))
]

unfoldable pub renew : LeaseFence → ℕ → Task → Result TaskTransitionError Task
unfolding require_active_lease next_revision
renew fence new_expires_at_ms t = do
  lease ← require_active_lease fence t
  next_rev ← next_revision t
  ok (record t {
    state = leased (record lease { expires_at_ms = new_expires_at_ms });
    revision = next_rev;
  })

unfoldable pub complete_lease :
    LeaseFence → TaskResult → Task → Result TaskTransitionError (CompletionOutcome × Task)
unfolding require_active_lease next_revision
complete_lease fence result t = do
  lease ← require_active_lease fence t
  next_rev ← next_revision t
  ok (
    CompletionOutcome.completed,
    record t {
      state = completed (record {
        lease_id = lease.lease_id;
        owner_member_id = lease.owner_member_id;
        group_id = lease.group_id;
        generation = lease.generation;
        lease_epoch = lease.lease_epoch;
        result = result;
        completed_at_ms = fence.observed_at_ms;
      });
      revision = next_rev;
    },
  )

unfoldable pub complete :
    LeaseFence → TaskResult → Task → Result TaskTransitionError (CompletionOutcome × Task)
unfolding complete_lease
complete fence result t = elim t.state [
  | completed c ↦
      if c.lease_id == fence.lease_id && c.result.text == result.text
      then ok (CompletionOutcome.already_completed, t)
      else err already_completed
  | _ ↦ complete_lease fence result t
]

-- the requeue that `requeue_if_expired` and `requeue_for_member` end in
unfoldable pub requeue : LeasedTask → Task → Result TaskTransitionError (Bool × Task)
unfolding next_revision
requeue lease t = do
  next_rev ← next_revision t
  ok (
    true,
    record t { state = queued (record { lease_epoch = lease.lease_epoch }); revision = next_rev },
  )

unfoldable pub requeue_if_expired : ℕ → Task → Result TaskTransitionError (Bool × Task)
unfolding requeue
requeue_if_expired now_ms t = elim t.state [
  | leased lease ↦ if ltb now_ms lease.expires_at_ms then ok (false, t) else requeue lease t
  | _ ↦ ok (false, t)
]

unfoldable pub requeue_for_member :
    ConsumerGroupId → ConsumerId → Task → Result TaskTransitionError (Bool × Task)
unfolding requeue
requeue_for_member group_id member_id t = elim t.state [
  | leased lease ↦
      if not (lease.group_id == group_id) || not (lease.owner_member_id == member_id)
      then ok (false, t)
      else requeue lease t
  | _ ↦ ok (false, t)
]
