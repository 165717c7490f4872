-- ===== src/Examples/Tasks.antt =====
-- Concrete inputs for the theorems on one task.
use herterarchy_broker.Common.{ℕ, ◌<◌, ◌≡◌, refl, ◌≢◌, ◌↔◌, inl, [], ◌∷◌, ok, arith, true}
use herterarchy_broker.Fencing.{next, u64_max}
use herterarchy_broker.Identifiers.Order.{id_key, id_eq}
use herterarchy_broker.Task.{
  Task, TaskResult, LeasedTask, LeaseGrant, LeaseFence, CompletionOutcome, queued, leased, claim,
  complete, complete_lease, fence_check, require_active_lease, requeue, requeue_if_expired,
}
use herterarchy_broker.Task.Laws.{Matches, completed_from, complete-ok_iff}
use herterarchy_broker.Task.Steps.{claims, completes, requeues_expired, run}
use herterarchy_broker.Task.Traces.{Later, Fenced, run-Later, TakenBack-Fenced}
use herterarchy_broker.Examples.{the_task, the_namespace, the_group, the_member, the_lease}

abbrev waiting_at : ℕ → ℕ → Task
waiting_at epoch revision = record {
  id = the_task;
  namespace_id = the_namespace;
  objective = record { text = b'o' ∷ [] };
  created_at_ms = 5;
  revision = revision;
  state = queued (record { lease_epoch = epoch });
}

abbrev lease_of_epoch : ℕ → LeasedTask
lease_of_epoch epoch = record {
  lease_id = the_lease;
  owner_member_id = the_member;
  group_id = the_group;
  generation = 1;
  lease_epoch = epoch;
  expires_at_ms = 30;
}

abbrev held_at : ℕ → ℕ → Task
held_at epoch revision = record (waiting_at epoch revision) {
  state = leased (lease_of_epoch epoch);
}

abbrev the_grant : LeaseGrant
the_grant = record {
  lease_id = the_lease;
  owner_member_id = the_member;
  group_id = the_group;
  generation = 1;
  expires_at_ms = 30;
}

abbrev the_fence : LeaseFence
the_fence = record {
  lease_id = the_lease;
  owner_member_id = the_member;
  group_id = the_group;
  generation = 1;
  lease_epoch = 1;
  observed_at_ms = 20;
}

abbrev the_result : TaskResult
the_result = record { text = b'r' ∷ [] }

abbrev other_result : TaskResult
other_result = record { text = b's' ∷ [] }

abbrev finished : Task
finished = record (held_at 1 2) {
  state = completed_from the_fence the_result (lease_of_epoch 1);
  revision = 3;
}

abbrev finishing : CompletionOutcome × Task
finishing = (CompletionOutcome.completed, finished)

completes_once :
    complete the_fence the_result (held_at 1 2) ≡ ok (CompletionOutcome.completed, finished)
unfolding complete complete_lease fence_check require_active_lease next id_eq
completes_once = refl

results_differ : other_result ≢ the_result
results_differ e = ground arith

claimed_again : claim the_grant (waiting_at 1 3) ≡ ok (held_at 2 4)
unfolding claim next
claimed_again = refl

ran_out : requeue_if_expired 30 (held_at 1 2) ≡ ok (true, waiting_at 1 3)
unfolding requeue_if_expired requeue next
ran_out = refl

TakenBack-Fenced_example :
    Fenced the_fence 99 the_result (run (completes the_fence the_result ∷ []) (held_at 2 4))
TakenBack-Fenced_example =
    TakenBack-Fenced (held_at 1 2) (waiting_at 1 3) (held_at 2 4) (lease_of_epoch 1) the_grant
      (completes the_fence the_result ∷ []) the_fence 99 the_result refl (inl (30, ran_out))
      claimed_again refl

complete-ok_iff_example :
    (complete the_fence the_result (held_at 1 2) ≡ ok finishing)
    ↔ (Matches the_fence (lease_of_epoch 1) × (2 < u64_max) × (finishing ≡ finishing))
complete-ok_iff_example =
    complete-ok_iff the_fence the_result (held_at 1 2) (lease_of_epoch 1) finishing refl

run-Later_example :
    Later (waiting_at 1 3) (run (claims the_grant ∷ requeues_expired 30 ∷ []) (waiting_at 1 3))
run-Later_example = run-Later (claims the_grant ∷ requeues_expired 30 ∷ []) (waiting_at 1 3)
