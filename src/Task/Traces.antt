-- ===== src/Task/Traces.antt =====
-- Any sequence of calls on one task: the counters only rise, and a lease that was taken away
-- stays fenced off.
use herterarchy_broker.Common.{
  ℕ, ◌+◌, ◌≤◌, ◌<◌, ◌≡◌, ◌⊎◌, inl, inr, ◌≢◌, List, [], ◌∷◌, true, ok, arith,
}
use herterarchy_broker.Fencing.{next}
use herterarchy_broker.Identifiers.{ConsumerGroupId, ConsumerId}
use herterarchy_broker.Task.{
  Task, TaskResult, LeaseGrant, LeaseFence, LeasedTask, CompletionOutcome, claim, renew, complete,
  requeue_if_expired, requeue_for_member, leased,
}
use herterarchy_broker.Task.Laws.{renew-ok, complete-cases}
use herterarchy_broker.Task.Steps.{Call, epoch, step, run, step-Moves}

-- What any history keeps and raises.
pub record Later (t t' : Task) : Type 0 where
  pub revision_rises : t.revision ≤ t'.revision
  pub epoch_rises : epoch t ≤ epoch t'
  pub same_id : t'.id ≡ t.id
  pub same_namespace : t'.namespace_id ≡ t.namespace_id
  pub same_objective : t'.objective ≡ t.objective
  pub same_created : t'.created_at_ms ≡ t.created_at_ms

step-Later : (c : Call) (t : Task) → Later t (step c t)
step-Later c t = ground (arith, step-Moves c t)

-- Over any sequence of calls, failed ones included, neither the revision nor the lease epoch of a
-- task falls, and its identity, namespace, objective and publication time stay.
pub run-Later : (cs : List Call) (t : Task) → Later t (run cs t)
unfolding run
run-Later [] t = ground arith
run-Later (c ∷ cs) t = ground (arith, run-Later cs (step c t), step-Later c t)

-- A call with a lower lease epoch than the task's is refused, or is the acknowledgement of a
-- completion that changes nothing.
abbrev pub Fenced : LeaseFence → ℕ → TaskResult → Task → Type 0
Fenced fence expires result t =
    ((t' : Task) → renew fence expires t ≢ ok t')
    × ((t' : Task) → complete fence result t ≢ ok (CompletionOutcome.completed, t'))

old_epoch-Fenced :
    (fence : LeaseFence) (expires : ℕ) (result : TaskResult) (t : Task)
    → fence.lease_epoch < epoch t
    → Fenced fence expires result t
old_epoch-Fenced fence expires result t h = (
  λ t' e. let (l, s, m, r, q) = renew-ok fence expires t t' e in ground arith,
  λ t' e. elim (complete-cases fence result t (CompletionOutcome.completed, t') e) [
    | inl (c, s, q) ↦ ground arith
    | inr (l, s, m, r, q) ↦ ground arith
  ],
)

-- Either way of taking a lease back.
abbrev pub TakenBack : Task → Task → Type 0
TakenBack t t' =
    ((now : ℕ) × (requeue_if_expired now t ≡ ok (true, t')))
    ⊎ ((group : ConsumerGroupId) × (member : ConsumerId) × (requeue_for_member group member t
          ≡ ok (true, t')))

TakenBack-epoch : (t t' : Task) → TakenBack t t' → epoch t' ≡ epoch t
unfolding requeue_if_expired requeue_for_member
TakenBack-epoch t t' (inl (now, e)) = ground arith
TakenBack-epoch t t' (inr (group, member, e)) = ground arith

claim-epoch : (grant : LeaseGrant) (t t' : Task) → claim grant t ≡ ok t' → epoch t' ≡ epoch t + 1
unfolding claim next
claim-epoch grant t t' e = ground arith

-- Once a lease has been taken back, because it expired or because its member left, and the task
-- has been claimed again, no later history lets a call with the old lease's epoch renew or
-- complete the task, whatever else that call carries.
pub TakenBack-Fenced :
    (t requeued claimed : Task) (lease : LeasedTask) (grant : LeaseGrant) (cs : List Call)
    (fence : LeaseFence) (expires : ℕ) (result : TaskResult)
    → t.state ≡ leased lease
    → TakenBack t requeued
    → claim grant requeued ≡ ok claimed
    → fence.lease_epoch ≡ lease.lease_epoch
    → Fenced fence expires result (run cs claimed)
TakenBack-Fenced t requeued claimed lease grant cs fence expires result s back again same =
    old_epoch-Fenced fence expires result (run cs claimed) (
      ground (
        arith,
        TakenBack-epoch t requeued back,
        claim-epoch grant requeued claimed again,
        run-Later cs claimed,
      ))
