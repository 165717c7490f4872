-- ===== src/Task/Steps.antt =====
-- The calls that may change a task, as data: a call that fails leaves the task as it was.
use herterarchy_broker.Common.{
  ℕ, ◌+◌, ◌≤◌, ◌≡◌, ◌⊎◌, inl, inr, List, [], ◌∷◌, Result, ok, err, arith, Result-cases,
}
use herterarchy_broker.Fencing.{next, u64_max}
use herterarchy_broker.Identifiers.{ConsumerGroupId, ConsumerId}
use herterarchy_broker.Task.{
  Task, TaskState, TaskResult, LeaseGrant, LeaseFence, claim, renew, complete, requeue_if_expired,
  requeue_for_member, queued, leased, completed,
}
use herterarchy_broker.Task.Laws.{renew-ok, complete-cases}

pub data Call : Type 0 where
  claims : LeaseGrant → Call
  renews : LeaseFence → ℕ → Call
  completes : LeaseFence → TaskResult → Call
  requeues_expired : ℕ → Call
  requeues_member : ConsumerGroupId → ConsumerId → Call

abbrev after {ℓ} : {E : Type ℓ} → Task → Result E Task → Task
after t (ok t') = t'
after t (err e) = t

abbrev after_pair {ℓ κ} : {E : Type ℓ} {A : Type κ} → Task → Result E (A × Task) → Task
after_pair t (ok (a, t')) = t'
after_pair t (err e) = t

unfoldable pub step : Call → Task → Task
step (claims grant) t = after t (claim grant t)
step (renews fence expires) t = after t (renew fence expires t)
step (completes fence result) t = after_pair t (complete fence result t)
step (requeues_expired now) t = after_pair t (requeue_if_expired now t)
step (requeues_member group member) t = after_pair t (requeue_for_member group member t)

unfoldable pub run : List Call → Task → Task
run [] t = t
run (c ∷ cs) t = run cs (step c t)

-- The lease epoch, which every state of a task carries.
abbrev pub epoch_of : TaskState → ℕ
epoch_of (queued q) = q.lease_epoch
epoch_of (leased l) = l.lease_epoch
epoch_of (completed c) = c.lease_epoch

abbrev pub epoch : Task → ℕ
epoch t = epoch_of t.state

-- What one call may do: nothing, or one transition that counts as one revision.
pub record Moves (t t' : Task) : Type 0 where
  pub one_revision : t'.revision ≡ t.revision + 1
  pub in_range : t'.revision ≤ u64_max
  pub same_id : t'.id ≡ t.id
  pub same_namespace : t'.namespace_id ≡ t.namespace_id
  pub same_objective : t'.objective ≡ t.objective
  pub same_created : t'.created_at_ms ≡ t.created_at_ms
  pub epoch_rises : epoch t ≤ epoch t'

-- Every call leaves the task as it was, or advances its revision by one within 64 bits, keeps its
-- identity, namespace, objective and publication time, and never lowers its lease epoch.
pub step-Moves : (c : Call) (t : Task) → (step c t ≡ t) ⊎ Moves t (step c t)
unfolding step claim requeue_if_expired requeue_for_member next
step-Moves (claims grant) t = ground arith
step-Moves (renews fence expires) t = elim (Result-cases (renew fence expires t)) [
  | inl (t', e) ↦ let (l, s, m, r, q) = renew-ok fence expires t t' e in ground arith
  | inr (x, e) ↦ ground arith
]
step-Moves (completes fence result) t = elim (Result-cases (complete fence result t)) [
  | inl (out, e) ↦ elim (complete-cases fence result t out e) [
    | inl (c, s, q) ↦ ground arith
    | inr (l, s, m, r, q) ↦ ground arith
  ]
  | inr (x, e) ↦ ground arith
]
step-Moves (requeues_expired now) t = ground arith
step-Moves (requeues_member group member) t = ground arith
