-- ===== src/Task/Laws.antt =====
-- What each transition of a task accepts, and what it makes of the task.
use herterarchy_broker.Common.{
  ℕ, ◌+◌, ◌≤◌, ◌<◌, ◌≡◌, refl, ◌↔◌, ◌≢◌, ◌⊎◌, inl, inr, Result-cases, Bool-cases, ltb, not, ◌||◌,
  Bool, true, false, ok, err, arith,
}
use herterarchy_broker.Common.Keys.{◌==◌}
use herterarchy_broker.Fencing.{next, u64_max}
use herterarchy_broker.Identifiers.{ConsumerGroupId, ConsumerId}
use herterarchy_broker.Identifiers.Order.{id_key, bytes_key, id_eq_iff, bytes_eq_iff}
use herterarchy_broker.Task.{
  Task, TaskState, TaskResult, QueuedTask, LeasedTask, CompletedTask, LeaseGrant, LeaseFence,
  CompletionOutcome, claim, renew, requeue, complete, fence_check, requeue_if_expired,
  requeue_for_member, queued, leased, completed, already_completed,
}

pub TaskState-cases :
    (s : TaskState)
    → ((q : QueuedTask) × (s ≡ queued q))
      ⊎ (((l : LeasedTask) × (s ≡ leased l)) ⊎ ((c : CompletedTask) × (s ≡ completed c)))
TaskState-cases (TaskState.queued q) = inl (q, refl)
TaskState-cases (TaskState.leased l) = inr (inl (l, refl))
TaskState-cases (TaskState.completed c) = inr (inr (c, refl))

-- The fence names this very lease, and was observed before the lease ran out.
pub record Matches (fence : LeaseFence) (lease : LeasedTask) : Type 0 where
  pub group : lease.group_id ≡ fence.group_id
  pub owner : lease.owner_member_id ≡ fence.owner_member_id
  pub generation : lease.generation ≡ fence.generation
  pub epoch : lease.lease_epoch ≡ fence.lease_epoch
  pub identity : lease.lease_id ≡ fence.lease_id
  pub unexpired : fence.observed_at_ms < lease.expires_at_ms

pub fence_check-ok_iff :
    (fence : LeaseFence) (lease l : LeasedTask)
    → (fence_check fence lease ≡ ok l) ↔ (Matches fence lease × (l ≡ lease))
unfolding fence_check
fence_check-ok_iff fence lease l = ground (
  arith,
  id_eq_iff lease.group_id fence.group_id,
  id_eq_iff lease.owner_member_id fence.owner_member_id,
  id_eq_iff lease.lease_id fence.lease_id,
)

-- A leased task is renewed exactly when the fence matches its lease and the revision can still
-- grow; then the expiry and the revision change and nothing else, the lease epoch included.
pub renew-ok_iff :
    (fence : LeaseFence) (expires : ℕ) (t t' : Task) (lease : LeasedTask)
    → t.state ≡ leased lease
    → (renew fence expires t ≡ ok t') ↔ (
        Matches fence lease
        × (t.revision < u64_max)
        × (t' ≡ record t {
          state = leased (record lease { expires_at_ms = expires });
          revision = t.revision + 1;
        }))
unfolding renew
renew-ok_iff fence expires t t' lease e = elim (Result-cases (fence_check fence lease)) [
  | inl (l, passed) ↦ ground (arith, fence_check-ok_iff fence lease l)
  | inr (x, refused) ↦ ground (arith, fence_check-ok_iff fence lease lease)
]

-- Only a leased task is renewed.
pub renew-ok :
    (fence : LeaseFence) (expires : ℕ) (t t' : Task)
    → renew fence expires t ≡ ok t'
    → (lease : LeasedTask) × (t.state ≡ leased lease)
      × Matches fence lease
      × (t.revision < u64_max)
      × (t' ≡ record t {
        state = leased (record lease { expires_at_ms = expires });
        revision = t.revision + 1;
      })
unfolding renew
renew-ok fence expires t t' h = elim (TaskState-cases t.state) [
  | inl (q, e) ↦ ground arith
  | inr (inl (l, e)) ↦ let (m, r, q) = (renew-ok_iff fence expires t t' l e).0 h in (l, e, m, r, q)
  | inr (inr (c, e)) ↦ ground arith
]

-- The completed record that a lease leaves behind.
abbrev pub completed_from : LeaseFence → TaskResult → LeasedTask → TaskState
completed_from fence result lease = completed (record {
  lease_id = lease.lease_id;
  owner_member_id = lease.owner_member_id;
  group_id = lease.group_id;
  generation = lease.generation;
  lease_epoch = lease.lease_epoch;
  result = result;
  completed_at_ms = fence.observed_at_ms;
})

-- A leased task is completed exactly when the fence matches its lease and the revision can still
-- grow; then the state holds the lease's identity, the result and the time of the command, and
-- the revision moves by one.
pub complete-ok_iff :
    (fence : LeaseFence) (result : TaskResult) (t : Task) (lease : LeasedTask)
    (out : CompletionOutcome × Task)
    → t.state ≡ leased lease
    → (complete fence result t ≡ ok out) ↔ (
        Matches fence lease
        × (t.revision < u64_max)
        × (out ≡ (
          CompletionOutcome.completed,
          record t { state = completed_from fence result lease; revision = t.revision + 1 },
        )))
unfolding complete
complete-ok_iff fence result t lease out e = elim (Result-cases (fence_check fence lease)) [
  | inl (l, passed) ↦ ground (arith, fence_check-ok_iff fence lease l)
  | inr (x, refused) ↦ ground (arith, fence_check-ok_iff fence lease lease)
]

-- Completing a completed task never changes it: the retained lease and result are acknowledged
-- again, at any time and with any other fencing values, and all else is refused.
pub complete-completed :
    (fence : LeaseFence) (result : TaskResult) (t : Task) (c : CompletedTask)
    → t.state ≡ completed c
    → ((c.lease_id ≡ fence.lease_id)
        × (c.result ≡ result)
        × (complete fence result t ≡ ok (CompletionOutcome.already_completed, t)))
      ⊎ (¬ ((c.lease_id ≡ fence.lease_id) × (c.result ≡ result))
          × (complete fence result t ≡ err already_completed))
unfolding complete
complete-completed fence result t c e =
    ground (arith, id_eq_iff c.lease_id fence.lease_id, bytes_eq_iff c.result.text result.text)

-- What a successful completion did.
pub complete-cases :
    (fence : LeaseFence) (result : TaskResult) (t : Task) (out : CompletionOutcome × Task)
    → complete fence result t ≡ ok out
    → ((c : CompletedTask) × (t.state ≡ completed c)
        × (out ≡ (CompletionOutcome.already_completed, t)))
      ⊎ ((lease : LeasedTask) × (t.state ≡ leased lease)
          × Matches fence lease
          × (t.revision < u64_max)
          × (out ≡ (
            CompletionOutcome.completed,
            record t { state = completed_from fence result lease; revision = t.revision + 1 },
          )))
unfolding complete
complete-cases fence result t out h = elim (TaskState-cases t.state) [
  | inl (q, e) ↦ ground arith
  | inr (inl (l, e)) ↦
      let (m, r, q) = (complete-ok_iff fence result t l out e).0 h in inr (l, e, m, r, q)
  | inr (inr (c, e)) ↦ ground (arith, complete-completed fence result t c e)
]

-- A completion that was accepted can be sent again, by anyone who holds the lease identity and at
-- any later time: it is acknowledged and changes nothing, and another result is refused.
pub complete_again :
    (fence again : LeaseFence) (result other : TaskResult) (t t' : Task)
    → complete fence result t ≡ ok (CompletionOutcome.completed, t')
    → again.lease_id ≡ fence.lease_id
    → other ≢ result
    → (complete again result t' ≡ ok (CompletionOutcome.already_completed, t'))
      × (complete again other t' ≡ err already_completed)
unfolding complete
complete_again fence again result other t t' h same differs =
    elim (complete-cases fence result t (CompletionOutcome.completed, t') h) [
      | inl (c, e, q) ↦ ground arith
      | inr (l, e, m, r, q) ↦ ground (
        arith,
        id_eq_iff l.lease_id again.lease_id,
        bytes_eq_iff result.text result.text,
        bytes_eq_iff result.text other.text,
      )
    ]

-- The lease that a grant turns into.
abbrev pub granted : LeaseGrant → ℕ → LeasedTask
granted grant epoch = record {
  lease_id = grant.lease_id;
  owner_member_id = grant.owner_member_id;
  group_id = grant.group_id;
  generation = grant.generation;
  lease_epoch = epoch;
  expires_at_ms = grant.expires_at_ms;
}

-- Only a queued task is claimed; it then holds the lease of the grant, with the next lease epoch
-- and the next revision.
pub claim-ok :
    (grant : LeaseGrant) (t t' : Task)
    → claim grant t ≡ ok t'
    → (q : QueuedTask) × (t.state ≡ queued q)
      × (q.lease_epoch < u64_max)
      × (t.revision < u64_max)
      × (t' ≡ record t {
        state = leased (granted grant (q.lease_epoch + 1));
        revision = t.revision + 1;
      })
unfolding claim next
claim-ok grant t t' h = elim (TaskState-cases t.state) [
  | inl (q, e) ↦ (q, e, ground arith, ground arith, ground arith)
  | inr (inl (l, e)) ↦ ground arith
  | inr (inr (c, e)) ↦ ground arith
]

-- A requeued task keeps its lease epoch and nothing else of its lease.
pub requeue-ok :
    (lease : LeasedTask) (t : Task) (out : Bool × Task)
    → requeue lease t ≡ ok out
    → (out.0 ≡ true)
      × (t.revision < u64_max)
      × (out.1 ≡ record t {
        state = queued (record { lease_epoch = lease.lease_epoch });
        revision = t.revision + 1;
      })
unfolding requeue next
requeue-ok lease t out h = ground arith

-- What an accepted requeue has done: either the lease was taken back, or nothing changed.
abbrev pub Requeued : (LeasedTask → Type 0) → Task → Bool × Task → Type 0
Requeued P t out =
    ((l : LeasedTask) × (t.state ≡ leased l) × P l × (requeue l t ≡ ok out) × (out.0 ≡ true))
    ⊎ (out ≡ (false, t))

-- A task is requeued for its expiry exactly if it is leased and the lease has run out.
pub requeue_if_expired-Requeued :
    (now : ℕ) (t : Task) (out : Bool × Task)
    → requeue_if_expired now t ≡ ok out
    → Requeued (λ l. l.expires_at_ms ≤ now) t out
unfolding requeue_if_expired
requeue_if_expired-Requeued now t out h = elim (TaskState-cases t.state) [
  | inl (q, e) ↦ inr (ground arith)
  | inr (inl (l, e)) ↦ elim (Bool-cases (ltb now l.expires_at_ms)) [
    | inl later ↦ inr (ground arith)
    | inr over ↦ inl (l, e, ground arith, ground arith, (requeue-ok l t out (ground arith)).0)
  ]
  | inr (inr (c, e)) ↦ inr (ground arith)
]

pub requeue_for_member-Requeued :
    (group : ConsumerGroupId) (member : ConsumerId) (t : Task) (out : Bool × Task)
    → requeue_for_member group member t ≡ ok out
    → Requeued (λ l. (l.group_id ≡ group) × (l.owner_member_id ≡ member)) t out
unfolding requeue_for_member
requeue_for_member-Requeued group member t out h = elim (TaskState-cases t.state) [
  | inl (q, e) ↦ inr (ground arith)
  | inr (inl (l, e)) ↦
      elim (Bool-cases (not (l.group_id == group) || not (l.owner_member_id == member))) [
        | inl other ↦ inr (ground arith)
        | inr own ↦ inl (
          l,
          e,
          ground (arith, id_eq_iff l.group_id group, id_eq_iff l.owner_member_id member),
          ground arith,
          (requeue-ok l t out (ground arith)).0,
        )
      ]
  | inr (inr (c, e)) ↦ inr (ground arith)
]
