-- ===== src/Machine/Protocol/Exclusive.antt =====
-- A lease belongs to one task: the registry of active leases covers every leased task.
use herterarchy_broker.Common.{
  Bool, ℕ, ◌≡◌, refl, ◌∙◌, sym, ap, ◌+◌, inl, inr, true, none, some, ok, arith,
}
use herterarchy_broker.Common.Maps.{Map, get, insert, remove, get-insert, get-remove}
use herterarchy_broker.Identifiers.{NamespaceId, TaskId, LeaseId}
use herterarchy_broker.Identifiers.Order.{id_key, id_eq_iff}
use herterarchy_broker.Task
use herterarchy_broker.Task.{
  Task, TaskState, LeasedTask, QueuedTask, CompletedTask, LeaseGrant, LeaseFence, TaskObjective,
  TaskResult, CompletionOutcome, new_task,
}
use herterarchy_broker.Task.Laws.{
  claim-ok, renew-ok, complete-cases, requeue-ok, granted, completed_from,
}
use herterarchy_broker.Machine.State.{BrokerStateMachine}
use herterarchy_broker.Machine.Protocol.{
  Move, Moves, keep, publish, claim, renew, complete, requeue, prune, here,
}
use herterarchy_broker.Machine.Protocol

-- Every leased task is registered under its lease.
abbrev pub Registered : Map TaskId Task → Map LeaseId TaskId → Type 0
Registered tasks active =
    (id : TaskId) (t : Task) (lease : LeasedTask)
    → get id tasks ≡ some t
    → t.state ≡ TaskState.leased lease
    → get lease.lease_id active ≡ some id

-- A task that ends up with no lease: its own registration may go.
Registered-release :
    (tasks : Map TaskId Task) (active : Map LeaseId TaskId) (id : TaskId) (t t' : Task)
    (lease : LeasedTask)
    → get id tasks ≡ some t
    → t.state ≡ TaskState.leased lease
    → ((l : LeasedTask) → ¬ (t'.state ≡ TaskState.leased l))
    → Registered tasks active
    → Registered (insert id t' tasks) (remove lease.lease_id active)
Registered-release tasks active id t t' lease e s free r j u l eu su = ground (
  arith,
  get-insert id j t' tasks,
  get-remove lease.lease_id l.lease_id active,
  id_eq_iff id j,
  id_eq_iff lease.lease_id l.lease_id,
  r id t lease e s,
  r j u l,
  free l,
)

-- A task with no lease is put in.
Registered-insert :
    (tasks : Map TaskId Task) (active : Map LeaseId TaskId) (id : TaskId) (t' : Task)
    → ((l : LeasedTask) → ¬ (t'.state ≡ TaskState.leased l))
    → Registered tasks active
    → Registered (insert id t' tasks) active
Registered-insert tasks active id t' free r j u l eu su =
    ground (arith, get-insert id j t' tasks, id_eq_iff id j, r j u l, free l)

-- A task takes a lease that is not registered.
Registered-grant :
    (tasks : Map TaskId Task) (active : Map LeaseId TaskId) (id : TaskId) (t' : Task)
    (lease : LeasedTask)
    → t'.state ≡ TaskState.leased lease
    → get lease.lease_id active ≡ none
    → Registered tasks active
    → Registered (insert id t' tasks) (insert lease.lease_id id active)
Registered-grant tasks active id t' lease s unused r j u l eu su = ground (
  arith,
  get-insert id j t' tasks,
  get-insert lease.lease_id l.lease_id id active,
  id_eq_iff id j,
  id_eq_iff lease.lease_id l.lease_id,
  r j u l,
)

-- A task keeps its lease.
Registered-hold :
    (tasks : Map TaskId Task) (active : Map LeaseId TaskId) (id : TaskId) (t t' : Task)
    (lease lease' : LeasedTask)
    → get id tasks ≡ some t
    → t.state ≡ TaskState.leased lease
    → t'.state ≡ TaskState.leased lease'
    → lease'.lease_id ≡ lease.lease_id
    → Registered tasks active
    → Registered (insert id t' tasks) active
Registered-hold tasks active id t t' lease lease' e s s' same r j u l eu su =
    ground (arith, get-insert id j t' tasks, id_eq_iff id j, r j u l, r id t lease e s)

Registered-remove :
    (tasks : Map TaskId Task) (active : Map LeaseId TaskId) (id : TaskId)
    → Registered tasks active
    → Registered (remove id tasks) active
Registered-remove tasks active id r j u l eu su =
    ground (arith, get-remove id j tasks, id_eq_iff id j, r j u l)

new_free :
    (id : TaskId) (ns : NamespaceId) (o : TaskObjective) (at : ℕ) (l : LeasedTask)
    → ¬ ((new_task id ns o at).state ≡ TaskState.leased l)
unfolding new_task
new_free id ns o at l e = cc

queued_free :
    (t : Task) (q : QueuedTask)
    → t.state ≡ TaskState.queued q
    → (l : LeasedTask) → ¬ (t.state ≡ TaskState.leased l)
queued_free t q e l h = cc

completed_free :
    (t : Task) (c : CompletedTask)
    → t.state ≡ TaskState.completed c
    → (l : LeasedTask) → ¬ (t.state ≡ TaskState.leased l)
completed_free t c e l h = cc

complete-leased :
    (fence : LeaseFence) (result : TaskResult) (t t' : Task)
    → Task.complete fence result t ≡ ok (CompletionOutcome.completed, t')
    → (l : LeasedTask) × (t.state ≡ TaskState.leased l)
      × (l.lease_id ≡ fence.lease_id)
      × (t'.state ≡ completed_from fence result l)
complete-leased fence result t t' h =
    elim (complete-cases fence result t (CompletionOutcome.completed, t') h) [
      | inl (c, s, q) ↦ ground arith
      | inr (l, s, k, _, q) ↦ (l, s, k.identity, ground arith)
    ]

abbrev pub IsExclusive : BrokerStateMachine → Type 0
IsExclusive m = Registered m.tasks m.active_lease_tasks

-- Equal fields stand for one another.
Registered-subst :
    {tasks tasks' : Map TaskId Task} {active active' : Map LeaseId TaskId}
    → tasks' ≡ tasks
    → active' ≡ active
    → Registered tasks active
    → Registered tasks' active'
Registered-subst et ea r = rw (et, ea) r

pub Move-IsExclusive :
    {m m' : BrokerStateMachine} {pruning : Bool}
    → Move pruning m m'
    → IsExclusive m
    → IsExclusive m'
Move-IsExclusive (keep et ea _) r =
    Registered-subst refl ea (λ j u l eu su. r j u l (sym (et j) ∙ eu) su)
Move-IsExclusive {m} (publish id ns o at fresh known et ea _) r =
    Registered-subst et ea
      (Registered-insert m.tasks m.active_lease_tasks id _ (new_free id ns o at) r)
Move-IsExclusive {m} (claim id grant t t' e unused h et ea _) r =
    let (q, s, _, _, q') = claim-ok grant t t' h in
    Registered-subst et ea (
      Registered-grant m.tasks m.active_lease_tasks id t' (granted grant (q.lease_epoch + 1))
        (ap (λ (u : Task). u.state) q') unused r)
Move-IsExclusive {m} (renew id fence x t t' e h et ea _) r =
    let (l, s, _, _, q) = renew-ok fence x t t' h in
    Registered-subst et ea (
      Registered-hold m.tasks m.active_lease_tasks id t t' l (record l { expires_at_ms = x }) e s
        (ap (λ (u : Task). u.state) q) refl r)
Move-IsExclusive {m} (complete id fence result t t' e h et ea _) r =
    let (l, s, k, q) = complete-leased fence result t t' h in
    Registered-subst et (ea ∙ ap (λ (i : LeaseId). remove i m.active_lease_tasks) (sym k))
      (Registered-release m.tasks m.active_lease_tasks id t t' l e s (completed_free t' _ q) r)
Move-IsExclusive {m} (requeue id lease t t' e s h et ea _) r =
    let (_, _, q) = requeue-ok lease t (true, t') h in
    Registered-subst et ea (
      Registered-release m.tasks m.active_lease_tasks id t t' lease e s
        (queued_free t' _ (ap (λ (u : Task). u.state) q)) r)
Move-IsExclusive {m} (prune p id t c e s et ea _) r =
    Registered-subst et ea (Registered-remove m.tasks m.active_lease_tasks id r)

pub Moves-IsExclusive :
    {pruning : Bool} {m m' : BrokerStateMachine}
    → Moves pruning m m'
    → IsExclusive m
    → IsExclusive m'
Moves-IsExclusive here r = r
Moves-IsExclusive (Protocol.next p s) r = Move-IsExclusive s (Moves-IsExclusive p r)
