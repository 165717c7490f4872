-- ===== src/Machine/Pruning/Fates.antt =====
-- What becomes of one task in a prune, `prune_completed_tasks` of crates/agent-broker-domain/src/state_machine.rs.
use herterarchy_broker.Common.{
  ℕ, ◌≤◌, ◌<◌, ◌≡◌, refl, sym, ◌∙◌, ◌⊎◌, inl, inr, false, Option, none, some, arith, length, ltb,
  Bool-cases,
}
use herterarchy_broker.Common.Keys.{◌==◌}
use herterarchy_broker.Common.Maps.{get, remove, get-remove, length-remove_lt}
use herterarchy_broker.Identifiers.{TaskId, NamespaceId}
use herterarchy_broker.Identifiers.Order.{id_key, id_eq_iff}
use herterarchy_broker.Task.{Task, TaskState, CompletedTask}
use herterarchy_broker.Task.Laws.{TaskState-cases}
use herterarchy_broker.Machine.State.{BrokerStateMachine}
use herterarchy_broker.Machine.Monad.{◌>>=◌}
use herterarchy_broker.Machine.Retention.{completed_namespace, prune_task}

-- A task that was there is there unchanged, or it is gone and had been completed by the cutoff.
abbrev pub Fate : ℕ → Option Task → Option Task → Type 0
Fate cutoff o o' =
    (o' ≡ o)
    ⊎ ((o' ≡ none)
        × (t : Task) × (c : CompletedTask) × (o ≡ some t)
        × (t.state ≡ TaskState.completed c)
        × (c.completed_at_ms ≤ cutoff))

abbrev pub Pruned : ℕ → BrokerStateMachine → BrokerStateMachine → Type 0
Pruned cutoff m n =
    (length n.tasks ≤ length m.tasks)
    × ((id : TaskId) → Fate cutoff (get id m.tasks) (get id n.tasks))

pub same_tasks : (cutoff : ℕ) (m : BrokerStateMachine) → Pruned cutoff m m
same_tasks cutoff m = (omega arith, λ _. inl refl)

pub Pruned-trans :
    (cutoff : ℕ) (m n k : BrokerStateMachine)
    → Pruned cutoff m n
    → Pruned cutoff n k
    → Pruned cutoff m k
Pruned-trans cutoff m n k p q = (
  ground (arith, p.0, q.0),
  λ id. elim (p.1 id) [
    | inl same ↦ elim (q.1 id) [
      | inl still ↦ inl (still ∙ same)
      | inr (gone, t, c, e, s, due) ↦ inr (gone, t, c, sym same ∙ e, s, due)
    ]
    | inr (gone, t, c, e, s, due) ↦ elim (q.1 id) [
      | inl still ↦ inr (still ∙ gone, t, c, e, s, due)
      | inr (gone', _, _, _, _, _) ↦ inr (gone', t, c, e, s, due)
    ]
  ],
)

completed_namespace-due :
    (at cutoff : ℕ) (o : Option Task) (ns : NamespaceId)
    → completed_namespace at o ≡ some ns
    → ltb cutoff at ≡ false
    → (t : Task) × (c : CompletedTask) × (o ≡ some t)
      × (t.state ≡ TaskState.completed c)
      × (c.completed_at_ms ≤ cutoff)
unfolding completed_namespace
completed_namespace-due at cutoff none ns h due = absurd (ground arith)
completed_namespace-due at cutoff (some t) ns h due = elim (TaskState-cases t.state) [
  | inl (q, s) ↦ absurd (ground arith)
  | inr (inl (l, s)) ↦ absurd (ground arith)
  | inr (inr (c, s)) ↦ (t, c, refl, s, ground arith)
]

prune_task-tasks :
    (id : TaskId) (ns : NamespaceId) (m : BrokerStateMachine)
    → (prune_task id ns m).1.tasks ≡ remove id m.tasks
unfolding prune_task ◌>>=◌
prune_task-tasks id ns m = ground arith

pub prune_task_shrinks :
    (id : TaskId) (ns : NamespaceId) (at cutoff : ℕ) (m : BrokerStateMachine)
    → completed_namespace at (get id m.tasks) ≡ some ns
    → ltb cutoff at ≡ false
    → length (prune_task id ns m).1.tasks < length m.tasks
prune_task_shrinks id ns at cutoff m h due =
    let (t, c, e, s, before) = completed_namespace-due at cutoff (get id m.tasks) ns h due in
    ground (arith, prune_task-tasks id ns m, length-remove_lt id t m.tasks e)

pub prune_task-Pruned :
    (id : TaskId) (ns : NamespaceId) (at cutoff : ℕ) (m : BrokerStateMachine)
    → completed_namespace at (get id m.tasks) ≡ some ns
    → ltb cutoff at ≡ false
    → Pruned cutoff m (prune_task id ns m).1
prune_task-Pruned id ns at cutoff m h due = (
  ground (arith, prune_task_shrinks id ns at cutoff m h due),
  λ j.
      let gone = prune_task-tasks id ns m in
      let rest = get-remove id j m.tasks in
      elim (Bool-cases (id == j)) [
        | inl same ↦
            let (t, c, e, s, before) =
              completed_namespace-due at cutoff (get id m.tasks) ns h due in
            inr (ground (arith, gone, rest), t, c, ground (arith, id_eq_iff id j, e), s, before)
        | inr other ↦ inl (ground (arith, gone, rest))
      ],
)
