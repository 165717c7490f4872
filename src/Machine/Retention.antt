-- ===== src/Machine/Retention.antt =====
-- `prune_completed_tasks` of crates/agent-broker-domain/src/state_machine.rs.
use herterarchy_broker.Common.{
  ℕ, zero, suc, ◌+◌, ◌-◌, Bool, true, false, Option, none, some, List, [], ◌∷◌, Result, ok, err,
  ok_or, ltb, nat_eq, if◌then◌else◌, length,
}
use herterarchy_broker.Common
use herterarchy_broker.Common.Maps.{Map, get, insert, remove}
use herterarchy_broker.Common.Sets
use herterarchy_broker.Identifiers.{TaskId, NamespaceId}
use herterarchy_broker.Identifiers.Order.{id_key}
use herterarchy_broker.Task.{Task, TaskState}
use herterarchy_broker.Machine.State.{
  StateMachineError, CompletedTaskHeap, set_revision, set_tasks, or_else, invalid_capacity,
  task_count_underflow,
}
use herterarchy_broker.Machine.Commands.{PruneCompletedTasksCommand}
use herterarchy_broker.Machine.Results.{CompletedTasksPrunedResult}
use herterarchy_broker.Machine.Monad.{Action, pure, self, modify, lift, ◌>>=◌, ◌>>◌, reject_if}
use herterarchy_broker.Machine.Leases.{metadata, next_global_revision}

-- The namespace of a task that was completed at just this time.
unfoldable pub completed_namespace : ℕ → Option Task → Option NamespaceId
completed_namespace completed_at_ms none = none
completed_namespace completed_at_ms (some task) = elim task.state [
  | TaskState.completed c ↦
      if nat_eq c.completed_at_ms completed_at_ms then some task.namespace_id else none
  | _ ↦ none
]

-- The probe: the namespaces of the tasks that the command selects, up to `room` of them.
unfoldable pub select_completed : CompletedTaskHeap → ℕ → ℕ → Map TaskId Task → List NamespaceId
unfolding completed_namespace
select_completed heap zero cutoff tasks = []
select_completed [] (suc room) cutoff tasks = []
select_completed ((completed_at_ms, task_id) ∷ heap) (suc room) cutoff tasks =
    let found = select_completed heap room cutoff tasks in
    let skipped = select_completed heap (suc room) cutoff tasks in
    if ltb cutoff completed_at_ms
    then []
    else elim (completed_namespace completed_at_ms (get task_id tasks)) [
      | none ↦ skipped
      | some namespace_id ↦ namespace_id ∷ found
    ]

-- how many tasks are selected in each namespace
unfoldable pub per_namespace : List NamespaceId → Map NamespaceId ℕ → Map NamespaceId ℕ
per_namespace [] counts = counts
per_namespace (id ∷ ids) counts =
    per_namespace ids (insert id (or_else (get id counts) 0 + 1) counts)

unfoldable pub check_counts :
    Map NamespaceId ℕ → Map NamespaceId ℕ → Result StateMachineError (Unit {0})
check_counts [] counts = ok tt
check_counts ((namespace_id, selected_count) ∷ selected) counts =
    let rest = check_counts selected counts in
    if ltb (or_else (get namespace_id counts) 0) selected_count
    then err (task_count_underflow namespace_id)
    else rest

-- One task that goes. The count is positive here, by `check_counts`.
unfoldable pub prune_task : TaskId → NamespaceId → Action (Unit {0})
prune_task task_id namespace_id = do
  modify λ m. set_tasks (remove task_id m.tasks) m
  m₁ ← self
  current_count ←
      lift (ok_or (get namespace_id m₁.namespace_task_counts) (task_count_underflow namespace_id))
  modify λ m. record m {
    namespace_task_counts = insert namespace_id (current_count - 1) m.namespace_task_counts;
    deleted_tasks = Sets.insert task_id m.deleted_tasks;
  }

-- The loop that removes, until `left` tasks are gone: how many went. An entry that is later than
-- the cutoff is popped and pushed back, so it stays.
unfoldable pub prune_loop : CompletedTaskHeap → ℕ → ℕ → Action ℕ
prune_loop heap zero cutoff m = (ok 0, m)
prune_loop [] (suc left) cutoff m = (ok 0, m)
prune_loop ((completed_at_ms, task_id) ∷ heap) (suc left) cutoff m =
    let popped = record m { completed_tasks = heap } in
    let skipped = prune_loop heap (suc left) cutoff popped in
    if ltb cutoff completed_at_ms
    then (ok 0, m)
    else elim (completed_namespace completed_at_ms (get task_id m.tasks)) [
      | none ↦ skipped
      | some namespace_id ↦
          let (pruned, m₁) = (prune_task task_id namespace_id) popped in
          let (rest, m₂) = prune_loop heap left cutoff m₁ in
          elim pruned [ err e ↦ (err e, m₁) | ok _ ↦ (Common.◌>>=◌ rest λ n. ok (suc n), m₂) ]
    ]

-- `prune_completed_tasks` once tasks are selected
unfoldable pub prune_selected : List NamespaceId → ℕ → Action CompletedTasksPrunedResult
prune_selected selected cutoff = do
  m ← self
  lift (check_counts (per_namespace selected []) m.namespace_task_counts)
  next_revision ← next_global_revision
  pruned_count ← prune_loop m.completed_tasks (length selected) cutoff
  modify λ m₁. if ltb 0 pruned_count then set_revision next_revision m₁ else m₁
  m' ← self
  pure (record { metadata = metadata m'; pruned_count = pruned_count })

unfoldable pub prune_completed_tasks :
    PruneCompletedTasksCommand → Action CompletedTasksPrunedResult
prune_completed_tasks c = do
  reject_if (nat_eq c.max_tasks 0) (invalid_capacity "max_tasks")
  m ← self
  elim (select_completed m.completed_tasks c.max_tasks c.completed_before_ms m.tasks) [
    | [] ↦ pure (record { metadata = metadata m; pruned_count = 0 })
    | n ∷ ns ↦ prune_selected (n ∷ ns) c.completed_before_ms
  ]
