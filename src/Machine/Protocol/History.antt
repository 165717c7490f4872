-- ===== src/Machine/Protocol/History.antt =====
-- What becomes of one task while commands are applied.
use herterarchy_broker.Common.{
  ℕ, ◌≤◌, ◌≡◌, refl, sym, ◌∙◌, ap, subst, ◌⊎◌, inl, inr, true, false, none, some, List, [], ◌∷◌,
  ◌++◌, ok, arith, Bool-cases, Result-cases,
}
use herterarchy_broker.Common.Keys.{◌==◌}
use herterarchy_broker.Common.Maps.{Map, get, insert, get-insert}
use herterarchy_broker.Identifiers.{TaskId}
use herterarchy_broker.Identifiers.Order.{id_key, id_eq_iff}
use herterarchy_broker.Task
use herterarchy_broker.Task.{
  Task, TaskState, CompletedTask, LeasedTask, LeaseGrant, LeaseFence, TaskResult, CompletionOutcome,
}
use herterarchy_broker.Task.Laws.{claim-ok, renew-ok, complete-cases, requeue-ok}
use herterarchy_broker.Task.Traces.{Later}
use herterarchy_broker.Machine.State.{BrokerStateMachine}
use herterarchy_broker.Machine.Commands.{BrokerCommand, PruneCompletedTasksCommand}
use herterarchy_broker.Machine.Monad.{Action, pure, self, ◌>>=◌}
use herterarchy_broker.Machine.Results.{BrokerMutationResult}
use herterarchy_broker.Machine.Retention.{prune_completed_tasks}
use herterarchy_broker.Machine.Pruning.{prune_completed_tasks-Fate}
use herterarchy_broker.Machine.{clear_changes, take_changes, dispatch, apply, run}
use herterarchy_broker.Machine.Protocol.{
  Move, Moves, keep, publish, claim, renew, complete, requeue, prune, here,
}
use herterarchy_broker.Machine.Protocol
use herterarchy_broker.Machine.Protocol.Commands.{prunes, apply-Moves}

claim-Later : (grant : LeaseGrant) (t t' : Task) → Task.claim grant t ≡ ok t' → Later t t'
claim-Later grant t t' h = let (q, s, _, _, q') = claim-ok grant t t' h in ground arith

renew-Later : (fence : LeaseFence) (x : ℕ) (t t' : Task) → Task.renew fence x t ≡ ok t' → Later t t'
renew-Later fence x t t' h = let (l, s, _, _, q) = renew-ok fence x t t' h in ground arith

complete-Later :
    (fence : LeaseFence) (result : TaskResult) (t t' : Task)
    → Task.complete fence result t ≡ ok (CompletionOutcome.completed, t')
    → Later t t'
complete-Later fence result t t' h =
    elim (complete-cases fence result t (CompletionOutcome.completed, t') h) [
      | inl (c, s, q) ↦ ground arith
      | inr (l, s, k, _, q) ↦ ground arith
    ]

requeue-Later :
    (lease : LeasedTask) (t t' : Task)
    → t.state ≡ TaskState.leased lease
    → Task.requeue lease t ≡ ok (true, t')
    → Later t t'
requeue-Later lease t t' s h = let (_, _, q) = requeue-ok lease t (true, t') h in ground arith

Later-refl : (t : Task) → Later t t
Later-refl t = ground arith

Later-trans : (t u v : Task) → Later t u → Later u v → Later t v
Later-trans t u v p q = ground arith

-- The task is still there, with higher counters.
abbrev Stays : TaskId → Task → BrokerStateMachine → Type 0
Stays id t m = (t' : Task) × (get id m.tasks ≡ some t') × Later t t'

-- A task is written over.
insert-Stays :
    (m m' : BrokerStateMachine) (id j : TaskId) (t t' u : Task)
    → m'.tasks ≡ insert id t' m.tasks
    → get id m.tasks ≡ some t
    → Later t t'
    → get j m.tasks ≡ some u
    → Stays j u m'
insert-Stays m m' id j t t' u et e later eu =
    let put = ap (λ (ts : Map TaskId Task). get j ts) et ∙ get-insert id j t' m.tasks in
    elim (Bool-cases (id == j)) [
      | inl same ↦ (t', ground (arith, put), ground (arith, id_eq_iff id j))
      | inr other ↦ (u, ground (arith, put), Later-refl u)
    ]

-- A move that may not remove a task leaves it there.
Move-Stays :
    {m m' : BrokerStateMachine}
    → Move false m m'
    → (j : TaskId) (u : Task) → get j m.tasks ≡ some u
    → Stays j u m'
Move-Stays (keep et _ _) j u e = (u, et j ∙ e, Later-refl u)
Move-Stays {m} {m'} (publish id ns o at fresh _ et _ _) j u e =
    let put =
      ap (λ (ts : Map TaskId Task). get j ts) et
      ∙ get-insert id j (Task.new_task id ns o at) m.tasks in
    (u, ground (arith, put, id_eq_iff id j), Later-refl u)
Move-Stays {m} {m'} (claim id grant t t' e _ h et _ _) j u eu =
    insert-Stays m m' id j t t' u et e (claim-Later grant t t' h) eu
Move-Stays {m} {m'} (renew id fence x t t' e h et _ _) j u eu =
    insert-Stays m m' id j t t' u et e (renew-Later fence x t t' h) eu
Move-Stays {m} {m'} (complete id fence result t t' e h et _ _) j u eu =
    insert-Stays m m' id j t t' u et e (complete-Later fence result t t' h) eu
Move-Stays {m} {m'} (requeue id lease t t' e s h et _ _) j u eu =
    insert-Stays m m' id j t t' u et e (requeue-Later lease t t' s h) eu
Move-Stays (prune p id t c e s et _ _) j u eu = absurd (ground arith)

Moves-Stays :
    {m m' : BrokerStateMachine}
    → Moves false m m'
    → (j : TaskId) (u : Task) → get j m.tasks ≡ some u
    → Stays j u m'
Moves-Stays here j u e = (u, e, Later-refl u)
Moves-Stays (Protocol.next {n} p s) j u e =
    let (v, ev, later) = Moves-Stays p j u e in
    let (w, ew, on) = Move-Stays s j v ev in (w, ew, Later-trans u v w later on)

-- A chain that goes on with methods that leave the tasks alone.
bind-tasks {ℓ κ} :
    {A : Type ℓ} {B : Type κ} (a : Action A) (f : A → Action B) (m : BrokerStateMachine)
    → ((x : A) (n : BrokerStateMachine) → (f x n).1.tasks ≡ n.tasks)
    → ((a >>= f) m).1.tasks ≡ (a m).1.tasks
unfolding ◌>>=◌
bind-tasks a f m h = elim (Result-cases (a m).0) [
  | inl (x, e) ↦ rw (e, ◌>>=◌) (h x (a m).1)
  | inr (x, e) ↦ rw (e, ◌>>=◌) refl
]

-- `apply` of a prune leaves the tasks that the prune leaves.
apply-prune :
    (p : PruneCompletedTasksCommand) (m : BrokerStateMachine)
    → (apply (BrokerCommand.prune_completed_tasks p) m).1.tasks
      ≡ (prune_completed_tasks p (clear_changes m)).1.tasks
unfolding apply dispatch ◌>>=◌
apply-prune p m =
    bind-tasks (dispatch (BrokerCommand.prune_completed_tasks p))
      (λ result. self >>= λ n. pure (record { result = result; changes = take_changes n }))
      (clear_changes m) (λ _ _. refl)
    ∙ bind-tasks (prune_completed_tasks p)
        (λ r. pure (BrokerMutationResult.completed_tasks_pruned r)) (clear_changes m) (λ _ _. refl)

-- The task had been completed at the cutoff of a prune or before, and the prune removes it.
abbrev pub IsPruned : TaskId → Task → PruneCompletedTasksCommand → BrokerStateMachine → Type 0
IsPruned j u p m =
    (v : Task) × (c : CompletedTask) × Later u v
    × (get j m.tasks ≡ some v)
    × (v.state ≡ TaskState.completed c)
    × (c.completed_at_ms ≤ p.completed_before_ms)
    × (get j (apply (BrokerCommand.prune_completed_tasks p) m).1.tasks ≡ none)

-- Along the commands the task stays; or they are some commands, a prune, and the rest, and the machine
-- that the first of them lead to has the task, completed, and the prune removes it from there.
abbrev pub Kept : TaskId → Task → BrokerStateMachine → List BrokerCommand → Type 0
Kept j u m cs =
    Stays j u (run cs m)
    ⊎ ((before : List BrokerCommand) × (p : PruneCompletedTasksCommand) × (after : List
          BrokerCommand)
        × (cs ≡ before ++ (BrokerCommand.prune_completed_tasks p ∷ after))
        × IsPruned j u p (run before m))

prunes_cases :
    (c : BrokerCommand)
    → (prunes c ≡ false)
      ⊎ ((p : PruneCompletedTasksCommand) × (c ≡ BrokerCommand.prune_completed_tasks p))
prunes_cases (BrokerCommand.prune_completed_tasks p) = inr (p, refl)
prunes_cases c = inl refl

-- Under a prune the task stays as it is, or it is removed, completed.
prune-Kept :
    (p : PruneCompletedTasksCommand) (m : BrokerStateMachine) (j : TaskId) (u : Task)
    → get j m.tasks ≡ some u
    → Stays j u (apply (BrokerCommand.prune_completed_tasks p) m).1 ⊎ IsPruned j u p m
unfolding clear_changes
prune-Kept p m j u e =
    let left = ap (λ (ts : Map TaskId Task). get j ts) (apply-prune p m) in
    elim (prune_completed_tasks-Fate p (clear_changes m) j) [
      | inl same ↦ inl (u, left ∙ same ∙ e, Later-refl u)
      | inr (gone, v, c, ev, s, due) ↦
          inr (v, c, ground (arith, Later-refl u), ev, s, due, left ∙ gone)
    ]

apply-Kept :
    (c : BrokerCommand) (m : BrokerStateMachine) (j : TaskId) (u : Task)
    → get j m.tasks ≡ some u
    → Stays j u (apply c m).1
      ⊎ ((p : PruneCompletedTasksCommand) × (c ≡ BrokerCommand.prune_completed_tasks p)
          × IsPruned j u p m)
apply-Kept c m j u e = elim (prunes_cases c) [
  | inl safe ↦ inl (Moves-Stays (subst (λ b. Moves b m (apply c m).1) safe (apply-Moves c m)) j u e)
  | inr (p, same) ↦ elim (prune-Kept p m j u e) [
    | inl stays ↦ inl (subst (λ d. Stays j u (apply d m).1) (sym same) stays)
    | inr pruned ↦ inr (p, same, pruned)
  ]
]

-- From any machine, whatever commands are applied: a task is still there, with its identity,
-- namespace, objective and publication time, and with a revision and a lease epoch that have not
-- fallen; or the commands include a prune that removed it, and in the machine that the commands before
-- that prune had led to, the task was there, as such, and completed at the prune's cutoff or before.
pub run-Kept :
    (cs : List BrokerCommand) (m : BrokerStateMachine) (id : TaskId) (t : Task)
    → get id m.tasks ≡ some t
    → Kept id t m cs
unfolding run
run-Kept [] m id t e = inl (t, e, Later-refl t)
run-Kept (c ∷ cs) m id t e = elim (apply-Kept c m id t e) [
  | inr (p, same, pruned) ↦ inr ([], p, cs, ap (λ d. d ∷ cs) same, pruned)
  | inl (u, eu, later) ↦ elim (run-Kept cs (apply c m).1 id u eu) [
    | inl (v, ev, on) ↦ inl (v, ev, Later-trans t u v later on)
    | inr (before, p, after, split, (v, d, on, ev, s, due, gone)) ↦ inr (
      c ∷ before,
      p,
      after,
      ap (λ ds. c ∷ ds) split,
      (v, d, Later-trans t u v later on, ev, s, due, gone),
    )
  ]
]
