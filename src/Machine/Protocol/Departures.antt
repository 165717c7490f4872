-- ===== src/Machine/Protocol/Departures.antt =====
-- Leave, reap and prune are made of moves.
use herterarchy_broker.Common.{
  true, Bool, ℕ, zero, suc, ◌≡◌, refl, inl, inr, Option, none, some, List, [], ◌∷◌, Result, arith,
  Bool-cases, Option-cases, Result-cases, ltb,
}
use herterarchy_broker.Common.Maps.{Map, get}
use herterarchy_broker.Identifiers.{ConsumerGroupId, ConsumerId, NamespaceId, TaskId}
use herterarchy_broker.Identifiers.Order.{id_key}
use herterarchy_broker.Group.{Consumer}
use herterarchy_broker.Task.{Task, TaskState, CompletedTask}
use herterarchy_broker.Task.Laws.{TaskState-cases}
use herterarchy_broker.Machine.State.{BrokerStateMachine, CompletedTaskHeap}
use herterarchy_broker.Machine.Commands.{
  LeaveConsumerGroupCommand, ReapStaleMembersCommand, PruneCompletedTasksCommand,
}
use herterarchy_broker.Machine.Monad.{Action, pure}
use herterarchy_broker.Machine.Registry.{coordinate, changed_group}
use herterarchy_broker.Machine.Leases.{next_global_revision}
use herterarchy_broker.Machine.Membership.{
  Candidate, leave_consumer_group, requeue_removed, reap_group, reap_groups, reap_selected,
  reap_stale_members,
}
use herterarchy_broker.Machine.Retention.{
  completed_namespace, prune_task, prune_loop, prune_selected, prune_completed_tasks,
}
use herterarchy_broker.Machine.Results.{StaleMembersReapedResult, CompletedTasksPrunedResult}
use herterarchy_broker.Group.Coordinator.{Groups, GroupCoordinatorError}
use herterarchy_broker.Machine.Protocol.{Move, Moves, Moves-trans, prune, here}
use herterarchy_broker.Machine.Protocol
use herterarchy_broker.Machine.Protocol.Runs.{still, bind-Moves, requeue_member_leases-Moves}

coordinate-Moves {ℓ} :
    {pruning : Bool} {A : Type ℓ} (step : Groups → Result GroupCoordinatorError (A × Groups))
    (m : BrokerStateMachine)
    → Moves pruning m (coordinate step m).1
unfolding coordinate
coordinate-Moves step m = still m _ (ground arith) (ground arith) (ground arith)

next_global_revision-Moves :
    {pruning : Bool} (m : BrokerStateMachine) → Moves pruning m (next_global_revision m).1
unfolding next_global_revision
next_global_revision-Moves m = here

changed_group-Moves :
    {pruning : Bool} (id : ConsumerGroupId) (m : BrokerStateMachine)
    → Moves pruning m (changed_group id m).1
unfolding changed_group
changed_group-Moves id m = here

pub leave_consumer_group-Moves :
    {pruning : Bool} (c : LeaveConsumerGroupCommand) (m : BrokerStateMachine)
    → Moves pruning m (leave_consumer_group c m).1
unfolding leave_consumer_group
leave_consumer_group-Moves c m = bind-Moves _ _ m (next_global_revision-Moves m) λ _ m₁.
    bind-Moves _ _ m₁ here λ _ m₂. bind-Moves _ _ m₂ here λ _ m₃.
      bind-Moves _ _ m₃ (coordinate-Moves _ m₃) λ _ m₄.
        bind-Moves _ _ m₄ (changed_group-Moves c.group_id m₄) λ g m₅.
          bind-Moves _ _ m₅ (requeue_member_leases-Moves g.id c.member_id m₅) λ _ m₆.
            bind-Moves _ _ m₆ (still m₆ _ refl refl refl) λ _ m₇. bind-Moves _ _ m₇ here λ _ _. here

requeue_removed-Moves :
    {pruning : Bool} (id : ConsumerGroupId) (members : List Consumer) (m : BrokerStateMachine)
    → Moves pruning m (requeue_removed id members m).1
unfolding requeue_removed
requeue_removed-Moves id [] m = here
requeue_removed-Moves id (c ∷ cs) m =
    bind-Moves _ _ m (requeue_member_leases-Moves id c.id m) λ _ n. requeue_removed-Moves id cs n

reap_group-Moves :
    {pruning : Bool} (id : ConsumerGroupId) (members : List ConsumerId) (stale : ℕ)
    (m : BrokerStateMachine)
    → Moves pruning m (reap_group id members stale m).1
unfolding reap_group
reap_group-Moves id members stale m =
    bind-Moves _ _ m (coordinate-Moves _ m)
      λ removed n. bind-Moves _ _ n (requeue_removed-Moves id removed n) λ _ _. here

reap_groups-Moves :
    {pruning : Bool} (selected : Map ConsumerGroupId (List ConsumerId)) (stale : ℕ)
    (m : BrokerStateMachine)
    → Moves pruning m (reap_groups selected stale m).1
unfolding reap_groups
reap_groups-Moves [] stale m = here
reap_groups-Moves ((id, members) ∷ selected) stale m =
    bind-Moves _ _ m (reap_group-Moves id members stale m)
      λ _ n. bind-Moves _ _ n (reap_groups-Moves selected stale n) λ _ _. here

reap_selected-Moves :
    {pruning : Bool} (candidates : List Candidate) (stale : ℕ) (m : BrokerStateMachine)
    → Moves pruning m (reap_selected candidates stale m).1
unfolding reap_selected
reap_selected-Moves candidates stale m = bind-Moves _ _ m (next_global_revision-Moves m) λ _ m₁.
    bind-Moves _ _ m₁ here λ _ m₂. bind-Moves _ _ m₂ here λ _ m₃.
      bind-Moves _ _ m₃ (reap_groups-Moves _ stale m₃) λ r m₄.
        bind-Moves _ _ m₄ (still m₄ _ (ground arith) (ground arith) (ground arith))
          λ _ m₅. bind-Moves _ _ m₅ here λ _ _. here

reap_choice-Moves :
    {pruning : Bool} (candidates : List Candidate) (empty : StaleMembersReapedResult) (stale : ℕ)
    (m : BrokerStateMachine)
    → Moves pruning m
        ((elim candidates as (λ _. Action StaleMembersReapedResult) [
          | [] ↦ pure empty
          | e ∷ es ↦ reap_selected (e ∷ es) stale
        ])
          m).1
reap_choice-Moves [] empty stale m = here
reap_choice-Moves (e ∷ es) empty stale m = reap_selected-Moves (e ∷ es) stale m

pub reap_stale_members-Moves :
    {pruning : Bool} (c : ReapStaleMembersCommand) (m : BrokerStateMachine)
    → Moves pruning m (reap_stale_members c m).1
unfolding reap_stale_members
reap_stale_members-Moves c m =
    bind-Moves _ _ m here
      λ _ m₁. bind-Moves _ _ m₁ here λ m₂ m₃. reap_choice-Moves _ _ c.stale_before_ms m₃

completed_namespace-completed :
    (at : ℕ) (t : Task) (ns : NamespaceId)
    → completed_namespace at (some t) ≡ some ns
    → (c : CompletedTask) × t.state ≡ TaskState.completed c
unfolding completed_namespace
completed_namespace-completed at t ns h = elim (TaskState-cases t.state) [
  | inl (q, s) ↦ ground arith
  | inr (inl (l, s)) ↦ ground arith
  | inr (inr (c, s)) ↦ (c, s)
]

completed_namespace-some :
    (at : ℕ) (o : Option Task) (ns : NamespaceId)
    → completed_namespace at o ≡ some ns
    → (t : Task) × (c : CompletedTask) × (o ≡ some t) × (t.state ≡ TaskState.completed c)
unfolding completed_namespace
completed_namespace-some at none ns h = ground arith
completed_namespace-some at (some t) ns h =
    let (c, s) = completed_namespace-completed at t ns h in (t, c, refl, s)

prune_task-Moves :
    (id : TaskId) (ns : NamespaceId) (at : ℕ) (m : BrokerStateMachine)
    → completed_namespace at (get id m.tasks) ≡ some ns
    → Moves true m (prune_task id ns m).1
unfolding prune_task
prune_task-Moves id ns at m h =
    let (t, c, e, s) = completed_namespace-some at (get id m.tasks) ns h in
    bind-Moves _ _ m (Protocol.next here (prune refl id t c e s refl refl refl))
      λ _ n. bind-Moves _ _ n here λ _ n₁. bind-Moves _ _ n₁ here λ _ n₂. still n₂ _ refl refl refl

prune_loop-Moves :
    (heap : CompletedTaskHeap) (left cutoff : ℕ) (m : BrokerStateMachine)
    → Moves true m (prune_loop heap left cutoff m).1
unfolding prune_loop
prune_loop-Moves heap zero cutoff m = here
prune_loop-Moves [] (suc left) cutoff m = here
prune_loop-Moves ((at, id) ∷ heap) (suc left) cutoff m =
    let popped = record m { completed_tasks = heap } in
    let pop = still m popped refl refl refl in
    elim (Bool-cases (ltb cutoff at)) [
      | inl late ↦ rw (late, prune_loop) here
      | inr due ↦ elim (Option-cases (completed_namespace at (get id m.tasks))) [
        | inl skip ↦
            rw (due, skip, prune_loop)
              (Moves-trans pop (prune_loop-Moves heap (suc left) cutoff popped))
        | inr (ns, found) ↦ elim (Result-cases (prune_task id ns popped).0) [
          | inr (x, bad) ↦
              rw (due, found, bad, prune_loop)
                (Moves-trans pop (prune_task-Moves id ns at popped found))
          | inl (u, good) ↦
              rw (due, found, good, prune_loop)
                (Moves-trans pop (
                  Moves-trans (prune_task-Moves id ns at popped found)
                    (prune_loop-Moves heap left cutoff (prune_task id ns popped).1)))
        ]
      ]
    ]

prune_selected-Moves :
    (selected : List NamespaceId) (cutoff : ℕ) (m : BrokerStateMachine)
    → Moves true m (prune_selected selected cutoff m).1
unfolding prune_selected
prune_selected-Moves selected cutoff m = bind-Moves _ _ m here λ _ m₁.
    bind-Moves _ _ m₁ here λ _ m₂. bind-Moves _ _ m₂ (next_global_revision-Moves m₂) λ _ m₃.
      bind-Moves _ _ m₃ (prune_loop-Moves _ _ cutoff m₃) λ _ m₄.
        bind-Moves _ _ m₄ (still m₄ _ (ground arith) (ground arith) (ground arith))
          λ _ m₅. bind-Moves _ _ m₅ here λ _ _. here

prune_choice-Moves :
    (selected : List NamespaceId) (empty : CompletedTasksPrunedResult) (cutoff : ℕ)
    (m : BrokerStateMachine)
    → Moves true m
        ((elim selected as (λ _. Action CompletedTasksPrunedResult) [
          | [] ↦ pure empty
          | n ∷ ns ↦ prune_selected (n ∷ ns) cutoff
        ])
          m).1
prune_choice-Moves [] empty cutoff m = here
prune_choice-Moves (n ∷ ns) empty cutoff m = prune_selected-Moves (n ∷ ns) cutoff m

pub prune_completed_tasks-Moves :
    (c : PruneCompletedTasksCommand) (m : BrokerStateMachine)
    → Moves true m (prune_completed_tasks c m).1
unfolding prune_completed_tasks
prune_completed_tasks-Moves c m =
    bind-Moves _ _ m here
      λ _ m₁. bind-Moves _ _ m₁ here λ m₂ m₃. prune_choice-Moves _ _ c.completed_before_ms m₃
