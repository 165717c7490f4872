-- ===== src/Machine/Clock/Loops.antt =====
-- The loops of crates/agent-broker-domain/src/state_machine.rs leave the term and the global
-- revision alone.
use herterarchy_broker.Common.{
  ℕ, zero, suc, inl, inr, List, [], ◌∷◌, Result, arith, Bool-cases, Option-cases, Result-cases, ltb,
}
use herterarchy_broker.Common.Maps.{Map, get}
use herterarchy_broker.Identifiers.{NamespaceId, TaskId, ConsumerGroupId, ConsumerId}
use herterarchy_broker.Identifiers.Order.{id_key}
use herterarchy_broker.Group.{Consumer}
use herterarchy_broker.Group.Coordinator.{Groups, GroupCoordinatorError}
use herterarchy_broker.Machine.State.{BrokerStateMachine, CompletedTaskHeap}
use herterarchy_broker.Machine.Monad.{Action, ◌>>=◌}
use herterarchy_broker.Machine.Leases.{
  recover_task, recover_tasks, recover_expired_leases, pop_ready_task, requeue_task, requeue_tasks,
  requeue_member_leases,
}
use herterarchy_broker.Machine.Registry.{coordinate}
use herterarchy_broker.Machine.Membership.{requeue_removed, reap_group, reap_groups}
use herterarchy_broker.Machine.Retention.{prune_task, prune_loop, completed_namespace}
use herterarchy_broker.Machine.Clock.{Shows}

bind-Shows {ℓ κ} :
    {A : Type ℓ} {B : Type κ} {r t : ℕ} (a : Action A) (f : A → Action B) (m : BrokerStateMachine)
    → Shows r t (a m).1
    → ((x : A) (n : BrokerStateMachine) → Shows r t n → Shows r t (f x n).1)
    → Shows r t ((a >>= f) m).1
unfolding ◌>>=◌
bind-Shows a f m p q = elim (Result-cases (a m).0) [
  | inl (x, e) ↦ rw (e, ◌>>=◌) (q x (a m).1 p)
  | inr (x, e) ↦ rw (e, ◌>>=◌) p
]

recover_task-Shows :
    (r t : ℕ) (ns : NamespaceId) (now : ℕ) (id : TaskId) (m : BrokerStateMachine)
    → Shows r t m
    → Shows r t (recover_task ns now id m).1
unfolding recover_task
recover_task-Shows r t ns now id m s = ground arith

recover_tasks-Shows :
    (r t : ℕ) (ns : NamespaceId) (now : ℕ) (ids : List TaskId) (m : BrokerStateMachine)
    → Shows r t m
    → Shows r t (recover_tasks ns now ids m).1
unfolding recover_tasks
recover_tasks-Shows r t ns now [] m s = s
recover_tasks-Shows r t ns now (id ∷ ids) m s =
    bind-Shows _ _ m (recover_task-Shows r t ns now id m s)
      λ _ n s₁. bind-Shows _ _ n (recover_tasks-Shows r t ns now ids n s₁) λ _ _ s₂. s₂

pub recover_expired_leases-Shows :
    (r t : ℕ) (ns : NamespaceId) (now : ℕ) (m : BrokerStateMachine)
    → Shows r t m
    → Shows r t (recover_expired_leases ns now m).1
unfolding recover_expired_leases
recover_expired_leases-Shows r t ns now m s = elim (Option-cases (get ns m.lease_expirations)) [
  | inl e ↦ rw (e, recover_expired_leases) s
  | inr (heap, e) ↦
      rw (e, recover_expired_leases) (recover_tasks-Shows r t ns now _ _ (ground arith))
]

pub pop_ready_task-Shows :
    (r t : ℕ) (ns : NamespaceId) (m : BrokerStateMachine)
    → Shows r t m
    → Shows r t (pop_ready_task ns m).1
unfolding pop_ready_task
pop_ready_task-Shows r t ns m s = ground arith

requeue_task-Shows :
    (r t : ℕ) (group : ConsumerGroupId) (member : ConsumerId) (id : TaskId) (m : BrokerStateMachine)
    → Shows r t m
    → Shows r t (requeue_task group member id m).1
unfolding requeue_task
requeue_task-Shows r t group member id m s = ground arith

requeue_tasks-Shows :
    (r t : ℕ) (group : ConsumerGroupId) (member : ConsumerId) (ids : List TaskId)
    (m : BrokerStateMachine)
    → Shows r t m
    → Shows r t (requeue_tasks group member ids m).1
unfolding requeue_tasks
requeue_tasks-Shows r t group member [] m s = s
requeue_tasks-Shows r t group member (id ∷ ids) m s =
    bind-Shows _ _ m (requeue_task-Shows r t group member id m s)
      λ _ n s₁. bind-Shows _ _ n (requeue_tasks-Shows r t group member ids n s₁) λ _ _ s₂. s₂

pub requeue_member_leases-Shows :
    (r t : ℕ) (group : ConsumerGroupId) (member : ConsumerId) (m : BrokerStateMachine)
    → Shows r t m
    → Shows r t (requeue_member_leases group member m).1
unfolding requeue_member_leases
requeue_member_leases-Shows r t group member m s =
    requeue_tasks-Shows r t group member _ _ (ground arith)

pub coordinate-Shows {ℓ} :
    {A : Type ℓ} (r t : ℕ) (step : Groups → Result GroupCoordinatorError (A × Groups))
    (m : BrokerStateMachine)
    → Shows r t m
    → Shows r t (coordinate step m).1
unfolding coordinate
coordinate-Shows r t step m s = ground arith

requeue_removed-Shows :
    (r t : ℕ) (id : ConsumerGroupId) (members : List Consumer) (m : BrokerStateMachine)
    → Shows r t m
    → Shows r t (requeue_removed id members m).1
unfolding requeue_removed
requeue_removed-Shows r t id [] m s = s
requeue_removed-Shows r t id (c ∷ cs) m s =
    bind-Shows _ _ m (requeue_member_leases-Shows r t id c.id m s)
      λ _ n s₁. requeue_removed-Shows r t id cs n s₁

reap_group-Shows :
    (r t : ℕ) (id : ConsumerGroupId) (members : List ConsumerId) (stale : ℕ)
    (m : BrokerStateMachine)
    → Shows r t m
    → Shows r t (reap_group id members stale m).1
unfolding reap_group
reap_group-Shows r t id members stale m s =
    bind-Shows _ _ m (coordinate-Shows r t _ m s)
      λ removed n s₁. bind-Shows _ _ n (requeue_removed-Shows r t id removed n s₁) λ _ _ s₂. s₂

pub reap_groups-Shows :
    (r t : ℕ) (selected : Map ConsumerGroupId (List ConsumerId)) (stale : ℕ)
    (m : BrokerStateMachine)
    → Shows r t m
    → Shows r t (reap_groups selected stale m).1
unfolding reap_groups
reap_groups-Shows r t [] stale m s = s
reap_groups-Shows r t ((id, members) ∷ selected) stale m s =
    bind-Shows _ _ m (reap_group-Shows r t id members stale m s)
      λ _ n s₁. bind-Shows _ _ n (reap_groups-Shows r t selected stale n s₁) λ _ _ s₂. s₂

prune_task-Shows :
    (r t : ℕ) (id : TaskId) (ns : NamespaceId) (m : BrokerStateMachine)
    → Shows r t m
    → Shows r t (prune_task id ns m).1
unfolding prune_task ◌>>=◌
prune_task-Shows r t id ns m s = ground arith

pub prune_loop-Shows :
    (r t : ℕ) (heap : CompletedTaskHeap) (left cutoff : ℕ) (m : BrokerStateMachine)
    → Shows r t m
    → Shows r t (prune_loop heap left cutoff m).1
unfolding prune_loop
prune_loop-Shows r t heap zero cutoff m s = s
prune_loop-Shows r t [] (suc left) cutoff m s = s
prune_loop-Shows r t ((at, id) ∷ heap) (suc left) cutoff m s =
    let popped = record m { completed_tasks = heap } in
    let p = (prune_loop-Shows r t heap (suc left) cutoff popped (ground arith)) in
    elim (Bool-cases (ltb cutoff at)) [
      | inl late ↦ rw (late, prune_loop) s
      | inr due ↦ elim (Option-cases (completed_namespace at (get id m.tasks))) [
        | inl skip ↦ rw (due, skip, prune_loop) p
        | inr (ns, found) ↦
            let s₁ = prune_task-Shows r t id ns popped (ground arith) in
            elim (Result-cases (prune_task id ns popped).0) [
              | inr (x, bad) ↦ rw (due, found, bad, prune_loop) s₁
              | inl (u, good) ↦
                  rw (due, found, good, prune_loop)
                    (prune_loop-Shows r t heap left cutoff (prune_task id ns popped).1 s₁)
            ]
      ]
    ]
