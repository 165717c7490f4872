-- ===== src/Machine/Protocol.antt =====
-- An abstract view of crates/agent-broker-domain/src/state_machine.rs: the moves that commands are
-- made of, as a step relation on the tasks and the registry of active leases.
pub mod Runs
pub mod Registration
pub mod Leasing
pub mod Departures
pub mod Commands
pub mod Exclusive
pub mod Housing
pub mod History
use herterarchy_broker.Common.{ℕ, ◌≡◌, refl, Bool, true, Option, none, some, Result, ok, is_some}
use herterarchy_broker.Common.Maps.{Map, get, insert, remove}
use herterarchy_broker.Identifiers.{NamespaceId, TaskId}
use herterarchy_broker.Identifiers.Order.{id_key}
use herterarchy_broker.Task
use herterarchy_broker.Task.{
  Task, TaskState, LeasedTask, CompletedTask, TaskObjective, TaskResult, LeaseGrant, LeaseFence,
  CompletionOutcome, new_task,
}
use herterarchy_broker.Machine.State.{BrokerStateMachine, Namespace}

abbrev pub Grows : Map NamespaceId Namespace → Map NamespaceId Namespace → Type 0
Grows ns ns' = (id : NamespaceId) → is_some (get id ns) ≡ true → is_some (get id ns') ≡ true

-- One move, where a task may be removed only if `pruning`. All but `keep` change one task, and say what becomes of the active leases.
pub data Move (pruning : Bool) (m m' : BrokerStateMachine) : Type 0 where
  keep :
      ((id : TaskId) → get id m'.tasks ≡ get id m.tasks)
      → m'.active_lease_tasks ≡ m.active_lease_tasks
      → Grows m.namespaces m'.namespaces
      → Move pruning m m'
  publish :
      (id : TaskId) (ns : NamespaceId) (o : TaskObjective) (at : ℕ)
      → get id m.tasks ≡ none
      → is_some (get ns m.namespaces) ≡ true
      → m'.tasks ≡ insert id (new_task id ns o at) m.tasks
      → m'.active_lease_tasks ≡ m.active_lease_tasks
      → m'.namespaces ≡ m.namespaces
      → Move pruning m m'
  claim :
      (id : TaskId) (grant : LeaseGrant) (t t' : Task)
      → get id m.tasks ≡ some t
      → get grant.lease_id m.active_lease_tasks ≡ none
      → Task.claim grant t ≡ ok t'
      → m'.tasks ≡ insert id t' m.tasks
      → m'.active_lease_tasks ≡ insert grant.lease_id id m.active_lease_tasks
      → m'.namespaces ≡ m.namespaces
      → Move pruning m m'
  renew :
      (id : TaskId) (fence : LeaseFence) (expires : ℕ) (t t' : Task)
      → get id m.tasks ≡ some t
      → Task.renew fence expires t ≡ ok t'
      → m'.tasks ≡ insert id t' m.tasks
      → m'.active_lease_tasks ≡ m.active_lease_tasks
      → m'.namespaces ≡ m.namespaces
      → Move pruning m m'
  complete :
      (id : TaskId) (fence : LeaseFence) (result : TaskResult) (t t' : Task)
      → get id m.tasks ≡ some t
      → Task.complete fence result t ≡ ok (CompletionOutcome.completed, t')
      → m'.tasks ≡ insert id t' m.tasks
      → m'.active_lease_tasks ≡ remove fence.lease_id m.active_lease_tasks
      → m'.namespaces ≡ m.namespaces
      → Move pruning m m'
  requeue :
      (id : TaskId) (lease : LeasedTask) (t t' : Task)
      → get id m.tasks ≡ some t
      → t.state ≡ TaskState.leased lease
      → Task.requeue lease t ≡ ok (true, t')
      → m'.tasks ≡ insert id t' m.tasks
      → m'.active_lease_tasks ≡ remove lease.lease_id m.active_lease_tasks
      → m'.namespaces ≡ m.namespaces
      → Move pruning m m'
  prune :
      pruning ≡ true
      → (id : TaskId) (t : Task) (c : CompletedTask) → get id m.tasks ≡ some t
      → t.state ≡ TaskState.completed c
      → m'.tasks ≡ remove id m.tasks
      → m'.active_lease_tasks ≡ m.active_lease_tasks
      → m'.namespaces ≡ m.namespaces
      → Move pruning m m'

pub data Moves (pruning : Bool) (m : BrokerStateMachine) : BrokerStateMachine → Type 0 where
  here : Moves pruning m m
  next : {n k : BrokerStateMachine} → Moves pruning m n → Move pruning n k → Moves pruning m k

pub Moves-trans :
    {pruning : Bool} {m n k : BrokerStateMachine}
    → Moves pruning m n
    → Moves pruning n k
    → Moves pruning m k
Moves-trans p here = p
Moves-trans p (next q s) = next (Moves-trans p q) s

Move-any : {pruning : Bool} {m n : BrokerStateMachine} → Move pruning m n → Move true m n
Move-any (keep et ea en) = keep et ea en
Move-any (publish id ns o at fresh known et ea en) = publish id ns o at fresh known et ea en
Move-any (claim id grant t t' e free h et ea en) = claim id grant t t' e free h et ea en
Move-any (renew id fence x t t' e h et ea en) = renew id fence x t t' e h et ea en
Move-any (complete id fence r t t' e h et ea en) = complete id fence r t t' e h et ea en
Move-any (requeue id lease t t' e s h et ea en) = requeue id lease t t' e s h et ea en
Move-any (prune p id t c e s et ea en) = prune refl id t c e s et ea en

pub Moves-any : {pruning : Bool} {m n : BrokerStateMachine} → Moves pruning m n → Moves true m n
Moves-any here = here
Moves-any (next q s) = next (Moves-any q) (Move-any s)
