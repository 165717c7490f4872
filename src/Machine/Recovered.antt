-- ===== src/Machine/Recovered.antt =====
-- A machine that `from_checkpoint` of crates/agent-broker-domain/src/state_machine.rs accepts.
use herterarchy_broker.Common.{
  true, ◌≡◌, ◌⊎◌, inl, inr, some, List, [], ◌∷◌, ok, arith, Bool-cases, Result-cases,
}
use herterarchy_broker.Common.Keys.{◌==◌}
use herterarchy_broker.Common.Maps.{Map, values, get, contains_key, get-insert}
use herterarchy_broker.Identifiers.{NamespaceId, TaskId, LeaseId}
use herterarchy_broker.Identifiers.Order.{id_key, id_eq_iff}
use herterarchy_broker.Task.{Task, TaskState, LeasedTask}
use herterarchy_broker.Task.Laws.{TaskState-cases}
use herterarchy_broker.Task.Checkpoint as TaskCheckpoint
use herterarchy_broker.Machine.State.{BrokerState, BrokerStateMachine, Namespace}
use herterarchy_broker.Machine.Recovery.{
  BrokerCheckpoint, RestoredIndexes, count_one, require_positive_revision, restore_namespaces,
  restore_groups, restore_task, restore_tasks, restore_state, rebuild_task_indexes, rebuild_tasks,
  rebuild_indexes, from_checkpoint,
}
use herterarchy_broker.Machine.Commands.{BrokerCommand}
use herterarchy_broker.Machine.{run}
use herterarchy_broker.Machine.Protocol.{Moves}
use herterarchy_broker.Machine.Protocol.Commands.{run-Moves}
use herterarchy_broker.Machine.Protocol.Exclusive.{IsExclusive, Moves-IsExclusive}

abbrev IsKeyed : Map TaskId Task → Type 0
IsKeyed tasks = (id : TaskId) (t : Task) → get id tasks ≡ some t → t.id ≡ id

restore_task-IsKeyed :
    (ns : Map NamespaceId Namespace) (c : TaskCheckpoint.TaskCheckpoint) (m m' : Map TaskId Task)
    → IsKeyed m
    → restore_task ns c m ≡ ok m'
    → IsKeyed m'
unfolding restore_task require_positive_revision TaskCheckpoint.from_checkpoint
restore_task-IsKeyed ns c m m' k h id t e = ground (
  arith,
  get-insert c.task_id id (TaskCheckpoint.from_checkpoint c) m,
  id_eq_iff c.task_id id,
  k id t,
)

restore_tasks-IsKeyed :
    (ns : Map NamespaceId Namespace) (cs : List TaskCheckpoint.TaskCheckpoint)
    (m m' : Map TaskId Task)
    → IsKeyed m
    → restore_tasks ns cs m ≡ ok m'
    → IsKeyed m'
unfolding restore_tasks
restore_tasks-IsKeyed ns [] m m' k h = λ id t e. ground (arith, k id t)
restore_tasks-IsKeyed ns (c ∷ cs) m m' k h = elim (Result-cases (restore_task ns c m)) [
  | inl (n, e) ↦ restore_tasks-IsKeyed ns cs n m' (restore_task-IsKeyed ns c m n k e) (ground arith)
  | inr (x, e) ↦ absurd (ground arith)
]

restore_state-IsKeyed :
    (c : BrokerCheckpoint) (s : BrokerState) → restore_state c ≡ ok s → IsKeyed s.tasks
unfolding restore_state get
restore_state-IsKeyed c s h = elim (Result-cases (restore_namespaces c.namespaces [])) [
  | inr (x, e) ↦ absurd (ground arith)
  | inl (ns, e) ↦ elim (Result-cases (restore_groups ns c.groups [])) [
    | inr (x, f) ↦ absurd (ground arith)
    | inl (gs, f) ↦ elim (Result-cases (restore_tasks ns c.tasks [])) [
      | inr (x, g) ↦ absurd (ground arith)
      | inl (ts, g) ↦
          restore_tasks-IsKeyed ns c.tasks [] s.tasks (λ id t none_there. ground arith)
            (ground arith)
    ]
  ]
]

-- An index that was built further: no registration is lost.
abbrev Extends : RestoredIndexes → RestoredIndexes → Type 0
Extends ix ix' =
    (l : LeaseId) (id : TaskId)
    → get l ix.active_lease_tasks ≡ some id
    → get l ix'.active_lease_tasks ≡ some id

rebuild_task-Extends :
    (ix ix' : RestoredIndexes) (t : Task) → rebuild_task_indexes ix t ≡ ok ix' → Extends ix ix'
unfolding rebuild_task_indexes contains_key
rebuild_task-Extends ix ix' t h l id e = elim (TaskState-cases t.state) [
  | inl (q, s) ↦ ground arith
  | inr (inl (k, s)) ↦
      ground (arith, get-insert k.lease_id l t.id ix.active_lease_tasks, id_eq_iff k.lease_id l)
  | inr (inr (d, s)) ↦ ground arith
]

rebuild_task-registered :
    (ix ix' : RestoredIndexes) (t : Task) (k : LeasedTask)
    → rebuild_task_indexes ix t ≡ ok ix'
    → t.state ≡ TaskState.leased k
    → get k.lease_id ix'.active_lease_tasks ≡ some t.id
unfolding rebuild_task_indexes
rebuild_task-registered ix ix' t k h s = ground (
  arith,
  get-insert k.lease_id k.lease_id t.id ix.active_lease_tasks,
  id_eq_iff k.lease_id k.lease_id,
)

abbrev In : Task → List Task → Type 0
In t [] = ⊥
In t (u ∷ us) = (t ≡ u) ⊎ In t us

rebuild_tasks-registered :
    (ts : List Task) (ix ix' : RestoredIndexes)
    → rebuild_tasks ts ix ≡ ok ix'
    → Extends ix ix'
      × ((t : Task) (k : LeasedTask)
          → In t ts
          → t.state ≡ TaskState.leased k
          → get k.lease_id ix'.active_lease_tasks ≡ some t.id)
unfolding rebuild_tasks
rebuild_tasks-registered [] ix ix' h = (λ l id e. ground arith, λ t k there st. absurd there)
rebuild_tasks-registered (t ∷ ts) ix ix' h =
    let start = record ix {
      namespace_task_counts = count_one t.namespace_id ix.namespace_task_counts;
    } in
    elim (Result-cases (rebuild_task_indexes start t)) [
      | inr (x, e) ↦ absurd (ground arith)
      | inl (n, e) ↦
          let (grows, found) = rebuild_tasks-registered ts n ix' (ground arith) in
          (
            λ l id was. grows l id (rebuild_task-Extends start n t e l id was),
            λ u k there st. elim there [
              | inl same ↦ ground (
                arith,
                grows k.lease_id t.id (rebuild_task-registered start n t k e (ground arith)),
              )
              | inr later ↦ found u k later st
            ],
          )
    ]

get-In :
    (id : TaskId) (t : Task) (tasks : Map TaskId Task) → get id tasks ≡ some t → In t (values tasks)
unfolding get
get-In id t [] e = ground arith
get-In id t ((j, u) ∷ tasks) e = elim (Bool-cases (j == id)) [
  | inl here ↦ inl (ground arith)
  | inr later ↦ inr (get-In id t tasks (ground arith))
]

-- Whatever checkpoint a machine is restored from, the registry of active leases of the restored
-- machine covers every leased task; and so it does after any further moves.
from_checkpoint-IsExclusive :
    (c : BrokerCheckpoint) (m m' : BrokerStateMachine)
    → from_checkpoint c ≡ ok m
    → Moves true m m'
    → IsExclusive m'
unfolding from_checkpoint rebuild_indexes
from_checkpoint-IsExclusive c m m' h moves = elim (Result-cases (restore_state c)) [
  | inr (x, e) ↦ absurd (ground arith)
  | inl (s, e) ↦ elim (Result-cases (rebuild_indexes s)) [
    | inr (x, f) ↦ absurd (ground arith)
    | inl (ix, f) ↦
        let (_, found) = rebuild_tasks-registered (values s.tasks) _ ix f in
        let keyed = restore_state-IsKeyed c s e in
        Moves-IsExclusive moves λ id t l et st.
          let there = get-In id t s.tasks (ground arith) in
          ground (arith, found t l there st, keyed id t)
  ]
]

-- Whatever checkpoint a machine is restored from, and whatever commands are applied then, failed
-- ones included, two tasks that are leased under the same lease identity are one task.
pub restored-leased_once :
    (c : BrokerCheckpoint) (m : BrokerStateMachine) (cs : List BrokerCommand) (a b : TaskId)
    (t u : Task) (l k : LeasedTask)
    → from_checkpoint c ≡ ok m
    → get a (run cs m).tasks ≡ some t
    → get b (run cs m).tasks ≡ some u
    → t.state ≡ TaskState.leased l
    → u.state ≡ TaskState.leased k
    → l.lease_id ≡ k.lease_id
    → a ≡ b
restored-leased_once c m cs a b t u l k h et eu st su same =
    let r = from_checkpoint-IsExclusive c m (run cs m) h (run-Moves cs m) in
    ground (arith, r a t l et st, r b u k eu su)
