-- ===== src/Machine/Protocol/Runs.antt =====
-- The loops over leases in crates/agent-broker-domain/src/state_machine.rs are made of moves.
use herterarchy_broker.Common.{
  Bool, ℕ, ◌≡◌, refl, ap, inl, inr, some, List, [], ◌∷◌, arith, Bool-cases, Option-cases,
  Result-cases,
}
use herterarchy_broker.Common.{not, ◌||◌}
use herterarchy_broker.Common.Keys.{◌==◌}
use herterarchy_broker.Common.Maps.{Map, get, insert, get-insert}
use herterarchy_broker.Identifiers.{NamespaceId, TaskId, ConsumerGroupId, ConsumerId}
use herterarchy_broker.Identifiers.Order.{id_key, id_eq_iff}
use herterarchy_broker.Task.{Task, requeue_if_expired, requeue_for_member}
use herterarchy_broker.Task.Laws.{
  TaskState-cases, requeue_if_expired-Requeued, requeue_for_member-Requeued,
}
use herterarchy_broker.Machine.State.{BrokerStateMachine}
use herterarchy_broker.Machine.Monad.{Action, ◌>>=◌}
use herterarchy_broker.Machine.Leases.{
  recover_task, recover_tasks, recover_expired_leases, pop_ready_task, requeue_task, requeue_tasks,
  requeue_member_leases,
}
use herterarchy_broker.Machine.Protocol.{Move, Moves, Moves-trans, keep, requeue, here}
use herterarchy_broker.Machine.Protocol

-- A change of other fields.
pub still :
    {pruning : Bool} (m m' : BrokerStateMachine)
    → m'.tasks ≡ m.tasks
    → m'.active_lease_tasks ≡ m.active_lease_tasks
    → m'.namespaces ≡ m.namespaces
    → Moves pruning m m'
still m m' et ea en =
    Protocol.next here (keep (λ j. ap (λ (ts : Map TaskId Task). get j ts) et) ea (λ j h. rw en h))

-- A task is written as it was.
pub rewritten :
    {pruning : Bool} (m m' : BrokerStateMachine) (id : TaskId) (t : Task)
    → get id m.tasks ≡ some t
    → m'.tasks ≡ insert id t m.tasks
    → m'.active_lease_tasks ≡ m.active_lease_tasks
    → m'.namespaces ≡ m.namespaces
    → Moves pruning m m'
rewritten m m' id t e et ea en =
    Protocol.next here
      (keep (λ j. ground (arith, get-insert id j t m.tasks, id_eq_iff id j)) ea (λ j h. rw en h))

-- The rule for a chain of methods, where the first establishes `P`.
pub bind_within-Moves {ℓ κ μ} :
    {pruning : Bool} {A : Type ℓ} {B : Type κ} (P : BrokerStateMachine → Type μ) (a : Action A)
    (f : A → Action B) (m : BrokerStateMachine)
    → Moves pruning m (a m).1
    → P (a m).1
    → ((x : A) (n : BrokerStateMachine) → P n → Moves pruning n (f x n).1)
    → Moves pruning m ((a >>= f) m).1
unfolding ◌>>=◌
bind_within-Moves P a f m p h q = elim (Result-cases (a m).0) [
  | inl (x, e) ↦ rw (e, ◌>>=◌) (Moves-trans p (q x (a m).1 h))
  | inr (x, e) ↦ rw (e, ◌>>=◌) p
]

pub bind-Moves {ℓ κ} :
    {pruning : Bool} {A : Type ℓ} {B : Type κ} (a : Action A) (f : A → Action B)
    (m : BrokerStateMachine)
    → Moves pruning m (a m).1
    → ((x : A) (n : BrokerStateMachine) → Moves pruning n (f x n).1)
    → Moves pruning m ((a >>= f) m).1
bind-Moves a f m p q = bind_within-Moves (λ _. Unit {0}) a f m p tt (λ x n _. q x n)

recover_task-Moves :
    {pruning : Bool} (ns : NamespaceId) (now : ℕ) (id : TaskId) (m : BrokerStateMachine)
    → Moves pruning m (recover_task ns now id m).1
unfolding recover_task
recover_task-Moves ns now id m = elim (Option-cases (get id m.tasks)) [
  | inl missing ↦ still m _ (ground arith) (ground arith) (ground arith)
  | inr (t, e) ↦ elim (TaskState-cases t.state) [
    | inl (q, s) ↦ still m _ (ground arith) (ground arith) (ground arith)
    | inr (inl (l, s)) ↦ elim (Result-cases (requeue_if_expired now t)) [
      | inl (out, h) ↦ elim (requeue_if_expired-Requeued now t out h) [
        | inl (l₁, s₁, _, k, did) ↦
            Protocol.next here (
              requeue id l₁ t out.1 e s₁ (ground arith) (ground arith) (ground arith)
                (ground arith))
        | inr same ↦ rewritten m _ id t e (ground arith) (ground arith) (ground arith)
      ]
      | inr (x, h) ↦ still m _ (ground arith) (ground arith) (ground arith)
    ]
    | inr (inr (c, s)) ↦ still m _ (ground arith) (ground arith) (ground arith)
  ]
]

recover_tasks-Moves :
    {pruning : Bool} (ns : NamespaceId) (now : ℕ) (ids : List TaskId) (m : BrokerStateMachine)
    → Moves pruning m (recover_tasks ns now ids m).1
unfolding recover_tasks
recover_tasks-Moves ns now [] m = here
recover_tasks-Moves ns now (id ∷ ids) m =
    bind-Moves _ _ m (recover_task-Moves ns now id m)
      λ n m'. bind-Moves _ _ m' (recover_tasks-Moves ns now ids m') λ _ _. here

pub recover_expired_leases-Moves :
    {pruning : Bool} (ns : NamespaceId) (now : ℕ) (m : BrokerStateMachine)
    → Moves pruning m (recover_expired_leases ns now m).1
unfolding recover_expired_leases
recover_expired_leases-Moves ns now m = elim (Option-cases (get ns m.lease_expirations)) [
  | inl e ↦ rw (e, recover_expired_leases) here
  | inr (heap, e) ↦
      rw (e, recover_expired_leases)
        (Moves-trans (still m _ refl refl refl) (recover_tasks-Moves ns now _ _))
]

pub pop_ready_task-Moves :
    {pruning : Bool} (ns : NamespaceId) (m : BrokerStateMachine)
    → Moves pruning m (pop_ready_task ns m).1
unfolding pop_ready_task
pop_ready_task-Moves ns m = still m _ (ground arith) (ground arith) (ground arith)

requeue_task-Moves :
    {pruning : Bool} (group : ConsumerGroupId) (member : ConsumerId) (id : TaskId)
    (m : BrokerStateMachine)
    → Moves pruning m (requeue_task group member id m).1
unfolding requeue_task
requeue_task-Moves group member id m = elim (Option-cases (get id m.tasks)) [
  | inl missing ↦ still m _ (ground arith) (ground arith) (ground arith)
  | inr (t, e) ↦ elim (TaskState-cases t.state) [
    | inl (q, s) ↦ still m _ (ground arith) (ground arith) (ground arith)
    | inr (inl (l, s)) ↦ elim (Result-cases (requeue_for_member group member t)) [
      | inl (out, h) ↦ elim (requeue_for_member-Requeued group member t out h) [
        | inl (l₁, s₁, own, k, did) ↦ Protocol.next here (
            requeue id l₁ t out.1 e s₁ (ground arith)
              (ground (arith, id_eq_iff l₁.group_id group, id_eq_iff l₁.owner_member_id member))
              (ground (arith, id_eq_iff l₁.group_id group, id_eq_iff l₁.owner_member_id member))
              (ground arith))
        | inr same ↦
            elim (Bool-cases (not (l.group_id == group) || not (l.owner_member_id == member))) [
              | inl other ↦ still m _ (ground arith) (ground arith) (ground arith)
              | inr own ↦ rewritten m _ id t e (ground arith) (ground arith) (ground arith)
            ]
      ]
      | inr (x, h) ↦ still m _ (ground arith) (ground arith) (ground arith)
    ]
    | inr (inr (c, s)) ↦ still m _ (ground arith) (ground arith) (ground arith)
  ]
]

requeue_tasks-Moves :
    {pruning : Bool} (group : ConsumerGroupId) (member : ConsumerId) (ids : List TaskId)
    (m : BrokerStateMachine)
    → Moves pruning m (requeue_tasks group member ids m).1
unfolding requeue_tasks
requeue_tasks-Moves group member [] m = here
requeue_tasks-Moves group member (id ∷ ids) m =
    bind-Moves _ _ m (requeue_task-Moves group member id m)
      λ n m'. bind-Moves _ _ m' (requeue_tasks-Moves group member ids m') λ _ _. here

pub requeue_member_leases-Moves :
    {pruning : Bool} (group : ConsumerGroupId) (member : ConsumerId) (m : BrokerStateMachine)
    → Moves pruning m (requeue_member_leases group member m).1
unfolding requeue_member_leases
requeue_member_leases-Moves group member m =
    Moves-trans (still m _ refl refl refl) (requeue_tasks-Moves group member _ _)
