-- ===== src/Machine/Protocol/Leasing.antt =====
-- Claim, renew and complete are made of moves.
use herterarchy_broker.Common.{
  Bool, ℕ, ◌≡◌, refl, inl, inr, Option, none, some, List, [], ◌∷◌, arith, Option-cases,
  Result-cases,
}
use herterarchy_broker.Common.Maps.{get, get-remove}
use herterarchy_broker.Identifiers.{NamespaceId, TaskId, LeaseId, ConsumerGroupId, ConsumerId}
use herterarchy_broker.Identifiers.Order.{id_key}
use herterarchy_broker.Task
use herterarchy_broker.Task.{Task, requeue_if_expired}
use herterarchy_broker.Task.Laws.{TaskState-cases, claim-ok, renew-ok, complete-cases}
use herterarchy_broker.Machine.State.{BrokerStateMachine}
use herterarchy_broker.Machine.Commands.{
  ClaimTaskCommand, RenewTaskLeaseCommand, CompleteTaskCommand,
}
use herterarchy_broker.Machine.Results.{TaskClaimResult}
use herterarchy_broker.Machine.Monad.{Action, self, ◌>>=◌}
use herterarchy_broker.Machine.Leases.{
  next_global_revision, require_term, require_group_member, checked_deadline, push_expiration,
  add_member_lease_task, recover_task, recover_tasks, recover_expired_leases, pop_ready_task,
  remove_member_lease_task,
}
use herterarchy_broker.Machine.Claims.{
  claim_task, claim_new, claim_ready, claim_nothing, claim_again, transition_task, grant_of,
  renew_task_lease, complete_task,
}
use herterarchy_broker.Machine.Protocol.{
  Move, Moves, Moves-trans, keep, claim, renew, complete, here,
}
use herterarchy_broker.Machine.Protocol
use herterarchy_broker.Machine.Protocol.Runs.{
  still, rewritten, bind-Moves, bind_within-Moves, recover_expired_leases-Moves,
  pop_ready_task-Moves,
}

-- The lease is not registered.
abbrev Spare : LeaseId → BrokerStateMachine → Type 0
Spare lease m = get lease m.active_lease_tasks ≡ none

recover_task-Spare :
    (ns : NamespaceId) (now : ℕ) (id : TaskId) (lease : LeaseId) (m : BrokerStateMachine)
    → Spare lease m
    → Spare lease (recover_task ns now id m).1
unfolding recover_task
recover_task-Spare ns now id lease m free = elim (Option-cases (get id m.tasks)) [
  | inl missing ↦ ground arith
  | inr (t, e) ↦ elim (TaskState-cases t.state) [
    | inl (q, s) ↦ ground arith
    | inr (inl (l, s)) ↦ ground (arith, get-remove l.lease_id lease m.active_lease_tasks)
    | inr (inr (c, s)) ↦ ground arith
  ]
]

recover_tasks-Spare :
    (ns : NamespaceId) (now : ℕ) (ids : List TaskId) (lease : LeaseId) (m : BrokerStateMachine)
    → Spare lease m
    → Spare lease (recover_tasks ns now ids m).1
unfolding recover_tasks ◌>>=◌
recover_tasks-Spare ns now [] lease m free = free
recover_tasks-Spare ns now (id ∷ ids) lease m free =
    let first = recover_task-Spare ns now id lease m free in
    ground (arith, recover_tasks-Spare ns now ids lease (recover_task ns now id m).1 first)

recover-Spare :
    (ns : NamespaceId) (now : ℕ) (lease : LeaseId) (m : BrokerStateMachine)
    → Spare lease m
    → Spare lease (recover_expired_leases ns now m).1
unfolding recover_expired_leases
recover-Spare ns now lease m free = elim (Option-cases (get ns m.lease_expirations)) [
  | inl e ↦ rw (e, recover_expired_leases) free
  | inr (heap, e) ↦ rw (e, recover_expired_leases) (recover_tasks-Spare ns now _ lease _ free)
]

pop-Spare :
    (ns : NamespaceId) (lease : LeaseId) (m : BrokerStateMachine)
    → Spare lease m
    → Spare lease (pop_ready_task ns m).1
unfolding pop_ready_task
pop-Spare ns lease m free = ground arith

claim_ready-Moves :
    {pruning : Bool} (c : ClaimTaskCommand) (ns : NamespaceId) (g : ℕ) (id : TaskId)
    (m : BrokerStateMachine)
    → Spare c.lease_id m
    → Moves pruning m (claim_ready c ns g id m).1
unfolding claim_ready transition_task next_global_revision push_expiration add_member_lease_task
    ◌>>=◌
claim_ready-Moves c ns g id m free =
    elim (Result-cases (checked_deadline c.now_ms c.lease_duration_ms)) [
      | inr (x, late) ↦ still m _ (ground arith) (ground arith) (ground arith)
      | inl (at, due) ↦ elim (Option-cases (get id m.tasks)) [
        | inl missing ↦ still m _ (ground arith) (ground arith) (ground arith)
        | inr (t, e) ↦ elim (Result-cases (Task.claim (grant_of c g at) t)) [
          | inr (x, h) ↦ still m _ (ground arith) (ground arith) (ground arith)
          | inl (t', h) ↦ elim (Result-cases (next_global_revision m).0) [
            | inr (x, full) ↦ still m _ (ground arith) (ground arith) (ground arith)
            | inl (r, room) ↦
                let (q, s, _, _, k) = claim-ok (grant_of c g at) t t' h in
                Protocol.next here (
                  claim id (grant_of c g at) t t' e free h (ground arith) (ground arith)
                    (ground arith))
          ]
        ]
      ]
    ]

claim_nothing-Moves :
    {pruning : Bool} (g recovered : ℕ) (m : BrokerStateMachine)
    → Moves pruning m (claim_nothing g recovered m).1
unfolding claim_nothing next_global_revision ◌>>=◌
claim_nothing-Moves g recovered m = still m _ (ground arith) (ground arith) (ground arith)

-- What is left of a claim after the recovery of expired leases.
claim_rest-Moves :
    {pruning : Bool} (c : ClaimTaskCommand) (ns : NamespaceId) (g recovered : ℕ)
    (found : Option TaskId) (m : BrokerStateMachine)
    → Spare c.lease_id m
    → Moves pruning m
        ((elim found as (λ _. Action TaskClaimResult) [
          | none ↦ claim_nothing g recovered
          | some id ↦ claim_ready c ns g id
        ])
          m).1
claim_rest-Moves c ns g recovered none m free = claim_nothing-Moves g recovered m
claim_rest-Moves c ns g recovered (some id) m free = claim_ready-Moves c ns g id m free

claim_new-Moves :
    {pruning : Bool} (c : ClaimTaskCommand) (ns : NamespaceId) (g : ℕ) (m : BrokerStateMachine)
    → Spare c.lease_id m
    → Moves pruning m (claim_new c ns g m).1
unfolding claim_new
claim_new-Moves c ns g m free =
    bind_within-Moves (Spare c.lease_id) _ _ m (recover_expired_leases-Moves ns c.now_ms m)
      (recover-Spare ns c.now_ms c.lease_id m free)
      λ k n free'.
        bind_within-Moves (Spare c.lease_id) _ _ n (pop_ready_task-Moves ns n)
          (pop-Spare ns c.lease_id n free')
          λ found n' free''. claim_rest-Moves c ns g k found n' free''

claim_again-Moves :
    {pruning : Bool} (c : ClaimTaskCommand) (g : ℕ) (id : TaskId) (m : BrokerStateMachine)
    → Moves pruning m (claim_again c g id m).1
unfolding claim_again
claim_again-Moves c g id m = still m _ (ground arith) (ground arith) (ground arith)

claim_choice-Moves :
    {pruning : Bool} (c : ClaimTaskCommand) (ns : NamespaceId) (g : ℕ) (m : BrokerStateMachine)
    (o : Option TaskId)
    → get c.lease_id m.active_lease_tasks ≡ o
    → Moves pruning m
        ((elim o as (λ _. Action TaskClaimResult) [
          | some id ↦ claim_again c g id
          | none ↦ claim_new c ns g
        ])
          m).1
claim_choice-Moves c ns g m none e = claim_new-Moves c ns g m e
claim_choice-Moves c ns g m (some id) e = claim_again-Moves c g id m

require_term-Moves :
    {pruning : Bool} (term : ℕ) (m : BrokerStateMachine) → Moves pruning m (require_term term m).1
unfolding require_term
require_term-Moves term m = bind-Moves _ _ m here λ _ n. here

require_group_member-Moves :
    {pruning : Bool} (group : ConsumerGroupId) (member : ConsumerId) (generation : ℕ)
    (m : BrokerStateMachine)
    → Moves pruning m (require_group_member group member generation m).1
unfolding require_group_member
require_group_member-Moves group member generation m = here

claim_self-Moves :
    {pruning : Bool} (c : ClaimTaskCommand) (ns : NamespaceId) (g : ℕ) (m : BrokerStateMachine)
    → Moves pruning m
        ((self >>= λ n.
            elim (get c.lease_id n.active_lease_tasks) as (λ _. Action TaskClaimResult) [
              | some id ↦ claim_again c g id
              | none ↦ claim_new c ns g
            ])
          m).1
unfolding ◌>>=◌
claim_self-Moves c ns g m = claim_choice-Moves c ns g m (get c.lease_id m.active_lease_tasks) refl

pub claim_task-Moves :
    {pruning : Bool} (c : ClaimTaskCommand) (m : BrokerStateMachine)
    → Moves pruning m (claim_task c m).1
unfolding claim_task
claim_task-Moves c m = bind-Moves _ _ m (require_term-Moves c.expected_term m) λ _ m₁.
    bind-Moves _ _ m₁ (require_group_member-Moves c.group_id c.member_id c.expected_generation m₁)
      λ k m₂. claim_self-Moves c k.0 k.1 m₂

abbrev pub renewal_fence : RenewTaskLeaseCommand → Task.LeaseFence
renewal_fence c = record {
  lease_id = c.lease_id;
  owner_member_id = c.member_id;
  group_id = c.group_id;
  generation = c.expected_generation;
  lease_epoch = c.expected_lease_epoch;
  observed_at_ms = c.now_ms;
}

pub renew_task_lease-Moves :
    {pruning : Bool} (c : RenewTaskLeaseCommand) (m : BrokerStateMachine)
    → Moves pruning m (renew_task_lease c m).1
unfolding renew_task_lease require_term require_group_member transition_task next_global_revision
    push_expiration ◌>>=◌
renew_task_lease-Moves c m = elim (Result-cases (checked_deadline c.now_ms c.lease_duration_ms)) [
  | inr (x, late) ↦ still m _ (ground arith) (ground arith) (ground arith)
  | inl (at, due) ↦ elim (Option-cases (get c.task_id m.tasks)) [
    | inl missing ↦ still m _ (ground arith) (ground arith) (ground arith)
    | inr (t, e) ↦ elim (Result-cases (Task.renew (renewal_fence c) at t)) [
      | inr (x, h) ↦ still m _ (ground arith) (ground arith) (ground arith)
      | inl (t', h) ↦ elim (Result-cases (renew_task_lease c m).0) [
        | inr (x, refused) ↦
            let (l, s, _, _, k) = renew-ok (renewal_fence c) at t t' h in
            still m _ (ground arith) (ground arith) (ground arith)
        | inl (r, accepted) ↦ Protocol.next here (
            renew c.task_id (renewal_fence c) at t t' e h (ground arith) (ground arith)
              (ground arith))
      ]
    ]
  ]
]

abbrev pub completion_fence : CompleteTaskCommand → Task.LeaseFence
completion_fence c = record {
  lease_id = c.lease_id;
  owner_member_id = c.member_id;
  group_id = c.group_id;
  generation = c.expected_generation;
  lease_epoch = c.expected_lease_epoch;
  observed_at_ms = c.completed_at_ms;
}

pub complete_task-Moves :
    {pruning : Bool} (c : CompleteTaskCommand) (m : BrokerStateMachine)
    → Moves pruning m (complete_task c m).1
unfolding complete_task require_term require_group_member transition_task next_global_revision
    remove_member_lease_task ◌>>=◌
complete_task-Moves c m = elim (Option-cases (get c.task_id m.tasks)) [
  | inl missing ↦ still m _ (ground arith) (ground arith) (ground arith)
  | inr (t, e) ↦ elim (Result-cases (Task.complete (completion_fence c) c.result t)) [
    | inr (x, h) ↦ still m _ (ground arith) (ground arith) (ground arith)
    | inl (out, h) ↦ elim (Result-cases (complete_task c m).0) [
      | inr (x, refused) ↦ still m _ (ground arith) (ground arith) (ground arith)
      | inl (r, accepted) ↦ elim (complete-cases (completion_fence c) c.result t out h) [
        | inl (d, s, k) ↦ rewritten m _ c.task_id t e (ground arith) (ground arith) (ground arith)
        | inr (l, s, mt, _, k) ↦ Protocol.next here (
            complete c.task_id (completion_fence c) c.result t out.1 e (ground arith) (ground arith)
              (ground arith) (ground arith))
      ]
    ]
  ]
]
