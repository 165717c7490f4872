-- ===== src/Machine/Grants.antt =====
-- What a claim of crates/agent-broker-domain/src/state_machine.rs hands out, and what a claim that
-- comes too late for its deadline leaves behind.
use herterarchy_broker.Common.{
  ℕ, ◌+◌, ◌<◌, ◌≡◌, inl, inr, Option, none, some, ◌∷◌, Result, ok, err, arith, Option-cases,
  Result-cases, true, nat_eq,
}
use herterarchy_broker.Common.Maps.{get, insert, get-insert_self}
use herterarchy_broker.Fencing.{u64_max, checked_add}
use herterarchy_broker.Identifiers.{NamespaceId, TaskId}
use herterarchy_broker.Identifiers.Order.{id_key, id_eq_iff}
use herterarchy_broker.Task
use herterarchy_broker.Task.{Task, TaskState, LeasedTask, QueuedTask}
use herterarchy_broker.Task.Laws.{claim-ok, TaskState-cases}
use herterarchy_broker.Machine.State.{
  BrokerStateMachine, StateMachineError, ReadyTaskHeap, timestamp_overflow,
}
use herterarchy_broker.Machine.Commands.{ClaimTaskCommand}
use herterarchy_broker.Machine.Results.{TaskClaimResult}
use herterarchy_broker.Machine.Monad.{Action, ◌>>=◌}
use herterarchy_broker.Machine.Leases.{
  next_global_revision, require_term, require_group_member, push_expiration, add_member_lease_task,
  checked_deadline, pop_ready_task, recover_expired_leases, scan_ready,
}
use herterarchy_broker.Machine.Claims.{
  claim_task, claim_new, claim_ready, claim_again, claim_nothing, transition_task, grant_of,
  task_claim_result, empty_claim,
}
use herterarchy_broker.Machine.Clock.{Ends, bind-Ends}
use herterarchy_broker.Group.Coordinator.{require_member}

-- A stored task of this identity is leased to the member and group that claimed, and the result
-- tells its lease identity, epoch and deadline.
pub record Handed (c : ClaimTaskCommand) (r : TaskClaimResult) (id : TaskId)
    (m : BrokerStateMachine) : Type 0 where
  pub key : TaskId
  pub task : Task
  pub lease : LeasedTask
  pub stored : get key m.tasks ≡ some task
  pub same_id : task.id ≡ id
  pub leased : task.state ≡ TaskState.leased lease
  pub owner : lease.owner_member_id ≡ c.member_id
  pub group : lease.group_id ≡ c.group_id
  pub told_lease : r.lease_id ≡ some lease.lease_id
  pub told_epoch : r.lease_epoch ≡ some lease.lease_epoch
  pub told_deadline : r.lease_expires_at_ms ≡ some lease.expires_at_ms

abbrev Told : ClaimTaskCommand → TaskClaimResult → BrokerStateMachine → Type 0
Told c r m = (id : TaskId) → r.task_id ≡ some id → Handed c r id m

abbrev Any : BrokerStateMachine → Type 0
Any m = Unit {0}

free-Ends {ℓ} :
    {A : Type ℓ} (out : Result StateMachineError A × BrokerStateMachine) → Ends (λ _. Any) Any out
free-Ends out = record { success = λ _ _. tt; failure = λ _ _. tt }

claim_again-Told :
    (c : ClaimTaskCommand) (g : ℕ) (id : TaskId) (m : BrokerStateMachine)
    → Ends (Told c) Any (claim_again c g id m)
unfolding claim_again task_claim_result
claim_again-Told c g id m = record {
  success = λ r h j told. elim (Option-cases (get id m.tasks)) [
    | inl missing ↦ absurd (ground arith)
    | inr (t, e) ↦ elim (TaskState-cases t.state) [
      | inl (q, s) ↦ absurd (ground arith)
      | inr (inl (l, s)) ↦ record {
        key = id;
        task = t;
        lease = l;
        stored = ground arith;
        same_id = ground arith;
        leased = s;
        owner = ground (arith, id_eq_iff l.owner_member_id c.member_id);
        group = ground (arith, id_eq_iff l.group_id c.group_id);
        told_lease = ground arith;
        told_epoch = ground arith;
        told_deadline = ground arith;
      }
      | inr (inr (d, s)) ↦ absurd (ground arith)
    ]
  ];
  failure = λ _ _. tt;
}

claim_nothing-Told :
    (c : ClaimTaskCommand) (g recovered : ℕ) (m : BrokerStateMachine)
    → Ends (Told c) Any (claim_nothing g recovered m)
unfolding claim_nothing empty_claim next_global_revision ◌>>=◌
claim_nothing-Told c g recovered m = record {
  success = λ r h j told. absurd (ground arith);
  failure = λ _ _. tt;
}

claim_ready-Told :
    (c : ClaimTaskCommand) (ns : NamespaceId) (g : ℕ) (id : TaskId) (m : BrokerStateMachine)
    → Ends (Told c) Any (claim_ready c ns g id m)
unfolding claim_ready transition_task task_claim_result next_global_revision push_expiration
    add_member_lease_task ◌>>=◌
claim_ready-Told c ns g id m = record {
  success = λ r h j told. elim (Result-cases (checked_deadline c.now_ms c.lease_duration_ms)) [
    | inr (x, late) ↦ absurd (ground arith)
    | inl (at, due) ↦ elim (Option-cases (get id m.tasks)) [
      | inl missing ↦ absurd (ground arith)
      | inr (u, e) ↦ elim (Result-cases (Task.claim (grant_of c g at) u)) [
        | inr (x, bad) ↦ absurd (ground arith)
        | inl (u', good) ↦
            let put = get-insert_self id u' m.tasks in
            let (q, queued, _, _, k) = claim-ok (grant_of c g at) u u' good in
            elim (TaskState-cases u'.state) [
              | inl (q', s) ↦ absurd (ground arith)
              | inr (inl (l, s)) ↦ record {
                key = id;
                task = u';
                lease = l;
                stored = ground (arith, put);
                same_id = ground (arith, put);
                leased = s;
                owner = ground arith;
                group = ground arith;
                told_lease = ground (arith, put);
                told_epoch = ground (arith, put);
                told_deadline = ground (arith, put);
              }
              | inr (inr (d, s)) ↦ absurd (ground arith)
            ]
      ]
    ]
  ];
  failure = λ _ _. tt;
}

claim_rest-Told :
    (c : ClaimTaskCommand) (ns : NamespaceId) (g recovered : ℕ) (found : Option TaskId)
    (m : BrokerStateMachine)
    → Ends (Told c) Any (
        (elim found as (λ _. Action TaskClaimResult) [
          | none ↦ claim_nothing g recovered
          | some id ↦ claim_ready c ns g id
        ])
          m)
claim_rest-Told c ns g recovered none m = claim_nothing-Told c g recovered m
claim_rest-Told c ns g recovered (some id) m = claim_ready-Told c ns g id m

claim_new-Told :
    (c : ClaimTaskCommand) (ns : NamespaceId) (g : ℕ) (m : BrokerStateMachine)
    → Ends (Told c) Any (claim_new c ns g m)
unfolding claim_new
claim_new-Told c ns g m =
    bind-Ends _ _ m (free-Ends _)
      λ k n _. bind-Ends _ _ n (free-Ends _) λ found n' _. claim_rest-Told c ns g k found n'

claim_choice-Told :
    (c : ClaimTaskCommand) (ns : NamespaceId) (g : ℕ) (o : Option TaskId) (m : BrokerStateMachine)
    → Ends (Told c) Any (
        (elim o as (λ _. Action TaskClaimResult) [
          | some id ↦ claim_again c g id
          | none ↦ claim_new c ns g
        ])
          m)
claim_choice-Told c ns g none m = claim_new-Told c ns g m
claim_choice-Told c ns g (some id) m = claim_again-Told c g id m

claim_task-Ends :
    (c : ClaimTaskCommand) (m : BrokerStateMachine) → Ends (Told c) Any (claim_task c m)
unfolding claim_task
claim_task-Ends c m = bind-Ends _ _ m (free-Ends _) λ _ m₁ _.
    bind-Ends _ _ m₁ (free-Ends _)
      λ k m₂ _. bind-Ends _ _ m₂ (free-Ends _) λ _ m₃ _. claim_choice-Told c k.0 k.1 _ m₃

-- When a claim succeeds and names a task, a task of that identity is stored and leased to the member and the group that
-- claimed, and the lease identity, the lease epoch and the deadline in the result are those of the
-- stored lease.
pub claim_task-Handed :
    (c : ClaimTaskCommand) (m : BrokerStateMachine) (r : TaskClaimResult) (id : TaskId)
    → (claim_task c m).0 ≡ ok r
    → r.task_id ≡ some id
    → Handed c r id (claim_task c m).1
claim_task-Handed c m r id h = (claim_task-Ends c m).success r h id

claim_new-late :
    (c : ClaimTaskCommand) (ns : NamespaceId) (g : ℕ) (m : BrokerStateMachine) (id : TaskId)
    (at : ℕ) (heap : ReadyTaskHeap) (t : Task) (q : QueuedTask)
    → u64_max < c.now_ms + c.lease_duration_ms
    → get ns m.lease_expirations ≡ none
    → get ns m.ready_tasks ≡ some ((at, id) ∷ heap)
    → get id m.tasks ≡ some t
    → t.state ≡ TaskState.queued q
    → ((claim_new c ns g m).0 ≡ err timestamp_overflow)
      × ((claim_new c ns g m).1 ≡ record m { ready_tasks = insert ns heap m.ready_tasks })
unfolding claim_new recover_expired_leases pop_ready_task scan_ready claim_ready checked_deadline
    checked_add ◌>>=◌
claim_new-late c ns g m id at heap t q late none_tracked ready e s = ground arith

-- A claim at the current term, by a member of the group at its generation, of a lease identity that is
-- not active, in a namespace where no lease is tracked and whose first ready entry is a queued task:
-- if the deadline does not fit in 64 bits the claim is refused, and yet the entry is gone from the
-- ready queue, while nothing else has changed, so the task is still there and queued.
pub claim_task-late :
    (c : ClaimTaskCommand) (ns : NamespaceId) (g : ℕ) (m : BrokerStateMachine) (id : TaskId)
    (at : ℕ) (heap : ReadyTaskHeap) (t : Task) (q : QueuedTask)
    → m.term ≡ c.expected_term
    → require_member m.groups c.group_id c.member_id c.expected_generation ≡ ok (ns, g)
    → get c.lease_id m.active_lease_tasks ≡ none
    → u64_max < c.now_ms + c.lease_duration_ms
    → get ns m.lease_expirations ≡ none
    → get ns m.ready_tasks ≡ some ((at, id) ∷ heap)
    → get id m.tasks ≡ some t
    → t.state ≡ TaskState.queued q
    → ((claim_task c m).0 ≡ err timestamp_overflow)
      × ((claim_task c m).1 ≡ record m { ready_tasks = insert ns heap m.ready_tasks })
unfolding claim_task require_term require_group_member ◌>>=◌
claim_task-late c ns g m id at heap t q term member fresh late none_tracked ready e s =
    let (refused, left) = claim_new-late c ns g m id at heap t q late none_tracked ready e s in
    let same : nat_eq m.term c.expected_term ≡ true = ground arith in
    rw (same, member, fresh, claim_task, require_term, require_group_member, ◌>>=◌) (refused, left)
