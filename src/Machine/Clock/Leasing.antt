-- ===== src/Machine/Clock/Leasing.antt =====
-- Claim, renew and complete move the global revision at most one step.
use herterarchy_broker.Common.{ℕ, inl, inr, Option, none, some, arith, Option-cases, Result-cases}
use herterarchy_broker.Common.Maps.{get, get-insert_self}
use herterarchy_broker.Fencing.{next}
use herterarchy_broker.Identifiers.{NamespaceId, TaskId, ConsumerGroupId, ConsumerId}
use herterarchy_broker.Identifiers.Order.{id_key}
use herterarchy_broker.Task
use herterarchy_broker.Machine.State.{BrokerStateMachine}
use herterarchy_broker.Machine.Commands.{
  ClaimTaskCommand, RenewTaskLeaseCommand, CompleteTaskCommand,
}
use herterarchy_broker.Machine.Results.{TaskClaimResult}
use herterarchy_broker.Machine.Monad.{Action, ◌>>=◌}
use herterarchy_broker.Machine.Leases.{
  next_global_revision, require_term, require_group_member, push_expiration, add_member_lease_task,
  remove_member_lease_task, checked_deadline,
}
use herterarchy_broker.Machine.Claims.{
  claim_task, claim_new, claim_ready, claim_again, claim_nothing, renew_task_lease, complete_task,
  transition_task, grant_of,
}
use herterarchy_broker.Machine.Clock.{Shows, Keeps, bind-Ends, quiet-Ends}
use herterarchy_broker.Machine.Clock.Loops.{recover_expired_leases-Shows, pop_ready_task-Shows}
use herterarchy_broker.Task.Laws.{claim-ok}
use herterarchy_broker.Machine.Clock.Commands.{still_Keeps}

claim_ready-Keeps :
    (r t : ℕ) (c : ClaimTaskCommand) (ns : NamespaceId) (g : ℕ) (id : TaskId)
    (m : BrokerStateMachine)
    → Shows r t m
    → Keeps r t (claim_ready c ns g id m)
unfolding claim_ready transition_task next_global_revision next push_expiration
    add_member_lease_task ◌>>=◌
claim_ready-Keeps r t c ns g id m s =
    elim (Result-cases (checked_deadline c.now_ms c.lease_duration_ms)) [
      | inr (x, late) ↦ record { success = λ y f. ground arith; failure = λ y f. ground arith }
      | inl (at, due) ↦ elim (Option-cases (get id m.tasks)) [
        | inl missing ↦ record { success = λ x h. ground arith; failure = λ e h. ground arith }
        | inr (u, e) ↦ elim (Result-cases (Task.claim (grant_of c g at) u)) [
          | inr (x, h) ↦ record { success = λ y f. ground arith; failure = λ y f. ground arith }
          | inl (u', h) ↦
              let put = get-insert_self id u' m.tasks in
              let (q, queued, _, _, k) = claim-ok (grant_of c g at) u u' h in
              record { success = λ x f. ground arith; failure = λ x f. ground (arith, put) }
        ]
      ]
    ]

claim_nothing-Keeps :
    (r t : ℕ) (g recovered : ℕ) (m : BrokerStateMachine)
    → Shows r t m
    → Keeps r t (claim_nothing g recovered m)
unfolding claim_nothing next_global_revision next ◌>>=◌
claim_nothing-Keeps r t g recovered m s = record {
  success = λ x h. ground arith;
  failure = λ e h. ground arith;
}

claim_rest-Keeps :
    (r t : ℕ) (c : ClaimTaskCommand) (ns : NamespaceId) (g recovered : ℕ) (found : Option TaskId)
    (m : BrokerStateMachine)
    → Shows r t m
    → Keeps r t (
        (elim found as (λ _. Action TaskClaimResult) [
          | none ↦ claim_nothing g recovered
          | some id ↦ claim_ready c ns g id
        ])
          m)
claim_rest-Keeps r t c ns g recovered none m s = claim_nothing-Keeps r t g recovered m s
claim_rest-Keeps r t c ns g recovered (some id) m s = claim_ready-Keeps r t c ns g id m s

claim_new-Keeps :
    (r t : ℕ) (c : ClaimTaskCommand) (ns : NamespaceId) (g : ℕ) (m : BrokerStateMachine)
    → Shows r t m
    → Keeps r t (claim_new c ns g m)
unfolding claim_new
claim_new-Keeps r t c ns g m s =
    bind-Ends _ _ m (quiet-Ends _ (recover_expired_leases-Shows r t ns c.now_ms m s)) λ k n s₁.
      bind-Ends _ _ n (quiet-Ends _ (pop_ready_task-Shows r t ns n s₁))
        λ found n' s₂. claim_rest-Keeps r t c ns g k found n' s₂

claim_again-Keeps :
    (r t : ℕ) (c : ClaimTaskCommand) (g : ℕ) (id : TaskId) (m : BrokerStateMachine)
    → Shows r t m
    → Keeps r t (claim_again c g id m)
unfolding claim_again
claim_again-Keeps r t c g id m s = still_Keeps _ (ground arith)

claim_choice-Keeps :
    (r t : ℕ) (c : ClaimTaskCommand) (ns : NamespaceId) (g : ℕ) (o : Option TaskId)
    (m : BrokerStateMachine)
    → Shows r t m
    → Keeps r t (
        (elim o as (λ _. Action TaskClaimResult) [
          | some id ↦ claim_again c g id
          | none ↦ claim_new c ns g
        ])
          m)
claim_choice-Keeps r t c ns g none m s = claim_new-Keeps r t c ns g m s
claim_choice-Keeps r t c ns g (some id) m s = claim_again-Keeps r t c g id m s

require_term-Shows :
    (r t term : ℕ) (m : BrokerStateMachine) → Shows r t m → Shows r t (require_term term m).1
unfolding require_term ◌>>=◌
require_term-Shows r t term m s = ground arith

require_group_member-Shows :
    (r t : ℕ) (group : ConsumerGroupId) (member : ConsumerId) (generation : ℕ)
    (m : BrokerStateMachine)
    → Shows r t m
    → Shows r t (require_group_member group member generation m).1
unfolding require_group_member
require_group_member-Shows r t group member generation m s = s

pub claim_task-Keeps :
    (r t : ℕ) (c : ClaimTaskCommand) (m : BrokerStateMachine)
    → Shows r t m
    → Keeps r t (claim_task c m)
unfolding claim_task
claim_task-Keeps r t c m s =
    bind-Ends _ _ m (quiet-Ends _ (require_term-Shows r t c.expected_term m s)) λ _ m₁ s₁.
      bind-Ends _ _ m₁
        (quiet-Ends _
          (require_group_member-Shows r t c.group_id c.member_id c.expected_generation m₁ s₁))
        λ k m₂ s₂.
          bind-Ends _ _ m₂ (quiet-Ends _ s₂) λ _ m₃ s₃. claim_choice-Keeps r t c k.0 k.1 _ m₃ s₃

pub renew_task_lease-Keeps :
    (r t : ℕ) (c : RenewTaskLeaseCommand) (m : BrokerStateMachine)
    → Shows r t m
    → Keeps r t (renew_task_lease c m)
unfolding renew_task_lease require_term require_group_member transition_task next_global_revision
    next push_expiration ◌>>=◌
renew_task_lease-Keeps r t c m s = record {
  success = λ x h. ground arith;
  failure = λ e h. ground arith;
}

pub complete_task-Keeps :
    (r t : ℕ) (c : CompleteTaskCommand) (m : BrokerStateMachine)
    → Shows r t m
    → Keeps r t (complete_task c m)
unfolding complete_task require_term require_group_member transition_task next_global_revision next
    remove_member_lease_task ◌>>=◌
complete_task-Keeps r t c m s = record {
  success = λ x h. ground arith;
  failure = λ e h. ground arith;
}
