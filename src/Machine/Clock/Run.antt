-- ===== src/Machine/Clock/Run.antt =====
-- The clock of the machine over `apply` and over any sequence of commands.
use herterarchy_broker.Common.{ℕ, ◌≤◌, refl, inl, inr, List, [], ◌∷◌, arith, Result-cases}
use herterarchy_broker.Identifiers.Order.{id_key}
use herterarchy_broker.Machine.State.{BrokerStateMachine}
use herterarchy_broker.Machine.Commands.{BrokerCommand}
use herterarchy_broker.Machine.Results.{BrokerMutationResult}
use herterarchy_broker.Machine.Monad.{Action, pure, ◌>>=◌}
use herterarchy_broker.Machine.{clear_changes, dispatch, apply}
use herterarchy_broker.Machine.Clock.{Shows, Keeps, bind-Ends, quiet-Ends}
use herterarchy_broker.Machine.{run}
use herterarchy_broker.Machine.Clock.Commands.{
  ok_Keeps, ensure_namespace-Keeps, publish_task-Keeps, ensure_consumer_group-Keeps,
  join_consumer_group-Keeps, heartbeat-Keeps, advance_term-Keeps, leave_consumer_group-Keeps,
  reap_stale_members-Keeps, prune_completed_tasks-Keeps,
}
use herterarchy_broker.Machine.Clock.Leasing.{
  claim_task-Keeps, renew_task_lease-Keeps, complete_task-Keeps,
}

tag-Keeps {ℓ} :
    {A : Type ℓ} {r t : ℕ} (f : A → BrokerMutationResult) (a : Action A) (m : BrokerStateMachine)
    → Keeps r t (a m)
    → Keeps r t ((a >>= λ x. pure (f x)) m)
tag-Keeps f a m p = bind-Ends a _ m p λ x n d. ok_Keeps (f x) n d

dispatch-Keeps :
    (r t : ℕ) (c : BrokerCommand) (m : BrokerStateMachine) → Shows r t m → Keeps r t (dispatch c m)
unfolding dispatch
dispatch-Keeps r t (BrokerCommand.ensure_namespace c) m s =
    tag-Keeps _ _ m (ensure_namespace-Keeps r t c m s)
dispatch-Keeps r t (BrokerCommand.publish_task c) m s =
    tag-Keeps _ _ m (publish_task-Keeps r t c m s)
dispatch-Keeps r t (BrokerCommand.ensure_consumer_group c) m s =
    tag-Keeps _ _ m (ensure_consumer_group-Keeps r t c m s)
dispatch-Keeps r t (BrokerCommand.join_consumer_group c) m s =
    tag-Keeps _ _ m (join_consumer_group-Keeps r t c m s)
dispatch-Keeps r t (BrokerCommand.heartbeat c) m s = tag-Keeps _ _ m (heartbeat-Keeps r t c m s)
dispatch-Keeps r t (BrokerCommand.leave_consumer_group c) m s =
    tag-Keeps _ _ m (leave_consumer_group-Keeps r t c m s)
dispatch-Keeps r t (BrokerCommand.reap_stale_members c) m s =
    tag-Keeps _ _ m (reap_stale_members-Keeps r t c m s)
dispatch-Keeps r t (BrokerCommand.claim_task c) m s = tag-Keeps _ _ m (claim_task-Keeps r t c m s)
dispatch-Keeps r t (BrokerCommand.renew_task_lease c) m s =
    tag-Keeps _ _ m (renew_task_lease-Keeps r t c m s)
dispatch-Keeps r t (BrokerCommand.complete_task c) m s =
    tag-Keeps _ _ m (complete_task-Keeps r t c m s)
dispatch-Keeps r t (BrokerCommand.prune_completed_tasks c) m s =
    tag-Keeps _ _ m (prune_completed_tasks-Keeps r t c m s)
dispatch-Keeps r t (BrokerCommand.advance_term c) m s =
    tag-Keeps _ _ m (advance_term-Keeps r t c m s)

clear_changes-Shows : (r t : ℕ) (m : BrokerStateMachine) → Shows r t m → Shows r t (clear_changes m)
unfolding clear_changes
clear_changes-Shows r t m s = ground arith

-- A command that fails leaves the term and the global revision as they were. A command that
-- succeeds leaves both too, or advances the revision by one within 64 bits and never lowers the term.
pub apply-Keeps : (c : BrokerCommand) (m : BrokerStateMachine) → Keeps m.revision m.term (apply c m)
unfolding apply
apply-Keeps c m =
    let s =
      clear_changes-Shows m.revision m.term m (record { revision_same = refl; term_same = refl }) in
    bind-Ends _ _ m (quiet-Ends _ s) λ _ m₁ s₁.
      bind-Ends _ _ m₁ (dispatch-Keeps m.revision m.term c m₁ s₁)
        λ _ m₂ d. bind-Ends _ _ m₂ (ok_Keeps m₂ m₂ d) λ _ m₃ d'. ok_Keeps _ m₃ d'

apply_rises :
    (c : BrokerCommand) (m : BrokerStateMachine)
    → (m.revision ≤ (apply c m).1.revision) × (m.term ≤ (apply c m).1.term)
apply_rises c m =
    let k = apply-Keeps c m in
    elim (Result-cases (apply c m).0) [
      | inl (x, e) ↦ elim (k.success x e) [ inl s ↦ ground arith | inr d ↦ ground arith ]
      | inr (x, e) ↦ let s = k.failure x e in ground arith
    ]

-- Over any sequence of commands neither the term nor the global revision ever falls.
pub run_rises :
    (cs : List BrokerCommand) (m : BrokerStateMachine)
    → (m.revision ≤ (run cs m).revision) × (m.term ≤ (run cs m).term)
unfolding run
run_rises [] m = ground arith
run_rises (c ∷ cs) m = ground (arith, apply_rises c m, run_rises cs (apply c m).1)
