-- ===== src/Machine/Clock/Commands.antt =====
-- Every command moves the term and the global revision at most one step.
use herterarchy_broker.Common.{ℕ, ◌⊎◌, inl, inr, List, [], ◌∷◌, Result, ok, arith}
use herterarchy_broker.Common.Maps.{get-insert_self}
use herterarchy_broker.Fencing.{next}
use herterarchy_broker.Identifiers.{NamespaceId, ConsumerGroupId}
use herterarchy_broker.Identifiers.Order.{id_key}
use herterarchy_broker.Group.{new_group}
use herterarchy_broker.Machine.State.{BrokerStateMachine, StateMachineError}
use herterarchy_broker.Machine.Commands.{
  EnsureNamespaceCommand, PublishTaskCommand, EnsureConsumerGroupCommand, JoinConsumerGroupCommand,
  HeartbeatCommand, AdvanceTermCommand, LeaveConsumerGroupCommand, ReapStaleMembersCommand,
  PruneCompletedTasksCommand,
}
use herterarchy_broker.Machine.Results.{StaleMembersReapedResult, CompletedTasksPrunedResult}
use herterarchy_broker.Machine.Monad.{Action, pure, ◌>>=◌}
use herterarchy_broker.Machine.Leases.{
  next_global_revision, require_term, require_namespace, push_ready,
}
use herterarchy_broker.Machine.Registry.{
  ensure_namespace, create_namespace, publish_task, create_task, ensure_consumer_group,
  create_group, join_consumer_group, heartbeat, advance_term, coordinate, changed_group,
}
use herterarchy_broker.Machine.Membership.{
  Candidate, leave_consumer_group, reap_stale_members, reap_selected,
}
use herterarchy_broker.Machine.Retention.{prune_completed_tasks, prune_selected}
use herterarchy_broker.Machine.Clock.{
  Shows, Ticked, Keeps, bind-Ends, quiet-Ends, next_revision-Ends,
}
use herterarchy_broker.Machine.Clock.Loops.{
  requeue_member_leases-Shows, coordinate-Shows, reap_groups-Shows, prune_loop-Shows,
}

-- The end of a method that has not moved the clock.
pub still_Keeps {ℓ} :
    {A : Type ℓ} {r t : ℕ} (out : Result StateMachineError A × BrokerStateMachine)
    → Shows r t out.1
    → Keeps r t out
still_Keeps out s = record { success = λ _ _. inl s; failure = λ _ _. s }

pub ok_Keeps {ℓ} :
    {A : Type ℓ} {r t : ℕ} (x : A) (m : BrokerStateMachine)
    → Shows r t m ⊎ Ticked r t m
    → Keeps r t {A = A} (ok x, m)
ok_Keeps x m d = record { success = λ _ _. d; failure = λ e h. cc }

changed_group-Shows :
    (r t : ℕ) (id : ConsumerGroupId) (m : BrokerStateMachine)
    → Shows r t m
    → Shows r t (changed_group id m).1
unfolding changed_group
changed_group-Shows r t id m s = s

pub ensure_namespace-Keeps :
    (r t : ℕ) (c : EnsureNamespaceCommand) (m : BrokerStateMachine)
    → Shows r t m
    → Keeps r t (ensure_namespace c m)
unfolding ensure_namespace create_namespace next_global_revision next ◌>>=◌
ensure_namespace-Keeps r t c m s = record {
  success = λ x h. ground arith;
  failure = λ e h. ground arith;
}

pub publish_task-Keeps :
    (r t : ℕ) (c : PublishTaskCommand) (m : BrokerStateMachine)
    → Shows r t m
    → Keeps r t (publish_task c m)
unfolding publish_task create_task next_global_revision require_namespace push_ready next ◌>>=◌
publish_task-Keeps r t c m s = record {
  success = λ x h. ground arith;
  failure = λ e h. ground arith;
}

pub ensure_consumer_group-Keeps :
    (r t : ℕ) (c : EnsureConsumerGroupCommand) (m : BrokerStateMachine)
    → Shows r t m
    → Keeps r t (ensure_consumer_group c m)
unfolding ensure_consumer_group create_group next_global_revision require_namespace next ◌>>=◌
ensure_consumer_group-Keeps r t c m s =
    let put = get-insert_self c.group_id (new_group c.group_id c.namespace_id) m.groups in
    record { success = λ x h. ground arith; failure = λ e h. ground (arith, put) }

pub join_consumer_group-Keeps :
    (r t : ℕ) (c : JoinConsumerGroupCommand) (m : BrokerStateMachine)
    → Shows r t m
    → Keeps r t (join_consumer_group c m)
unfolding join_consumer_group next_global_revision coordinate changed_group next ◌>>=◌
join_consumer_group-Keeps r t c m s = record {
  success = λ x h. ground arith;
  failure = λ e h. ground arith;
}

pub heartbeat-Keeps :
    (r t : ℕ) (c : HeartbeatCommand) (m : BrokerStateMachine)
    → Shows r t m
    → Keeps r t (heartbeat c m)
unfolding heartbeat next_global_revision coordinate changed_group next ◌>>=◌
heartbeat-Keeps r t c m s = record { success = λ x h. ground arith; failure = λ e h. ground arith }

pub advance_term-Keeps :
    (r t : ℕ) (c : AdvanceTermCommand) (m : BrokerStateMachine)
    → Shows r t m
    → Keeps r t (advance_term c m)
unfolding advance_term next_global_revision require_term next ◌>>=◌
advance_term-Keeps r t c m s = record {
  success = λ x h. ground arith;
  failure = λ e h. ground arith;
}

pub leave_consumer_group-Keeps :
    (r t : ℕ) (c : LeaveConsumerGroupCommand) (m : BrokerStateMachine)
    → Shows r t m
    → Keeps r t (leave_consumer_group c m)
unfolding leave_consumer_group
leave_consumer_group-Keeps r t c m s = bind-Ends _ _ m (next_revision-Ends r t m s) λ x m₁ p.
    bind-Ends _ _ m₁ (quiet-Ends _ p.0) λ _ m₂ s₂. bind-Ends _ _ m₂ (quiet-Ends _ s₂) λ _ m₃ s₃.
      bind-Ends _ _ m₃ (quiet-Ends _ (coordinate-Shows r t _ m₃ s₃)) λ _ m₄ s₄.
        bind-Ends _ _ m₄ (quiet-Ends _ (changed_group-Shows r t c.group_id m₄ s₄)) λ g m₅ s₅.
          bind-Ends _ _ m₅ (quiet-Ends _ (requeue_member_leases-Shows r t g.id c.member_id m₅ s₅))
            λ _ m₆ s₆.
              bind-Ends _ _ m₆ (ok_Keeps tt _ (inr (ground arith)))
                λ _ m₇ d. bind-Ends _ _ m₇ (ok_Keeps m₇ m₇ d) λ _ m₈ d. ok_Keeps _ m₈ d

reap_selected-Keeps :
    (r t : ℕ) (candidates : List Candidate) (stale : ℕ) (m : BrokerStateMachine)
    → Shows r t m
    → Keeps r t (reap_selected candidates stale m)
unfolding reap_selected
reap_selected-Keeps r t candidates stale m s =
    bind-Ends _ _ m (next_revision-Ends r t m s) λ x m₁ p.
      bind-Ends _ _ m₁ (quiet-Ends _ p.0) λ _ m₂ s₂. bind-Ends _ _ m₂ (quiet-Ends _ s₂) λ _ m₃ s₃.
        bind-Ends _ _ m₃ (quiet-Ends _ (reap_groups-Shows r t _ stale m₃ s₃)) λ reaped m₄ s₄.
          bind-Ends _ _ m₄ (ok_Keeps tt _ (ground arith))
            λ _ m₅ d. bind-Ends _ _ m₅ (ok_Keeps m₅ m₅ d) λ _ m₆ d. ok_Keeps _ m₆ d

reap_choice-Keeps :
    (r t : ℕ) (candidates : List Candidate) (empty : StaleMembersReapedResult) (stale : ℕ)
    (m : BrokerStateMachine)
    → Shows r t m
    → Keeps r t (
        (elim candidates as (λ _. Action StaleMembersReapedResult) [
          | [] ↦ pure empty
          | e ∷ es ↦ reap_selected (e ∷ es) stale
        ])
          m)
reap_choice-Keeps r t [] empty stale m s = still_Keeps _ s
reap_choice-Keeps r t (e ∷ es) empty stale m s = reap_selected-Keeps r t (e ∷ es) stale m s

pub reap_stale_members-Keeps :
    (r t : ℕ) (c : ReapStaleMembersCommand) (m : BrokerStateMachine)
    → Shows r t m
    → Keeps r t (reap_stale_members c m)
unfolding reap_stale_members
reap_stale_members-Keeps r t c m s = bind-Ends _ _ m (quiet-Ends _ s) λ _ m₁ s₁.
    bind-Ends _ _ m₁ (quiet-Ends _ s₁) λ _ m₂ s₂. reap_choice-Keeps r t _ _ c.stale_before_ms m₂ s₂

prune_selected-Keeps :
    (r t : ℕ) (selected : List NamespaceId) (cutoff : ℕ) (m : BrokerStateMachine)
    → Shows r t m
    → Keeps r t (prune_selected selected cutoff m)
unfolding prune_selected
prune_selected-Keeps r t selected cutoff m s = bind-Ends _ _ m (quiet-Ends _ s) λ _ m₁ s₁.
    bind-Ends _ _ m₁ (quiet-Ends _ s₁) λ _ m₂ s₂.
      bind-Ends _ _ m₂ (next_revision-Ends r t m₂ s₂) λ x m₃ p.
        bind-Ends _ _ m₃ (quiet-Ends _ (prune_loop-Shows r t _ _ cutoff m₃ p.0)) λ pruned m₄ s₄.
          bind-Ends _ _ m₄ (ok_Keeps tt _ (ground arith))
            λ _ m₅ d. bind-Ends _ _ m₅ (ok_Keeps m₅ m₅ d) λ _ m₆ d. ok_Keeps _ m₆ d

prune_choice-Keeps :
    (r t : ℕ) (selected : List NamespaceId) (empty : CompletedTasksPrunedResult) (cutoff : ℕ)
    (m : BrokerStateMachine)
    → Shows r t m
    → Keeps r t (
        (elim selected as (λ _. Action CompletedTasksPrunedResult) [
          | [] ↦ pure empty
          | n ∷ ns ↦ prune_selected (n ∷ ns) cutoff
        ])
          m)
prune_choice-Keeps r t [] empty cutoff m s = still_Keeps _ s
prune_choice-Keeps r t (n ∷ ns) empty cutoff m s = prune_selected-Keeps r t (n ∷ ns) cutoff m s

pub prune_completed_tasks-Keeps :
    (r t : ℕ) (c : PruneCompletedTasksCommand) (m : BrokerStateMachine)
    → Shows r t m
    → Keeps r t (prune_completed_tasks c m)
unfolding prune_completed_tasks
prune_completed_tasks-Keeps r t c m s = bind-Ends _ _ m (quiet-Ends _ s) λ _ m₁ s₁.
    bind-Ends _ _ m₁ (quiet-Ends _ s₁)
      λ _ m₂ s₂. prune_choice-Keeps r t _ _ c.completed_before_ms m₂ s₂
