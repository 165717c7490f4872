-- ===== src/Machine/Protocol/Commands.antt =====
-- Every command of `apply` is made of moves, so the active leases name each leased task once.
use herterarchy_broker.Common.{Bool, true, false, arith, ◌≡◌, refl, some, List, [], ◌∷◌}
use herterarchy_broker.Common.Maps.{get}
use herterarchy_broker.Identifiers.{TaskId}
use herterarchy_broker.Identifiers.Order.{id_key}
use herterarchy_broker.Task.{Task, TaskState, LeasedTask}
use herterarchy_broker.Machine.State.{BrokerStateMachine, default_machine}
use herterarchy_broker.Machine.Commands.{BrokerCommand}
use herterarchy_broker.Machine.Results.{BrokerMutationResult}
use herterarchy_broker.Machine.Monad.{Action, pure, ◌>>=◌}
use herterarchy_broker.Machine.{clear_changes, dispatch, apply, run}
use herterarchy_broker.Machine.Protocol.{Moves, Moves-trans, Moves-any, here}
use herterarchy_broker.Machine.Protocol.Runs.{still, bind-Moves}
use herterarchy_broker.Machine.Protocol.Registration.{
  ensure_namespace-Moves, publish_task-Moves, ensure_consumer_group-Moves,
  join_consumer_group-Moves, heartbeat-Moves, advance_term-Moves,
}
use herterarchy_broker.Machine.Protocol.Leasing.{
  claim_task-Moves, renew_task_lease-Moves, complete_task-Moves,
}
use herterarchy_broker.Machine.Protocol.Departures.{
  leave_consumer_group-Moves, reap_stale_members-Moves, prune_completed_tasks-Moves,
}
use herterarchy_broker.Machine.Protocol.Exclusive.{IsExclusive, Moves-IsExclusive}

tag-Moves {ℓ} :
    {pruning : Bool} {A : Type ℓ} (f : A → BrokerMutationResult) (a : Action A)
    (m : BrokerStateMachine)
    → Moves pruning m (a m).1
    → Moves pruning m ((a >>= λ r. pure (f r)) m).1
tag-Moves f a m p = bind-Moves a _ m p λ _ _. here

-- Whether a command may remove tasks.
abbrev pub prunes : BrokerCommand → Bool
prunes (BrokerCommand.prune_completed_tasks c) = true
prunes _ = false

dispatch-Moves : (c : BrokerCommand) (m : BrokerStateMachine) → Moves (prunes c) m (dispatch c m).1
unfolding dispatch
dispatch-Moves (BrokerCommand.ensure_namespace c) m = tag-Moves _ _ m (ensure_namespace-Moves c m)
dispatch-Moves (BrokerCommand.publish_task c) m = tag-Moves _ _ m (publish_task-Moves c m)
dispatch-Moves (BrokerCommand.ensure_consumer_group c) m =
    tag-Moves _ _ m (ensure_consumer_group-Moves c m)
dispatch-Moves (BrokerCommand.join_consumer_group c) m =
    tag-Moves _ _ m (join_consumer_group-Moves c m)
dispatch-Moves (BrokerCommand.heartbeat c) m = tag-Moves _ _ m (heartbeat-Moves c m)
dispatch-Moves (BrokerCommand.leave_consumer_group c) m =
    tag-Moves _ _ m (leave_consumer_group-Moves c m)
dispatch-Moves (BrokerCommand.reap_stale_members c) m =
    tag-Moves _ _ m (reap_stale_members-Moves c m)
dispatch-Moves (BrokerCommand.claim_task c) m = tag-Moves _ _ m (claim_task-Moves c m)
dispatch-Moves (BrokerCommand.renew_task_lease c) m = tag-Moves _ _ m (renew_task_lease-Moves c m)
dispatch-Moves (BrokerCommand.complete_task c) m = tag-Moves _ _ m (complete_task-Moves c m)
dispatch-Moves (BrokerCommand.prune_completed_tasks c) m =
    tag-Moves _ _ m (prune_completed_tasks-Moves c m)
dispatch-Moves (BrokerCommand.advance_term c) m = tag-Moves _ _ m (advance_term-Moves c m)

-- The machine after any command, also a failed one, is reached by a sequence of moves, and only under
-- the command that prunes completed tasks may one of these remove a task.
pub apply-Moves : (c : BrokerCommand) (m : BrokerStateMachine) → Moves (prunes c) m (apply c m).1
unfolding apply clear_changes
apply-Moves c m =
    bind-Moves _ _ m (still m _ refl refl refl)
      λ _ m₁. bind-Moves _ _ m₁ (dispatch-Moves c m₁) λ _ m₂. bind-Moves _ _ m₂ here λ _ _. here

pub run-Moves : (cs : List BrokerCommand) (m : BrokerStateMachine) → Moves true m (run cs m)
unfolding run
run-Moves [] m = here
run-Moves (c ∷ cs) m = Moves-trans (Moves-any (apply-Moves c m)) (run-Moves cs (apply c m).1)

default-IsExclusive : IsExclusive default_machine
unfolding get
default-IsExclusive id t lease e s = cc

-- Whatever commands were applied since the start, failed ones included, two tasks that are leased
-- under the same lease identity are one task, and the registry of active leases leads from the
-- lease to it.
pub leased_once :
    (cs : List BrokerCommand) (a b : TaskId) (t u : Task) (l k : LeasedTask)
    → get a (run cs default_machine).tasks ≡ some t
    → get b (run cs default_machine).tasks ≡ some u
    → t.state ≡ TaskState.leased l
    → u.state ≡ TaskState.leased k
    → l.lease_id ≡ k.lease_id
    → (a ≡ b) × (get l.lease_id (run cs default_machine).active_lease_tasks ≡ some a)
leased_once cs a b t u l k et eu st su same =
    let r = Moves-IsExclusive (run-Moves cs default_machine) default-IsExclusive in
    let ra = r a t l et st in let rb = r b u k eu su in ground (arith, ra, rb)
