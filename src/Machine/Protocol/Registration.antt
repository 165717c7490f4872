-- ===== src/Machine/Protocol/Registration.antt =====
-- The registering commands are made of moves.
use herterarchy_broker.Common.{Bool, inl, inr, arith, Option-cases, Result-cases}
use herterarchy_broker.Common.Maps.{get, get-insert}
use herterarchy_broker.Identifiers.Order.{id_key}
use herterarchy_broker.Machine.State.{BrokerStateMachine, new_namespace}
use herterarchy_broker.Machine.Commands.{
  EnsureNamespaceCommand, PublishTaskCommand, EnsureConsumerGroupCommand, JoinConsumerGroupCommand,
  HeartbeatCommand, AdvanceTermCommand,
}
use herterarchy_broker.Machine.Monad.{◌>>=◌}
use herterarchy_broker.Machine.Leases.{
  next_global_revision, require_namespace, require_term, push_ready,
}
use herterarchy_broker.Machine.Registry.{
  ensure_namespace, create_namespace, publish_task, create_task, ensure_consumer_group,
  create_group, join_consumer_group, heartbeat, advance_term, coordinate, changed_group,
}
use herterarchy_broker.Machine.Protocol.{Move, Moves, keep, publish, here}
use herterarchy_broker.Machine.Protocol
use herterarchy_broker.Machine.Protocol.Runs.{still}

pub ensure_namespace-Moves :
    {pruning : Bool} (c : EnsureNamespaceCommand) (m : BrokerStateMachine)
    → Moves pruning m (ensure_namespace c m).1
unfolding ensure_namespace create_namespace next_global_revision ◌>>=◌
ensure_namespace-Moves c m = Protocol.next here (
    keep (λ j. ground arith) (ground arith)
      (λ j h.
        ground (arith, get-insert c.namespace_id j (new_namespace c.namespace_id) m.namespaces)))

pub advance_term-Moves :
    {pruning : Bool} (c : AdvanceTermCommand) (m : BrokerStateMachine)
    → Moves pruning m (advance_term c m).1
unfolding advance_term next_global_revision require_term ◌>>=◌
advance_term-Moves c m = still m _ (ground arith) (ground arith) (ground arith)

pub ensure_consumer_group-Moves :
    {pruning : Bool} (c : EnsureConsumerGroupCommand) (m : BrokerStateMachine)
    → Moves pruning m (ensure_consumer_group c m).1
unfolding ensure_consumer_group create_group next_global_revision require_namespace ◌>>=◌
ensure_consumer_group-Moves c m = still m _ (ground arith) (ground arith) (ground arith)

pub join_consumer_group-Moves :
    {pruning : Bool} (c : JoinConsumerGroupCommand) (m : BrokerStateMachine)
    → Moves pruning m (join_consumer_group c m).1
unfolding join_consumer_group next_global_revision coordinate changed_group ◌>>=◌
join_consumer_group-Moves c m = still m _ (ground arith) (ground arith) (ground arith)

pub heartbeat-Moves :
    {pruning : Bool} (c : HeartbeatCommand) (m : BrokerStateMachine)
    → Moves pruning m (heartbeat c m).1
unfolding heartbeat next_global_revision coordinate changed_group ◌>>=◌
heartbeat-Moves c m = still m _ (ground arith) (ground arith) (ground arith)

pub publish_task-Moves :
    {pruning : Bool} (c : PublishTaskCommand) (m : BrokerStateMachine)
    → Moves pruning m (publish_task c m).1
unfolding publish_task create_task next_global_revision require_namespace push_ready ◌>>=◌
publish_task-Moves c m = elim (Option-cases (get c.task_id m.tasks)) [
  | inr (t, known) ↦ still m _ (ground arith) (ground arith) (ground arith)
  | inl new ↦ elim (Result-cases (publish_task c m).0) [
    | inr (x, e) ↦ still m _ (ground arith) (ground arith) (ground arith)
    | inl (r, e) ↦ Protocol.next here (
        publish c.task_id c.namespace_id c.objective c.created_at_ms new (ground arith)
          (ground arith) (ground arith) (ground arith))
  ]
]
