-- ===== src/Examples/Prunes.antt =====
-- A concrete input for the theorem on pruning.
use herterarchy_broker.Common.{◌≡◌, refl, [], ◌∷◌, ok}
use herterarchy_broker.Common.Maps
use herterarchy_broker.Common.Maps.{get}
use herterarchy_broker.Common.Sets
use herterarchy_broker.Fencing.{next}
use herterarchy_broker.Identifiers.Order.{id_key, id_eq, id_lt}
use herterarchy_broker.Task.{Task, TaskState}
use herterarchy_broker.Machine.State.{BrokerStateMachine}
use herterarchy_broker.Machine.Commands.{PruneCompletedTasksCommand}
use herterarchy_broker.Machine.Results.{CompletedTasksPrunedResult}
use herterarchy_broker.Machine.Monad.{◌>>=◌}
use herterarchy_broker.Machine.Leases.{next_global_revision, metadata}
use herterarchy_broker.Machine.Retention.{
  completed_namespace, select_completed, per_namespace, check_counts, prune_task, prune_loop,
  prune_selected, prune_completed_tasks,
}
use herterarchy_broker.Machine.Pruning.{Removes, prune_completed_tasks-Removes}
use herterarchy_broker.Examples.{the_task, the_group, the_member, the_lease}
use herterarchy_broker.Examples.Machines.{claimed, leased_task}

abbrev finished_task : Task
finished_task = record leased_task {
  revision = 3;
  state = TaskState.completed (record {
    lease_id = the_lease;
    owner_member_id = the_member;
    group_id = the_group;
    generation = 1;
    lease_epoch = 1;
    result = record { text = b'r' ∷ [] };
    completed_at_ms = 25;
  });
}

-- the machine `claimed` after the completion of its task
abbrev finished : BrokerStateMachine
finished = record claimed {
  state = record (claimed.state) { revision = 6; tasks = (the_task, finished_task) ∷ [] };
  completed_tasks = (25, the_task) ∷ [];
  active_lease_tasks = [];
  member_lease_tasks = [];
  changed_tasks = [];
}

abbrev the_prune : PruneCompletedTasksCommand
the_prune = record { completed_before_ms = 30; max_tasks = 2 }

abbrev prune_result : CompletedTasksPrunedResult
prune_result = record { metadata = record { term = 1; revision = 7 }; pruned_count = 1 }

prunes_finished : (prune_completed_tasks the_prune finished).0 ≡ ok prune_result
unfolding prune_completed_tasks prune_selected select_completed completed_namespace per_namespace
    check_counts prune_loop prune_task next_global_revision next metadata get Maps.insert
    Maps.remove Sets.insert id_eq id_lt ◌>>=◌
prunes_finished = refl

prune_completed_tasks-Removes_example :
    Removes 30 2 finished 1 (prune_completed_tasks the_prune finished).1
prune_completed_tasks-Removes_example =
    prune_completed_tasks-Removes the_prune finished prune_result prunes_finished
