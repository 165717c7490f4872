-- ===== src/Examples/Restores.antt =====
-- Concrete inputs for the theorems on checkpoints of the machine.
use herterarchy_broker.Common.{◌≡◌, refl, some, [], ◌∷◌, ok, ◌≤◌, arith}
use herterarchy_broker.Common.Maps
use herterarchy_broker.Common.Maps.{get}
use herterarchy_broker.Common.Sets
use herterarchy_broker.Common.Heaps.{push}
use herterarchy_broker.Fencing.{next, checked_add}
use herterarchy_broker.Identifiers.Order.{id_key, id_eq, id_lt}
use herterarchy_broker.Task
use herterarchy_broker.Task.{Task, TaskState, LeasedTask, fence_check, require_active_lease}
use herterarchy_broker.Task.Checkpoint as TaskCheckpoint
use herterarchy_broker.Group.{require_generation}
use herterarchy_broker.Group.Checkpoint as GroupCheckpoint
use herterarchy_broker.Group.Coordinator.{group_mut, require_member}
use herterarchy_broker.Machine.State.{BrokerStateMachine}
use herterarchy_broker.Machine.Commands.{BrokerCommand}
use herterarchy_broker.Machine.Monad.{◌>>=◌}
use herterarchy_broker.Machine.Leases.{
  next_global_revision, require_term, require_group_member, checked_deadline, push_expiration,
}
use herterarchy_broker.Machine.Claims.{renew_task_lease, transition_task}
use herterarchy_broker.Machine.{apply, dispatch, clear_changes, run}
use herterarchy_broker.Machine.Recovery.{
  checkpoint, checkpoint_namespace, namespace_of, require_positive_revision, restore_state,
  restore_namespace, restore_namespaces, require_members, restore_group, restore_groups,
  restore_task, restore_tasks, count_one, rebuild_indexes, rebuild_groups, rebuild_tasks,
  rebuild_task_indexes, from_checkpoint,
}
use herterarchy_broker.Machine.Restore.{IsRestorable, restore_state-checkpoint}
use herterarchy_broker.Machine.Recovered.{restored-leased_once}
use herterarchy_broker.Examples.{the_task}
use herterarchy_broker.Examples.Machines.{claimed, first_lease, leased_task, the_renewal}

one_positive : 1 ≤ 1
one_positive = omega arith

two_positive : 1 ≤ 2
two_positive = omega arith

claimed-IsRestorable : IsRestorable claimed.state
unfolding get Maps.contains_key id_eq
claimed-IsRestorable = record {
  namespaces_ordered = tt;
  namespaces_sound = (record { keyed = refl; counted = one_positive }, tt);
  groups_ordered = tt;
  groups_sound = (
    record {
      keyed = refl;
      counted = two_positive;
      housed = refl;
      members = record { ordered = tt; keyed = (refl, tt) };
      members_counted = (one_positive, tt);
    },
    tt,
  );
  tasks_ordered = tt;
  tasks_sound = (record { keyed = refl; counted = two_positive; housed = refl }, tt);
}

restore_state-checkpoint_example : restore_state (checkpoint claimed.state) ≡ ok claimed.state
restore_state-checkpoint_example = restore_state-checkpoint claimed.state claimed-IsRestorable

-- the machine that the checkpoint of `claimed` brings back
abbrev restored : BrokerStateMachine
restored = record claimed { ready_tasks = []; changed_tasks = [] }

restores_claimed : from_checkpoint (checkpoint claimed.state) ≡ ok restored
unfolding from_checkpoint checkpoint checkpoint_namespace namespace_of require_positive_revision
    restore_state restore_namespace restore_namespaces require_members restore_group restore_groups
    restore_task restore_tasks count_one rebuild_indexes rebuild_groups rebuild_tasks
    rebuild_task_indexes TaskCheckpoint.checkpoint TaskCheckpoint.checkpoint_state
    TaskCheckpoint.from_checkpoint TaskCheckpoint.restore_state GroupCheckpoint.checkpoint
    GroupCheckpoint.checkpoint_member GroupCheckpoint.restore_member GroupCheckpoint.restore_members
    GroupCheckpoint.from_checkpoint Maps.contains_key get Maps.insert Sets.insert push id_eq id_lt
restores_claimed = refl

abbrev renewed_lease : LeasedTask
renewed_lease = record first_lease { expires_at_ms = 35 }

abbrev renewed_task : Task
renewed_task = record leased_task { revision = 3; state = TaskState.leased renewed_lease }

renewed_found :
    get the_task (run (BrokerCommand.renew_task_lease the_renewal ∷ []) restored).tasks
    ≡ some renewed_task
unfolding run apply dispatch clear_changes renew_task_lease require_term require_group_member
    require_member group_mut require_generation Maps.contains_key checked_deadline checked_add
    next_global_revision next transition_task Task.renew fence_check require_active_lease
    push_expiration push get Maps.insert Sets.insert id_eq id_lt ◌>>=◌
renewed_found = refl

restored-leased_once_example : the_task ≡ the_task
restored-leased_once_example =
    restored-leased_once (checkpoint claimed.state) restored
      (BrokerCommand.renew_task_lease the_renewal ∷ []) the_task the_task renewed_task renewed_task
      renewed_lease renewed_lease restores_claimed renewed_found renewed_found refl refl refl
