-- ===== src/Examples/Machines.antt =====
-- Concrete inputs for the theorems on the machine.
use herterarchy_broker.Common.{
  false, ◌+◌, ◌≤◌, ◌<◌, ◌≡◌, refl, ap, ◌++◌, arith, none, some, List, [], ◌∷◌, ok, err, true,
  is_some,
}
use herterarchy_broker.Common.Maps
use herterarchy_broker.Common.Maps.{get}
use herterarchy_broker.Common.Sets
use herterarchy_broker.Common.Heaps.{push}
use herterarchy_broker.Fencing.{next, checked_add, u64_max}
use herterarchy_broker.Identifiers.Order.{id_key, id_eq, id_lt}
use herterarchy_broker.Task
use herterarchy_broker.Task.{
  Task, TaskState, LeasedTask, QueuedTask, CompletionOutcome, complete_lease, fence_check,
  require_active_lease,
}
use herterarchy_broker.Group.{new_group, admit, require_generation}
use herterarchy_broker.Group
use herterarchy_broker.Group.Coordinator
use herterarchy_broker.Group.Coordinator.{group_mut, update_group, require_member}
use herterarchy_broker.Machine.State.{
  BrokerStateMachine, default_machine, new_namespace, timestamp_overflow,
}
use herterarchy_broker.Machine.Commands.{
  BrokerCommand, ClaimTaskCommand, RenewTaskLeaseCommand, CompleteTaskCommand,
}
use herterarchy_broker.Machine.Results.{
  TaskClaimResult, TaskLeaseRenewedResult, TaskCompletedResult,
}
use herterarchy_broker.Machine.Monad.{◌>>=◌}
use herterarchy_broker.Machine.Leases.{
  metadata, next_global_revision, require_namespace, require_term, require_group_member,
  checked_deadline, push_ready, push_expiration, add_member_lease_task, remove_member_lease_task,
  drop_member_task, scan_ready, pop_ready_task, recover_expired_leases,
}
use herterarchy_broker.Machine.Registry.{
  ensure_namespace, create_namespace, publish_task, create_task, ensure_consumer_group,
  create_group, join_consumer_group, coordinate, changed_group,
}
use herterarchy_broker.Machine.Claims.{
  claim_task, claim_new, claim_ready, transition_task, renew_task_lease, complete_task,
  task_claim_result,
}
use herterarchy_broker.Machine.{apply, dispatch, clear_changes, run}
use herterarchy_broker.Machine.Protocol.{Moves}
use herterarchy_broker.Machine.Protocol.Commands.{apply-Moves, leased_once}
use herterarchy_broker.Machine.Protocol.Housing.{run-IsHoused}
use herterarchy_broker.Machine.Protocol.History.{Kept, run-Kept}
use herterarchy_broker.Machine.Clock.{Keeps}
use herterarchy_broker.Machine.Clock.Run.{apply-Keeps}
use herterarchy_broker.Machine.Protocol.Leasing.{completion_fence, renewal_fence}
use herterarchy_broker.Machine.Outcomes.{Admits, complete_task-ok, renew_task_lease-ok}
use herterarchy_broker.Machine.Grants.{Handed, claim_task-Handed, claim_task-late}
use herterarchy_broker.Examples.{the_task, the_namespace, the_group, the_member, the_lease}

abbrev prepares : List BrokerCommand
prepares =
    BrokerCommand.ensure_namespace (record { namespace_id = the_namespace; max_namespaces = 1 })
    ∷ BrokerCommand.publish_task (record {
      namespace_id = the_namespace;
      task_id = the_task;
      objective = record { text = b'o' ∷ [] };
      created_at_ms = 5;
      max_namespace_tasks = 1;
    })
    ∷ BrokerCommand.ensure_consumer_group
        (record { namespace_id = the_namespace; group_id = the_group; max_namespace_groups = 1 })
    ∷ BrokerCommand.join_consumer_group (record {
      group_id = the_group;
      member_id = the_member;
      capabilities = record { items = [] };
      now_ms = 10;
      max_group_members = 1;
    })
    ∷ []

abbrev pub the_claim : ClaimTaskCommand
the_claim = record {
  group_id = the_group;
  member_id = the_member;
  expected_term = 1;
  expected_generation = 1;
  lease_id = the_lease;
  now_ms = 20;
  lease_duration_ms = 10;
}

abbrev ready_task : Task
ready_task = record {
  id = the_task;
  namespace_id = the_namespace;
  objective = record { text = b'o' ∷ [] };
  created_at_ms = 5;
  revision = 1;
  state = TaskState.queued (record { lease_epoch = 0 });
}

abbrev pub first_lease : LeasedTask
first_lease = record {
  lease_id = the_lease;
  owner_member_id = the_member;
  group_id = the_group;
  generation = 1;
  lease_epoch = 1;
  expires_at_ms = 30;
}

abbrev pub leased_task : Task
leased_task = record ready_task { revision = 2; state = TaskState.leased first_lease }

abbrev group_of_one : Group.ConsumerGroup
group_of_one = record {
  id = the_group;
  namespace_id = the_namespace;
  generation = 1;
  revision = 2;
  consumers =
      (
        the_member,
        record {
          id = the_member;
          capabilities = record { items = [] };
          joined_at_ms = 10;
          last_heartbeat_at_ms = 10;
          revision = 1;
        },
      )
      ∷ [];
}

-- the machine after `prepares`
abbrev prepared : BrokerStateMachine
prepared = record default_machine {
  state = record {
    term = 1;
    revision = 4;
    namespaces = (the_namespace, record { id = the_namespace; revision = 1 }) ∷ [];
    tasks = (the_task, ready_task) ∷ [];
    groups = (the_group, group_of_one) ∷ [];
  };
  ready_tasks = (the_namespace, (5, the_task) ∷ []) ∷ [];
  namespace_task_counts = (the_namespace, 1) ∷ [];
  namespace_group_counts = (the_namespace, 1) ∷ [];
  changed_groups = the_group ∷ [];
}

-- the machine after `the_claim`
abbrev pub claimed : BrokerStateMachine
claimed = record prepared {
  state = record (prepared.state) { revision = 5; tasks = (the_task, leased_task) ∷ [] };
  ready_tasks = (the_namespace, []) ∷ [];
  lease_expirations = (the_namespace, (30, (the_task, 1)) ∷ []) ∷ [];
  active_lease_tasks = (the_lease, the_task) ∷ [];
  member_lease_tasks = ((the_group, the_member), the_task ∷ []) ∷ [];
  changed_groups = [];
  changed_tasks = the_task ∷ [];
}

run-prepares : run prepares default_machine ≡ prepared
unfolding run apply dispatch clear_changes ensure_namespace create_namespace publish_task
    create_task ensure_consumer_group create_group join_consumer_group coordinate changed_group
    next_global_revision require_namespace push_ready push next get Maps.insert Sets.insert id_eq
    id_lt new_namespace new_group Task.new_task Coordinator.join update_group group_mut Group.join
    admit Group.new_consumer ◌>>=◌
run-prepares = refl

abbrev commands : List BrokerCommand
commands = prepares ++ (BrokerCommand.claim_task the_claim ∷ [])

run-commands : run commands default_machine ≡ claimed
unfolding run apply dispatch clear_changes ensure_namespace create_namespace publish_task
    create_task ensure_consumer_group create_group join_consumer_group coordinate changed_group
    next_global_revision require_namespace push_ready push next get Maps.insert Sets.insert id_eq
    id_lt new_namespace new_group Task.new_task Coordinator.join update_group group_mut Group.join
    admit Group.new_consumer claim_task claim_new claim_ready require_term require_group_member
    require_member require_generation Maps.contains_key recover_expired_leases pop_ready_task
    scan_ready checked_deadline checked_add transition_task Task.claim push_expiration
    add_member_lease_task ◌>>=◌
run-commands = refl

task_found : get the_task (run commands default_machine).tasks ≡ some leased_task
unfolding get id_eq
task_found = ap (λ (m : BrokerStateMachine). get the_task m.tasks) run-commands

leased_once_example :
    (the_task ≡ the_task)
    × (get the_lease (run commands default_machine).active_lease_tasks ≡ some the_task)
leased_once_example =
    leased_once commands the_task the_task leased_task leased_task first_lease first_lease
      task_found task_found refl refl refl

run-IsHoused_example : is_some (get the_namespace (run commands default_machine).namespaces) ≡ true
run-IsHoused_example = run-IsHoused commands the_task leased_task task_found

ready_found : get the_task prepared.tasks ≡ some ready_task
unfolding get id_eq
ready_found = refl

run-Kept_example : Kept the_task ready_task prepared commands
run-Kept_example = run-Kept commands prepared the_task ready_task ready_found

apply-Moves_example : Moves false prepared (apply (BrokerCommand.claim_task the_claim) prepared).1
apply-Moves_example = apply-Moves (BrokerCommand.claim_task the_claim) prepared

apply-Keeps_example : Keeps 4 1 (apply (BrokerCommand.claim_task the_claim) prepared)
apply-Keeps_example = apply-Keeps (BrokerCommand.claim_task the_claim) prepared

abbrev pub the_renewal : RenewTaskLeaseCommand
the_renewal = record {
  task_id = the_task;
  group_id = the_group;
  member_id = the_member;
  expected_term = 1;
  expected_generation = 1;
  expected_lease_epoch = 1;
  lease_id = the_lease;
  now_ms = 25;
  lease_duration_ms = 10;
}

abbrev renewed_result : TaskLeaseRenewedResult
renewed_result = record {
  metadata = record { term = 1; revision = 6 };
  task_id = the_task;
  task_revision = 3;
  lease_id = the_lease;
  lease_epoch = 1;
  lease_expires_at_ms = 35;
  generation = 1;
}

renews_once : (renew_task_lease the_renewal claimed).0 ≡ ok renewed_result
unfolding renew_task_lease require_term require_group_member require_member group_mut
    require_generation Maps.contains_key checked_deadline checked_add next_global_revision next
    transition_task Task.renew fence_check require_active_lease push_expiration push metadata get
    Maps.insert Sets.insert id_eq id_lt ◌>>=◌
renews_once = refl

renew_task_lease-ok_example :
    (claimed.term ≡ the_renewal.expected_term)
    × Admits the_group the_member 1 claimed
    × (35 ≤ u64_max)
    × ((t t' : Task) × (get the_task claimed.tasks ≡ some t)
        × (Task.renew (renewal_fence the_renewal) 35 t ≡ ok t')
        × ((renew_task_lease the_renewal claimed).1.tasks ≡ Maps.insert the_task t' claimed.tasks)
        × (renewed_result.lease_expires_at_ms ≡ the_renewal.now_ms + the_renewal.lease_duration_ms))
renew_task_lease-ok_example = renew_task_lease-ok the_renewal claimed renewed_result renews_once

abbrev the_completion : CompleteTaskCommand
the_completion = record {
  task_id = the_task;
  group_id = the_group;
  member_id = the_member;
  expected_term = 1;
  expected_generation = 1;
  expected_lease_epoch = 1;
  lease_id = the_lease;
  result = record { text = b'r' ∷ [] };
  completed_at_ms = 25;
}

abbrev completed_result : TaskCompletedResult
completed_result = record {
  metadata = record { term = 1; revision = 6 };
  task_id = the_task;
  task_revision = 3;
  status = Task.TaskStatus.completed;
}

completes_claimed : (complete_task the_completion claimed).0 ≡ ok completed_result
unfolding complete_task require_term require_group_member require_member group_mut
    require_generation Maps.contains_key next_global_revision next transition_task Task.complete
    complete_lease fence_check require_active_lease remove_member_lease_task drop_member_task push
    metadata Task.status get Maps.insert Maps.remove Sets.insert Sets.remove id_eq id_lt ◌>>=◌
completes_claimed = refl

complete_task-ok_example :
    (claimed.term ≡ the_completion.expected_term)
    × Admits the_group the_member 1 claimed
    × ((t t' : Task) × (o : CompletionOutcome) × (get the_task claimed.tasks ≡ some t)
        × (Task.complete (completion_fence the_completion) the_completion.result t ≡ ok (o, t'))
        × ((complete_task the_completion claimed).1.tasks ≡ Maps.insert the_task t' claimed.tasks)
        × (completed_result.task_revision ≡ t'.revision))
complete_task-ok_example =
    complete_task-ok the_completion claimed completed_result completes_claimed

abbrev claim_result : TaskClaimResult
claim_result = record {
  metadata = record { term = 1; revision = 5 };
  task_id = some the_task;
  objective = some (record { text = b'o' ∷ [] });
  task_revision = some 2;
  lease_id = some the_lease;
  lease_epoch = some 1;
  lease_expires_at_ms = some 30;
  generation = 1;
}

claims_prepared : (claim_task the_claim prepared).0 ≡ ok claim_result
unfolding claim_task claim_new claim_ready require_term require_group_member require_member
    group_mut require_generation Maps.contains_key recover_expired_leases pop_ready_task scan_ready
    checked_deadline checked_add next_global_revision next transition_task Task.claim
    push_expiration add_member_lease_task push metadata task_claim_result get Maps.insert
    Sets.insert id_eq id_lt ◌>>=◌
claims_prepared = refl

claim_task-Handed_example : Handed the_claim claim_result the_task (claim_task the_claim prepared).1
claim_task-Handed_example =
    claim_task-Handed the_claim prepared claim_result the_task claims_prepared refl

abbrev late_claim : ClaimTaskCommand
late_claim = record the_claim { lease_duration_ms = u64_max }

untracked : get the_namespace prepared.lease_expirations ≡ none
unfolding get
untracked = refl

ready_first : get the_namespace prepared.ready_tasks ≡ some ((5, the_task) ∷ [])
unfolding get id_eq
ready_first = refl

too_late : u64_max < 20 + u64_max
too_late = omega arith

member_found :
    require_member prepared.groups late_claim.group_id late_claim.member_id
      late_claim.expected_generation
    ≡ ok (the_namespace, 1)
unfolding require_member get id_eq require_generation Maps.contains_key
member_found = refl

not_active : get late_claim.lease_id prepared.active_lease_tasks ≡ none
unfolding get
not_active = refl

claim_task-late_example :
    ((claim_task late_claim prepared).0 ≡ err timestamp_overflow)
    × ((claim_task late_claim prepared).1
        ≡ record prepared { ready_tasks = Maps.insert the_namespace [] prepared.ready_tasks })
claim_task-late_example =
    claim_task-late late_claim the_namespace 1 prepared the_task 5 [] ready_task
      (record { lease_epoch = 0 }) refl member_found not_active too_late untracked ready_first
      ready_found refl
