-- ===== src/Policy.antt =====
-- crates/agent-broker-domain/src/policy.rs: bounded policy values. Every value is checked by its
-- constructor; the macro defines two batch limits of one shape.
use Prim.Native.String.{String}
use herterarchy_broker.Common.{
  ℕ, ◌*◌, ◌≤◌, ◌≡◌, ◌↔◌, ◌||◌, Result, ok, err, ◌>>=◌, ltb, nat_eq, if◌then◌else◌, arith,
}

abbrev pub min_lease_duration_ms : ℕ
min_lease_duration_ms = 1_000

abbrev pub max_lease_duration_ms : ℕ
max_lease_duration_ms = 30 * 60 * 1_000

abbrev pub max_maintenance_batch : ℕ
max_maintenance_batch = 4_096

pub data PolicyError : Type 0 where
  lease_duration_out_of_range : PolicyError
  maintenance_batch_out_of_range : String → PolicyError
  zero_capacity : String → PolicyError

-- `LeaseDurationMs::new`
pub new_lease_duration : ℕ → Result PolicyError ℕ
new_lease_duration value =
    if ltb value min_lease_duration_ms || ltb max_lease_duration_ms value
    then err lease_duration_out_of_range
    else ok value

-- `ReapMemberLimit::new` and `PruneTaskLimit::new`, by the field that the error names. The
-- second test of the source, for zero, cannot fail behind the first.
pub new_maintenance_limit : String → ℕ → Result PolicyError ℕ
new_maintenance_limit field value =
    if nat_eq value 0 || ltb max_maintenance_batch value
    then err (maintenance_batch_out_of_range field)
    else ok value

pub record BrokerCapacityPolicy : Type 0 where
  pub namespaces : ℕ
  pub tasks_per_namespace : ℕ
  pub groups_per_namespace : ℕ
  pub members_per_group : ℕ

abbrev pub default_capacity : BrokerCapacityPolicy
default_capacity = record {
  namespaces = 64;
  tasks_per_namespace = 4_096;
  groups_per_namespace = 64;
  members_per_group = 256;
}

pub positive_capacity : ℕ → String → Result PolicyError ℕ
positive_capacity value field = if nat_eq value 0 then err (zero_capacity field) else ok value

-- `BrokerCapacityPolicy::new`
pub new_capacity : ℕ → ℕ → ℕ → ℕ → Result PolicyError BrokerCapacityPolicy
unfolding positive_capacity
new_capacity namespaces tasks groups members = do
  namespaces' ← positive_capacity namespaces "max_namespaces"
  tasks' ← positive_capacity tasks "max_tasks_per_namespace"
  groups' ← positive_capacity groups "max_groups_per_namespace"
  members' ← positive_capacity members "max_members_per_group"
  ok (record {
    namespaces = namespaces';
    tasks_per_namespace = tasks';
    groups_per_namespace = groups';
    members_per_group = members';
  })

-- Each policy constructor accepts exactly the documented range and keeps the value: durations of
-- 1,000 to 1,800,000 ms, batches of 1 to 4,096, and capacities that are all positive.
pub policy_ranges :
    (field : String) (value v namespaces tasks groups members : ℕ) (p : BrokerCapacityPolicy)
    → ((new_lease_duration value ≡ ok v) ↔ ((1_000 ≤ value) × (value ≤ 1_800_000) × (v ≡ value)))
      × ((new_maintenance_limit field value ≡ ok v) ↔ ((1 ≤ value) × (value ≤ 4_096) × (v ≡ value)))
      × ((new_capacity namespaces tasks groups members ≡ ok p) ↔ (
          (1 ≤ namespaces)
          × (1 ≤ tasks)
          × (1 ≤ groups)
          × (1 ≤ members)
          × (p ≡ record {
            namespaces = namespaces;
            tasks_per_namespace = tasks;
            groups_per_namespace = groups;
            members_per_group = members;
          })))
unfolding new_lease_duration new_maintenance_limit new_capacity
policy_ranges field value v namespaces tasks groups members p =
    (ground arith, ground arith, ground arith)
