-- ===== src/Examples/Groups.antt =====
-- Concrete inputs for the theorems on groups.
use herterarchy_broker.Common.{ℕ, ◌≤◌, ◌≡◌, refl, List, [], ◌∷◌, map, ok, arith}
use herterarchy_broker.Common.Maps.{get, insert, remove}
use herterarchy_broker.Common.Sets
use herterarchy_broker.Common.Sets.{contains}
use herterarchy_broker.Fencing.{next}
use herterarchy_broker.Identifiers.{is_ascii_alphanumeric, is_body_byte}
use herterarchy_broker.Identifiers.Order.{id_key, id_eq, bytes_eq, bytes_lt}
use herterarchy_broker.Group.{
  ConsumerGroup, Consumer, JoinOutcome, HeartbeatOutcome, new_consumer, new_group, touch, admit,
  join, heartbeat, leave, reap_stale_members, reap_selected, remove_members, stale_ids, stale_order,
}
use herterarchy_broker.Group.CapabilitySet.{
  Capability, Capabilities, cap_key, cap_eq, cap_lt, max_capabilities, new_capability, normalize,
  new_capabilities,
}
use herterarchy_broker.Group.Laws.{Joined, Beaten, Left, join-Joined, heartbeat-Beaten, leave-Left}
use herterarchy_broker.Group.Checkpoint.{checkpoint, from_checkpoint}
use herterarchy_broker.Group.Membership.{joins, beats, run, run-restored, IsRegular}
use herterarchy_broker.Group.Reaping.{Reaped, reap_stale_members-Reaped}
use herterarchy_broker.Group.Matching.{named, new_capabilities-set, new_capabilities_ext}
use herterarchy_broker.Examples.{the_namespace, the_group, the_member}

abbrev no_capabilities : Capabilities
no_capabilities = record { items = [] }

abbrev empty_group : ConsumerGroup
empty_group = record {
  id = the_group;
  namespace_id = the_namespace;
  generation = 0;
  revision = 1;
  consumers = [];
}

abbrev member_at : ℕ → ℕ → Consumer
member_at heard revision = record {
  id = the_member;
  capabilities = no_capabilities;
  joined_at_ms = 10;
  last_heartbeat_at_ms = heard;
  revision = revision;
}

abbrev group_of_one : ConsumerGroup
group_of_one = record {
  id = the_group;
  namespace_id = the_namespace;
  generation = 1;
  revision = 2;
  consumers = (the_member, member_at 10 1) ∷ [];
}

abbrev group_beaten : ConsumerGroup
group_beaten = record group_of_one { revision = 3; consumers = (the_member, member_at 20 2) ∷ [] }

abbrev group_left : ConsumerGroup
group_left = record group_of_one { generation = 2; revision = 3; consumers = [] }

joins_once : join the_member no_capabilities 10 1 empty_group ≡ ok (JoinOutcome.added, group_of_one)
unfolding join admit new_consumer next insert get
joins_once = refl

join-Joined_example :
    Joined the_member no_capabilities 10 1 empty_group JoinOutcome.added group_of_one
join-Joined_example =
    join-Joined the_member no_capabilities 10 1 empty_group JoinOutcome.added group_of_one
      joins_once

beats_once : heartbeat the_member 1 20 group_of_one ≡ ok (HeartbeatOutcome.updated, group_beaten)
unfolding heartbeat touch next insert get id_eq
beats_once = refl

heartbeat-Beaten_example : Beaten the_member 1 20 group_of_one HeartbeatOutcome.updated group_beaten
heartbeat-Beaten_example =
    heartbeat-Beaten the_member 1 20 group_of_one HeartbeatOutcome.updated group_beaten beats_once

leaves_once : leave the_member 1 group_of_one ≡ ok (member_at 10 1, group_left)
unfolding leave next get remove id_eq
leaves_once = refl

leave-Left_example : Left the_member 1 (member_at 10 1) group_of_one group_left
leave-Left_example = leave-Left the_member 1 group_of_one (member_at 10 1) group_left leaves_once

run-restored_example :
    from_checkpoint (
      checkpoint (
        run
          (joins the_member no_capabilities 10 1 ∷ beats the_member 1 20 ∷ [])
          (new_group the_group the_namespace)))
    ≡ ok (
        run
          (joins the_member no_capabilities 10 1 ∷ beats the_member 1 20 ∷ [])
          (new_group the_group the_namespace))
run-restored_example =
    run-restored (joins the_member no_capabilities 10 1 ∷ beats the_member 1 20 ∷ []) the_group
      the_namespace

one-IsRegular : IsRegular group_of_one.consumers
one-IsRegular = record { ordered = tt; keyed = (refl, tt) }

reaps_once : reap_stale_members 15 4 group_of_one ≡ ok (member_at 10 1 ∷ [], group_left)
unfolding reap_stale_members reap_selected remove_members stale_ids stale_order next get remove
    id_eq Sets.extend Sets.insert
reaps_once = refl

reap_stale_members-Reaped_example : Reaped 15 4 group_of_one (member_at 10 1 ∷ []) group_left
reap_stale_members-Reaped_example =
    reap_stale_members-Reaped 15 4 group_of_one (member_at 10 1 ∷ []) group_left one-IsRegular
      reaps_once

abbrev cpu : List ℕ
cpu = b'c' ∷ []

abbrev gpu : List ℕ
gpu = b'g' ∷ []

abbrev both : Capabilities
both = record { items = named cpu ∷ named gpu ∷ [] }

both_sorted : new_capabilities (gpu ∷ cpu ∷ gpu ∷ []) ≡ ok both
unfolding new_capabilities normalize new_capability is_ascii_alphanumeric is_body_byte Sets.insert
    cap_eq cap_lt bytes_eq bytes_lt
both_sorted = refl

both_given : new_capabilities (cpu ∷ gpu ∷ []) ≡ ok both
unfolding new_capabilities normalize new_capability is_ascii_alphanumeric is_body_byte Sets.insert
    cap_eq cap_lt bytes_eq bytes_lt
both_given = refl

same_names :
    (c : Capability)
    → contains c (map named (gpu ∷ cpu ∷ gpu ∷ [])) ≡ contains c (map named (cpu ∷ gpu ∷ []))
unfolding contains
same_names c = ground arith

new_capabilities-set_example :
    (3 ≤ max_capabilities)
    × Sets.IsOrdered both.items
    × ((c : Capability) → contains c both.items ≡ contains c (map named (gpu ∷ cpu ∷ gpu ∷ [])))
new_capabilities-set_example = new_capabilities-set (gpu ∷ cpu ∷ gpu ∷ []) both both_sorted

new_capabilities_ext_example : both ≡ both
new_capabilities_ext_example =
    new_capabilities_ext (gpu ∷ cpu ∷ gpu ∷ []) (cpu ∷ gpu ∷ []) both both both_sorted both_given
      same_names
