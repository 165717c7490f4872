-- ===== src/Group.antt =====
-- crates/agent-broker-domain/src/group.rs: one Consumer Group and its members. A method that
-- takes `&mut self` returns the new record; every `?` of these methods stands before the first
-- assignment, so on an error the group is as it was.
mod Data
pub mod CapabilitySet
pub mod Coordinator
pub mod Checkpoint
pub mod Directory
pub mod Laws
pub mod Restore
pub mod Matching
pub mod Counts
pub mod Membership
pub mod Reaping
unfoldable pub use Data.*
use herterarchy_broker.Common.{
  ℕ, not, Bool, true, false, Option, none, some, List, [], ◌∷◌, map, Result, ok, err, ◌>>=◌, ◌>>◌,
  map_err, ok_or, reject_if, leb, nat_eq, if◌then◌else◌, filter, length, take,
}
use herterarchy_broker.Common.Maps.{Map, get, contains_key, insert, remove, values}
use herterarchy_broker.Common.Sets
use herterarchy_broker.Common.Keys.{nat_key, pair_key}
use herterarchy_broker.Fencing.{next, Generation}
use herterarchy_broker.Identifiers.{Identifier, ConsumerGroupId, ConsumerId}
use herterarchy_broker.Identifiers.Order.{id_key}
use CapabilitySet.{Capabilities, caps_eq}

-- `self.generation.next()?` and `revision.next()?` in a method whose errors are group errors
unfoldable pub next_generation : ℕ → Result ConsumerGroupError ℕ
unfolding next
next_generation g = map_err fencing_value (next "generation" g)

unfoldable pub next_revision : ℕ → Result ConsumerGroupError ℕ
unfolding next
next_revision r = map_err fencing_value (next "revision" r)

unfoldable pub consumer_count : ConsumerGroup → ℕ
consumer_count g = length g.consumers

-- the heartbeat that `join` and `heartbeat` record for a member that is there
unfoldable pub touch :
    ConsumerId → Consumer → ℕ → ConsumerGroup → Result ConsumerGroupError ConsumerGroup
unfolding next_revision
touch member_id member now_ms g = do
  next_member_revision ← next_revision member.revision
  next_group_revision ← next_revision g.revision
  ok (record g {
    consumers =
        insert member_id
          (record member { last_heartbeat_at_ms = now_ms; revision = next_member_revision })
          g.consumers;
    revision = next_group_revision;
  })

-- `join` of a member that is not there
unfoldable pub admit :
    ConsumerId → Capabilities → ℕ → ℕ → ConsumerGroup → Result ConsumerGroupError ConsumerGroup
unfolding next_generation next_revision consumer_count
admit member_id capabilities now_ms max_members g = do
  reject_if (nat_eq max_members 0) invalid_member_capacity
  reject_if (leb max_members (consumer_count g)) (member_capacity_reached max_members)
  next_gen ← next_generation g.generation
  next_group_revision ← next_revision g.revision
  ok (record g {
    consumers = insert member_id (new_consumer member_id capabilities now_ms) g.consumers;
    generation = next_gen;
    revision = next_group_revision;
  })

unfoldable pub join :
    ConsumerId
    → Capabilities
    → ℕ
    → ℕ
    → ConsumerGroup
    → Result ConsumerGroupError (JoinOutcome × ConsumerGroup)
join member_id capabilities now_ms max_members g = elim (get member_id g.consumers) [
  | some member ↦
      if not (caps_eq member.capabilities capabilities)
      then err (capability_conflict member_id)
      else if leb now_ms member.last_heartbeat_at_ms
      then ok (JoinOutcome.unchanged, g)
      else touch member_id member now_ms g >>= λ g'. ok (JoinOutcome.refreshed, g')
  | none ↦ admit member_id capabilities now_ms max_members g >>= λ g'. ok (JoinOutcome.added, g')
]

unfoldable pub require_generation :
    Generation → ConsumerGroup → Result ConsumerGroupError (Unit {0})
require_generation expected g =
    reject_if (not (nat_eq g.generation expected)) (stale_generation expected g.generation)

unfoldable pub heartbeat :
    ConsumerId
    → Generation
    → ℕ
    → ConsumerGroup
    → Result ConsumerGroupError (HeartbeatOutcome × ConsumerGroup)
unfolding require_generation
heartbeat member_id expected_generation now_ms g = do
  require_generation expected_generation g
  member ← ok_or (get member_id g.consumers) (member_not_found member_id)
  if leb now_ms member.last_heartbeat_at_ms
      then ok (HeartbeatOutcome.unchanged, g)
      else touch member_id member now_ms g >>= λ g'. ok (HeartbeatOutcome.updated, g')

-- The second look-up of the source, by `remove`, finds what the first one found.
unfoldable pub leave :
    ConsumerId → Generation → ConsumerGroup → Result ConsumerGroupError (Consumer × ConsumerGroup)
unfolding require_generation next_generation next_revision
leave member_id expected_generation g = do
  require_generation expected_generation g
  member ← ok_or (get member_id g.consumers) (member_not_found member_id)
  next_gen ← next_generation g.generation
  next_rev ← next_revision g.revision
  ok (
    member,
    record g {
      consumers = remove member_id g.consumers;
      generation = next_gen;
      revision = next_rev;
    },
  )

-- The stale members by last heartbeat, then by identifier.
unfoldable pub stale_order : ℕ → ConsumerGroup → List (ℕ × ConsumerId)
stale_order stale_before_ms g =
    Sets.extend
      (map (λ member. (member.last_heartbeat_at_ms, member.id))
        (filter (λ member. leb member.last_heartbeat_at_ms stale_before_ms) (values g.consumers)))
      []

unfoldable pub stale_ids : ℕ → ℕ → ConsumerGroup → List ConsumerId
unfolding stale_order
stale_ids stale_before_ms max_members g =
    map (λ e. e.1) (take max_members (stale_order stale_before_ms g))

-- the loop that removes the selected members, in their order
unfoldable pub remove_members :
    List ConsumerId → Map ConsumerId Consumer → List Consumer × Map ConsumerId Consumer
remove_members [] consumers = ([], consumers)
remove_members (id ∷ ids) consumers =
    let (removed, rest) = remove_members ids (remove id consumers) in
    elim (get id consumers) [ none ↦ (removed, rest) | some member ↦ (member ∷ removed, rest) ]

unfoldable pub reap_selected :
    List ConsumerId → ConsumerGroup → Result ConsumerGroupError (List Consumer × ConsumerGroup)
unfolding next_generation next_revision remove_members
reap_selected [] g = ok ([], g)
reap_selected (id ∷ ids) g = do
  next_gen ← next_generation g.generation
  next_rev ← next_revision g.revision
  let (removed, rest) = remove_members (id ∷ ids) g.consumers
  ok (removed, record g { consumers = rest; generation = next_gen; revision = next_rev })

unfoldable pub reap_stale_members :
    ℕ → ℕ → ConsumerGroup → Result ConsumerGroupError (List Consumer × ConsumerGroup)
unfolding reap_selected stale_ids
reap_stale_members stale_before_ms max_members g = do
  reject_if (nat_eq max_members 0) invalid_member_capacity
  reap_selected (stale_ids stale_before_ms max_members g) g
