-- ===== src/Storage/Wires.antt =====
-- crates/agent-broker-storage/src/snapshot_v1.rs: the records of the snapshot and the journal as they
-- are serialized, made of primitive values.
use Prim.Native.String.{String}
use herterarchy_broker.Common.{
  ℕ, List, map, Option, Result, ok, err, ◌>>=◌, map_err, ok_or, nat_eq, if◌then◌else◌, collect,
}
use herterarchy_broker.Common.Sorting.{sort_by}
use herterarchy_broker.Identifiers
use herterarchy_broker.Identifiers.{Identifier}
use herterarchy_broker.Identifiers.Order.{bytes_key}
use herterarchy_broker.Group.CapabilitySet.{new_capabilities}
use herterarchy_broker.Group.Checkpoint.{MemberCheckpoint, ConsumerGroupCheckpoint}
use herterarchy_broker.Machine.Recovery.{NamespaceCheckpoint}
use herterarchy_broker.Application.Messages.{
  Message, literal, prefixed, shows_identifier, shows_capabilities,
}
use herterarchy_broker.Storage.Errors.{StorageError, invalid_format}

pub record NamespaceWire : Type 0 where
  pub namespace_id : List ℕ
  pub revision : ℕ

pub record MemberWire : Type 0 where
  pub capabilities : List (List ℕ)
  pub joined_at_ms : ℕ
  pub last_heartbeat_at_ms : ℕ
  pub member_id : List ℕ
  pub revision : ℕ

pub record GroupWire : Type 0 where
  pub generation : ℕ
  pub group_id : List ℕ
  pub members : List MemberWire
  pub namespace_id : List ℕ
  pub revision : ℕ

abbrev pub invalid_value : String → Message → StorageError
invalid_value field e = invalid_format (prefixed field (prefixed " is invalid: " e))

unfoldable pub positive_revision : ℕ → String → Result StorageError ℕ
positive_revision value field =
    if nat_eq value 0
    then err (invalid_format (prefixed field (literal " must be positive")))
    else ok value

-- `required_u64` and `required_string`
unfoldable pub required {ℓ} : {A : Type ℓ} → Option A → String → Result StorageError A
required value field = ok_or value (invalid_format (prefixed field (literal " is required")))

-- an identifier's constructor, with `map_err(invalid_value(field))`; `kind` is the name that it reports
unfoldable pub valid_id : String → String → List ℕ → Result StorageError Identifier
unfolding Identifiers.new
valid_id kind field value =
    map_err (λ e. invalid_value field (shows_identifier e)) (Identifiers.new kind value)

unfoldable pub required_id : Option (List ℕ) → String → String → Result StorageError Identifier
unfolding required valid_id
required_id value field kind = required value field >>= λ raw. valid_id kind field raw

unfoldable pub namespace_to_wire : NamespaceCheckpoint → NamespaceWire
namespace_to_wire n = record { namespace_id = n.namespace_id.bytes; revision = n.revision }

unfoldable pub namespace_from_wire : NamespaceWire → Result StorageError NamespaceCheckpoint
unfolding valid_id positive_revision
namespace_from_wire wire = do
  namespace_id ← valid_id "namespace_id" "namespace_id" wire.namespace_id
  revision ← positive_revision wire.revision "namespace.revision"
  ok (record { namespace_id = namespace_id; revision = revision })

unfoldable pub member_to_wire : MemberCheckpoint → MemberWire
member_to_wire m = record {
  capabilities = map (λ c. c.value) m.capabilities.items;
  joined_at_ms = m.joined_at_ms;
  last_heartbeat_at_ms = m.last_heartbeat_at_ms;
  member_id = m.member_id.bytes;
  revision = m.revision;
}

unfoldable pub member_from_wire : MemberWire → Result StorageError MemberCheckpoint
unfolding valid_id positive_revision
member_from_wire wire = do
  member_id ← valid_id "member_id" "member_id" wire.member_id
  capabilities ←
      map_err (λ e. invalid_value "member.capabilities" (shows_capabilities e))
        (new_capabilities wire.capabilities)
  revision ← positive_revision wire.revision "member.revision"
  ok (record {
    member_id = member_id;
    capabilities = capabilities;
    joined_at_ms = wire.joined_at_ms;
    last_heartbeat_at_ms = wire.last_heartbeat_at_ms;
    revision = revision;
  })

unfoldable pub group_to_wire : ConsumerGroupCheckpoint → GroupWire
unfolding member_to_wire sort_by
group_to_wire g = record {
  generation = g.generation;
  group_id = g.group_id.bytes;
  members = sort_by (λ (m : MemberWire). m.member_id) (map member_to_wire g.members);
  namespace_id = g.namespace_id.bytes;
  revision = g.revision;
}

unfoldable pub group_from_wire : GroupWire → Result StorageError ConsumerGroupCheckpoint
unfolding valid_id positive_revision member_from_wire
group_from_wire wire = do
  group_id ← valid_id "group_id" "group_id" wire.group_id
  namespace_id ← valid_id "namespace_id" "group.namespace_id" wire.namespace_id
  revision ← positive_revision wire.revision "group.revision"
  members ← collect member_from_wire wire.members
  ok (record {
    group_id = group_id;
    namespace_id = namespace_id;
    generation = wire.generation;
    revision = revision;
    members = members;
  })
