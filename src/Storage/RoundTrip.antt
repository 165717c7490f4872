-- ===== src/Storage/RoundTrip.antt =====
-- A record that is serialized comes back as it was.
use Prim.Native.String.{String}
use herterarchy_broker.Common.{
  ℕ, ◌≤◌, ◌≡◌, refl, List, [], ◌∷◌, some, ok, arith, collect-map, Every,
}
use herterarchy_broker.Common.Sorting.{Ascends, sort_by-map}
use herterarchy_broker.Identifiers.{Identifier}
use herterarchy_broker.Identifiers.Order.{bytes_eq, bytes_key}
use herterarchy_broker.Task.Checkpoint.{
  TaskCheckpoint, TaskCheckpointState, queued, leased, completed,
}
use herterarchy_broker.Group.Checkpoint.{MemberCheckpoint, ConsumerGroupCheckpoint}
use herterarchy_broker.Fencing.{new_term}
use herterarchy_broker.Machine.State.{BrokerStateMachine}
use herterarchy_broker.Machine.Recovery.{NamespaceCheckpoint, BrokerCheckpoint, from_checkpoint}
use herterarchy_broker.Machine.Values.{
  IsId, IsObjective, IsResult, IsCapabilities, new-IsId, new_objective-IsObjective,
  new_result-IsResult, new_capabilities-IsCapabilities,
}
use herterarchy_broker.Storage.Snapshot.{checkpoint_to_wire, snapshot_from_wire}
use herterarchy_broker.Storage.Wires.{
  NamespaceWire, MemberWire, GroupWire, positive_revision, required, valid_id, required_id,
  namespace_to_wire, namespace_from_wire, member_to_wire, member_from_wire, group_to_wire,
  group_from_wire,
}
use herterarchy_broker.Storage.Tasks.{
  TaskWire, state_to_wire, bare_task, task_to_wire, task_state_from_wire, task_from_wire,
  require_queued_task_fields, require_leased_task_fields,
}

valid_id-IsId :
    (kind field : String) (id : Identifier) → IsId id → valid_id kind field id.bytes ≡ ok id
unfolding valid_id
valid_id-IsId kind field id h = ground (arith, new-IsId kind id h)

required_id-IsId :
    (field kind : String) (id : Identifier)
    → IsId id
    → required_id (some id.bytes) field kind ≡ ok id
unfolding required_id required
required_id-IsId field kind id h = valid_id-IsId kind field id h

positive_revision-ok :
    (value : ℕ) (field : String) → 1 ≤ value → positive_revision value field ≡ ok value
unfolding positive_revision
positive_revision-ok value field h = ground arith

abbrev pub IsState : TaskCheckpointState → Type 0
IsState (queued lease_epoch) = Unit
IsState (leased lease_id owner group generation lease_epoch expires_at_ms) =
    IsId lease_id × IsId owner × IsId group
IsState (completed lease_id owner group generation lease_epoch result completed_at_ms) =
    IsId lease_id × IsId owner × IsId group × IsResult result

-- The values of a task record are ones that their constructors accept, and its revision is positive.
abbrev pub IsTask : TaskCheckpoint → Type 0
IsTask t =
    IsId t.task_id
    × IsId t.namespace_id
    × IsObjective t.objective
    × (1 ≤ t.revision)
    × IsState t.state

state_from_wire-state_to_wire :
    (state : TaskCheckpointState) (t : TaskCheckpoint)
    → IsState state
    → task_state_from_wire (state_to_wire state (bare_task t)) ≡ ok state
unfolding task_state_from_wire state_to_wire require_queued_task_fields require_leased_task_fields
    required bytes_eq
state_from_wire-state_to_wire (queued epoch) t h = refl
state_from_wire-state_to_wire (leased lease owner group generation epoch at) t (l, o, g) =
    rw
      (
        required_id-IsId "task.lease_id" "lease_id" lease l,
        required_id-IsId "task.lease_owner_member_id" "member_id" owner o,
        required_id-IsId "task.lease_group_id" "group_id" group g,
      )
      refl
state_from_wire-state_to_wire (completed lease owner group generation epoch result at) t
      (l, o, g, r) =
    rw
      (
        required_id-IsId "task.lease_id" "lease_id" lease l,
        required_id-IsId "task.lease_owner_member_id" "member_id" owner o,
        required_id-IsId "task.lease_group_id" "group_id" group g,
        new_result-IsResult result r,
      )
      refl

-- The state of a task says nothing of its other fields.
state_to_wire-kept :
    (state : TaskCheckpointState) (wire : TaskWire)
    → ((state_to_wire state wire).task_id ≡ wire.task_id)
      × ((state_to_wire state wire).namespace_id ≡ wire.namespace_id)
      × ((state_to_wire state wire).objective ≡ wire.objective)
      × ((state_to_wire state wire).created_at_ms ≡ wire.created_at_ms)
      × ((state_to_wire state wire).revision ≡ wire.revision)
unfolding state_to_wire
state_to_wire-kept (queued epoch) wire = (refl, refl, refl, refl, refl)
state_to_wire-kept (leased lease owner group generation epoch at) wire =
    (refl, refl, refl, refl, refl)
state_to_wire-kept (completed lease owner group generation epoch result at) wire =
    (refl, refl, refl, refl, refl)

-- A sound task record comes back from its serialized form exactly as it was.
pub task_from_wire-task_to_wire :
    (t : TaskCheckpoint) → IsTask t → task_from_wire (task_to_wire t) ≡ ok t
unfolding task_to_wire task_from_wire
task_from_wire-task_to_wire t (id, ns, objective, positive, state) =
    let (a, b, c, d, e) = state_to_wire-kept t.state (bare_task t) in
    rw
      (
        task_to_wire,
        task_from_wire,
        state_from_wire-state_to_wire t.state t state,
        a,
        b,
        c,
        d,
        e,
        valid_id-IsId "task_id" "task_id" t.task_id id,
        valid_id-IsId "namespace_id" "task.namespace_id" t.namespace_id ns,
        new_objective-IsObjective t.objective objective,
        positive_revision-ok t.revision "task.revision" positive,
      )
      refl

-- the member of a group
abbrev pub IsMember : MemberCheckpoint → Type 0
IsMember m = IsId m.member_id × IsCapabilities m.capabilities × (1 ≤ m.revision)

member_from_wire-member_to_wire :
    (m : MemberCheckpoint) → IsMember m → member_from_wire (member_to_wire m) ≡ ok m
unfolding member_to_wire member_from_wire
member_from_wire-member_to_wire m (id, capabilities, positive) =
    rw
      (
        member_to_wire,
        member_from_wire,
        valid_id-IsId "member_id" "member_id" m.member_id id,
        new_capabilities-IsCapabilities m.capabilities capabilities,
        positive_revision-ok m.revision "member.revision" positive,
      )
      refl

-- The members of a group record are in rising order of their identifiers.
abbrev pub IsGroup : ConsumerGroupCheckpoint → Type 0
IsGroup g =
    IsId g.group_id
    × IsId g.namespace_id
    × (1 ≤ g.revision)
    × Every IsMember g.members
    × Ascends (λ (m : MemberCheckpoint). m.member_id.bytes) g.members

group_from_wire-group_to_wire :
    (g : ConsumerGroupCheckpoint) → IsGroup g → group_from_wire (group_to_wire g) ≡ ok g
unfolding group_to_wire group_from_wire member_to_wire
group_from_wire-group_to_wire g (id, ns, positive, members, ascends) =
    rw
      (
        sort_by-map (λ (m : MemberWire). m.member_id) member_to_wire g.members ascends,
        valid_id-IsId "group_id" "group_id" g.group_id id,
        valid_id-IsId "namespace_id" "group.namespace_id" g.namespace_id ns,
        positive_revision-ok g.revision "group.revision" positive,
        collect-map member_from_wire member_to_wire IsMember member_from_wire-member_to_wire
            g.members members,
      )
      refl

abbrev pub IsNamespace : NamespaceCheckpoint → Type 0
IsNamespace n = IsId n.namespace_id × (1 ≤ n.revision)

namespace_from_wire-namespace_to_wire :
    (n : NamespaceCheckpoint) → IsNamespace n → namespace_from_wire (namespace_to_wire n) ≡ ok n
unfolding namespace_to_wire namespace_from_wire
namespace_from_wire-namespace_to_wire n (id, positive) =
    rw
      (
        valid_id-IsId "namespace_id" "namespace_id" n.namespace_id id,
        positive_revision-ok n.revision "namespace.revision" positive,
      )
      refl

ascending_tasks :
    (ts : List TaskCheckpoint)
    → Ascends (λ (t : TaskCheckpoint). t.task_id.bytes) ts
    → Ascends (λ (t : TaskCheckpoint). (task_to_wire t).task_id) ts
unfolding task_to_wire
ascending_tasks [] h = tt
ascending_tasks (t ∷ []) h = tt
ascending_tasks (t ∷ u ∷ ts) (below, rest) =
    let e = (state_to_wire-kept t.state (bare_task t)).0 in
    let f = (state_to_wire-kept u.state (bare_task u)).0 in
    (rw (e, f) below, ascending_tasks (u ∷ ts) rest)

new_term-ok : (t : ℕ) → 1 ≤ t → new_term t ≡ ok t
unfolding new_term
new_term-ok t h = ground arith

-- The records of a checkpoint are sound and in rising order of their identifiers.
abbrev pub IsCheckpoint : BrokerCheckpoint → Type 0
IsCheckpoint c =
    (1 ≤ c.term)
    × (Every IsNamespace c.namespaces
        × Ascends (λ (n : NamespaceCheckpoint). n.namespace_id.bytes) c.namespaces)
    × (Every IsTask c.tasks × Ascends (λ (t : TaskCheckpoint). t.task_id.bytes) c.tasks)
    × (Every IsGroup c.groups
        × Ascends (λ (g : ConsumerGroupCheckpoint). g.group_id.bytes) c.groups)

-- A sound checkpoint that a machine can be restored from comes back from its snapshot exactly as it was.
pub snapshot_from_wire-checkpoint_to_wire :
    (c : BrokerCheckpoint) (m : BrokerStateMachine)
    → IsCheckpoint c
    → from_checkpoint c ≡ ok m
    → snapshot_from_wire (checkpoint_to_wire c) ≡ ok c
unfolding checkpoint_to_wire snapshot_from_wire namespace_to_wire group_to_wire
snapshot_from_wire-checkpoint_to_wire c m (term, (ns, an), (ts, at), (gs, ag)) restored =
    rw
      (
        sort_by-map (λ (n : NamespaceWire). n.namespace_id) namespace_to_wire c.namespaces an,
        sort_by-map (λ (g : GroupWire). g.group_id) group_to_wire c.groups ag,
        sort_by-map (λ (t : TaskWire). t.task_id) task_to_wire c.tasks (ascending_tasks c.tasks at),
        new_term-ok c.term term,
        collect-map namespace_from_wire namespace_to_wire IsNamespace
            namespace_from_wire-namespace_to_wire c.namespaces ns,
        collect-map task_from_wire task_to_wire IsTask task_from_wire-task_to_wire c.tasks ts,
        collect-map group_from_wire group_to_wire IsGroup group_from_wire-group_to_wire c.groups gs,
        restored,
      )
      refl
