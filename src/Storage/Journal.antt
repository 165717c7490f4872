-- ===== src/Storage/Journal.antt =====
-- crates/agent-broker-storage/src/journal_v1.rs: the record of one mutation, how it is made of the
-- machine's change set, and how it is applied to a checkpoint.
pub mod Lookups
use Prim.Native.String.{String}
use herterarchy_broker.Common.{
  ℕ, Bool, true, false, not, List, [], ◌∷◌, map, filter, any, Option, none, some, Result, ok, err,
  ◌>>=◌, ◌>>◌, map_err, ok_or, reject_if, nat_eq, ltb, leb, if◌then◌else◌, collect,
}
use herterarchy_broker.Common.Keys.{◌==◌}
use herterarchy_broker.Common.Sorting.{sort_by}
use herterarchy_broker.Common.Maps.{get}
use herterarchy_broker.Common.Sets.{contains, extend}
use herterarchy_broker.Fencing.{Term, Revision, next, new_term}
use herterarchy_broker.Identifiers.{Identifier, TaskId}
use herterarchy_broker.Identifiers.Order.{id_key, bytes_key}
use herterarchy_broker.Task.Checkpoint as Tasks
use herterarchy_broker.Task.Checkpoint.{TaskCheckpoint}
use herterarchy_broker.Group.Checkpoint as Groups
use herterarchy_broker.Group.Checkpoint.{MemberCheckpoint, ConsumerGroupCheckpoint}
use herterarchy_broker.Machine.State.{BrokerState}
use herterarchy_broker.Machine.Results.{StateChangeSet}
use herterarchy_broker.Machine.Recovery.{
  NamespaceCheckpoint, BrokerCheckpoint, checkpoint_namespace, from_checkpoint,
}
use herterarchy_broker.Application.Messages.{literal, prefixed, shows_fencing}
use herterarchy_broker.Storage.Errors.{
  StorageError, invalid_format, unsupported_schema_version, revision_gap, backward_term,
  entity_revision_rollback, checkpoint,
}
use herterarchy_broker.Storage.Snapshot.{schema_version}
use herterarchy_broker.Storage.Wires.{
  NamespaceWire, GroupWire, namespace_to_wire, namespace_from_wire, group_to_wire, group_from_wire,
  invalid_value, valid_id,
}
use herterarchy_broker.Storage.Tasks.{TaskWire, task_to_wire, task_from_wire}

pub record JournalMutation : Type 0 where
  pub term : Term
  pub revision : Revision
  pub namespaces : List NamespaceCheckpoint
  pub tasks : List TaskCheckpoint
  pub deleted_tasks : List TaskId
  pub groups : List ConsumerGroupCheckpoint

pub record JournalMutationWire : Type 0 where
  pub deleted_tasks : List (List ℕ)
  pub groups : List GroupWire
  pub namespaces : List NamespaceWire
  pub revision : ℕ
  pub schema_version : ℕ
  pub tasks : List TaskWire
  pub term : ℕ

-- Whether a task is both deleted and in the set of the updated ones.
unfoldable pub overlaps : List TaskId → List TaskId → Bool
overlaps deleted updated =
    let updated_tasks = extend updated [] in any (λ id. contains id updated_tasks) deleted

unfoldable pub missing_changed_entity : String → StorageError
missing_changed_entity entity =
    invalid_format
      (prefixed "changed " (prefixed entity (literal " is absent from authoritative state")))

-- `ok_or_else(|| missing_changed_entity(..))` on the entry, if there is one
unfoldable pub changed {ℓ κ} :
    {A : Type ℓ} {B : Type κ} → String → (A → B) → Option A → Result StorageError B
unfolding missing_changed_entity
changed entity to_wire none = err (missing_changed_entity entity)
changed entity to_wire (some a) = ok (to_wire a)

-- `encode_journal_mutation`, before the serializer
unfoldable pub mutation_to_wire :
    BrokerState → StateChangeSet → Result StorageError JournalMutationWire
unfolding overlaps changed checkpoint_namespace Tasks.checkpoint Groups.checkpoint namespace_to_wire
    task_to_wire group_to_wire sort_by
mutation_to_wire s changes = do
  reject_if (overlaps changes.deleted_tasks changes.tasks)
      (invalid_format (literal "journal mutation cannot update and delete the same task"))
  namespaces ←
      collect
        (λ id.
          changed "namespace" (λ n. namespace_to_wire (checkpoint_namespace n))
            (get id s.namespaces))
        changes.namespaces
  tasks ←
      collect (λ id. changed "task" (λ t. task_to_wire (Tasks.checkpoint t)) (get id s.tasks))
        changes.tasks
  groups ←
      collect
        (λ id.
          changed "Consumer Group" (λ g. group_to_wire (Groups.checkpoint g)) (get id s.groups))
        changes.groups
  ok (record {
    deleted_tasks =
        sort_by (λ (id : List ℕ). id) (map (λ (id : TaskId). id.bytes) changes.deleted_tasks);
    groups = sort_by (λ (g : GroupWire). g.group_id) groups;
    namespaces = sort_by (λ (n : NamespaceWire). n.namespace_id) namespaces;
    revision = s.revision;
    schema_version = schema_version;
    tasks = sort_by (λ (t : TaskWire). t.task_id) tasks;
    term = s.term;
  })

-- `decode_journal_mutation`, behind the parser
unfoldable pub mutation_from_wire : JournalMutationWire → Result StorageError JournalMutation
unfolding overlaps valid_id task_from_wire namespace_from_wire group_from_wire new_term
mutation_from_wire wire = do
  reject_if (not (nat_eq wire.schema_version schema_version))
      (unsupported_schema_version wire.schema_version)
  reject_if (nat_eq wire.revision 0) (invalid_format (literal "journal revision must be positive"))
  deleted_tasks ← collect (valid_id "task_id" "deleted task ID") wire.deleted_tasks
  tasks ← collect task_from_wire wire.tasks
  reject_if (overlaps deleted_tasks (map (λ (t : TaskCheckpoint). t.task_id) tasks))
      (invalid_format (literal "journal record updates and deletes the same task"))
  term ← map_err (λ e. invalid_value "term" (shows_fencing e)) (new_term wire.term)
  namespaces ← collect namespace_from_wire wire.namespaces
  groups ← collect group_from_wire wire.groups
  ok (record {
    term = term;
    revision = wire.revision;
    namespaces = namespaces;
    tasks = tasks;
    deleted_tasks = deleted_tasks;
    groups = groups;
  })

unfoldable pub ensure_local_revision : String → Revision → Revision → Result StorageError (Unit {0})
ensure_local_revision entity current incoming =
    reject_if (ltb incoming current) (entity_revision_rollback entity)

-- The body that `upsert_namespace`, `upsert_group` and `upsert_task` share: the first entry with the same
-- identifier is replaced, if its revision is not greater, or else the incoming one is added at the end.
unfoldable pub upsert {ℓ} :
    {A : Type ℓ}
    → String
    → (A → Identifier)
    → (A → Revision)
    → A
    → List A
    → Result StorageError (List A)
unfolding ensure_local_revision
upsert entity of revision incoming [] = ok (incoming ∷ [])
upsert entity of revision incoming (x ∷ xs) =
    let rest = upsert entity of revision incoming xs in
    if of x == of incoming
    then (ensure_local_revision entity (revision x) (revision incoming) >>= λ _. ok (incoming ∷ xs))
    else (rest >>= λ ys. ok (x ∷ ys))

-- the loop around it
unfoldable pub upsert_all {ℓ} :
    {A : Type ℓ}
    → String
    → (A → Identifier)
    → (A → Revision)
    → List A
    → List A
    → Result StorageError (List A)
unfolding upsert
upsert_all entity of revision [] values = ok values
upsert_all entity of revision (x ∷ xs) values =
    upsert entity of revision x values >>= λ values'. upsert_all entity of revision xs values'

abbrev pub namespace_id_of : NamespaceCheckpoint → Identifier
namespace_id_of n = n.namespace_id

abbrev pub group_id_of : ConsumerGroupCheckpoint → Identifier
group_id_of g = g.group_id

abbrev pub task_id_of : TaskCheckpoint → Identifier
task_id_of t = t.task_id

unfoldable pub upsert_namespaces :
    List NamespaceCheckpoint
    → List NamespaceCheckpoint
    → Result StorageError (List NamespaceCheckpoint)
unfolding upsert_all
upsert_namespaces = upsert_all "namespace" namespace_id_of (λ n. n.revision)

unfoldable pub upsert_groups :
    List ConsumerGroupCheckpoint
    → List ConsumerGroupCheckpoint
    → Result StorageError (List ConsumerGroupCheckpoint)
unfolding upsert_all
upsert_groups = upsert_all "Consumer Group" group_id_of (λ g. g.revision)

unfoldable pub upsert_tasks :
    List TaskCheckpoint → List TaskCheckpoint → Result StorageError (List TaskCheckpoint)
unfolding upsert_all
upsert_tasks = upsert_all "task" task_id_of (λ t. t.revision)

unfoldable pub sort_members : ConsumerGroupCheckpoint → ConsumerGroupCheckpoint
unfolding sort_by
sort_members g = record g { members = sort_by (λ (m : MemberCheckpoint). m.member_id) g.members }

unfoldable pub sort_checkpoint : BrokerCheckpoint → BrokerCheckpoint
unfolding sort_by sort_members
sort_checkpoint c = record c {
  namespaces = sort_by namespace_id_of c.namespaces;
  tasks = sort_by task_id_of c.tasks;
  groups = map sort_members (sort_by group_id_of c.groups);
}

abbrev pub without : List TaskId → List TaskCheckpoint → List TaskCheckpoint
without deleted tasks = filter (λ t. not (contains (task_id_of t) deleted)) tasks

-- the candidate before it is sorted
abbrev pub assembled :
    JournalMutation
    → List NamespaceCheckpoint
    → List ConsumerGroupCheckpoint
    → List TaskCheckpoint
    → BrokerCheckpoint
assembled mutation namespaces groups tasks = record {
  term = mutation.term;
  revision = mutation.revision;
  namespaces = namespaces;
  tasks = without (extend mutation.deleted_tasks []) tasks;
  groups = groups;
}

-- the candidate that takes the place of the checkpoint
unfoldable pub candidate : BrokerCheckpoint → JournalMutation → Result StorageError BrokerCheckpoint
unfolding upsert_namespaces upsert_groups upsert_tasks sort_checkpoint from_checkpoint
candidate c mutation = do
  namespaces ← upsert_namespaces mutation.namespaces c.namespaces
  groups ← upsert_groups mutation.groups c.groups
  tasks ← upsert_tasks mutation.tasks c.tasks
  let applied = sort_checkpoint (assembled mutation namespaces groups tasks)
  map_err checkpoint (from_checkpoint applied)
  ok applied

unfoldable pub check_order : BrokerCheckpoint → JournalMutation → Result StorageError (Unit {0})
unfolding next
check_order c mutation = do
  expected ← map_err (λ e. invalid_format (shows_fencing e)) (next "revision" c.revision)
  reject_if (not (nat_eq mutation.revision expected)) (revision_gap expected mutation.revision)
  reject_if (ltb mutation.term c.term) (backward_term c.term mutation.term)

-- `apply_journal_mutation`: what it returns, and the caller's checkpoint afterwards.
unfoldable pub apply_journal_mutation :
    JournalMutation → BrokerCheckpoint → Result StorageError Bool × BrokerCheckpoint
unfolding check_order candidate
apply_journal_mutation mutation c =
    let made = check_order c mutation >>= λ _. candidate c mutation in
    if leb mutation.revision c.revision
    then (ok false, c)
    else elim made [ err e ↦ (err e, c) | ok c' ↦ (ok true, c') ]
