-- ===== src/Machine/Restore.antt =====
-- The state comes back from its checkpoint: `checkpoint` and `restore_state` of
-- crates/agent-broker-domain/src/state_machine.rs.
use herterarchy_broker.Common.{
  ◌≤◌, ◌≡◌, refl, sym, ◌∙◌, ap, subst, true, false, List, [], ◌∷◌, ◌++◌, map, Result, ok, ◌>>=◌,
  arith,
}
use herterarchy_broker.Common.Maps.{Map, values, insert, contains_key, IsOrdered}
use herterarchy_broker.Common.Ends.{insert-end, append_assoc, append_nil}
use herterarchy_broker.Identifiers.{Identifier, NamespaceId, TaskId, ConsumerGroupId, ConsumerId}
use herterarchy_broker.Identifiers.Order.{id_key}
use herterarchy_broker.Task.{Task}
use herterarchy_broker.Task.Checkpoint as TaskCheckpoint
use herterarchy_broker.Task.Checkpoint.{from_checkpoint-checkpoint}
use herterarchy_broker.Group.{ConsumerGroup, Consumer}
use herterarchy_broker.Group.Checkpoint as GroupCheckpoint
use herterarchy_broker.Group.Checkpoint.{CheckpointError, checkpoint_member}
use herterarchy_broker.Group.Restore.{from_checkpoint-checkpoint_group}
use herterarchy_broker.Group.Membership.{IsRegular}
use herterarchy_broker.Machine.State.{BrokerState, Namespace}
use herterarchy_broker.Machine.Recovery.{
  checkpoint_namespace, namespace_of, checkpoint, require_positive_revision, restore_namespace,
  restore_namespaces, require_members, restore_group, restore_groups, restore_task, restore_tasks,
  restore_state,
}

abbrev pub AllSound : {V : Type 0} (Sound : Identifier → V → Type 0) → Map Identifier V → Type 0
AllSound Sound [] = Unit {0}
AllSound Sound ((k, v) ∷ m) = Sound k v × AllSound Sound m

-- A loop that puts entries into a map, one checkpoint at a time, and stops at the first error.
module _ {V C : Type 0} (check : V → C)
    (one : C → Map Identifier V → Result CheckpointError (Map Identifier V))
    (loop : List C → Map Identifier V → Result CheckpointError (Map Identifier V))
    (loop_nil : (acc : Map Identifier V) → loop [] acc ≡ ok acc)
    (loop_cons : (c : C) (cs : List C) (acc : Map Identifier V)
      → loop (c ∷ cs) acc ≡ (one c acc >>= λ acc'. loop cs acc'))
    (Sound : Identifier → V → Type 0)
    (put : (k : Identifier) (v : V) (acc : Map Identifier V)
      → Sound k v
      → contains_key k acc ≡ false
      → one (check v) acc ≡ ok (insert k v acc)) where
  loop-values :
      (done rest : Map Identifier V)
      → IsOrdered (done ++ rest)
      → AllSound Sound rest
      → loop (map check (values rest)) done ≡ ok (done ++ rest)
  loop-values done [] h sound = loop_nil done ∙ ap ok (sym (append_nil done))
  loop-values done ((k, v) ∷ rest) h sound =
      let (at_end, fresh) = insert-end k v done rest h in
      let assoc = append_assoc done ((k, v) ∷ []) rest in
      let h' = subst IsOrdered (sym assoc) h in
      let ih = loop-values (done ++ ((k, v) ∷ [])) rest h' sound.1 in
      let here = loop_cons (check v) (map check (values rest)) done in
      let goes = put k v done sound.0 fresh in ground (arith, here, goes, ih, assoc, at_end)

-- An entry that can be restored stands under its own identifier and has a positive revision; a
-- task's and a group's namespace is registered; a group's members are regular and counted.
pub record NamespaceSound (k : Identifier) (n : Namespace) : Type 0 where
  pub keyed : k ≡ n.id
  pub counted : 1 ≤ n.revision

pub record TaskSound (namespaces : Map NamespaceId Namespace) (k : Identifier) (t : Task)
    : Type 0 where
  pub keyed : k ≡ t.id
  pub counted : 1 ≤ t.revision
  pub housed : contains_key t.namespace_id namespaces ≡ true

abbrev pub IsCounted : Map ConsumerId Consumer → Type 0
IsCounted [] = Unit {0}
IsCounted ((k, c) ∷ cs) = (1 ≤ c.revision) × IsCounted cs

pub record GroupSound (namespaces : Map NamespaceId Namespace) (k : Identifier) (g : ConsumerGroup)
    : Type 0 where
  pub keyed : k ≡ g.id
  pub counted : 1 ≤ g.revision
  pub housed : contains_key g.namespace_id namespaces ≡ true
  pub members : IsRegular g.consumers
  pub members_counted : IsCounted g.consumers

put_namespace :
    (k : Identifier) (n : Namespace) (acc : Map NamespaceId Namespace)
    → NamespaceSound k n
    → contains_key k acc ≡ false
    → restore_namespace (checkpoint_namespace n) acc ≡ ok (insert k n acc)
unfolding restore_namespace checkpoint_namespace namespace_of require_positive_revision
put_namespace k n acc s fresh = ground arith

put_task :
    (namespaces : Map NamespaceId Namespace) (k : Identifier) (t : Task) (acc : Map TaskId Task)
    → TaskSound namespaces k t
    → contains_key k acc ≡ false
    → restore_task namespaces (TaskCheckpoint.checkpoint t) acc ≡ ok (insert k t acc)
unfolding restore_task require_positive_revision TaskCheckpoint.checkpoint
put_task namespaces k t acc s fresh = ground (arith, from_checkpoint-checkpoint t)

require_members-values :
    (cs : Map ConsumerId Consumer)
    → IsCounted cs
    → require_members (map checkpoint_member (values cs)) ≡ ok tt
unfolding require_members require_positive_revision checkpoint_member
require_members-values [] h = refl
require_members-values ((k, c) ∷ cs) h = ground (arith, require_members-values cs)

put_group :
    (namespaces : Map NamespaceId Namespace) (k : Identifier) (g : ConsumerGroup)
    (acc : Map ConsumerGroupId ConsumerGroup)
    → GroupSound namespaces k g
    → contains_key k acc ≡ false
    → restore_group namespaces (GroupCheckpoint.checkpoint g) acc ≡ ok (insert k g acc)
unfolding restore_group require_positive_revision GroupCheckpoint.checkpoint
put_group namespaces k g acc s fresh = ground (
  arith,
  require_members-values g.consumers s.members_counted,
  from_checkpoint-checkpoint_group g s.members.ordered s.members.keyed,
)

-- A state that its own checkpoint can bring back.
pub record IsRestorable (s : BrokerState) : Type 0 where
  pub namespaces_ordered : IsOrdered s.namespaces
  pub namespaces_sound : AllSound NamespaceSound s.namespaces
  pub groups_ordered : IsOrdered s.groups
  pub groups_sound : AllSound (GroupSound s.namespaces) s.groups
  pub tasks_ordered : IsOrdered s.tasks
  pub tasks_sound : AllSound (TaskSound s.namespaces) s.tasks

namespaces_restored :
    (m : Map NamespaceId Namespace)
    → IsOrdered m
    → AllSound NamespaceSound m
    → restore_namespaces (map checkpoint_namespace (values m)) [] ≡ ok m
unfolding restore_namespaces
namespaces_restored m o s =
    loop-values checkpoint_namespace restore_namespace restore_namespaces (λ acc. refl)
      (λ c cs acc. refl) NamespaceSound put_namespace [] m o s

groups_restored :
    (namespaces : Map NamespaceId Namespace) (m : Map ConsumerGroupId ConsumerGroup)
    → IsOrdered m
    → AllSound (GroupSound namespaces) m
    → restore_groups namespaces (map GroupCheckpoint.checkpoint (values m)) [] ≡ ok m
unfolding restore_groups
groups_restored namespaces m o s =
    loop-values GroupCheckpoint.checkpoint (restore_group namespaces) (restore_groups namespaces)
      (λ acc. refl) (λ c cs acc. refl) (GroupSound namespaces) (put_group namespaces) [] m o s

tasks_restored :
    (namespaces : Map NamespaceId Namespace) (m : Map TaskId Task)
    → IsOrdered m
    → AllSound (TaskSound namespaces) m
    → restore_tasks namespaces (map TaskCheckpoint.checkpoint (values m)) [] ≡ ok m
unfolding restore_tasks
tasks_restored namespaces m o s =
    loop-values TaskCheckpoint.checkpoint (restore_task namespaces) (restore_tasks namespaces)
      (λ acc. refl) (λ c cs acc. refl) (TaskSound namespaces) (put_task namespaces) [] m o s

-- A state whose maps are in order, each entry under its own identifier, with positive revisions and
-- registered namespaces, is restored from its checkpoint exactly as it was.
pub restore_state-checkpoint :
    (s : BrokerState) → IsRestorable s → restore_state (checkpoint s) ≡ ok s
unfolding restore_state checkpoint
restore_state-checkpoint s h = ground (
  arith,
  namespaces_restored s.namespaces h.namespaces_ordered h.namespaces_sound,
  groups_restored s.namespaces s.groups h.groups_ordered h.groups_sound,
  tasks_restored s.namespaces s.tasks h.tasks_ordered h.tasks_sound,
)
