-- ===== src/Examples/Stores.antt =====
-- Concrete inputs for the theorems on the snapshot, the journal and the node that commits to them.
use herterarchy_broker.Common.{
  ◌+◌, ◌≤◌, ◌≡◌, refl, arith, none, ℕ, true, false, List, [], ◌∷◌, ◌++◌, length, ok, err,
}
use herterarchy_broker.Common.Maps
use herterarchy_broker.Common.Sets
use herterarchy_broker.Common.Maps.{get}
use herterarchy_broker.Fencing.{u64_max}
use herterarchy_broker.Identifiers
use herterarchy_broker.Identifiers.Order.{id_key}
use herterarchy_broker.Machine
use herterarchy_broker.Machine.Commands.{BrokerCommand}
use herterarchy_broker.Machine.State.{BrokerStateMachine, default_machine, new_namespace}
use herterarchy_broker.Machine.Results.{StateChangeSet, BrokerMutationResult, AppliedMutation}
use herterarchy_broker.Machine.Recovery.{BrokerCheckpoint, from_checkpoint}
use herterarchy_broker.Machine.Recovery
use herterarchy_broker.Machine.Monad.{◌>>=◌ as ◌then◌}
use herterarchy_broker.Machine.Registry.{ensure_namespace, create_namespace}
use herterarchy_broker.Storage.Snapshot.{checkpoint_to_wire, snapshot_from_wire}
use herterarchy_broker.Storage.RoundTrip.{IsCheckpoint, snapshot_from_wire-checkpoint_to_wire}
use herterarchy_broker.Storage.Errors.{RepositoryError}
use herterarchy_broker.Application.Messages.{literal}
use herterarchy_broker.Storage.Journal.{
  JournalMutation, JournalMutationWire, apply_journal_mutation,
}
use herterarchy_broker.Storage.Journal.Lookups.{Applied, apply_journal_mutation-Applied}
use herterarchy_broker.Storage.Repository.{
  Serializer, newline, ends_with_newline, records, replay_records,
}
use herterarchy_broker.Storage.Repository.Records.{IsClosed}
use herterarchy_broker.Storage.Repository.Replay.{replay_again, torn_tail}
use herterarchy_broker.Storage.Journaled.{
  JournaledBrokerStateRepository, Files, empty_checkpoint, commit,
}
use herterarchy_broker.Consensus.Standalone.{
  BrokerStateRepository, StandaloneConsensusAdapter, Durable, propose, propose-Durable,
  fail_stopped, group_directory, fail_stops, repository_error,
}
use herterarchy_broker.Consensus.Standalone
use herterarchy_broker.Examples.{the_namespace}

abbrev one_namespace : BrokerCheckpoint
one_namespace = record empty_checkpoint {
  revision = 1;
  namespaces = record { namespace_id = the_namespace; revision = 1 } ∷ [];
}

abbrev restored_machine : BrokerStateMachine
restored_machine = record default_machine {
  state = record (default_machine.state) {
    revision = 1;
    namespaces = (the_namespace, record { id = the_namespace; revision = 1 }) ∷ [];
  };
}

one-IsCheckpoint : IsCheckpoint one_namespace
one-IsCheckpoint = (omega arith, (((ground arith, omega arith), tt), tt), (tt, tt), (tt, tt))

restores : from_checkpoint one_namespace ≡ ok restored_machine
unfolding from_checkpoint Maps.contains_key get Maps.insert Recovery.namespace_of
restores = refl

snapshot_from_wire-checkpoint_to_wire_example :
    snapshot_from_wire (checkpoint_to_wire one_namespace) ≡ ok one_namespace
snapshot_from_wire-checkpoint_to_wire_example =
    snapshot_from_wire-checkpoint_to_wire one_namespace restored_machine one-IsCheckpoint restores

abbrev first_mutation : JournalMutation
first_mutation = record {
  term = 1;
  revision = 1;
  namespaces = one_namespace.namespaces;
  tasks = [];
  deleted_tasks = [];
  groups = [];
}

applies : apply_journal_mutation first_mutation empty_checkpoint ≡ (ok true, one_namespace)
unfolding apply_journal_mutation Maps.contains_key get
applies = refl

apply_journal_mutation-Applied_example :
    (first_mutation.revision ≡ 0 + 1)
    × (first_mutation.revision ≤ u64_max)
    × (empty_checkpoint.term ≤ first_mutation.term)
    × Applied empty_checkpoint first_mutation one_namespace
apply_journal_mutation-Applied_example =
    apply_journal_mutation-Applied first_mutation empty_checkpoint one_namespace applies

abbrev first_wire : JournalMutationWire
first_wire = record {
  deleted_tasks = [];
  groups = [];
  namespaces = record { namespace_id = b'n' ∷ []; revision = 1 } ∷ [];
  revision = 1;
  schema_version = 1;
  tasks = [];
  term = 1;
}

-- every text is read as the first mutation, and `x` is written for it
abbrev json : Serializer
json = record {
  mutation_from_slice = λ bytes. ok first_wire;
  mutation_to_vec = λ wire. ok (b'x' ∷ []);
  snapshot_from_slice = λ bytes. err [];
  snapshot_to_vec = λ wire. ok [];
  is_value = λ bytes. true;
}

abbrev journal : List ℕ
journal = b'x' ∷ newline ∷ []

replays :
    replay_records json (records journal) empty_checkpoint ≡ ok (one_namespace, records journal)
unfolding replay_records records Identifiers.is_ascii_alphanumeric Maps.contains_key get
replays = refl

replay_again_example :
    (0 ≤ 1)
    × ((d : BrokerCheckpoint)
        → 1 ≤ d.revision
        → replay_records json (records journal) d ≡ ok (d, records journal))
replay_again_example =
    replay_again json (records journal) empty_checkpoint one_namespace (records journal) replays

closed : IsClosed journal
unfolding ends_with_newline
closed = refl

torn_tail_example :
    replay_records json (records (journal ++ (b'x' ∷ []))) empty_checkpoint
    ≡ ok (one_namespace, records journal)
torn_tail_example =
    torn_tail json journal b'x' [] empty_checkpoint one_namespace closed (refl, tt) (omega arith)
      replays

abbrev file : Files ℕ
file = record {
  read_snapshot = λ d. ok none;
  read_journal = λ d. ok none;
  journal_size = λ d. ok d;
  truncate_torn_tail = λ size d. (ok tt, size);
  append_synced = λ bytes d. (ok tt, d + length bytes);
  write_snapshot_atomic = λ bytes d. (ok tt, d);
  truncate_synced = λ d. (ok tt, 0);
}

abbrev store : JournaledBrokerStateRepository ℕ
store = record {
  policy = record { compact_every = 2; max_journal_bytes = 4_096 };
  commits_since_compaction = 1;
  journal_bytes = 2;
  compaction_deferred = false;
  disk = 2;
}

abbrev no_changes : StateChangeSet
no_changes = record { namespaces = []; tasks = []; deleted_tasks = []; groups = [] }

-- a repository that counts its commits
abbrev port : BrokerStateRepository ℕ
port = record { load = λ r. (ok empty_checkpoint, r); commit = λ s changes r. (ok tt, r + 1) }

abbrev node : StandaloneConsensusAdapter ℕ
node = record { repository = 0; machine = default_machine; poisoned = false }

abbrev registration : BrokerCommand
registration =
    BrokerCommand.ensure_namespace (record { namespace_id = the_namespace; max_namespaces = 1 })

abbrev moved_node : StandaloneConsensusAdapter ℕ
moved_node = record node {
  repository = 1;
  machine = (Machine.apply registration default_machine).1;
}

abbrev registered : BrokerMutationResult
registered = BrokerMutationResult.namespace (record {
  metadata = record { term = 1; revision = 1 };
  namespace_id = the_namespace;
  namespace_revision = 1;
})

proposes : propose port registration node ≡ (ok registered, moved_node)
unfolding propose ◌then◌ Machine.dispatch ensure_namespace create_namespace get new_namespace
proposes = refl

propose-Durable_example :
    (false ≡ false)
    × (false ≡ false)
    × (moved_node.machine ≡ (Machine.apply registration default_machine).1)
    × Durable port registration node registered moved_node
propose-Durable_example = propose-Durable port registration node moved_node registered proposes

-- the error of a full disk, and a repository whose commits fail with it
abbrev full : RepositoryError
full = RepositoryError.io "journal append" (literal "no space")

abbrev failing_port : BrokerStateRepository ℕ
failing_port = record {
  load = λ r. (ok empty_checkpoint, r);
  commit = λ s changes r. (err full, r + 1);
}

abbrev applied : AppliedMutation
applied = record {
  result = registered;
  changes = record no_changes { namespaces = the_namespace ∷ [] };
}

applies_registration : (Machine.apply registration default_machine).0 ≡ ok applied
unfolding Machine.apply ◌then◌ Machine.dispatch ensure_namespace get create_namespace new_namespace
    Sets.insert
applies_registration = refl

registered_revision : (Machine.apply registration default_machine).1.revision ≡ 1
unfolding Machine.apply ◌then◌ Machine.dispatch ensure_namespace get create_namespace new_namespace
    Sets.insert
registered_revision = refl

abbrev stopped_node : StandaloneConsensusAdapter ℕ
stopped_node = (propose failing_port registration node).1

fail_stops_example :
    ((propose failing_port registration node).0 ≡ err (repository_error full))
    × (Standalone.run failing_port (registration ∷ []) stopped_node ≡ stopped_node)
    × (propose failing_port registration
          (Standalone.run failing_port (registration ∷ []) stopped_node)
        ≡ (err (fail_stopped failing_port), stopped_node))
    × (group_directory failing_port (Standalone.run failing_port (registration ∷ []) stopped_node)
        ≡ err (fail_stopped failing_port))
fail_stops_example =
    fail_stops failing_port registration node applied full (registration ∷ []) registration refl
      applies_registration (λ e. omega (arith, registered_revision)) refl
