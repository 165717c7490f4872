-- ===== src/Examples/Snapshots.antt =====
-- A concrete serializer, for which the theorem on consensus snapshots is applied.
use herterarchy_broker.Common.{
  ℕ, ◌≡◌, refl, arith, none, some, Option, true, inl, inr, List, [], ◌∷◌, Result, ok, err, nat_eq,
  Bool-cases, if◌then◌else◌,
}
use herterarchy_broker.Identifiers
use herterarchy_broker.Application.Identity.{new_session_id, validate_bytes}
use herterarchy_broker.Machine.State.{default_machine}
use herterarchy_broker.Machine.Recovery.{from_checkpoint}
use herterarchy_broker.Storage.Wires.{GroupWire, NamespaceWire}
use herterarchy_broker.Storage.Tasks.{TaskWire}
use herterarchy_broker.Storage.Snapshot.{SnapshotWire}
use herterarchy_broker.Storage.RoundTrip.{IsCheckpoint}
use herterarchy_broker.Storage.Repository.{Serializer}
use herterarchy_broker.Storage.Journaled.{empty_checkpoint}
use herterarchy_broker.Consensus.Commands.{ReplicatedBrokerCommandV1}
use herterarchy_broker.Consensus.Responses.{ReplicatedBrokerResponseV1}
use herterarchy_broker.Consensus.Sidecar.{
  CommandSessionsSnapshotV1, CommandSessionSnapshotRecordV1, Sessions,
}
use herterarchy_broker.Consensus.Snapshots.{
  SidecarSerializer, encode_consensus_snapshot, decode_consensus_snapshot,
}
use herterarchy_broker.Consensus.Snapshots.RoundTrip.{Reads, decode-encode_consensus_snapshot}
use herterarchy_broker.Examples.{named}

-- a snapshot without entries, as its revision and its term
abbrev write_snapshot : SnapshotWire → Result (List ℕ) (List ℕ)
write_snapshot w = elim w.groups [
  | g ∷ gs ↦ err []
  | [] ↦ elim w.namespaces [
    | n ∷ ns ↦ err []
    | [] ↦ elim w.tasks [
      | t ∷ ts ↦ err []
      | [] ↦ if nat_eq w.schema_version 1 then ok (w.revision ∷ w.term ∷ []) else err []
    ]
  ]
]

abbrev read_snapshot : List ℕ → Result (List ℕ) SnapshotWire
read_snapshot (revision ∷ term ∷ []) = ok (record {
  groups = [];
  namespaces = [];
  revision = revision;
  schema_version = 1;
  tasks = [];
  term = term;
})
read_snapshot _ = err []

snapshot-fields :
    (groups : List GroupWire) (namespaces : List NamespaceWire) (revision version : ℕ)
    (tasks : List TaskWire) (term : ℕ) (bytes : List ℕ)
    → (let w : SnapshotWire = record {
      groups = groups;
      namespaces = namespaces;
      revision = revision;
      schema_version = version;
      tasks = tasks;
      term = term;
    } in
        write_snapshot w ≡ ok bytes → read_snapshot bytes ≡ ok w)
snapshot-fields [] [] revision version [] term bytes h = elim (Bool-cases (nat_eq version 1)) [
  | inr other ↦ absurd (ground arith)
  | inl first ↦
      let v : version ≡ 1 = ground arith in
      let e : revision ∷ term ∷ [] ≡ bytes = ground arith in rw (← e, v) refl
]
snapshot-fields (g ∷ gs) ns revision version ts term bytes h = absurd (ground arith)
snapshot-fields [] (n ∷ ns) revision version ts term bytes h = absurd (ground arith)
snapshot-fields [] [] revision version (t ∷ ts) term bytes h = absurd (ground arith)

abbrev json : Serializer
json = record {
  mutation_from_slice = λ bytes. err [];
  mutation_to_vec = λ wire. err [];
  snapshot_from_slice = read_snapshot;
  snapshot_to_vec = write_snapshot;
  is_value = λ bytes. true;
}

-- one session that has no owner and no outcome, as its epoch and its identifier
abbrev write_record : CommandSessionSnapshotRecordV1 → Result (List ℕ) (List ℕ)
write_record r = elim r.owner_instance_id [
  | some owner ↦ err []
  | none ↦ elim r.sequence [
    | some sequence ↦ err []
    | none ↦ elim r.command [
      | some command ↦ err []
      | none ↦ elim r.response [ some response ↦ err [] | none ↦ ok (r.owner_epoch ∷ r.session_id) ]
    ]
  ]
]

abbrev write_sidecar : CommandSessionsSnapshotV1 → Result (List ℕ) (List ℕ)
write_sidecar w = elim w.records [
  | [] ↦ err []
  | r ∷ rs ↦ elim rs [
    | s ∷ ss ↦ err []
    | [] ↦ let written = write_record r in if nat_eq w.version 1 then written else err []
  ]
]

abbrev read_sidecar : List ℕ → Result (List ℕ) CommandSessionsSnapshotV1
read_sidecar [] = err []
read_sidecar (epoch ∷ session_id) = ok (record {
  version = 1;
  records =
      record {
        session_id = session_id;
        owner_epoch = epoch;
        owner_instance_id = none;
        sequence = none;
        command = none;
        response = none;
      }
      ∷ [];
})

abbrev record_with :
    List ℕ
    → ℕ
    → Option (List ℕ)
    → Option ℕ
    → Option ReplicatedBrokerCommandV1
    → Option ReplicatedBrokerResponseV1
    → CommandSessionSnapshotRecordV1
record_with id epoch owner sequence command response = record {
  session_id = id;
  owner_epoch = epoch;
  owner_instance_id = owner;
  sequence = sequence;
  command = command;
  response = response;
}

record-fields :
    (id : List ℕ) (epoch : ℕ) (owner : Option (List ℕ)) (sequence : Option ℕ)
    (command : Option ReplicatedBrokerCommandV1) (response : Option ReplicatedBrokerResponseV1)
    (bytes : List ℕ)
    → write_record (record_with id epoch owner sequence command response) ≡ ok bytes
    → read_sidecar bytes
      ≡ ok (record {
        version = 1;
        records = record_with id epoch owner sequence command response ∷ [];
      })
record-fields id epoch (some o) sequence command response bytes h = absurd (ground arith)
record-fields id epoch none (some q) command response bytes h = absurd (ground arith)
record-fields id epoch none none (some c) response bytes h = absurd (ground arith)
record-fields id epoch none none none (some r) bytes h = absurd (ground arith)
record-fields id epoch none none none none bytes h =
    let e : epoch ∷ id ≡ bytes = ground arith in rw (← e) refl

sidecar-fields :
    (version : ℕ) (records : List CommandSessionSnapshotRecordV1) (bytes : List ℕ)
    → (let w : CommandSessionsSnapshotV1 = record { version = version; records = records } in
        write_sidecar w ≡ ok bytes → read_sidecar bytes ≡ ok w)
sidecar-fields version [] bytes h = absurd (ground arith)
sidecar-fields version (r ∷ s ∷ ss) bytes h = absurd (ground arith)
sidecar-fields version (r ∷ []) bytes h = elim (Bool-cases (nat_eq version 1)) [
  | inr other ↦ absurd (ground arith)
  | inl first ↦
      let v : version ≡ 1 = ground arith in
      let e : write_record r ≡ ok bytes = ground arith in
      rw (v) (
        record-fields r.session_id r.owner_epoch r.owner_instance_id r.sequence r.command r.response
          bytes e)
]

abbrev sidecar_json : SidecarSerializer
sidecar_json = record { from_slice = read_sidecar; to_vec = write_sidecar }

snapshot-Reads : Reads json.snapshot_to_vec json.snapshot_from_slice
snapshot-Reads w bytes h =
    snapshot-fields w.groups w.namespaces w.revision w.schema_version w.tasks w.term bytes h

sidecar-Reads : Reads sidecar_json.to_vec sidecar_json.from_slice
sidecar-Reads w bytes h = sidecar-fields w.version w.records bytes h

abbrev one_session : Sessions
one_session =
    (named b's', record { owner_epoch = 1; owner_instance_id = none; last_outcome = none }) ∷ []

empty-IsCheckpoint : IsCheckpoint empty_checkpoint
empty-IsCheckpoint = (omega arith, (tt, tt), (tt, tt), (tt, tt))

restores_empty :
    from_checkpoint empty_checkpoint
    ≡ ok (record default_machine { state = record (default_machine.state) { revision = 0 } })
unfolding from_checkpoint
restores_empty = refl

stored : new_session_id (b's' ∷ []) ≡ ok (named b's')
unfolding new_session_id validate_bytes Identifiers.is_ascii_alphanumeric
stored = refl

abbrev written : List ℕ
written =
    b'A' ∷ b'B' ∷ b'C' ∷ b'S' ∷ b'N' ∷ b'P' ∷ b'0' ∷ b'1' ∷ 0 ∷ 0 ∷ 0 ∷ 1 ∷ 0 ∷ 0 ∷ 0 ∷ 0 ∷ 0 ∷ 0
    ∷ 0 ∷ 2 ∷ 0 ∷ 0 ∷ 0 ∷ 0 ∷ 0 ∷ 0 ∷ 0 ∷ 2 ∷ 0 ∷ 1 ∷ 1 ∷ b's' ∷ []

writes : encode_consensus_snapshot json sidecar_json empty_checkpoint one_session ≡ ok written
unfolding encode_consensus_snapshot
writes = refl

decode-encode_consensus_snapshot_example :
    decode_consensus_snapshot json sidecar_json written ≡ ok (empty_checkpoint, one_session)
decode-encode_consensus_snapshot_example =
    decode-encode_consensus_snapshot json sidecar_json empty_checkpoint
      (record default_machine { state = record (default_machine.state) { revision = 0 } })
      one_session written snapshot-Reads sidecar-Reads empty-IsCheckpoint restores_empty
      (tt, omega arith, ((stored, omega arith, tt, tt), tt)) writes (omega arith)
