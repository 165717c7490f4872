-- ===== src/Consensus/Sidecar.antt =====
-- crates/agent-broker-consensus/src/raft_state_machine.rs: the command sessions as a snapshot keeps them
-- beside the checkpoint, and how they are read back. `invalid_snapshot_data` makes the same error as
-- `invalid_state_machine_data`.
use herterarchy_broker.Common.{
  ℕ, List, [], ◌∷◌, map, Option, none, some, Result, ok, err, ◌>>=◌, ◌>>◌, map_err, transpose,
  reject_if, not, nat_eq, ltb, length, if◌then◌else◌,
}
use herterarchy_broker.Common.Maps.{Map, contains_key, insert}
use herterarchy_broker.Identifiers.Order.{id_key}
use herterarchy_broker.Application.Identity.{
  CommandSessionId, SessionOwnerInstanceId, new_session_id, new_owner_epoch, new_owner_instance_id,
  new_sequence,
}
use herterarchy_broker.Application.Messages.{literal, format, number, shows_identity}
use herterarchy_broker.Consensus.Commands.{ReplicatedBrokerCommandV1}
use herterarchy_broker.Consensus.Decoding.{to_command}
use herterarchy_broker.Consensus.Responses.{
  ReplicatedBrokerResponseV1, normalize_stored_session_outcome, into_application_result,
}
use herterarchy_broker.Consensus.Sessions.{
  CommandSessionOutcome, CommandSessionRecord, IoError, invalid_state_machine_data,
  max_command_sessions,
}
pub mod RoundTrip

abbrev pub snapshot_version : ℕ
snapshot_version = 1

pub record CommandSessionSnapshotRecordV1 : Type 0 where
  pub session_id : List ℕ
  pub owner_epoch : ℕ
  pub owner_instance_id : Option (List ℕ)
  pub sequence : Option ℕ
  pub command : Option ReplicatedBrokerCommandV1
  pub response : Option ReplicatedBrokerResponseV1

pub record CommandSessionsSnapshotV1 : Type 0 where
  pub version : ℕ
  pub records : List CommandSessionSnapshotRecordV1

abbrev pub Sessions : Type 0
Sessions = Map CommandSessionId CommandSessionRecord

-- one record of `encode_consensus_snapshot`
unfoldable pub record_of : CommandSessionId × CommandSessionRecord → CommandSessionSnapshotRecordV1
record_of (id, known) = record {
  session_id = id.bytes;
  owner_epoch = known.owner_epoch;
  owner_instance_id = elim known.owner_instance_id [ none ↦ none | some owner ↦ some owner.bytes ];
  sequence = elim known.last_outcome [ none ↦ none | some outcome ↦ some outcome.sequence ];
  command = elim known.last_outcome [ none ↦ none | some outcome ↦ some outcome.command ];
  response = elim known.last_outcome [ none ↦ none | some outcome ↦ some outcome.response ];
}

-- the sidecar of `encode_consensus_snapshot`
unfoldable pub sidecar_of : Sessions → CommandSessionsSnapshotV1
unfolding record_of
sidecar_of sessions = record { version = snapshot_version; records = map record_of sessions }

abbrev pub whole_outcome :
    ℕ
    → ReplicatedBrokerCommandV1
    → ReplicatedBrokerResponseV1
    → Result IoError (Option CommandSessionOutcome)
whole_outcome sequence command response = do
  sequence ← map_err (λ e. invalid_state_machine_data (shows_identity e)) (new_sequence sequence)
  map_err (λ e. invalid_state_machine_data e.message) (to_command command)
  let normal = normalize_stored_session_outcome response
  map_err (λ e. invalid_state_machine_data e.message) (into_application_result normal)
  ok (some (record { sequence = sequence; command = command; response = normal }))

unfoldable pub decode_command_session_outcome :
    Option ℕ
    → Option ReplicatedBrokerCommandV1
    → Option ReplicatedBrokerResponseV1
    → Result IoError (Option CommandSessionOutcome)
unfolding new_sequence to_command normalize_stored_session_outcome into_application_result
    invalid_state_machine_data
decode_command_session_outcome none none none = ok none
decode_command_session_outcome (some sequence) (some command) (some response) =
    whole_outcome sequence command response
decode_command_session_outcome _ _ _ = err (
    invalid_state_machine_data
      (literal "command session snapshot outcome fields must be all present or all absent"))

unfoldable pub decode_record :
    CommandSessionSnapshotRecordV1 → Result IoError (CommandSessionId × CommandSessionRecord)
unfolding new_session_id new_owner_epoch new_owner_instance_id decode_command_session_outcome
    invalid_state_machine_data
decode_record r = do
  id ← map_err (λ e. invalid_state_machine_data (shows_identity e)) (new_session_id r.session_id)
  epoch ←
      map_err (λ e. invalid_state_machine_data (shows_identity e)) (new_owner_epoch r.owner_epoch)
  owner ←
      map_err (λ e. invalid_state_machine_data (shows_identity e))
        (transpose new_owner_instance_id r.owner_instance_id)
  outcome ← decode_command_session_outcome r.sequence r.command r.response
  ok (id, record { owner_epoch = epoch; owner_instance_id = owner; last_outcome = outcome })

-- the loop of `decode_command_session_records`; an `insert` that returns an old entry is an error
unfoldable pub decode_records :
    List CommandSessionSnapshotRecordV1 → Sessions → Result IoError Sessions
unfolding decode_record
decode_records [] sessions = ok sessions
decode_records (r ∷ rs) sessions = do
  (id, known) ← decode_record r
  reject_if (contains_key id sessions) (
      invalid_state_machine_data (literal "command session snapshot contains duplicate session_id"))
  decode_records rs (insert id known sessions)

-- the end of `decode_consensus_snapshot`
unfoldable pub sessions_of : CommandSessionsSnapshotV1 → Result IoError Sessions
unfolding decode_records
sessions_of sidecar = do
  reject_if (not (nat_eq sidecar.version snapshot_version)) (
      invalid_state_machine_data
        (format "unsupported command session snapshot version {}" (number sidecar.version ∷ [])))
  reject_if (ltb max_command_sessions (length sidecar.records)) (
      invalid_state_machine_data (
        format "command session snapshot exceeds capacity {MAX_COMMAND_SESSIONS}"
          (number max_command_sessions ∷ [])))
  decode_records sidecar.records []
