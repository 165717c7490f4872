-- ===== src/Consensus/Ownership.antt =====
-- crates/agent-broker-consensus/src/raft_state_machine.rs: the acquisition of a command session by a
-- new owner, and the dispatch of a committed proposal.
use herterarchy_broker.Common.{
  ℕ, Bool, false, not, List, [], ◌∷◌, length, Option, none, some, Result, ok, err, map_err, leb,
  nat_eq, ◌&&◌, ◌||◌, if◌then◌else◌, ◌>>=◌,
}
use herterarchy_broker.Common.Maps.{get, insert}
use herterarchy_broker.Fencing.{checked_add}
use herterarchy_broker.Identifiers.Order.{id_key}
use herterarchy_broker.Application.Messages.{literal, format, string, number, shows_identity}
use herterarchy_broker.Application.Errors.{stale_fence, capacity_exceeded}
use herterarchy_broker.Application.Identity.{
  CommandIdentity, CommandIdentityError, CommandSessionId, SessionOwnerEpoch,
  SessionOwnerInstanceId, initial_epoch, new_session_id, new_owner_epoch, new_owner_instance_id,
}
use herterarchy_broker.Consensus.Commands.{ReplicatedBrokerCommandV1, acquire_command_session_owner}
use herterarchy_broker.Consensus.Proposals.{ReplicatedBrokerProposalV1, into_parts}
use herterarchy_broker.Consensus.Responses.{ReplicatedBrokerResponseV1, session_owner_acquired}
use herterarchy_broker.Consensus.Sessions.{
  CommandSessionRecord, IoError, Method, max_command_sessions, invalid_state_machine_data,
  replicated_application_error, owner_eq, capacity_reached, apply_identified,
  apply_replicated_command,
}

-- a session that has an owner now and no outcome yet
abbrev pub owned_by : SessionOwnerInstanceId → SessionOwnerEpoch → CommandSessionRecord
owned_by owner epoch = record {
  owner_epoch = epoch;
  owner_instance_id = some owner;
  last_outcome = none;
}

-- A result, and the record that the session has afterwards, if it changes.
abbrev pub Acquisition : Type 0
Acquisition = Result IoError ReplicatedBrokerResponseV1 × Option CommandSessionRecord

-- the vacant entry
unfoldable pub acquire_new :
    CommandSessionId → SessionOwnerEpoch → SessionOwnerInstanceId → ℕ → Acquisition
unfolding replicated_application_error capacity_reached
acquire_new session_id expected owner session_count =
    if not (nat_eq expected initial_epoch)
    then (
      replicated_application_error stale_fence (
          format "new command session {} must begin at broker-authoritative owner epoch 1, got {}"
            (string session_id.bytes ∷ number expected ∷ [])),
      none,
    )
    else if leb max_command_sessions session_count
    then (capacity_reached, none)
    else (ok (session_owner_acquired initial_epoch), some (owned_by owner initial_epoch))

-- Whether an acquisition is a retry of the one that made the record.
unfoldable pub is_retry : SessionOwnerEpoch → SessionOwnerInstanceId → CommandSessionRecord → Bool
unfolding owner_eq checked_add
is_retry expected owner known =
    owner_eq known.owner_instance_id (some owner)
    && (nat_eq known.owner_epoch expected || (elim (checked_add expected 1) [
      | none ↦ false
      | some retry_epoch ↦ nat_eq retry_epoch known.owner_epoch
    ]))

-- the occupied entry
unfoldable pub acquire_known :
    CommandSessionId
    → SessionOwnerEpoch
    → SessionOwnerInstanceId
    → CommandSessionRecord
    → Acquisition
unfolding replicated_application_error is_retry checked_add new_owner_epoch
    invalid_state_machine_data
acquire_known session_id expected owner known =
    if is_retry expected owner known
    then (ok (session_owner_acquired known.owner_epoch), none)
    else if not (nat_eq known.owner_epoch expected)
    then (
      replicated_application_error stale_fence (
          format "command session {} expected owner epoch {} but broker-authoritative epoch is {}"
            (string session_id.bytes ∷ number expected ∷ number known.owner_epoch ∷ [])),
      none,
    )
    else elim (checked_add known.owner_epoch 1) [
      | none ↦ (
        replicated_application_error capacity_exceeded
            (format "command session {} owner epoch is exhausted" (string session_id.bytes ∷ [])),
        none,
      )
      | some next ↦ elim (new_owner_epoch next) [
        | err e ↦ (err (invalid_state_machine_data (shows_identity e)), none)
        | ok next_owner_epoch ↦
            (ok (session_owner_acquired next_owner_epoch), some (owned_by owner next_owner_epoch))
      ]
    ]

-- the `match` on the entry of the session
unfoldable pub acquire_entry :
    CommandSessionId
    → SessionOwnerEpoch
    → SessionOwnerInstanceId
    → Option CommandSessionRecord
    → ℕ
    → Acquisition
unfolding acquire_new acquire_known
acquire_entry session_id expected owner none count = acquire_new session_id expected owner count
acquire_entry session_id expected owner (some known) count =
    acquire_known session_id expected owner known

abbrev pub settle : CommandSessionId → Acquisition → Method
settle session_id (result, none) s = (result, s)
settle session_id (result, some changed) s =
    (result, record s { command_sessions = insert session_id changed s.command_sessions })

-- `acquire_command_session_owner` behind the validation of its arguments
unfoldable pub acquire_owner :
    CommandSessionId → SessionOwnerEpoch → SessionOwnerInstanceId → Method
unfolding acquire_entry
acquire_owner session_id expected owner s =
    let sessions = s.command_sessions in
    let found = get session_id sessions in
    settle session_id (acquire_entry session_id expected owner found (length sessions)) s

unfoldable pub acquisition_arguments :
    List ℕ
    → ℕ
    → List ℕ
    → Result IoError (CommandSessionId × SessionOwnerEpoch × SessionOwnerInstanceId)
unfolding new_session_id new_owner_epoch new_owner_instance_id invalid_state_machine_data
acquisition_arguments session_id expected_owner_epoch owner_instance_id = do
  let invalid = λ (e : CommandIdentityError). invalid_state_machine_data (shows_identity e)
  session ← map_err invalid (new_session_id session_id)
  expected ← map_err invalid (new_owner_epoch expected_owner_epoch)
  owner ← map_err invalid (new_owner_instance_id owner_instance_id)
  ok (session, expected, owner)

-- `AgentBrokerRaftStateMachine::acquire_command_session_owner`
unfoldable pub acquire_session_owner : List ℕ → ℕ → List ℕ → Method
unfolding acquisition_arguments acquire_owner
acquire_session_owner session_id expected_owner_epoch owner_instance_id s =
    elim (acquisition_arguments session_id expected_owner_epoch owner_instance_id) [
      | err e ↦ (err e, s)
      | ok (session, expected, owner) ↦ acquire_owner session expected owner s
    ]

abbrev pub by_identity : Option CommandIdentity → ReplicatedBrokerCommandV1 → Method
by_identity none command = apply_replicated_command command
by_identity (some identity) command = apply_identified identity command

-- the `match` of `apply_proposal`
unfoldable pub apply_parts : Option CommandIdentity → ReplicatedBrokerCommandV1 → Method
unfolding apply_replicated_command apply_identified acquire_session_owner invalid_state_machine_data
apply_parts none (acquire_command_session_owner session expected owner) s =
    acquire_session_owner session expected owner s
apply_parts (some identity) (acquire_command_session_owner session expected owner) s = (
  err (
      invalid_state_machine_data
        (literal "command-session owner acquisition must not carry identified mutation identity")),
  s,
)
apply_parts identity command s = by_identity identity command s

unfoldable pub apply_proposal : ReplicatedBrokerProposalV1 → Method
unfolding into_parts apply_parts invalid_state_machine_data
apply_proposal proposal s = elim (into_parts proposal) [
  | err e ↦ (err (invalid_state_machine_data e.message), s)
  | ok (identity, command) ↦ apply_parts identity command s
]
