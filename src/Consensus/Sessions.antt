-- ===== src/Consensus/Sessions.antt =====
-- crates/agent-broker-consensus/src/raft_state_machine.rs: how a committed proposal is applied. A
-- mutation that carries an identity is applied once: its session keeps the last outcome, which
-- answers a retry, and an owner epoch, which fences off an owner that was replaced.
use herterarchy_broker.Common.{
  ℕ, Bool, true, false, not, [], ◌∷◌, length, Option, none, some, is_some, Result, ok, err, map_err,
  ltb, leb, nat_eq, if◌then◌else◌, ◌>>=◌,
}
use herterarchy_broker.Common.Keys.{◌==◌}
use herterarchy_broker.Common.Maps.{Map, get, insert}
use herterarchy_broker.Identifiers.Order.{id_key}
use herterarchy_broker.Machine
use herterarchy_broker.Machine.State.{BrokerStateMachine}
use herterarchy_broker.Application.Messages.{Message, format, string, number}
use herterarchy_broker.Application.Errors.{
  BrokerErrorCode, stale_fence, conflict, capacity_exceeded, rejected, new_error, with_disposition,
  from_machine_error,
}
use herterarchy_broker.Application.Identity.{
  CommandIdentity, CommandSessionId, CommandSequence, SessionOwnerEpoch, SessionOwnerInstanceId,
  initial_epoch,
}
use herterarchy_broker.Consensus.Commands.{ReplicatedBrokerCommandV1}
use herterarchy_broker.Consensus.Decoding.{to_command}
use herterarchy_broker.Consensus.Requests.{same_identified_request}
use herterarchy_broker.Consensus.Responses.{
  ReplicatedBrokerResponseV1, from_application_result, from_pre_application_rejection,
}

abbrev pub max_command_sessions : ℕ
max_command_sessions = 4_096

pub record CommandSessionOutcome : Type 0 where
  pub sequence : CommandSequence
  pub command : ReplicatedBrokerCommandV1
  pub response : ReplicatedBrokerResponseV1

pub record CommandSessionRecord : Type 0 where
  pub owner_epoch : SessionOwnerEpoch
  pub owner_instance_id : Option SessionOwnerInstanceId
  pub last_outcome : Option CommandSessionOutcome

-- What a proposal reads and writes of `AgentBrokerRaftStateMachine`.
pub record Replica : Type 0 where
  pub broker : BrokerStateMachine
  pub command_sessions : Map CommandSessionId CommandSessionRecord

-- `io::Error` of the kind `InvalidData`
pub record IoError : Type 0 where
  pub message : Message

unfoldable pub invalid_state_machine_data : Message → IoError
invalid_state_machine_data message = record { message = message }

unfoldable pub replicated_application_error :
    BrokerErrorCode → Message → Result IoError ReplicatedBrokerResponseV1
unfolding new_error with_disposition from_pre_application_rejection invalid_state_machine_data
replicated_application_error code message =
    map_err (λ e. invalid_state_machine_data e.message)
      (from_pre_application_rejection (with_disposition rejected (new_error code message)))

-- A method that takes `&mut self`: what it returns, and the replica afterwards.
abbrev pub Method : Type 0
Method = Replica → Result IoError ReplicatedBrokerResponseV1 × Replica

unfoldable pub apply_replicated_command : ReplicatedBrokerCommandV1 → Method
unfolding to_command from_machine_error from_application_result invalid_state_machine_data
apply_replicated_command command s = elim (to_command command) [
  | err e ↦ (err (invalid_state_machine_data e.message), s)
  | ok command ↦
      let (applied, broker) = Machine.apply command s.broker in
      let application_result = map_err from_machine_error (applied >>= λ a. ok a.result) in
      (
        map_err (λ e. invalid_state_machine_data e.message)
            (from_application_result application_result),
        record s { broker = broker },
      )
]

-- `Option<&SessionOwnerInstanceId>` compared by `==`
unfoldable pub owner_eq : Option SessionOwnerInstanceId → Option SessionOwnerInstanceId → Bool
owner_eq none none = true
owner_eq none (some b) = false
owner_eq (some a) none = false
owner_eq (some a) (some b) = a == b

abbrev pub epoch_mismatch : CommandIdentity → CommandSessionRecord → Message
epoch_mismatch identity known =
    format "command session {} owner epoch {} does not match broker-authoritative epoch {}" (
      string identity.session_id.bytes
      ∷ number identity.owner_epoch
      ∷ number known.owner_epoch
      ∷ [])

abbrev pub owner_mismatch : CommandIdentity → Message
owner_mismatch identity =
    format "command session {} owner instance does not match broker-authoritative owner instance"
      (string identity.session_id.bytes ∷ [])

-- The checks of `apply_identified`: what it returns early, if it does.
unfoldable pub check_known :
    CommandIdentity
    → ReplicatedBrokerCommandV1
    → CommandSessionRecord
    → Option (Result IoError ReplicatedBrokerResponseV1)
unfolding owner_eq same_identified_request replicated_application_error
check_known identity command known =
    if not (nat_eq identity.owner_epoch known.owner_epoch)
    then some (replicated_application_error stale_fence (epoch_mismatch identity known))
    else if not (owner_eq identity.owner_instance_id known.owner_instance_id)
    then some (replicated_application_error stale_fence (owner_mismatch identity))
    else elim known.last_outcome [
      | some last ↦
          if ltb identity.sequence last.sequence
          then some (
              replicated_application_error stale_fence (
                format "command_sequence {} is older than committed sequence {} for session {}" (
                  number identity.sequence
                  ∷ number last.sequence
                  ∷ string identity.session_id.bytes
                  ∷ [])))
          else if nat_eq identity.sequence last.sequence
          then if same_identified_request command last.command
            then some (ok last.response)
            else some (
                replicated_application_error conflict (
                  format
                    "command_sequence {} for session {} is already committed with different command content"
                    (number identity.sequence ∷ string identity.session_id.bytes ∷ [])))
          else none
      | none ↦
          if not (nat_eq identity.sequence 1)
          then some (
              replicated_application_error stale_fence (
                format
                  "new owner epoch {} for session {} must restart command_sequence at 1, got {}"
                  (number identity.owner_epoch
                    ∷ string identity.session_id.bytes
                    ∷ number identity.sequence
                    ∷ [])))
          else none
    ]

unfoldable pub capacity_reached : Result IoError ReplicatedBrokerResponseV1
unfolding replicated_application_error
capacity_reached = replicated_application_error capacity_exceeded (
    format "command session capacity reached: max {} active sessions"
      (number max_command_sessions ∷ []))

unfoldable pub check_new : CommandIdentity → ℕ → Option (Result IoError ReplicatedBrokerResponseV1)
unfolding replicated_application_error capacity_reached
check_new identity session_count =
    if not (nat_eq identity.owner_epoch initial_epoch)
    then some (
        replicated_application_error stale_fence (
          format "new command session {} must begin at broker-authoritative owner epoch 1, got {}"
            (string identity.session_id.bytes ∷ number identity.owner_epoch ∷ [])))
    else if is_some identity.owner_instance_id
    then some (
        replicated_application_error stale_fence (
          format
            "new command session {} cannot self-authorize an owner instance before broker acquisition"
            (string identity.session_id.bytes ∷ [])))
    else if leb max_command_sessions session_count
    then some capacity_reached
    else none

unfoldable pub check_identity :
    CommandIdentity
    → ReplicatedBrokerCommandV1
    → Map CommandSessionId CommandSessionRecord
    → Option (Result IoError ReplicatedBrokerResponseV1)
unfolding check_known check_new
check_identity identity command sessions = elim (get identity.session_id sessions) [
  | some known ↦ check_known identity command known
  | none ↦ check_new identity (length sessions)
]

-- the record that a new outcome leaves behind
abbrev pub outcome_record :
    CommandIdentity → ReplicatedBrokerCommandV1 → ReplicatedBrokerResponseV1 → CommandSessionRecord
outcome_record identity command response = record {
  owner_epoch = identity.owner_epoch;
  owner_instance_id = identity.owner_instance_id;
  last_outcome =
      some (record { sequence = identity.sequence; command = command; response = response });
}

unfoldable pub apply_identified : CommandIdentity → ReplicatedBrokerCommandV1 → Method
unfolding check_identity apply_replicated_command
apply_identified identity command s = elim (check_identity identity command s.command_sessions) [
  | some early ↦ (early, s)
  | none ↦
      let (result, s₁) = apply_replicated_command command s in
      elim result [
        | err e ↦ (err e, s₁)
        | ok response ↦
            let known = outcome_record identity command response in
            (
              ok response,
              record s₁ { command_sessions = insert identity.session_id known s₁.command_sessions },
            )
      ]
]
