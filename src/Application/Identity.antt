-- ===== src/Application/Identity.antt =====
-- crates/agent-broker-application/src/command_identity.rs: the identity of a mutation, by which a
-- retry is told from a new command. A session identifier and an owner instance are strings; the
-- two newtypes over them are synonyms of `Identifier`. Numbers wrapped in `NonZeroU64` are numbers.
use Prim.Native.String.{String}
use herterarchy_broker.Common.{
  ℕ, not, List, [], ◌∷◌, Option, none, some, Result, ok, err, ltb, nat_eq, if◌then◌else◌, length,
  all,
}
use herterarchy_broker.Identifiers.{Identifier, is_ascii_alphanumeric, is_body_byte}

abbrev pub CommandSessionId : Type 0
CommandSessionId = Identifier

abbrev pub SessionOwnerInstanceId : Type 0
SessionOwnerInstanceId = Identifier

abbrev pub CommandSequence : Type 0
CommandSequence = ℕ

abbrev pub SessionOwnerEpoch : Type 0
SessionOwnerEpoch = ℕ

-- `SessionOwnerEpoch::INITIAL`
abbrev pub initial_epoch : SessionOwnerEpoch
initial_epoch = 1

pub data CommandIdentityError : Type 0 where
  invalid_session_id invalid_owner_instance_id : String → CommandIdentityError
  zero_owner_epoch zero_sequence : CommandIdentityError

abbrev pub max_command_session_id_bytes : ℕ
max_command_session_id_bytes = 128

abbrev pub max_owner_instance_id_bytes : ℕ
max_owner_instance_id_bytes = 128

-- `validate_identifier` of this file
unfoldable pub validate_bytes : List ℕ → ℕ → Result String (Unit {0})
validate_bytes [] max_bytes = err "must not be empty"
validate_bytes (first ∷ bytes) max_bytes =
    if ltb max_bytes (length (first ∷ bytes))
    then err "must be at most 128 ASCII bytes"
    else if not (is_ascii_alphanumeric first)
    then err "must start with an ASCII alphanumeric character"
    else if not (all is_body_byte bytes)
    then err "contains unsupported characters"
    else ok tt

-- `CommandSessionId::new`
unfoldable pub new_session_id : List ℕ → Result CommandIdentityError CommandSessionId
unfolding validate_bytes
new_session_id value = elim (validate_bytes value max_command_session_id_bytes) [
  | ok _ ↦ ok (record { bytes = value })
  | err reason ↦ err (invalid_session_id reason)
]

-- `SessionOwnerInstanceId::new`
unfoldable pub new_owner_instance_id : List ℕ → Result CommandIdentityError SessionOwnerInstanceId
unfolding validate_bytes
new_owner_instance_id value = elim (validate_bytes value max_owner_instance_id_bytes) [
  | ok _ ↦ ok (record { bytes = value })
  | err reason ↦ err (invalid_owner_instance_id reason)
]

-- `CommandSequence::new`
unfoldable pub new_sequence : ℕ → Result CommandIdentityError CommandSequence
new_sequence value = if nat_eq value 0 then err zero_sequence else ok value

-- `SessionOwnerEpoch::new`
unfoldable pub new_owner_epoch : ℕ → Result CommandIdentityError SessionOwnerEpoch
new_owner_epoch value = if nat_eq value 0 then err zero_owner_epoch else ok value

pub record CommandIdentity : Type 0 where
  pub session_id : CommandSessionId
  pub owner_epoch : SessionOwnerEpoch
  pub owner_instance_id : Option SessionOwnerInstanceId
  pub sequence : CommandSequence

-- `CommandIdentity::new`
unfoldable pub new_identity : CommandSessionId → CommandSequence → CommandIdentity
new_identity session_id sequence = record {
  session_id = session_id;
  owner_epoch = initial_epoch;
  owner_instance_id = none;
  sequence = sequence;
}

unfoldable pub new_with_owner_epoch :
    CommandSessionId → SessionOwnerEpoch → CommandSequence → CommandIdentity
new_with_owner_epoch session_id owner_epoch sequence = record {
  session_id = session_id;
  owner_epoch = owner_epoch;
  owner_instance_id = none;
  sequence = sequence;
}

unfoldable pub new_with_owner :
    CommandSessionId
    → SessionOwnerEpoch
    → SessionOwnerInstanceId
    → CommandSequence
    → CommandIdentity
new_with_owner session_id owner_epoch owner_instance_id sequence = record {
  session_id = session_id;
  owner_epoch = owner_epoch;
  owner_instance_id = some owner_instance_id;
  sequence = sequence;
}
