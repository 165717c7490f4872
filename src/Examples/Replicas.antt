-- ===== src/Examples/Replicas.antt =====
-- Concrete inputs for the theorems on replicated proposals and command sessions.
use herterarchy_broker.Common.{
  ◌≡◌, ◌↔◌, refl, inl, arith, none, some, List, [], ◌∷◌, ok, true, ◌>>=◌,
}
use herterarchy_broker.Common.Maps
use herterarchy_broker.Common.Maps.{get}
use herterarchy_broker.Common.Sets
use herterarchy_broker.Fencing.{next, checked_add}
use herterarchy_broker.Identifiers
use herterarchy_broker.Identifiers.{is_body_byte}
use herterarchy_broker.Identifiers.Order.{id_key, id_eq, id_lt}
use herterarchy_broker.Machine
use herterarchy_broker.Machine.Commands.{BrokerCommand}
use herterarchy_broker.Machine.State.{default_machine, new_namespace}
use herterarchy_broker.Machine.Monad.{◌>>=◌ as ◌then◌}
use herterarchy_broker.Machine.Leases.{metadata, next_global_revision}
use herterarchy_broker.Machine.Registry.{ensure_namespace, create_namespace}
use herterarchy_broker.Machine.{dispatch, clear_changes}
use herterarchy_broker.Application.Errors.{stale_fence, from_machine_error}
use herterarchy_broker.Application.Identity.{
  CommandIdentity, new_session_id, new_owner_epoch, new_owner_instance_id, new_sequence,
  validate_bytes, new_with_owner,
}
use herterarchy_broker.Consensus.Commands.{
  ReplicatedBrokerCommandV1, from_command, u64_to_usize, usize_to_u64,
}
use herterarchy_broker.Consensus.Commands
use herterarchy_broker.Consensus.Decoding
use herterarchy_broker.Consensus.Decoding.{to_command, convert_coordination_command}
use herterarchy_broker.Consensus.Requests.{
  request, same_identified_request, same_identified_request_iff,
}
use herterarchy_broker.Consensus.Proposals.{ReplicatedBrokerProposalV1, into_parts, to_identity}
use herterarchy_broker.Consensus.Responses.{
  ReplicatedBrokerResponseV1, success, session_owner_acquired, from_application_result,
}
use herterarchy_broker.Consensus.Responses.Results
use herterarchy_broker.Consensus.Responses.Results.{from_result, from_metadata}
use herterarchy_broker.Consensus.Sessions.{
  Replica, outcome_record, apply_identified, apply_replicated_command, check_identity, check_known,
  check_new, owner_eq,
}
use herterarchy_broker.Consensus.Ownership.{
  owned_by, acquire_owner, acquire_entry, acquire_known, is_retry, apply_proposal, apply_parts,
}
use herterarchy_broker.Consensus.Steps.{run_proposals}
use herterarchy_broker.Consensus.Once.{apply_proposal_again}
use herterarchy_broker.Consensus.Fencing.{Refused, takeover_fences}
use herterarchy_broker.Consensus.Capacity.{IsBounded, run_proposals-IsBounded}
use herterarchy_broker.Consensus.Broker.{Among, run_proposals-commands}
use herterarchy_broker.Consensus.RoundTrip.{IsSound, to_command-from_command}
use herterarchy_broker.Consensus.Validated.{to_command-IsSound}
use herterarchy_broker.Examples.{named, the_namespace}
use herterarchy_broker.Examples.Machines.{the_claim}

abbrev the_session : Identifiers.Identifier
the_session = named b's'

abbrev the_owner : Identifiers.Identifier
the_owner = named b'o'

abbrev new_owner : Identifiers.Identifier
new_owner = named b'p'

abbrev fresh : Replica
fresh = record { broker = default_machine; command_sessions = [] }

abbrev owned : Replica
owned = record fresh { command_sessions = (the_session, owned_by the_owner 1) ∷ [] }

abbrev taken_over : Replica
taken_over = record fresh { command_sessions = (the_session, owned_by new_owner 2) ∷ [] }

abbrev first_identity : CommandIdentity
first_identity = record {
  session_id = the_session;
  owner_epoch = 1;
  owner_instance_id = some the_owner;
  sequence = 1;
}

abbrev small_registry : ReplicatedBrokerCommandV1
small_registry = Commands.ensure_namespace (b'n' ∷ []) 1

abbrev large_registry : ReplicatedBrokerCommandV1
large_registry = Commands.ensure_namespace (b'n' ∷ []) 2

abbrev mutation : ReplicatedBrokerCommandV1 → ReplicatedBrokerProposalV1
mutation command = record {
  identity = some (record {
    session_id = b's' ∷ [];
    owner_epoch = 1;
    owner_instance_id = some (b'o' ∷ []);
    sequence = 1;
  });
  command = command;
}

abbrev acquisition : ReplicatedBrokerProposalV1
acquisition = record {
  identity = none;
  command = Commands.acquire_command_session_owner (b's' ∷ []) 1 (b'o' ∷ []);
}

abbrev registered : ReplicatedBrokerResponseV1
registered = success (Results.namespace (record { term = 1; revision = 1 }) (b'n' ∷ []) 1)

abbrev with_namespace : Replica
with_namespace = record {
  broker =
      (Machine.apply
        (BrokerCommand.ensure_namespace
          (record { namespace_id = the_namespace; max_namespaces = 1 }))
        default_machine).1;
  command_sessions = (the_session, outcome_record first_identity small_registry registered) ∷ [];
}

registers : apply_proposal (mutation small_registry) owned ≡ (ok registered, with_namespace)
unfolding apply_proposal into_parts apply_parts apply_identified apply_replicated_command
    check_identity check_known check_new owner_eq to_identity new_session_id new_owner_epoch
    new_owner_instance_id new_sequence validate_bytes new_with_owner is_body_byte to_command
    convert_coordination_command Decoding.identifier u64_to_usize Identifiers.new from_machine_error
    from_application_result from_result from_metadata Machine.apply dispatch clear_changes
    ensure_namespace create_namespace next_global_revision next metadata new_namespace get
    Maps.insert Sets.insert id_eq id_lt ◌then◌ Identifiers.is_ascii_alphanumeric
registers = refl

apply_proposal_again_example :
    apply_proposal (mutation large_registry) with_namespace ≡ (ok registered, with_namespace)
apply_proposal_again_example =
    apply_proposal_again (mutation small_registry) (mutation large_registry) owned with_namespace
      registered tt refl refl registers

takes : acquire_owner the_session 1 new_owner owned ≡ (ok (session_owner_acquired 2), taken_over)
unfolding acquire_owner acquire_entry acquire_known is_retry owner_eq checked_add new_owner_epoch
    get Maps.insert id_eq id_lt
takes = refl

abbrev proposals : List ReplicatedBrokerProposalV1
proposals = acquisition ∷ mutation small_registry ∷ []

takeover_fences_example :
    Refused stale_fence
      (run_proposals proposals taken_over)
      (apply_identified first_identity small_registry (run_proposals proposals taken_over))
takeover_fences_example =
    takeover_fences the_session 1 2 new_owner owned taken_over proposals first_identity
      small_registry takes refl (inl (omega arith))

run_proposals-commands_example :
    (cs : List BrokerCommand) × Among cs proposals
    × ((run_proposals proposals fresh).broker ≡ Machine.run cs default_machine)
run_proposals-commands_example = run_proposals-commands proposals fresh

owned-IsBounded : IsBounded owned.command_sessions
owned-IsBounded = (tt, omega arith)

run_proposals-IsBounded_example : IsBounded (run_proposals proposals owned).command_sessions
run_proposals-IsBounded_example = run_proposals-IsBounded proposals owned owned-IsBounded

abbrev claim_command : BrokerCommand
claim_command = BrokerCommand.claim_task the_claim

claim-IsSound : IsSound claim_command
claim-IsSound = (ground arith, ground arith, omega arith, ground arith)

to_command-from_command_example : (from_command claim_command >>= to_command) ≡ ok claim_command
to_command-from_command_example = to_command-from_command claim_command claim-IsSound

converts :
    to_command small_registry
    ≡ ok (
        BrokerCommand.ensure_namespace
          (record { namespace_id = the_namespace; max_namespaces = 1 }))
unfolding to_command convert_coordination_command Decoding.identifier u64_to_usize Identifiers.new
    is_body_byte Identifiers.is_ascii_alphanumeric
converts = refl

to_command-IsSound_example :
    IsSound
      (BrokerCommand.ensure_namespace (record { namespace_id = the_namespace; max_namespaces = 1 }))
to_command-IsSound_example =
    to_command-IsSound small_registry
      (BrokerCommand.ensure_namespace (record { namespace_id = the_namespace; max_namespaces = 1 }))
      converts

same_identified_request_iff_example :
    (same_identified_request small_registry large_registry ≡ true)
    ↔ (request small_registry ≡ request large_registry)
same_identified_request_iff_example = same_identified_request_iff small_registry large_registry
