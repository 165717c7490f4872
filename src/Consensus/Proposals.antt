-- ===== src/Consensus/Proposals.antt =====
-- crates/agent-broker-consensus/src/replicated_proposal.rs: a replicated command with the identity
-- of its sender, if it has one.
use herterarchy_broker.Common.{ℕ, List, Option, none, some, Result, ok, map_err, transpose, ◌>>=◌}
use herterarchy_broker.Machine.Commands.{BrokerCommand}
use herterarchy_broker.Application.Messages.{shows_identity, prefixed}
use herterarchy_broker.Application.Identity.{
  CommandIdentity, CommandIdentityError, new_session_id, new_owner_epoch, new_owner_instance_id,
  new_sequence, new_with_owner, new_with_owner_epoch,
}
use herterarchy_broker.Consensus.Commands.{
  ReplicatedBrokerCommandV1, ReplicatedCommandError, from_command,
}

pub record ReplicatedCommandIdentityV1 : Type 0 where
  pub session_id : List ℕ
  pub owner_epoch : ℕ
  pub owner_instance_id : Option (List ℕ)
  pub sequence : ℕ

pub record ReplicatedBrokerProposalV1 : Type 0 where
  pub identity : Option ReplicatedCommandIdentityV1
  pub command : ReplicatedBrokerCommandV1

-- `From<&CommandIdentity>`
unfoldable pub from_identity : CommandIdentity → ReplicatedCommandIdentityV1
from_identity identity = record {
  session_id = identity.session_id.bytes;
  owner_epoch = identity.owner_epoch;
  owner_instance_id = elim identity.owner_instance_id [ none ↦ none | some id ↦ some id.bytes ];
  sequence = identity.sequence;
}

unfoldable pub validation_error : CommandIdentityError → ReplicatedCommandError
validation_error e = record {
  message = prefixed "invalid replicated command identity: " (shows_identity e);
}

-- `TryFrom<ReplicatedCommandIdentityV1> for CommandIdentity`
unfoldable pub to_identity :
    ReplicatedCommandIdentityV1 → Result ReplicatedCommandError CommandIdentity
unfolding validation_error new_session_id new_owner_epoch new_owner_instance_id new_sequence
    new_with_owner new_with_owner_epoch
to_identity identity = do
  session_id ← map_err validation_error (new_session_id identity.session_id)
  owner_epoch ← map_err validation_error (new_owner_epoch identity.owner_epoch)
  owner ← map_err validation_error (transpose new_owner_instance_id identity.owner_instance_id)
  sequence ← map_err validation_error (new_sequence identity.sequence)
  ok (elim owner [
    | some owner_instance_id ↦ new_with_owner session_id owner_epoch owner_instance_id sequence
    | none ↦ new_with_owner_epoch session_id owner_epoch sequence
  ])

-- `ReplicatedBrokerProposalV1::legacy`
unfoldable pub legacy : ReplicatedBrokerCommandV1 → ReplicatedBrokerProposalV1
legacy command = record { identity = none; command = command }

-- `ReplicatedBrokerProposalV1::identified`
unfoldable pub identified : CommandIdentity → ReplicatedBrokerCommandV1 → ReplicatedBrokerProposalV1
unfolding from_identity
identified identity command = record { identity = some (from_identity identity); command = command }

-- `ReplicatedBrokerProposalV1::into_parts`
unfoldable pub into_parts :
    ReplicatedBrokerProposalV1
    → Result ReplicatedCommandError (Option CommandIdentity × ReplicatedBrokerCommandV1)
unfolding to_identity
into_parts proposal = do
  identity ← transpose to_identity proposal.identity
  ok (identity, proposal.command)

-- `TryFrom<BrokerCommand> for ReplicatedBrokerProposalV1`
unfoldable pub proposal_of :
    BrokerCommand → Result ReplicatedCommandError ReplicatedBrokerProposalV1
unfolding from_command legacy
proposal_of command = do replicated ← from_command command; ok (legacy replicated)
