-- ===== src/Consensus/Responses.antt =====
-- crates/agent-broker-consensus/src/replicated_response.rs: what the application of a committed entry
-- answers. The replicated codes, dispositions and task states are types of their own in the code,
-- with the constructors of the application's and the domain's; here they are those types.
pub mod Results
pub mod Decoding
use herterarchy_broker.Common.{ℕ, Result, ok, err, ◌>>=◌}
use herterarchy_broker.Machine.Results.{BrokerMutationResult}
use herterarchy_broker.Application.Messages.{Message, literal}
use herterarchy_broker.Application.Errors.{
  BrokerError, BrokerErrorCode, BrokerErrorDisposition, committed, rejected, new_error,
  with_disposition,
}
use herterarchy_broker.Consensus.Responses.Results.{
  ReplicatedBrokerMutationResultV1, ReplicatedResponseError, from_result,
}
use herterarchy_broker.Consensus.Responses.Decoding.{to_result}

pub record ReplicatedBrokerErrorV1 : Type 0 where
  pub code : BrokerErrorCode
  pub message : Message
  pub disposition : BrokerErrorDisposition

-- `From<BrokerError> for ReplicatedBrokerErrorV1`
unfoldable pub from_error : BrokerError → ReplicatedBrokerErrorV1
from_error e = record { code = e.code; message = e.message; disposition = e.disposition }

-- `From<ReplicatedBrokerErrorV1> for BrokerError`
unfoldable pub to_error : ReplicatedBrokerErrorV1 → BrokerError
unfolding new_error with_disposition
to_error e = with_disposition e.disposition (new_error e.code e.message)

pub data ReplicatedBrokerResponseV1 : Type 0 where
  raft_control : ReplicatedBrokerResponseV1
  session_owner_acquired : (owner_epoch : ℕ) → ReplicatedBrokerResponseV1
  success : ReplicatedBrokerMutationResultV1 → ReplicatedBrokerResponseV1
  application_error : ReplicatedBrokerErrorV1 → ReplicatedBrokerResponseV1

unfoldable pub from_application_result :
    Result BrokerError BrokerMutationResult
    → Result ReplicatedResponseError ReplicatedBrokerResponseV1
unfolding from_result from_error with_disposition
from_application_result (ok result) = from_result result >>= λ r. ok (success r)
from_application_result (err e) = ok (application_error (from_error (with_disposition committed e)))

unfoldable pub from_pre_application_rejection :
    BrokerError → Result ReplicatedResponseError ReplicatedBrokerResponseV1
unfolding from_error with_disposition
from_pre_application_rejection e = ok (application_error (from_error (with_disposition rejected e)))

unfoldable pub normalize_stored_session_outcome :
    ReplicatedBrokerResponseV1 → ReplicatedBrokerResponseV1
normalize_stored_session_outcome (application_error e) =
    application_error (record e { disposition = committed })
normalize_stored_session_outcome raft_control = raft_control
normalize_stored_session_outcome (session_owner_acquired epoch) = session_owner_acquired epoch
normalize_stored_session_outcome (success result) = success result

unfoldable pub into_application_result :
    ReplicatedBrokerResponseV1
    → Result ReplicatedResponseError (Result BrokerError BrokerMutationResult)
unfolding to_result to_error
into_application_result raft_control = err (record {
  message = literal "consensus control entry does not contain a Broker application result";
})
into_application_result (session_owner_acquired epoch) = err (record {
  message = literal "consensus control entry does not contain a Broker application result";
})
into_application_result (success result) = to_result result >>= λ r. ok (ok r)
into_application_result (application_error e) = ok (err (to_error e))
