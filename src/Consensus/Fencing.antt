-- ===== src/Consensus/Fencing.antt =====
-- An owner of a session that was replaced is fenced off, whatever is committed afterwards.
use herterarchy_broker.Common.{
  ℕ, ◌<◌, ◌≡◌, ◌⊎◌, refl, inl, inr, true, false, List, Option, none, some, Result, ok, arith,
  nat_eq, if◌then◌else◌, Bool-cases, Option-cases, length,
}
use herterarchy_broker.Common.Maps.{get, get-insert_self}
use herterarchy_broker.Fencing.{checked_add}
use herterarchy_broker.Identifiers.Order.{id_key}
use herterarchy_broker.Application.Errors.{
  BrokerErrorCode, stale_fence, rejected, new_error, with_disposition,
}
use herterarchy_broker.Application.Messages.{Message}
use herterarchy_broker.Application.Identity.{
  CommandIdentity, CommandSessionId, SessionOwnerEpoch, SessionOwnerInstanceId, new_owner_epoch,
}
use herterarchy_broker.Consensus.Commands.{ReplicatedBrokerCommandV1}
use herterarchy_broker.Consensus.Proposals.{ReplicatedBrokerProposalV1}
use herterarchy_broker.Consensus.Responses.{
  ReplicatedBrokerResponseV1, ReplicatedBrokerErrorV1, application_error, session_owner_acquired,
  from_pre_application_rejection, from_error,
}
use herterarchy_broker.Consensus.Sessions.{
  CommandSessionRecord, Replica, IoError, owner_eq, epoch_mismatch, owner_mismatch, check_known,
  check_identity, apply_identified, replicated_application_error, capacity_reached,
}
use herterarchy_broker.Consensus.Ownership.{
  owned_by, acquire_entry, acquire_new, acquire_known, is_retry, acquire_owner,
}
use herterarchy_broker.Consensus.Retries.{apply_identified-early}
use herterarchy_broker.Consensus.Takeover.{
  decided, acquire_entry_retry, acquire_owner-kept, acquire_owner-changed,
}
use herterarchy_broker.Consensus.History.{
  Later, Ahead, Ahead-refl, Ahead-trans, apply_identified-Ahead, acquire_owner-Ahead, command-Ahead,
  owner_eq-eq,
}
use herterarchy_broker.Consensus.Steps.{
  Step, keep, command, mutation, acquisition, run_proposals, run_proposals_inv,
}

Step-Ahead : (s t : Replica) → Step s t → Ahead s.command_sessions t.command_sessions
Step-Ahead s t keep = Ahead-refl s.command_sessions
Step-Ahead s t (command c) = command-Ahead c s
Step-Ahead s t (mutation identity c) = apply_identified-Ahead identity c s
Step-Ahead s t (acquisition session expected owner) = acquire_owner-Ahead session expected owner s

-- Along any sequence of proposals every session stays known; its owner epoch never falls, and within one
-- epoch its owner stays and its last sequence number never falls, and rises with each new outcome.
pub run_proposals-Ahead :
    (ps : List ReplicatedBrokerProposalV1) (s : Replica)
    → Ahead s.command_sessions (run_proposals ps s).command_sessions
run_proposals-Ahead ps s =
    run_proposals_inv (λ t. Ahead s.command_sessions t.command_sessions)
      (λ t u step h.
        Ahead-trans s.command_sessions t.command_sessions u.command_sessions h
          (Step-Ahead t u step))
      ps s (Ahead-refl s.command_sessions)

-- The answer is a rejection with this code, and nothing has changed.
abbrev pub Refused :
    BrokerErrorCode → Replica → Result IoError ReplicatedBrokerResponseV1 × Replica → Type 0
Refused code s out =
    (out.1 ≡ s)
    × (e : ReplicatedBrokerErrorV1) × (out.0 ≡ ok (application_error e))
    × (e.code ≡ code)
    × (e.disposition ≡ rejected)

-- The identity is of an older owner epoch, or of another owner in the same epoch.
abbrev pub IsFencedBy : CommandIdentity → CommandSessionRecord → Type 0
IsFencedBy identity known =
    (identity.owner_epoch < known.owner_epoch)
    ⊎ ((identity.owner_epoch ≡ known.owner_epoch)
        × (owner_eq identity.owner_instance_id known.owner_instance_id ≡ false))

IsFencedBy-Later :
    (identity : CommandIdentity) (k k' : CommandSessionRecord)
    → IsFencedBy identity k
    → Later k k'
    → IsFencedBy identity k'
IsFencedBy-Later identity k k' (inl older) (inl same) = inl (ground arith)
IsFencedBy-Later identity k k' (inl older) (inr (inl later)) = inl (omega arith)
IsFencedBy-Later identity k k' (inl older) (inr (inr (e, o, q))) = inl (omega arith)
IsFencedBy-Later identity k k' (inr (e, other)) (inl same) = inr (ground arith, ground arith)
IsFencedBy-Later identity k k' (inr (e, other)) (inr (inl later)) = inl (omega arith)
IsFencedBy-Later identity k k' (inr (e, other)) (inr (inr (f, o, q))) =
    inr (ground arith, ground arith)

abbrev rejection : BrokerErrorCode → Message → ReplicatedBrokerErrorV1
rejection code message = record { code = code; message = message; disposition = rejected }

replicated_application_error_lem :
    (code : BrokerErrorCode) (message : Message)
    → replicated_application_error code message ≡ ok (application_error (rejection code message))
unfolding replicated_application_error from_pre_application_rejection from_error new_error
    with_disposition
replicated_application_error_lem code message = refl

-- What a fenced identity is told.
abbrev reason : CommandIdentity → CommandSessionRecord → Message
reason identity known =
    if nat_eq identity.owner_epoch known.owner_epoch
    then owner_mismatch identity
    else epoch_mismatch identity known

fenced_known :
    (identity : CommandIdentity) (c : ReplicatedBrokerCommandV1) (known : CommandSessionRecord)
    → IsFencedBy identity known
    → check_known identity c known
      ≡ some (ok (application_error (rejection stale_fence (reason identity known))))
unfolding check_known
fenced_known identity c known (inl older) =
    ground (arith, replicated_application_error_lem stale_fence (epoch_mismatch identity known))
fenced_known identity c known (inr (e, other)) =
    ground (arith, replicated_application_error_lem stale_fence (owner_mismatch identity))

fenced :
    (identity : CommandIdentity) (c : ReplicatedBrokerCommandV1) (s : Replica)
    (known : CommandSessionRecord)
    → get identity.session_id s.command_sessions ≡ some known
    → IsFencedBy identity known
    → Refused stale_fence s (apply_identified identity c s)
unfolding check_identity
fenced identity c s known found late =
    let answer = rejection stale_fence (reason identity known) in
    let early : check_identity identity c s.command_sessions
        ≡ some (ok (application_error answer)) =
      ground (arith, fenced_known identity c known late) in
    let e = apply_identified-early identity c s (ok (application_error answer)) early in
    (ground arith, answer, ground arith, refl, refl)

retry-owner :
    (expected : SessionOwnerEpoch) (owner : SessionOwnerInstanceId) (known : CommandSessionRecord)
    → is_retry expected owner known ≡ true
    → known.owner_instance_id ≡ some owner
unfolding is_retry
retry-owner expected owner known h =
    ground (arith, owner_eq-eq known.owner_instance_id (some owner))

-- An acquisition that is answered and changes nothing has found its own record.
kept_answer :
    (session : CommandSessionId) (expected : SessionOwnerEpoch) (owner : SessionOwnerInstanceId)
    (found : Option CommandSessionRecord) (count : ℕ) (epoch : SessionOwnerEpoch)
    → (acquire_entry session expected owner found count).1 ≡ none
    → (acquire_entry session expected owner found count).0 ≡ ok (session_owner_acquired epoch)
    → (k : CommandSessionRecord) × (found ≡ some k)
      × (k.owner_epoch ≡ epoch)
      × (k.owner_instance_id ≡ some owner)
unfolding acquire_entry acquire_new acquire_known capacity_reached replicated_application_error
    from_pre_application_rejection checked_add new_owner_epoch
kept_answer session expected owner none count epoch h e = absurd (ground arith)
kept_answer session expected owner (some known) count epoch h e =
    elim (Bool-cases (is_retry expected owner known)) [
      | inl again ↦ (known, refl, ground arith, retry-owner expected owner known again)
      | inr other ↦ absurd (ground arith)
    ]

-- What a successful acquisition leaves.
acquired :
    (session : CommandSessionId) (expected : SessionOwnerEpoch) (owner : SessionOwnerInstanceId)
    (s s' : Replica) (epoch : SessionOwnerEpoch)
    → acquire_owner session expected owner s ≡ (ok (session_owner_acquired epoch), s')
    → (k : CommandSessionRecord) × (get session s'.command_sessions ≡ some k)
      × (k.owner_epoch ≡ epoch)
      × (k.owner_instance_id ≡ some owner)
acquired session expected owner s s' epoch h =
    let found = get session s.command_sessions in
    let count = length s.command_sessions in
    elim (Option-cases ((decided session expected owner s).1)) [
      | inl e ↦
          let first = acquire_owner-kept session expected owner s e in
          let (k, f, p, o) = kept_answer session expected owner found count epoch e (cc) in
          (k, cc, p, o)
      | inr (changed, e) ↦
          let first = acquire_owner-changed session expected owner s changed e in
          let (answer, again) = acquire_entry_retry session expected owner found count changed e in
          let there = get-insert_self session changed s.command_sessions in
          (changed, cc, cc, retry-owner expected owner changed again)
    ]

-- Once an owner has acquired a session at an epoch, no later mutation of an older epoch, nor one of the
-- same epoch that another owner sends, changes anything, whatever is committed in between: it is rejected
-- as a stale fence.
pub takeover_fences :
    (session : CommandSessionId) (expected epoch : SessionOwnerEpoch)
    (owner : SessionOwnerInstanceId) (s s' : Replica) (ps : List ReplicatedBrokerProposalV1)
    (identity : CommandIdentity) (c : ReplicatedBrokerCommandV1)
    → acquire_owner session expected owner s ≡ (ok (session_owner_acquired epoch), s')
    → identity.session_id ≡ session
    → IsFencedBy identity (owned_by owner epoch)
    → Refused stale_fence (run_proposals ps s') (apply_identified identity c (run_proposals ps s'))
takeover_fences session expected epoch owner s s' ps identity c h same late =
    let (k, found, p, o) = acquired session expected owner s s' epoch h in
    let (k', found', later) = run_proposals-Ahead ps s' session k found in
    let late' : IsFencedBy identity k = rw (p, o) late in
    fenced identity c (run_proposals ps s') k' (rw same found')
      (IsFencedBy-Later identity k k' late' later)
