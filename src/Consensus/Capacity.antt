-- ===== src/Consensus/Capacity.antt =====
-- How many command sessions a replica holds.
use herterarchy_broker.Common.{
  ◌≤◌, ◌<◌, ◌≡◌, inl, inr, List, none, arith, Option-cases, Result-cases, length,
}
use herterarchy_broker.Common.Maps.{
  Map, get, insert, contains_key, IsOrdered, insert-IsOrdered, length-insert,
}
use herterarchy_broker.Identifiers.Order.{id_key}
use herterarchy_broker.Application.Identity.{
  CommandIdentity, CommandSessionId, SessionOwnerEpoch, SessionOwnerInstanceId,
}
use herterarchy_broker.Consensus.Commands.{ReplicatedBrokerCommandV1}
use herterarchy_broker.Consensus.Proposals.{ReplicatedBrokerProposalV1}
use herterarchy_broker.Consensus.Sessions.{
  CommandSessionRecord, Replica, outcome_record, check_new, check_identity, apply_identified,
  apply_replicated_command,
}
use herterarchy_broker.Consensus.Ownership.{acquire_entry, acquire_new, acquire_owner}
use herterarchy_broker.Consensus.Retries.{
  apply_replicated_command-sessions, apply_identified-early, apply_identified-new,
  apply_identified-failed,
}
use herterarchy_broker.Consensus.Takeover.{decided, acquire_owner-kept, acquire_owner-changed}
use herterarchy_broker.Consensus.Steps.{
  Step, keep, command, mutation, acquisition, run_proposals, run_proposals_inv,
}

abbrev pub IsBounded : Map CommandSessionId CommandSessionRecord → Type 0
IsBounded m = IsOrdered m × (length m ≤ 4_096)

-- A record may be replaced, or added where there is room.
insert-IsBounded :
    (id : CommandSessionId) (k : CommandSessionRecord)
    (m : Map CommandSessionId CommandSessionRecord)
    → (get id m ≡ none → length m < 4_096)
    → IsBounded m
    → IsBounded (insert id k m)
unfolding contains_key
insert-IsBounded id k m room (o, b) = elim (Option-cases (get id m)) [
  | inl absent ↦ (insert-IsOrdered id k m o, ground (arith, length-insert id k m o, room absent))
  | inr (known, found) ↦ (insert-IsOrdered id k m o, ground (arith, length-insert id k m o))
]

mutation-IsBounded :
    (identity : CommandIdentity) (c : ReplicatedBrokerCommandV1) (s : Replica)
    → IsBounded s.command_sessions
    → IsBounded (apply_identified identity c s).1.command_sessions
unfolding check_identity check_new
mutation-IsBounded identity c s h =
    let m = s.command_sessions in
    elim (Option-cases (check_identity identity c m)) [
      | inr (early, e) ↦ rw (apply_identified-early identity c s early e) h
      | inl fresh ↦
          let kept = apply_replicated_command-sessions c s in
          elim (Result-cases (apply_replicated_command c s).0) [
            | inr (x, e) ↦ rw (apply_identified-failed identity c s x fresh e, kept) h
            | inl (r, e) ↦
                rw (apply_identified-new identity c s r fresh e, kept)
                  (insert-IsBounded identity.session_id (outcome_record identity c r) m
                    (λ absent. ground arith) h)
          ]
    ]

acquisition-IsBounded :
    (session : CommandSessionId) (expected : SessionOwnerEpoch) (owner : SessionOwnerInstanceId)
    (s : Replica)
    → IsBounded s.command_sessions
    → IsBounded (acquire_owner session expected owner s).1.command_sessions
unfolding acquire_entry acquire_new
acquisition-IsBounded session expected owner s h =
    elim (Option-cases ((decided session expected owner s).1)) [
      | inl e ↦ rw (acquire_owner-kept session expected owner s e) h
      | inr (changed, e) ↦
          rw (acquire_owner-changed session expected owner s changed e)
            (insert-IsBounded session changed s.command_sessions (λ absent. ground arith) h)
    ]

Step-IsBounded :
    (s t : Replica) → Step s t → IsBounded s.command_sessions → IsBounded t.command_sessions
Step-IsBounded s t keep h = h
Step-IsBounded s t (command c) h = rw (apply_replicated_command-sessions c s) h
Step-IsBounded s t (mutation identity c) h = mutation-IsBounded identity c s h
Step-IsBounded s t (acquisition session expected owner) h =
    acquisition-IsBounded session expected owner s h

-- The sessions of a replica stay in order, each identifier once, and at most 4,096 of them, whatever
-- proposals are committed.
pub run_proposals-IsBounded :
    (ps : List ReplicatedBrokerProposalV1) (s : Replica)
    → IsBounded s.command_sessions
    → IsBounded (run_proposals ps s).command_sessions
run_proposals-IsBounded ps s h =
    run_proposals_inv (λ t. IsBounded t.command_sessions) (λ t u step k. Step-IsBounded t u step k)
      ps s h
