-- ===== src/Consensus/Steps.antt =====
-- What one committed proposal does to the replica, as a step relation, and sequences of proposals.
use herterarchy_broker.Common.{ℕ, inl, inr, List, [], ◌∷◌, Option, none, some, Result-cases}
use herterarchy_broker.Application.Identity.{
  CommandIdentity, CommandSessionId, SessionOwnerEpoch, SessionOwnerInstanceId,
}
use herterarchy_broker.Consensus.Commands.{ReplicatedBrokerCommandV1, acquire_command_session_owner}
use herterarchy_broker.Consensus.Proposals.{ReplicatedBrokerProposalV1, into_parts}
use herterarchy_broker.Consensus.Sessions.{Replica, apply_identified, apply_replicated_command}
use herterarchy_broker.Consensus.Ownership.{
  acquisition_arguments, acquire_owner, acquire_session_owner, apply_parts, apply_proposal,
}

pub data Step (s : Replica) : Replica → Type 0 where
  keep : Step s s
  command : (c : ReplicatedBrokerCommandV1) → Step s (apply_replicated_command c s).1
  mutation :
      (identity : CommandIdentity) (c : ReplicatedBrokerCommandV1)
      → Step s (apply_identified identity c s).1
  acquisition :
      (session : CommandSessionId) (expected : SessionOwnerEpoch) (owner : SessionOwnerInstanceId)
      → Step s (acquire_owner session expected owner s).1

acquire_session_owner-Step :
    (session : List ℕ) (epoch : ℕ) (owner : List ℕ) (s : Replica)
    → Step s (acquire_session_owner session epoch owner s).1
unfolding acquire_session_owner
acquire_session_owner-Step session epoch owner s =
    elim (Result-cases (acquisition_arguments session epoch owner)) [
      | inr (x, e) ↦ rw (e, acquire_session_owner) keep
      | inl ((i, n, o), e) ↦ rw (e, acquire_session_owner) (acquisition i n o)
    ]

apply_parts-Step :
    (identity : Option CommandIdentity) (c : ReplicatedBrokerCommandV1) (s : Replica)
    → Step s (apply_parts identity c s).1
unfolding apply_parts
apply_parts-Step none (acquire_command_session_owner session epoch owner) s =
    acquire_session_owner-Step session epoch owner s
apply_parts-Step (some i) (acquire_command_session_owner session epoch owner) s = keep
apply_parts-Step none c s = command c
apply_parts-Step (some i) c s = mutation i c

pub apply_proposal-Step :
    (p : ReplicatedBrokerProposalV1) (s : Replica) → Step s (apply_proposal p s).1
unfolding apply_proposal
apply_proposal-Step p s = elim (Result-cases (into_parts p)) [
  | inr (x, e) ↦ rw (e, apply_proposal) keep
  | inl ((identity, c), e) ↦ rw (e, apply_proposal) (apply_parts-Step identity c s)
]

-- Any sequence of proposals; what a failed one leaves behind is what the next one finds.
unfoldable pub run_proposals : List ReplicatedBrokerProposalV1 → Replica → Replica
run_proposals [] s = s
run_proposals (p ∷ ps) s = run_proposals ps (apply_proposal p s).1

-- What every step keeps, a sequence keeps.
pub run_proposals_inv {ℓ} :
    (P : Replica → Type ℓ)
    → ((s t : Replica) → Step s t → P s → P t)
    → (ps : List ReplicatedBrokerProposalV1) (s : Replica) → P s
    → P (run_proposals ps s)
unfolding run_proposals
run_proposals_inv P step [] s h = h
run_proposals_inv P step (p ∷ ps) s h =
    run_proposals_inv P step ps (apply_proposal p s).1
      (step s (apply_proposal p s).1 (apply_proposal-Step p s) h)
