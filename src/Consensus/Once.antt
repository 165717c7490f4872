-- ===== src/Consensus/Once.antt =====
-- A committed proposal that is committed again is applied once.
use herterarchy_broker.Common.{
  ◌≡◌, subst, inl, inr, Option, none, some, List, ℕ, ok, arith, Result-cases,
}
use herterarchy_broker.Application.Identity.{CommandIdentity}
use herterarchy_broker.Consensus.Commands.{ReplicatedBrokerCommandV1, acquire_command_session_owner}
use herterarchy_broker.Consensus.Requests.{request}
use herterarchy_broker.Consensus.Proposals.{
  ReplicatedBrokerProposalV1, ReplicatedCommandIdentityV1, into_parts, to_identity,
}
use herterarchy_broker.Consensus.Responses.{ReplicatedBrokerResponseV1}
use herterarchy_broker.Consensus.Sessions.{Replica}
use herterarchy_broker.Consensus.Ownership.{
  acquisition_arguments, acquire_session_owner, apply_parts, apply_proposal,
}
use herterarchy_broker.Consensus.Retries.{apply_identified_again}
use herterarchy_broker.Consensus.Takeover.{acquire_owner_again}

-- The proposals that may be sent again: a mutation with an identity, and an acquisition without.
abbrev pub IsRepeatable {ℓ} : {I : Type ℓ} → Option I → ReplicatedBrokerCommandV1 → Type 0
IsRepeatable none (acquire_command_session_owner session epoch owner) = Unit {0}
IsRepeatable none _ = ⊥
IsRepeatable (some identity) _ = Unit {0}

acquire_session_owner_again :
    (session : List ℕ) (epoch : ℕ) (owner : List ℕ) (s s' : Replica)
    (r : ReplicatedBrokerResponseV1)
    → acquire_session_owner session epoch owner s ≡ (ok r, s')
    → acquire_session_owner session epoch owner s' ≡ (ok r, s')
unfolding acquire_session_owner
acquire_session_owner_again session epoch owner s s' r h =
    elim (Result-cases (acquisition_arguments session epoch owner)) [
      | inr (x, e) ↦ ground arith
      | inl ((i, n, o), e) ↦ ground (arith, acquire_owner_again i n o s s' r)
    ]

apply_parts_again :
    (identity : Option CommandIdentity) (a b : ReplicatedBrokerCommandV1) (s s' : Replica)
    (r : ReplicatedBrokerResponseV1)
    → IsRepeatable identity a
    → request a ≡ request b
    → apply_parts identity a s ≡ (ok r, s')
    → apply_parts identity b s' ≡ (ok r, s')
unfolding apply_parts
apply_parts_again none (acquire_command_session_owner x e o)
      (acquire_command_session_owner x' e' o') s s' r p h k =
    cc (acquire_session_owner_again x e o s s' r k)
apply_parts_again (some i) (acquire_command_session_owner x e o) b s s' r p h k = ground arith
apply_parts_again (some i) a (acquire_command_session_owner x e o) s s' r p h k = ground arith
apply_parts_again (some i) a b s s' r p h k = apply_identified_again i a b s s' r h k
apply_parts_again none a b s s' r p h k = ground arith

abbrev proposal :
    Option ReplicatedCommandIdentityV1 → ReplicatedBrokerCommandV1 → ReplicatedBrokerProposalV1
proposal identity command = record { identity = identity; command = command }

same_proposal_again :
    (identity : Option ReplicatedCommandIdentityV1) (a b : ReplicatedBrokerCommandV1)
    (s s' : Replica) (r : ReplicatedBrokerResponseV1)
    → IsRepeatable identity a
    → request a ≡ request b
    → apply_proposal (proposal identity a) s ≡ (ok r, s')
    → apply_proposal (proposal identity b) s' ≡ (ok r, s')
unfolding apply_proposal into_parts
same_proposal_again none a b s s' r repeatable same h =
    apply_parts_again none a b s s' r repeatable same h
same_proposal_again (some i) a b s s' r repeatable same h = elim (Result-cases (to_identity i)) [
  | inr (x, e) ↦ ground arith
  | inl (identity, e) ↦ ground (arith, apply_parts_again (some identity) a b s s' r tt same)
]

-- A mutation with an identity that was answered, or an acquisition of a session, changes nothing when it
-- is committed once more, in the same words or as the same request with other server times and limits,
-- and it gets the answer that the first one got.
pub apply_proposal_again :
    (p q : ReplicatedBrokerProposalV1) (s s' : Replica) (r : ReplicatedBrokerResponseV1)
    → IsRepeatable p.identity p.command
    → p.identity ≡ q.identity
    → request p.command ≡ request q.command
    → apply_proposal p s ≡ (ok r, s')
    → apply_proposal q s' ≡ (ok r, s')
apply_proposal_again p q s s' r repeatable same_identity same_request h =
    subst (λ i. apply_proposal (proposal i q.command) s' ≡ (ok r, s')) same_identity
      (same_proposal_again p.identity p.command q.command s s' r repeatable same_request h)
