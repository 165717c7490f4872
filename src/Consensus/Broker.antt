-- ===== src/Consensus/Broker.antt =====
-- What committed proposals do to the broker: the state machine of the domain sees a sequence of
-- commands, and what holds of every such sequence holds of the replica.
use herterarchy_broker.Common.{
  ℕ, ◌≡◌, ◌⊎◌, refl, ap, ◌∙◌, inl, inr, List, [], ◌∷◌, Option, none, some, ok, transpose,
  Option-cases, Result-cases,
}
use herterarchy_broker.Common.Maps.{get}
use herterarchy_broker.Identifiers.{TaskId}
use herterarchy_broker.Identifiers.Order.{id_key}
use herterarchy_broker.Task.{TaskState, LeasedTask, Task}
use herterarchy_broker.Machine
use herterarchy_broker.Machine.State.{BrokerStateMachine, default_machine}
use herterarchy_broker.Machine.Commands.{BrokerCommand}
use herterarchy_broker.Machine.Protocol.Commands.{leased_once}
use herterarchy_broker.Application.Identity.{
  CommandIdentity, CommandSessionId, SessionOwnerEpoch, SessionOwnerInstanceId,
}
use herterarchy_broker.Consensus.Commands.{ReplicatedBrokerCommandV1, acquire_command_session_owner}
use herterarchy_broker.Consensus.Decoding.{to_command}
use herterarchy_broker.Consensus.Proposals.{ReplicatedBrokerProposalV1, into_parts, to_identity}
use herterarchy_broker.Consensus.Sessions.{
  Replica, check_identity, apply_identified, apply_replicated_command,
}
use herterarchy_broker.Consensus.Ownership.{
  acquire_owner, acquisition_arguments, acquire_session_owner, apply_parts, apply_proposal,
}
use herterarchy_broker.Consensus.Retries.{
  apply_identified-early, apply_identified-new, apply_identified-failed,
}
use herterarchy_broker.Consensus.Takeover.{decided, acquire_owner-kept, acquire_owner-changed}
use herterarchy_broker.Consensus.Steps.{run_proposals}

-- The broker is as it was, or the command of the proposal was applied to it.
abbrev AtMostOne : ReplicatedBrokerCommandV1 → BrokerStateMachine → BrokerStateMachine → Type 0
AtMostOne c m n =
    (n ≡ m) ⊎ ((d : BrokerCommand) × (to_command c ≡ ok d) × (n ≡ (Machine.apply d m).1))

command-AtMostOne :
    (c : ReplicatedBrokerCommandV1) (s : Replica)
    → AtMostOne c s.broker (apply_replicated_command c s).1.broker
unfolding apply_replicated_command
command-AtMostOne c s = elim (Result-cases (to_command c)) [
  | inl (d, e) ↦ inr (d, e, rw (e, apply_replicated_command) refl)
  | inr (x, e) ↦ inl (rw (e, apply_replicated_command) refl)
]

mutation-AtMostOne :
    (identity : CommandIdentity) (c : ReplicatedBrokerCommandV1) (s : Replica)
    → AtMostOne c s.broker (apply_identified identity c s).1.broker
mutation-AtMostOne identity c s =
    elim (Option-cases (check_identity identity c s.command_sessions)) [
      | inr (early, e) ↦ rw (apply_identified-early identity c s early e) (inl refl)
      | inl fresh ↦ elim (Result-cases (apply_replicated_command c s).0) [
        | inr (x, e) ↦ rw (apply_identified-failed identity c s x fresh e) (command-AtMostOne c s)
        | inl (r, e) ↦ rw (apply_identified-new identity c s r fresh e) (command-AtMostOne c s)
      ]
    ]

acquisition-broker :
    (session : CommandSessionId) (expected : SessionOwnerEpoch) (owner : SessionOwnerInstanceId)
    (s : Replica)
    → (acquire_owner session expected owner s).1.broker ≡ s.broker
acquisition-broker session expected owner s =
    elim (Option-cases ((decided session expected owner s).1)) [
      | inl e ↦ rw (acquire_owner-kept session expected owner s e) refl
      | inr (changed, e) ↦ rw (acquire_owner-changed session expected owner s changed e) refl
    ]

session_owner-broker :
    (session : List ℕ) (epoch : ℕ) (owner : List ℕ) (s : Replica)
    → (acquire_session_owner session epoch owner s).1.broker ≡ s.broker
unfolding acquire_session_owner
session_owner-broker session epoch owner s =
    elim (Result-cases (acquisition_arguments session epoch owner)) [
      | inr (x, e) ↦ rw (e, acquire_session_owner) refl
      | inl ((i, n, o), e) ↦ rw (e, acquire_session_owner) (acquisition-broker i n o s)
    ]

parts-AtMostOne :
    (identity : Option CommandIdentity) (c : ReplicatedBrokerCommandV1) (s : Replica)
    → AtMostOne c s.broker (apply_parts identity c s).1.broker
unfolding apply_parts
parts-AtMostOne none (acquire_command_session_owner session epoch owner) s =
    inl (session_owner-broker session epoch owner s)
parts-AtMostOne (some i) (acquire_command_session_owner session epoch owner) s = inl refl
parts-AtMostOne none c s = command-AtMostOne c s
parts-AtMostOne (some i) c s = mutation-AtMostOne i c s

proposal-AtMostOne :
    (p : ReplicatedBrokerProposalV1) (s : Replica)
    → AtMostOne p.command s.broker (apply_proposal p s).1.broker
unfolding apply_proposal into_parts
proposal-AtMostOne p s = elim (Result-cases (transpose to_identity p.identity)) [
  | inr (x, e) ↦ rw (e, apply_proposal) (inl refl)
  | inl (identity, e) ↦ rw (e, apply_proposal) (parts-AtMostOne identity p.command s)
]

-- Commands that are those of some of the proposals, in their order.
pub data Among : List BrokerCommand → List ReplicatedBrokerProposalV1 → Type 0 where
  none_left : Among [] []
  skip :
      (cs : List BrokerCommand) (p : ReplicatedBrokerProposalV1)
      (ps : List ReplicatedBrokerProposalV1)
      → Among cs ps
      → Among cs (p ∷ ps)
  applied :
      (c : BrokerCommand) (cs : List BrokerCommand) (p : ReplicatedBrokerProposalV1)
      (ps : List ReplicatedBrokerProposalV1)
      → to_command p.command ≡ ok c
      → Among cs ps
      → Among (c ∷ cs) (p ∷ ps)

-- The broker of a replica is what the commands of some of the proposals, each applied at most once and in
-- the order of the proposals, make of it.
pub run_proposals-commands :
    (ps : List ReplicatedBrokerProposalV1) (s : Replica)
    → (cs : List BrokerCommand) × Among cs ps
      × ((run_proposals ps s).broker ≡ Machine.run cs s.broker)
unfolding run_proposals Machine.run
run_proposals-commands [] s = ([], none_left, refl)
run_proposals-commands (p ∷ ps) s =
    let (cs, among, rest) = run_proposals-commands ps (apply_proposal p s).1 in
    elim (proposal-AtMostOne p s) [
      | inl same ↦ (cs, skip cs p ps among, rest ∙ ap (Machine.run cs) same)
      | inr (d, decoded, once) ↦
          (d ∷ cs, applied d cs p ps decoded among, rest ∙ ap (Machine.run cs) once)
    ]

-- Whatever is committed to a replica that starts empty, two tasks of its broker that are leased under one
-- lease identity are one task.
pub replicated-leased_once :
    (ps : List ReplicatedBrokerProposalV1) (s : Replica) (a b : TaskId) (t u : Task)
    (l k : LeasedTask)
    → s.broker ≡ default_machine
    → get a (run_proposals ps s).broker.tasks ≡ some t
    → get b (run_proposals ps s).broker.tasks ≡ some u
    → t.state ≡ TaskState.leased l
    → u.state ≡ TaskState.leased k
    → l.lease_id ≡ k.lease_id
    → a ≡ b
replicated-leased_once ps s a b t u l k empty et eu st su same =
    let (cs, few, e) = run_proposals-commands ps s in
    let e' : (run_proposals ps s).broker ≡ Machine.run cs default_machine =
      e ∙ ap (Machine.run cs) empty in
    (leased_once cs a b t u l k (rw (← e') et) (rw (← e') eu) st su same).0
