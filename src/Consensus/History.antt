-- ===== src/Consensus/History.antt =====
-- Any sequence of committed proposals: how the sessions and the broker move.
use herterarchy_broker.Common.{
  ℕ, ◌<◌, ◌≡◌, refl, sym, ap, ◌∙◌, ◌⊎◌, inl, inr, true, length, Option, none, some, arith,
  Bool-cases, Option-cases, Result-cases,
}
use herterarchy_broker.Common.Keys.{◌==◌}
use herterarchy_broker.Common.Maps.{Map, get, insert, get-insert}
use herterarchy_broker.Fencing.{checked_add}
use herterarchy_broker.Identifiers.Order.{id_key, id_eq_iff}
use herterarchy_broker.Application.Identity.{
  CommandIdentity, CommandSessionId, SessionOwnerEpoch, SessionOwnerInstanceId, new_owner_epoch,
}
use herterarchy_broker.Consensus.Commands.{ReplicatedBrokerCommandV1}
use herterarchy_broker.Consensus.Sessions.{
  CommandSessionRecord, CommandSessionOutcome, Replica, outcome_record, owner_eq, check_known,
  check_identity, apply_identified, apply_replicated_command,
}
use herterarchy_broker.Consensus.Ownership.{acquire_entry, acquire_known, acquire_owner}
use herterarchy_broker.Consensus.Retries.{
  apply_replicated_command-sessions, apply_identified-early, apply_identified-new,
  apply_identified-failed,
}
use herterarchy_broker.Consensus.Takeover.{decided, acquire_owner-kept, acquire_owner-changed}

-- The sequence number of the last outcome, zero before the first.
abbrev pub last_sequence : Option CommandSessionOutcome → ℕ
last_sequence none = 0
last_sequence (some last) = last.sequence

-- A record as it is, or of a later owner epoch, or of the same owner after a later mutation.
abbrev pub Later : CommandSessionRecord → CommandSessionRecord → Type 0
Later k k' =
    (k ≡ k')
    ⊎ ((k.owner_epoch < k'.owner_epoch)
        ⊎ ((k.owner_epoch ≡ k'.owner_epoch)
            × (k.owner_instance_id ≡ k'.owner_instance_id)
            × (last_sequence k.last_outcome < last_sequence k'.last_outcome)))

pub Later-trans : (a b c : CommandSessionRecord) → Later a b → Later b c → Later a c
Later-trans a b c (inl p) (inl q) = inl (p ∙ q)
Later-trans a b c (inl p) (inr (inl q)) = inr (inl (ground arith))
Later-trans a b c (inl p) (inr (inr (q, o, s))) =
    inr (inr (ground arith, ground arith, ground arith))
Later-trans a b c (inr (inl p)) (inl q) = inr (inl (ground arith))
Later-trans a b c (inr (inl p)) (inr (inl q)) = inr (inl (omega arith))
Later-trans a b c (inr (inl p)) (inr (inr (q, o, s))) = inr (inl (omega arith))
Later-trans a b c (inr (inr (p, o, s))) (inl q) =
    inr (inr (ground arith, ground arith, ground arith))
Later-trans a b c (inr (inr (p, o, s))) (inr (inl q)) = inr (inl (omega arith))
Later-trans a b c (inr (inr (p, o, s))) (inr (inr (q, o', s'))) =
    inr (inr (omega arith, o ∙ o', omega arith))

-- Every session that is known stays known, with a later record.
abbrev pub Ahead :
    Map CommandSessionId CommandSessionRecord → Map CommandSessionId CommandSessionRecord → Type 0
Ahead m m' =
    (id : CommandSessionId) (k : CommandSessionRecord)
    → get id m ≡ some k
    → (k' : CommandSessionRecord) × (get id m' ≡ some k') × Later k k'

pub Ahead-refl : (m : Map CommandSessionId CommandSessionRecord) → Ahead m m
Ahead-refl m id k h = (k, h, inl refl)

pub Ahead-trans :
    (a b c : Map CommandSessionId CommandSessionRecord) → Ahead a b → Ahead b c → Ahead a c
Ahead-trans a b c p q id k h =
    let (k₁, h₁, l₁) = p id k h in
    let (k₂, h₂, l₂) = q id k₁ h₁ in (k₂, h₂, Later-trans k k₁ k₂ l₁ l₂)

-- A session whose record is replaced by a later one.
pub command-Ahead :
    (c : ReplicatedBrokerCommandV1) (s : Replica)
    → Ahead s.command_sessions (apply_replicated_command c s).1.command_sessions
command-Ahead c s = rw (apply_replicated_command-sessions c s) (Ahead-refl s.command_sessions)

-- A session whose record is replaced by a later one.
Ahead-insert :
    (id : CommandSessionId) (k' : CommandSessionRecord)
    (m : Map CommandSessionId CommandSessionRecord)
    → ((k : CommandSessionRecord) → get id m ≡ some k → Later k k')
    → Ahead m (insert id k' m)
Ahead-insert id k' m step j k h = elim (Bool-cases (id == j)) [
  | inl same ↦
      let e : id ≡ j = (id_eq_iff id j).0 same in
      (k', ground (arith, get-insert id j k' m), step k (rw e h))
  | inr other ↦ (k, ground (arith, get-insert id j k' m), inl refl)
]

pub owner_eq-eq : (a b : Option CommandSessionId) → owner_eq a b ≡ true → a ≡ b
unfolding owner_eq
owner_eq-eq none none h = refl
owner_eq-eq none (some b) h = absurd (ground arith)
owner_eq-eq (some a) none h = absurd (ground arith)
owner_eq-eq (some a) (some b) h = ground (arith, id_eq_iff a b)

-- What a mutation that passes the checks has found.
check_known-none :
    (identity : CommandIdentity) (command : ReplicatedBrokerCommandV1)
    (known : CommandSessionRecord)
    → check_known identity command known ≡ none
    → (identity.owner_epoch ≡ known.owner_epoch)
      × (identity.owner_instance_id ≡ known.owner_instance_id)
      × (last_sequence known.last_outcome < identity.sequence)
unfolding check_known
check_known-none identity command known h = elim (Option-cases known.last_outcome) [
  | inl e ↦ (
    ground (arith, owner_eq-eq identity.owner_instance_id known.owner_instance_id),
    ground (arith, owner_eq-eq identity.owner_instance_id known.owner_instance_id),
    ground arith,
  )
  | inr (last, e) ↦ (
    ground (arith, owner_eq-eq identity.owner_instance_id known.owner_instance_id),
    ground (arith, owner_eq-eq identity.owner_instance_id known.owner_instance_id),
    ground arith,
  )
]

pub apply_identified-Ahead :
    (identity : CommandIdentity) (command : ReplicatedBrokerCommandV1) (s : Replica)
    → Ahead s.command_sessions (apply_identified identity command s).1.command_sessions
unfolding check_identity
apply_identified-Ahead identity command s =
    elim (Option-cases (check_identity identity command s.command_sessions)) [
      | inr (early, e) ↦
          rw (apply_identified-early identity command s early e) (Ahead-refl s.command_sessions)
      | inl fresh ↦
          let kept = apply_replicated_command-sessions command s in
          elim (Result-cases (apply_replicated_command command s).0) [
            | inr (x, e) ↦
                rw (apply_identified-failed identity command s x fresh e, kept)
                  (Ahead-refl s.command_sessions)
            | inl (r, e) ↦
                rw (apply_identified-new identity command s r fresh e, kept)
                  (Ahead-insert identity.session_id (outcome_record identity command r)
                    s.command_sessions
                    λ k h.
                      let (a, b, c) = check_known-none identity command k (ground arith) in
                      inr (inr (sym a, sym b, c)))
          ]
    ]

acquire_entry-Later :
    (session : CommandSessionId) (expected : SessionOwnerEpoch) (owner : SessionOwnerInstanceId)
    (known changed : CommandSessionRecord) (count : ℕ)
    → (acquire_entry session expected owner (some known) count).1 ≡ some changed
    → Later known changed
unfolding acquire_entry acquire_known checked_add new_owner_epoch
acquire_entry-Later session expected owner known changed count h = inr (inl (ground arith))

pub acquire_owner-Ahead :
    (session : CommandSessionId) (expected : SessionOwnerEpoch) (owner : SessionOwnerInstanceId)
    (s : Replica)
    → Ahead s.command_sessions (acquire_owner session expected owner s).1.command_sessions
acquire_owner-Ahead session expected owner s =
    let count = length s.command_sessions in
    elim (Option-cases ((decided session expected owner s).1)) [
      | inl e ↦ rw (acquire_owner-kept session expected owner s e) (Ahead-refl s.command_sessions)
      | inr (changed, e) ↦ rw (acquire_owner-changed session expected owner s changed e) (
          Ahead-insert session changed s.command_sessions λ k h.
            acquire_entry-Later session expected owner k changed count
              (sym (ap (λ o. (acquire_entry session expected owner o count).1) h) ∙ e))
    ]
