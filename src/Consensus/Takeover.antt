-- ===== src/Consensus/Takeover.antt =====
-- The acquisition of a session that is sent again, as after a lost answer.
use herterarchy_broker.Common.{
  ℕ, ◌≡◌, subst, inl, inr, true, Option, none, some, ok, arith, Bool-cases, Option-cases, length,
}
use herterarchy_broker.Common.Maps.{get, insert, get-insert_self}
use herterarchy_broker.Fencing.{checked_add}
use herterarchy_broker.Identifiers.Order.{id_key, id_eq_iff}
use herterarchy_broker.Application.Identity.{
  CommandSessionId, SessionOwnerEpoch, SessionOwnerInstanceId, new_owner_epoch,
}
use herterarchy_broker.Consensus.Responses.{ReplicatedBrokerResponseV1, session_owner_acquired}
use herterarchy_broker.Consensus.Sessions.{CommandSessionRecord, Replica, owner_eq}
use herterarchy_broker.Consensus.Ownership.{
  Acquisition, acquire_new, is_retry, acquire_known, acquire_entry, acquire_owner,
}

-- What changes the record is the retry of itself.
pub acquire_entry_retry :
    (session : CommandSessionId) (expected : SessionOwnerEpoch) (owner : SessionOwnerInstanceId)
    (found : Option CommandSessionRecord) (count : ℕ) (changed : CommandSessionRecord)
    → (acquire_entry session expected owner found count).1 ≡ some changed
    → ((acquire_entry session expected owner found count).0
        ≡ ok (session_owner_acquired changed.owner_epoch))
      × (is_retry expected owner changed ≡ true)
unfolding acquire_entry acquire_new acquire_known is_retry owner_eq checked_add new_owner_epoch
acquire_entry_retry session expected owner none count changed h =
    ground (arith, id_eq_iff owner owner)
acquire_entry_retry session expected owner (some known) count changed h =
    elim (Bool-cases (is_retry expected owner known)) [
      | inl again ↦ absurd (ground arith)
      | inr other ↦ ground (arith, id_eq_iff owner owner)
    ]

abbrev pub decided :
    CommandSessionId → SessionOwnerEpoch → SessionOwnerInstanceId → Replica → Acquisition
decided session expected owner s =
    acquire_entry session expected owner (get session s.command_sessions)
      (length s.command_sessions)

-- The two ways of an acquisition.
pub acquire_owner-kept :
    (session : CommandSessionId) (expected : SessionOwnerEpoch) (owner : SessionOwnerInstanceId)
    (s : Replica)
    → (decided session expected owner s).1 ≡ none
    → acquire_owner session expected owner s ≡ ((decided session expected owner s).0, s)
unfolding acquire_owner
acquire_owner-kept session expected owner s h = ground arith

pub acquire_owner-changed :
    (session : CommandSessionId) (expected : SessionOwnerEpoch) (owner : SessionOwnerInstanceId)
    (s : Replica) (changed : CommandSessionRecord)
    → (decided session expected owner s).1 ≡ some changed
    → acquire_owner session expected owner s ≡ (
      (decided session expected owner s).0,
      record s { command_sessions = insert session changed s.command_sessions },
    )
unfolding acquire_owner
acquire_owner-changed session expected owner s changed h = ground arith

-- The retry of an acquisition whose record is there.
retried :
    (session : CommandSessionId) (expected : SessionOwnerEpoch) (owner : SessionOwnerInstanceId)
    (known : CommandSessionRecord) (s : Replica)
    → get session s.command_sessions ≡ some known
    → is_retry expected owner known ≡ true
    → acquire_owner session expected owner s ≡ (ok (session_owner_acquired known.owner_epoch), s)
unfolding acquire_owner acquire_entry acquire_known
retried session expected owner known s found again = ground arith

pub acquire_owner_again :
    (session : CommandSessionId) (expected : SessionOwnerEpoch) (owner : SessionOwnerInstanceId)
    (s s' : Replica) (r : ReplicatedBrokerResponseV1)
    → acquire_owner session expected owner s ≡ (ok r, s')
    → acquire_owner session expected owner s' ≡ (ok r, s')
acquire_owner_again session expected owner s s' r h =
    elim (Option-cases ((decided session expected owner s).1)) [
      | inl e ↦
          let e' : s ≡ s' = cc (acquire_owner-kept session expected owner s e) in
          subst (λ t. acquire_owner session expected owner t ≡ (ok r, s')) e' h
      | inr (changed, e) ↦
          let first = acquire_owner-changed session expected owner s changed e in
          let found = get session s.command_sessions in
          let (answer, again) =
            acquire_entry_retry session expected owner found (length s.command_sessions) changed
              e in
          let t = record s { command_sessions = insert session changed s.command_sessions } in
          let second =
            retried session expected owner changed t
              (get-insert_self session changed s.command_sessions) again in
          let e₁ : s' ≡ t = cc in
          let e₂ : r ≡ session_owner_acquired changed.owner_epoch = cc in rw (e₁, e₂) second
    ]
