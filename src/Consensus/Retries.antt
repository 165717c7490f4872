-- ===== src/Consensus/Retries.antt =====
-- A proposal that is applied again, as after a lost answer.
use herterarchy_broker.Common.{
  ◌≡◌, refl, sym, ◌∙◌, inl, inr, true, Option, none, some, Result, ok, err, arith, Option-cases,
  Result-cases,
}
use herterarchy_broker.Common.Maps.{Map, get, insert, get-insert_self}
use herterarchy_broker.Identifiers.Order.{id_key, id_eq_iff}
use herterarchy_broker.Application.Identity.{CommandIdentity, CommandSessionId}
use herterarchy_broker.Consensus.Commands.{ReplicatedBrokerCommandV1}
use herterarchy_broker.Consensus.Decoding.{to_command}
use herterarchy_broker.Consensus.Requests.{
  same_identified_request, same_identified_request_iff, request,
}
use herterarchy_broker.Consensus.Responses.{ReplicatedBrokerResponseV1}
use herterarchy_broker.Consensus.Sessions.{
  CommandSessionRecord, Replica, IoError, outcome_record, owner_eq, check_known, check_identity,
  apply_replicated_command, apply_identified,
}

owner_eq_refl : (o : Option CommandSessionId) → owner_eq o o ≡ true
unfolding owner_eq
owner_eq_refl none = refl
owner_eq_refl (some a) = (id_eq_iff a a).1 refl

-- Requests that are the same for one command are the same for the other.
same-request :
    (a b c : ReplicatedBrokerCommandV1)
    → request a ≡ request b
    → same_identified_request a c ≡ same_identified_request b c
same-request a b c h =
    ground (arith, same_identified_request_iff a c, same_identified_request_iff b c)

check_known-request :
    (identity : CommandIdentity) (a b : ReplicatedBrokerCommandV1) (known : CommandSessionRecord)
    → request a ≡ request b
    → check_known identity a known ≡ check_known identity b known
unfolding check_known
check_known-request identity a b known h = elim (Option-cases known.last_outcome) [
  | inl e ↦ rw (e, check_known) refl
  | inr (last, e) ↦ rw (e, same-request a b last.command h, check_known) refl
]

check_identity-request :
    (identity : CommandIdentity) (a b : ReplicatedBrokerCommandV1)
    (sessions : Map CommandSessionId CommandSessionRecord)
    → request a ≡ request b
    → check_identity identity a sessions ≡ check_identity identity b sessions
unfolding check_identity
check_identity-request identity a b sessions h =
    elim (Option-cases (get identity.session_id sessions)) [
      | inl e ↦ rw (e, check_identity) refl
      | inr (known, e) ↦ rw (e, check_identity) (check_known-request identity a b known h)
    ]

-- The outcome that is stored answers the same request.
check_known-outcome :
    (identity : CommandIdentity) (a b : ReplicatedBrokerCommandV1) (r : ReplicatedBrokerResponseV1)
    → request a ≡ request b
    → check_known identity b (outcome_record identity a r) ≡ some (ok r)
unfolding check_known
check_known-outcome identity a b r h =
    ground (arith, owner_eq_refl identity.owner_instance_id, same_identified_request_iff b a)

pub apply_replicated_command-sessions :
    (command : ReplicatedBrokerCommandV1) (s : Replica)
    → (apply_replicated_command command s).1.command_sessions ≡ s.command_sessions
unfolding apply_replicated_command
apply_replicated_command-sessions command s = elim (Result-cases (to_command command)) [
  | inl (c, e) ↦ rw (e, apply_replicated_command) refl
  | inr (x, e) ↦ rw (e, apply_replicated_command) refl
]

-- The two ways of `apply_identified`.
pub apply_identified-early :
    (identity : CommandIdentity) (command : ReplicatedBrokerCommandV1) (s : Replica)
    (early : Result IoError ReplicatedBrokerResponseV1)
    → check_identity identity command s.command_sessions ≡ some early
    → apply_identified identity command s ≡ (early, s)
unfolding apply_identified
apply_identified-early identity command s early e = rw (e, apply_identified) refl

abbrev pub stored :
    CommandIdentity → ReplicatedBrokerCommandV1 → ReplicatedBrokerResponseV1 → Replica → Replica
stored identity command response s = record s {
  command_sessions =
      insert identity.session_id (outcome_record identity command response) s.command_sessions;
}

pub apply_identified-new :
    (identity : CommandIdentity) (command : ReplicatedBrokerCommandV1) (s : Replica)
    (r : ReplicatedBrokerResponseV1)
    → check_identity identity command s.command_sessions ≡ none
    → (apply_replicated_command command s).0 ≡ ok r
    → apply_identified identity command s
      ≡ (ok r, stored identity command r (apply_replicated_command command s).1)
unfolding apply_identified
apply_identified-new identity command s r e f = rw (e, f, apply_identified) refl

pub apply_identified-failed :
    (identity : CommandIdentity) (command : ReplicatedBrokerCommandV1) (s : Replica) (x : IoError)
    → check_identity identity command s.command_sessions ≡ none
    → (apply_replicated_command command s).0 ≡ err x
    → apply_identified identity command s ≡ (err x, (apply_replicated_command command s).1)
unfolding apply_identified
apply_identified-failed identity command s x e f = rw (e, f, apply_identified) refl

stored-check :
    (identity : CommandIdentity) (a b : ReplicatedBrokerCommandV1) (r : ReplicatedBrokerResponseV1)
    (s : Replica)
    → request a ≡ request b
    → check_identity identity b (stored identity a r s).command_sessions ≡ some (ok r)
unfolding check_identity
stored-check identity a b r s h =
    rw
      (
        get-insert_self identity.session_id (outcome_record identity a r) s.command_sessions,
        check_identity,
      )
      (check_known-outcome identity a b r h)

pub apply_identified_again :
    (identity : CommandIdentity) (a b : ReplicatedBrokerCommandV1) (s s' : Replica)
    (r : ReplicatedBrokerResponseV1)
    → request a ≡ request b
    → apply_identified identity a s ≡ (ok r, s')
    → apply_identified identity b s' ≡ (ok r, s')
apply_identified_again identity a b s s' r h e =
    elim (Option-cases (check_identity identity a s.command_sessions)) [
      | inr (early, k) ↦
          let first = apply_identified-early identity a s early k in
          let k' = sym (check_identity-request identity a b s.command_sessions h) ∙ k in
          let again = apply_identified-early identity b s early k' in ground (arith, first, again)
      | inl fresh ↦ elim (Result-cases (apply_replicated_command a s).0) [
        | inr (x, f) ↦ ground (arith, apply_identified-failed identity a s x fresh f)
        | inl (r', f) ↦
            let first = apply_identified-new identity a s r' fresh f in
            let s₁ = (apply_replicated_command a s).1 in
            let k = stored-check identity a b r' s₁ h in
            let again = apply_identified-early identity b (stored identity a r' s₁) (ok r') k in
            let e₁ : r' ≡ r = cc in
            let e₂ : stored identity a r' s₁ ≡ s' = cc in rw (← e₂, ← e₁) again
      ]
    ]
