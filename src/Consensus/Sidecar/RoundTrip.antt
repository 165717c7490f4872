-- ===== src/Consensus/Sidecar/RoundTrip.antt =====
-- The command sessions come back from their snapshot as they were.
use herterarchy_broker.Common.{
  ℕ, ◌≤◌, ◌≡◌, refl, sym, subst, ap, [], ◌∷◌, ◌++◌, map, length, Option, none, some, Result, ok,
  arith, ltb, false, Every,
}
use herterarchy_broker.Common.Maps.{IsOrdered}
use herterarchy_broker.Common.Ends.{insert-end, append_assoc, append_nil}
use herterarchy_broker.Identifiers.Order.{id_key}
use herterarchy_broker.Machine.Commands.{BrokerCommand}
use herterarchy_broker.Machine.Results.{BrokerMutationResult}
use herterarchy_broker.Application.Errors.{BrokerError}
use herterarchy_broker.Application.Identity.{
  CommandSessionId, SessionOwnerInstanceId, new_session_id, new_owner_epoch, new_owner_instance_id,
  new_sequence,
}
use herterarchy_broker.Consensus.Decoding.{to_command}
use herterarchy_broker.Consensus.Responses.{
  normalize_stored_session_outcome, into_application_result,
}
use herterarchy_broker.Consensus.Sessions.{
  CommandSessionOutcome, CommandSessionRecord, max_command_sessions,
}
use herterarchy_broker.Consensus.Sidecar.{
  Sessions, record_of, sidecar_of, decode_command_session_outcome, decode_record, decode_records,
  sessions_of,
}

-- The command and the response of an outcome can be read, and the response is of a stored form.
abbrev pub IsOutcome : Option CommandSessionOutcome → Type 0
IsOutcome none = Unit
IsOutcome (some outcome) =
    (1 ≤ outcome.sequence)
    × ((c : BrokerCommand) × (to_command outcome.command ≡ ok c))
    × (normalize_stored_session_outcome outcome.response ≡ outcome.response)
    × ((r : Result BrokerError BrokerMutationResult) × (into_application_result outcome.response
          ≡ ok r))

abbrev pub IsOwner : Option SessionOwnerInstanceId → Type 0
IsOwner none = Unit
IsOwner (some owner) = new_owner_instance_id owner.bytes ≡ ok owner

abbrev pub IsSession : CommandSessionId × CommandSessionRecord → Type 0
IsSession (id, known) =
    (new_session_id id.bytes ≡ ok id)
    × (1 ≤ known.owner_epoch)
    × IsOwner known.owner_instance_id
    × IsOutcome known.last_outcome

abbrev session :
    CommandSessionId
    → ℕ
    → Option SessionOwnerInstanceId
    → Option CommandSessionOutcome
    → CommandSessionId × CommandSessionRecord
session id epoch owner outcome =
    (id, record { owner_epoch = epoch; owner_instance_id = owner; last_outcome = outcome })

decode_session :
    (id : CommandSessionId) (epoch : ℕ) (owner : Option SessionOwnerInstanceId)
    (outcome : Option CommandSessionOutcome)
    → IsSession (session id epoch owner outcome)
    → decode_record (record_of (session id epoch owner outcome))
      ≡ ok (session id epoch owner outcome)
unfolding decode_record record_of decode_command_session_outcome new_owner_epoch new_sequence
decode_session id epoch none none (i, e, o, out) = ground arith
decode_session id epoch (some owner) none (i, e, o, out) = ground arith
decode_session id epoch none (some outcome) (i, e, o, (q, (c, f), n, (r, g))) = ground arith
decode_session id epoch (some owner) (some outcome) (i, e, o, (q, (c, f), n, (r, g))) = ground arith

decode_records-sessions :
    (done rest : Sessions)
    → IsOrdered (done ++ rest)
    → Every IsSession rest
    → decode_records (map record_of rest) done ≡ ok (done ++ rest)
unfolding decode_records
decode_records-sessions done [] h sound = ap ok (sym (append_nil done))
decode_records-sessions done ((id, known) ∷ rest) h sound =
    let (at_end, fresh) = insert-end id known done rest h in
    let assoc = append_assoc done ((id, known) ∷ []) rest in
    let h' = subst IsOrdered (sym assoc) h in
    let ih = decode_records-sessions (done ++ ((id, known) ∷ [])) rest h' sound.1 in
    let here =
      decode_session id known.owner_epoch known.owner_instance_id known.last_outcome sound.0 in
    rw (here, fresh, at_end, ih, assoc) refl

length-map : (m : Sessions) → length (map record_of m) ≡ length m
length-map [] = refl
length-map (e ∷ m) = omega (arith, length-map m)

-- Command sessions in order, at most 4,096 of them, whose identifiers, epochs and outcomes are of the form
-- that the replica stores, come back from their snapshot exactly as they were.
pub sessions_of-sidecar_of :
    (m : Sessions)
    → IsOrdered m
    → length m ≤ 4_096
    → Every IsSession m
    → sessions_of (sidecar_of m) ≡ ok m
unfolding sessions_of sidecar_of
sessions_of-sidecar_of m ordered few sound =
    let fits : ltb max_command_sessions (length (map record_of m)) ≡ false =
      ground (arith, length-map m) in
    rw (fits) (decode_records-sessions [] m ordered sound)
