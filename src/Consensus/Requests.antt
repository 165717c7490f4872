-- ===== src/Consensus/Requests.antt =====
-- crates/agent-broker-consensus/src/replicated_command.rs: when two replicated commands are the same
-- request of a client, so that the second is a retry.
use herterarchy_broker.Common.{ℕ, ◌≡◌, ◌↔◌, Bool, true, false, ◌&&◌, List, [], ◌∷◌, nat_eq, arith}
use herterarchy_broker.Identifiers.Order.{bytes_eq, bytes_eq_iff}
use herterarchy_broker.Consensus.Commands.{
  ReplicatedBrokerCommandV1, ensure_namespace, publish_task, ensure_consumer_group,
  join_consumer_group, heartbeat, leave_consumer_group, reap_stale_members, claim_task,
  renew_task_lease, complete_task, prune_completed_tasks, advance_term,
  acquire_command_session_owner,
}

-- `==` on `Vec<String>`
unfoldable pub values_eq : List (List ℕ) → List (List ℕ) → Bool
values_eq [] [] = true
values_eq [] (b ∷ bs) = false
values_eq (a ∷ as') [] = false
values_eq (a ∷ as') (b ∷ bs) = bytes_eq a b && values_eq as' bs

values_eq_iff : (a b : List (List ℕ)) → (values_eq a b ≡ true) ↔ (a ≡ b)
unfolding values_eq
values_eq_iff [] [] = ground arith
values_eq_iff [] (b ∷ bs) = ground arith
values_eq_iff (a ∷ as') [] = ground arith
values_eq_iff (a ∷ as') (b ∷ bs) = ground (arith, bytes_eq_iff a b, values_eq_iff as' bs)

unfoldable pub same_claim_request : ReplicatedBrokerCommandV1 → ReplicatedBrokerCommandV1 → Bool
same_claim_request (claim_task group member term gen lease now span)
      (claim_task group' member' term' gen' lease' now' span') =
    bytes_eq group group'
    && (bytes_eq member member'
        && (nat_eq term term' && (nat_eq gen gen' && (bytes_eq lease lease' && nat_eq span span'))))
same_claim_request _ _ = false

unfoldable pub same_renew_request : ReplicatedBrokerCommandV1 → ReplicatedBrokerCommandV1 → Bool
same_renew_request (renew_task_lease task group member term gen epoch lease now span)
      (renew_task_lease task' group' member' term' gen' epoch' lease' now' span') =
    bytes_eq task task'
    && (bytes_eq group group'
        && (bytes_eq member member'
            && (nat_eq term term'
                && (nat_eq gen gen'
                    && (nat_eq epoch epoch' && (bytes_eq lease lease' && nat_eq span span'))))))
same_renew_request _ _ = false

unfoldable pub same_complete_request : ReplicatedBrokerCommandV1 → ReplicatedBrokerCommandV1 → Bool
same_complete_request (complete_task task group member term gen epoch lease text at)
      (complete_task task' group' member' term' gen' epoch' lease' text' at') =
    bytes_eq task task'
    && (bytes_eq group group'
        && (bytes_eq member member'
            && (nat_eq term term'
                && (nat_eq gen gen'
                    && (nat_eq epoch epoch' && (bytes_eq lease lease' && bytes_eq text text'))))))
same_complete_request _ _ = false

-- Where the code compares two commands of one variant by `==`, their fields are compared.
unfoldable pub same_identified_request :
    ReplicatedBrokerCommandV1 → ReplicatedBrokerCommandV1 → Bool
unfolding values_eq same_claim_request same_renew_request same_complete_request
same_identified_request (ensure_namespace ns max) (ensure_namespace ns' max') = bytes_eq ns ns'
same_identified_request (publish_task ns task text at max) (publish_task ns' task' text' at' max') =
    bytes_eq ns ns' && (bytes_eq task task' && bytes_eq text text')
same_identified_request (ensure_consumer_group ns group max)
      (ensure_consumer_group ns' group' max') =
    bytes_eq ns ns' && bytes_eq group group'
same_identified_request (join_consumer_group group member caps now max)
      (join_consumer_group group' member' caps' now' max') =
    bytes_eq group group' && (bytes_eq member member' && values_eq caps caps')
same_identified_request (heartbeat group member gen now) (heartbeat group' member' gen' now') =
    bytes_eq group group' && (bytes_eq member member' && nat_eq gen gen')
same_identified_request (leave_consumer_group group member gen)
      (leave_consumer_group group' member' gen') =
    bytes_eq group group' && (bytes_eq member member' && nat_eq gen gen')
same_identified_request (reap_stale_members before max) (reap_stale_members before' max') =
    nat_eq before before' && nat_eq max max'
same_identified_request (claim_task group member term gen lease now span)
      (claim_task group' member' term' gen' lease' now' span') =
    same_claim_request (claim_task group member term gen lease now span)
      (claim_task group' member' term' gen' lease' now' span')
same_identified_request (renew_task_lease task group member term gen epoch lease now span)
      (renew_task_lease task' group' member' term' gen' epoch' lease' now' span') =
    same_renew_request (renew_task_lease task group member term gen epoch lease now span)
      (renew_task_lease task' group' member' term' gen' epoch' lease' now' span')
same_identified_request (complete_task task group member term gen epoch lease text at)
      (complete_task task' group' member' term' gen' epoch' lease' text' at') =
    same_complete_request (complete_task task group member term gen epoch lease text at)
      (complete_task task' group' member' term' gen' epoch' lease' text' at')
same_identified_request (prune_completed_tasks before max) (prune_completed_tasks before' max') =
    nat_eq before before' && nat_eq max max'
same_identified_request (advance_term term new) (advance_term term' new') =
    nat_eq term term' && nat_eq new new'
same_identified_request (acquire_command_session_owner session epoch owner)
      (acquire_command_session_owner session' epoch' owner') =
    bytes_eq session session' && (nat_eq epoch epoch' && bytes_eq owner owner')
same_identified_request _ _ = false

-- What a client asks for: the command without the times that the server observed and without the
-- server's capacity limits.
abbrev pub request : ReplicatedBrokerCommandV1 → ReplicatedBrokerCommandV1
request (ensure_namespace ns max) = ensure_namespace ns 0
request (publish_task ns task text at max) = publish_task ns task text 0 0
request (ensure_consumer_group ns group max) = ensure_consumer_group ns group 0
request (join_consumer_group group member caps now max) = join_consumer_group group member caps 0 0
request (heartbeat group member gen now) = heartbeat group member gen 0
request (leave_consumer_group group member gen) = leave_consumer_group group member gen
request (reap_stale_members before max) = reap_stale_members before max
request (claim_task group member term gen lease now span) =
    claim_task group member term gen lease 0 span
request (renew_task_lease task group member term gen epoch lease now span) =
    renew_task_lease task group member term gen epoch lease 0 span
request (complete_task task group member term gen epoch lease text at) =
    complete_task task group member term gen epoch lease text 0
request (prune_completed_tasks before max) = prune_completed_tasks before max
request (advance_term term new) = advance_term term new
request (acquire_command_session_owner session epoch owner) =
    acquire_command_session_owner session epoch owner

-- A command counts as the retry of another exactly if both ask for the same, whatever times the server
-- observed and whatever capacity limits it had.
pub same_identified_request_iff :
    (a b : ReplicatedBrokerCommandV1)
    → (same_identified_request a b ≡ true) ↔ (request a ≡ request b)
unfolding same_identified_request
same_identified_request_iff (ensure_namespace ns max) (ensure_namespace ns' max') =
    ground (arith, bytes_eq_iff ns ns')
same_identified_request_iff (publish_task ns task text at max)
      (publish_task ns' task' text' at' max') =
    ground (arith, bytes_eq_iff ns ns', bytes_eq_iff task task', bytes_eq_iff text text')
same_identified_request_iff (ensure_consumer_group ns group max)
      (ensure_consumer_group ns' group' max') =
    ground (arith, bytes_eq_iff ns ns', bytes_eq_iff group group')
same_identified_request_iff (join_consumer_group group member caps now max)
      (join_consumer_group group' member' caps' now' max') =
    ground (arith, bytes_eq_iff group group', bytes_eq_iff member member', values_eq_iff caps caps')
same_identified_request_iff (heartbeat group member gen now) (heartbeat group' member' gen' now') =
    ground (arith, bytes_eq_iff group group', bytes_eq_iff member member')
same_identified_request_iff (leave_consumer_group group member gen)
      (leave_consumer_group group' member' gen') =
    ground (arith, bytes_eq_iff group group', bytes_eq_iff member member')
same_identified_request_iff (reap_stale_members before max) (reap_stale_members before' max') =
    ground arith
same_identified_request_iff (claim_task group member term gen lease now span)
      (claim_task group' member' term' gen' lease' now' span') =
    ground
      (arith, bytes_eq_iff group group', bytes_eq_iff member member', bytes_eq_iff lease lease')
same_identified_request_iff (renew_task_lease task group member term gen epoch lease now span)
      (renew_task_lease task' group' member' term' gen' epoch' lease' now' span') =
    ground (
      arith,
      bytes_eq_iff task task',
      bytes_eq_iff group group',
      bytes_eq_iff member member',
      bytes_eq_iff lease lease',
    )
same_identified_request_iff (complete_task task group member term gen epoch lease text at)
      (complete_task task' group' member' term' gen' epoch' lease' text' at') =
    ground (
      arith,
      bytes_eq_iff task task',
      bytes_eq_iff group group',
      bytes_eq_iff member member',
      bytes_eq_iff lease lease',
      bytes_eq_iff text text',
    )
same_identified_request_iff (prune_completed_tasks before max)
      (prune_completed_tasks before' max') =
    ground arith
same_identified_request_iff (advance_term term new) (advance_term term' new') = ground arith
same_identified_request_iff (acquire_command_session_owner session epoch owner)
      (acquire_command_session_owner session' epoch' owner') =
    ground (arith, bytes_eq_iff session session', bytes_eq_iff owner owner')
same_identified_request_iff _ _ = ground arith
