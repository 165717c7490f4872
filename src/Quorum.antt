-- ===== src/Quorum.antt =====
-- crates/agent-broker-domain/src/quorum.rs: majority quorums.
use herterarchy_broker.Common.{
  ℕ, ◌+◌, ◌-◌, ◌/◌, ◌%◌, ◌≤◌, ◌<◌, ◌≡◌, ◌↔◌, Bool, true, Result, ok, err, nat_eq, ltb,
  if◌then◌else◌, arith,
}

pub data QuorumPolicyError : Type 0 where
  empty_cluster : QuorumPolicyError

pub record QuorumPolicy : Type 0 where
  pub node_count : ℕ

-- `QuorumPolicy::new`
unfoldable pub new : ℕ → Result QuorumPolicyError QuorumPolicy
new node_count =
    if nat_eq node_count 0 then err empty_cluster else ok (record { node_count = node_count })

pub majority : QuorumPolicy → ℕ
majority p = p.node_count / 2 + 1

pub tolerated_failures : QuorumPolicy → ℕ
unfolding majority
tolerated_failures p = p.node_count - majority p

pub has_high_availability : QuorumPolicy → Bool
unfolding tolerated_failures
has_high_availability p = ltb 0 (tolerated_failures p)

pub has_odd_membership : QuorumPolicy → Bool
has_odd_membership p = nat_eq (p.node_count % 2) 1

-- Of an accepted cluster, any two majorities share a node (their sizes exceed the node count), a
-- majority is left after the tolerated failures and after no more, and a cluster survives a
-- failure exactly from three nodes on.
pub majority-overlap :
    (nodes : ℕ) (p : QuorumPolicy)
    → new nodes ≡ ok p
    → (nodes < majority p + majority p)
      × (majority p ≤ nodes - tolerated_failures p)
      × (nodes - (tolerated_failures p + 1) < majority p)
      × ((has_high_availability p ≡ true) ↔ (3 ≤ nodes))
unfolding new has_high_availability
majority-overlap nodes p h = ground arith
