-- ===== src/Consensus/Validated.antt =====
-- No replicated command brings a broker command that the constructors of its values would refuse.
use Prim.Native.String.{String}
use herterarchy_broker.Common.{
  ℕ, ◌≤◌, ◌≡◌, subst, inl, inr, List, [], ◌∷◌, length, ok, arith, Result-cases, Ensures,
  bind-Ensures, Ensures-ok, Bool-cases, ltb, suc, ◌+◌,
}
use herterarchy_broker.Common.Keys.{◌==◌}
use herterarchy_broker.Common.Sets.{insert}
use herterarchy_broker.Fencing.{u64_max, new_term}
use herterarchy_broker.Identifiers
use herterarchy_broker.Identifiers.{Identifier}
use herterarchy_broker.Identifiers.Validation.{new-ok_iff}
use herterarchy_broker.Task.Text.{new_objective, new_result, text_limits}
use herterarchy_broker.Group.CapabilitySet.{
  Capability, Capabilities, cap_key, cap_lt, new_capability, normalize, new_capabilities,
}
use herterarchy_broker.Group.Matching.{new_capabilities-set}
use herterarchy_broker.Machine.Commands.{BrokerCommand}
use herterarchy_broker.Consensus.Commands.{
  ReplicatedBrokerCommandV1, u64_to_usize, ensure_namespace, publish_task, ensure_consumer_group,
  join_consumer_group, heartbeat, leave_consumer_group, reap_stale_members, claim_task,
  renew_task_lease, complete_task, prune_completed_tasks, advance_term,
  acquire_command_session_owner,
}
use herterarchy_broker.Consensus.Decoding.{
  identifier, term, objective_text, result_text, capability_set, to_command,
  convert_coordination_command,
}
use herterarchy_broker.Machine.Values.{IsId, IsObjective, IsResult, IsCapabilities, AreValid}
use herterarchy_broker.Consensus.RoundTrip.{IsSound}

identifier-Ensures : (kind : String) (v : List ℕ) → Ensures IsId (identifier kind v)
unfolding identifier
identifier-Ensures kind v = elim (Result-cases (Identifiers.new kind v)) [
  | inr (x, e) ↦ rw (e, identifier) tt
  | inl (id, e) ↦ let (h, same) = (new-ok_iff kind v id).0 e in rw (e, identifier) (rw same h)
]

objective_text-Ensures : (v : List ℕ) → Ensures IsObjective (objective_text v)
unfolding objective_text
objective_text-Ensures v = elim (Result-cases (new_objective v)) [
  | inr (x, e) ↦ rw (e, objective_text) tt
  | inl (o, e) ↦
      let (s, b, same) = ((text_limits v o (record { text = [] })).0).0 e in
      rw (e, objective_text) (rw same s, rw same b)
]

result_text-Ensures : (v : List ℕ) → Ensures IsResult (result_text v)
unfolding result_text
result_text-Ensures v = elim (Result-cases (new_result v)) [
  | inr (x, e) ↦ rw (e, result_text) tt
  | inl (o, e) ↦
      let (s, b, same) = ((text_limits v (record { text = [] }) o).1).0 e in
      rw (e, result_text) (rw same s, rw same b)
]

term-Ensures : (v : ℕ) → Ensures (λ t. 1 ≤ t) (term v)
unfolding term new_term
term-Ensures v = elim (Result-cases (new_term v)) [
  | inr (x, e) ↦ rw (e, term) tt
  | inl (t, e) ↦ rw (e, term) (ground arith)
]

u64_to_usize-Ensures : (v : ℕ) (field : String) → Ensures (λ n. n ≤ u64_max) (u64_to_usize v field)
unfolding u64_to_usize
u64_to_usize-Ensures v field = elim (Bool-cases (ltb u64_max v)) [
  | inl e ↦ rw (e, u64_to_usize) tt
  | inr e ↦ rw (e, u64_to_usize) (ground arith)
]

new_capability-fixed :
    (v : List ℕ) (c : Capability) → new_capability v ≡ ok c → new_capability c.value ≡ ok c
unfolding new_capability
new_capability-fixed [] c h = absurd (ground arith)
new_capability-fixed (b ∷ bs) c h = ground arith

insert-AreValid :
    (c : Capability) (cs : List Capability)
    → new_capability c.value ≡ ok c
    → AreValid cs
    → AreValid (insert c cs) × (length (insert c cs) ≤ suc (length cs))
unfolding insert
insert-AreValid c [] h v = ((h, tt), omega arith)
insert-AreValid c (d ∷ cs) h v =
    let (rest, longer) = insert-AreValid c cs h v.1 in
    elim (Bool-cases (d == c)) [
      | inl same ↦ rw (same, insert) (v, omega arith)
      | inr other ↦ elim (Bool-cases (cap_lt c d)) [
        | inl below ↦ rw (other, below, insert) ((h, v), omega arith)
        | inr above ↦ rw (other, above, insert) ((v.0, rest), omega (arith, longer))
      ]
    ]

normalize-AreValid :
    (vs : List (List ℕ)) (acc out : List Capability)
    → AreValid acc
    → normalize vs acc ≡ ok out
    → AreValid out × (length out ≤ length vs + length acc)
unfolding normalize
normalize-AreValid [] acc out v h = let e : acc ≡ out = cc in (subst AreValid e v, ground arith)
normalize-AreValid (x ∷ vs) acc out v h = elim (Result-cases (new_capability x)) [
  | inr (bad, e) ↦ absurd (ground arith)
  | inl (c, e) ↦
      let (valid, longer) = insert-AreValid c acc (new_capability-fixed x c e) v in
      let (valid', longer') = normalize-AreValid vs (insert c acc) out valid (ground arith) in
      (valid', omega (arith, longer, longer'))
]

accepted :
    (vs : List (List ℕ)) (c : Capabilities)
    → new_capabilities vs ≡ ok c
    → normalize vs [] ≡ ok c.items
unfolding new_capabilities
accepted vs c h = elim (Result-cases (normalize vs [])) [
  | inr (x, e) ↦ absurd (ground arith)
  | inl (items, e) ↦ ground arith
]

capability_set-Ensures : (vs : List (List ℕ)) → Ensures IsCapabilities (capability_set vs)
unfolding capability_set new_capabilities
capability_set-Ensures vs = elim (Result-cases (new_capabilities vs)) [
  | inr (x, e) ↦ rw (e, capability_set) tt
  | inl (c, e) ↦
      let (few, ordered, same) = new_capabilities-set vs c e in
      let (valid, longer) = normalize-AreValid vs [] c.items tt (accepted vs c e) in
      rw (e, capability_set) (ordered, valid, omega (arith, few, longer))
]

to_command-Ensures : (r : ReplicatedBrokerCommandV1) → Ensures IsSound (to_command r)
unfolding to_command convert_coordination_command
to_command-Ensures (ensure_namespace ns max) =
    bind-Ensures _ IsSound (identifier "namespace_id" ns) _ (identifier-Ensures "namespace_id" ns)
      λ _ a.
        bind-Ensures _ IsSound (u64_to_usize max "max_namespaces") _
          (u64_to_usize-Ensures max "max_namespaces") λ _ b. (a, b)
to_command-Ensures (publish_task ns task text at max) =
    bind-Ensures _ IsSound (identifier "namespace_id" ns) _ (identifier-Ensures "namespace_id" ns)
      λ _ a.
        bind-Ensures _ IsSound (identifier "task_id" task) _ (identifier-Ensures "task_id" task)
          λ _ b. bind-Ensures _ IsSound (objective_text text) _ (objective_text-Ensures text) λ _ c.
            bind-Ensures _ IsSound (u64_to_usize max "max_namespace_tasks") _
              (u64_to_usize-Ensures max "max_namespace_tasks") λ _ d. (a, b, c, d)
to_command-Ensures (ensure_consumer_group ns group max) =
    bind-Ensures _ IsSound (identifier "namespace_id" ns) _ (identifier-Ensures "namespace_id" ns)
      λ _ a.
        bind-Ensures _ IsSound (identifier "group_id" group) _ (identifier-Ensures "group_id" group)
          λ _ b.
            bind-Ensures _ IsSound (u64_to_usize max "max_namespace_groups") _
              (u64_to_usize-Ensures max "max_namespace_groups") λ _ c. (a, b, c)
to_command-Ensures (join_consumer_group group member caps now max) =
    bind-Ensures _ IsSound (identifier "group_id" group) _ (identifier-Ensures "group_id" group)
      λ _ a.
        bind-Ensures _ IsSound (identifier "member_id" member) _
          (identifier-Ensures "member_id" member)
          λ _ b. bind-Ensures _ IsSound (capability_set caps) _ (capability_set-Ensures caps) λ _ c.
            bind-Ensures _ IsSound (u64_to_usize max "max_group_members") _
              (u64_to_usize-Ensures max "max_group_members") λ _ d. (a, b, c, d)
to_command-Ensures (heartbeat group member gen now) =
    bind-Ensures _ IsSound (identifier "group_id" group) _ (identifier-Ensures "group_id" group)
      λ _ a.
        bind-Ensures _ IsSound (identifier "member_id" member) _
          (identifier-Ensures "member_id" member) λ _ b. (a, b)
to_command-Ensures (leave_consumer_group group member gen) =
    bind-Ensures _ IsSound (identifier "group_id" group) _ (identifier-Ensures "group_id" group)
      λ _ a.
        bind-Ensures _ IsSound (identifier "member_id" member) _
          (identifier-Ensures "member_id" member) λ _ b. (a, b)
to_command-Ensures (reap_stale_members before max) =
    bind-Ensures _ IsSound (u64_to_usize max "max_members") _
      (u64_to_usize-Ensures max "max_members") λ _ a. a
to_command-Ensures (claim_task group member t gen lease now span) =
    bind-Ensures _ IsSound (identifier "group_id" group) _ (identifier-Ensures "group_id" group)
      λ _ a.
        bind-Ensures _ IsSound (identifier "member_id" member) _
          (identifier-Ensures "member_id" member)
          λ _ b. bind-Ensures _ IsSound (term t) _ (term-Ensures t) λ _ c.
            bind-Ensures _ IsSound (identifier "lease_id" lease) _
              (identifier-Ensures "lease_id" lease) λ _ d. (a, b, c, d)
to_command-Ensures (renew_task_lease task group member t gen epoch lease now span) =
    bind-Ensures _ IsSound (identifier "task_id" task) _ (identifier-Ensures "task_id" task) λ _ a.
      bind-Ensures _ IsSound (identifier "group_id" group) _ (identifier-Ensures "group_id" group)
        λ _ b.
          bind-Ensures _ IsSound (identifier "member_id" member) _
            (identifier-Ensures "member_id" member)
            λ _ c. bind-Ensures _ IsSound (term t) _ (term-Ensures t) λ _ d.
              bind-Ensures _ IsSound (identifier "lease_id" lease) _
                (identifier-Ensures "lease_id" lease) λ _ e. (a, b, c, d, e)
to_command-Ensures (complete_task task group member t gen epoch lease text at) =
    bind-Ensures _ IsSound (identifier "task_id" task) _ (identifier-Ensures "task_id" task) λ _ a.
      bind-Ensures _ IsSound (identifier "group_id" group) _ (identifier-Ensures "group_id" group)
        λ _ b.
          bind-Ensures _ IsSound (identifier "member_id" member) _
            (identifier-Ensures "member_id" member)
            λ _ c. bind-Ensures _ IsSound (term t) _ (term-Ensures t) λ _ d.
              bind-Ensures _ IsSound (identifier "lease_id" lease) _
                (identifier-Ensures "lease_id" lease)
                λ _ e.
                  bind-Ensures _ IsSound (result_text text) _ (result_text-Ensures text)
                    λ _ f. (a, b, c, d, e, f)
to_command-Ensures (prune_completed_tasks before max) =
    bind-Ensures _ IsSound (u64_to_usize max "max_tasks") _ (u64_to_usize-Ensures max "max_tasks")
      λ _ a. a
to_command-Ensures (advance_term t n) =
    bind-Ensures _ IsSound (term t) _ (term-Ensures t)
      λ _ a. bind-Ensures _ IsSound (term n) _ (term-Ensures n) λ _ b. (a, b)
to_command-Ensures (acquire_command_session_owner session epoch owner) = tt

-- Whatever values a replicated command holds, the broker command that it is converted to, if it is, has
-- identifiers, texts, capabilities, terms and limits that their constructors accept.
pub to_command-IsSound :
    (r : ReplicatedBrokerCommandV1) (c : BrokerCommand) → to_command r ≡ ok c → IsSound c
to_command-IsSound r c h = Ensures-ok IsSound (to_command r) c (to_command-Ensures r) h
