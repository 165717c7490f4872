-- ===== src/Group/Membership.antt =====
-- The members of a group stay in order and under their own identifiers, whatever is called.
use herterarchy_broker.Common.{
  ℕ, ◌+◌, ◌≡◌, refl, inl, inr, some, List, [], ◌∷◌, Result, ok, err, arith, Option-cases,
  Result-cases,
}
use herterarchy_broker.Common.Maps.{
  Map, get, insert, remove, IsOrdered, insert-IsOrdered, remove-IsOrdered,
}
use herterarchy_broker.Identifiers.{ConsumerId, ConsumerGroupId, NamespaceId}
use herterarchy_broker.Identifiers.Order.{id_key, id_eq_iff}
use herterarchy_broker.Group.CapabilitySet.{Capabilities}
use herterarchy_broker.Group.{
  ConsumerGroup, Consumer, ConsumerGroupError, new_consumer, new_group, touch, admit, join,
  heartbeat, leave, remove_members, reap_selected, reap_stale_members, stale_ids,
}
use herterarchy_broker.Group.Checkpoint.{checkpoint, from_checkpoint}
use herterarchy_broker.Group.Restore.{IsKeyed, from_checkpoint-checkpoint_group}

insert-IsKeyed :
    (k : ConsumerId) (c : Consumer) (m : Map ConsumerId Consumer)
    → k ≡ c.id
    → IsKeyed m
    → IsKeyed (insert k c m)
unfolding insert
insert-IsKeyed k c [] e h = ground arith
insert-IsKeyed k c ((j, d) ∷ m) e h = ground (arith, insert-IsKeyed k c m e)

pub remove-IsKeyed :
    (k : ConsumerId) (m : Map ConsumerId Consumer) → IsKeyed m → IsKeyed (remove k m)
unfolding remove
remove-IsKeyed k [] h = h
remove-IsKeyed k ((j, d) ∷ m) h = ground (arith, remove-IsKeyed k m)

pub get-IsKeyed :
    (k : ConsumerId) (c : Consumer) (m : Map ConsumerId Consumer)
    → IsKeyed m
    → get k m ≡ some c
    → k ≡ c.id
unfolding get
get-IsKeyed k c [] h e = ground arith
get-IsKeyed k c ((j, d) ∷ m) h e = ground (arith, id_eq_iff j k, get-IsKeyed k c m)

pub record IsRegular (members : Map ConsumerId Consumer) : Type 0 where
  pub ordered : IsOrdered members
  pub keyed : IsKeyed members

insert-IsRegular :
    (k : ConsumerId) (c : Consumer) (m : Map ConsumerId Consumer)
    → k ≡ c.id
    → IsRegular m
    → IsRegular (insert k c m)
insert-IsRegular k c m e h = record {
  ordered = insert-IsOrdered k c m h.ordered;
  keyed = insert-IsKeyed k c m e h.keyed;
}

remove-IsRegular :
    (k : ConsumerId) (m : Map ConsumerId Consumer) → IsRegular m → IsRegular (remove k m)
remove-IsRegular k m h = record {
  ordered = remove-IsOrdered k m h.ordered;
  keyed = remove-IsKeyed k m h.keyed;
}

pub remove_members-IsRegular :
    (ids : List ConsumerId) (m : Map ConsumerId Consumer)
    → IsRegular m
    → IsRegular (remove_members ids m).1
unfolding remove_members
remove_members-IsRegular [] m h = h
remove_members-IsRegular (id ∷ ids) m h =
    let rest = remove_members-IsRegular ids (remove id m) (remove-IsRegular id m h) in
    elim (Option-cases (get id m)) [
      | inl e ↦ rw (e, remove_members) rest
      | inr (c, e) ↦ rw (e, remove_members) rest
    ]

-- The calls that may change a group, as data.
pub data Call : Type 0 where
  joins : ConsumerId → Capabilities → ℕ → ℕ → Call
  beats : ConsumerId → ℕ → ℕ → Call
  leaves : ConsumerId → ℕ → Call
  reaps : ℕ → ℕ → Call

abbrev after {ℓ} :
    {A : Type ℓ} → ConsumerGroup → Result ConsumerGroupError (A × ConsumerGroup) → ConsumerGroup
after g (ok (x, g')) = g'
after g (err e) = g

-- A call that fails leaves the group as it was.
unfoldable pub step : Call → ConsumerGroup → ConsumerGroup
step (joins id caps now max) g = after g (join id caps now max g)
step (beats id expected now) g = after g (heartbeat id expected now g)
step (leaves id expected) g = after g (leave id expected g)
step (reaps cutoff max) g = after g (reap_stale_members cutoff max g)

unfoldable pub run : List Call → ConsumerGroup → ConsumerGroup
run [] g = g
run (c ∷ cs) g = run cs (step c g)

abbrev IsSound : ConsumerGroup → Type 0
IsSound g = IsRegular g.consumers

touch-IsSound :
    (id : ConsumerId) (c : Consumer) (now : ℕ) (g g' : ConsumerGroup)
    → id ≡ c.id
    → IsSound g
    → touch id c now g ≡ ok g'
    → IsSound g'
unfolding touch
touch-IsSound id c now g g' e h t = ground (
  arith,
  insert-IsRegular id (record c { last_heartbeat_at_ms = now; revision = c.revision + 1 })
      g.consumers e h,
)

join-IsSound :
    (id : ConsumerId) (caps : Capabilities) (now max : ℕ) (g : ConsumerGroup)
    → IsSound g
    → IsSound (after g (join id caps now max g))
unfolding join admit new_consumer
join-IsSound id caps now max g h = elim (Option-cases (get id g.consumers)) [
  | inl new ↦ ground (arith, insert-IsRegular id (new_consumer id caps now) g.consumers refl h)
  | inr (c, known) ↦ elim (Result-cases (touch id c now g)) [
    | inl (g', t) ↦
        ground (arith, touch-IsSound id c now g g' (get-IsKeyed id c g.consumers h.keyed known) h t)
    | inr (x, t) ↦ ground arith
  ]
]

heartbeat-IsSound :
    (id : ConsumerId) (expected now : ℕ) (g : ConsumerGroup)
    → IsSound g
    → IsSound (after g (heartbeat id expected now g))
unfolding heartbeat
heartbeat-IsSound id expected now g h = elim (Option-cases (get id g.consumers)) [
  | inl new ↦ ground arith
  | inr (c, known) ↦ elim (Result-cases (touch id c now g)) [
    | inl (g', t) ↦
        ground (arith, touch-IsSound id c now g g' (get-IsKeyed id c g.consumers h.keyed known) h t)
    | inr (x, t) ↦ ground arith
  ]
]

leave-IsSound :
    (id : ConsumerId) (expected : ℕ) (g : ConsumerGroup)
    → IsSound g
    → IsSound (after g (leave id expected g))
unfolding leave
leave-IsSound id expected g h = ground (arith, remove-IsRegular id g.consumers h)

reap_selected-IsSound :
    (ids : List ConsumerId) (g : ConsumerGroup)
    → IsSound g
    → IsSound (after g (reap_selected ids g))
unfolding reap_selected
reap_selected-IsSound [] g h = h
reap_selected-IsSound (id ∷ ids) g h =
    ground (arith, remove_members-IsRegular (id ∷ ids) g.consumers h)

reap-IsSound :
    (cutoff max : ℕ) (g : ConsumerGroup)
    → IsSound g
    → IsSound (after g (reap_stale_members cutoff max g))
unfolding reap_stale_members
reap-IsSound cutoff max g h = ground (arith, reap_selected-IsSound (stale_ids cutoff max g) g h)

step-IsSound : (c : Call) (g : ConsumerGroup) → IsSound g → IsSound (step c g)
unfolding step
step-IsSound (joins id caps now max) g h = join-IsSound id caps now max g h
step-IsSound (beats id expected now) g h = heartbeat-IsSound id expected now g h
step-IsSound (leaves id expected) g h = leave-IsSound id expected g h
step-IsSound (reaps cutoff max) g h = reap-IsSound cutoff max g h

run-IsSound : (cs : List Call) (g : ConsumerGroup) → IsSound g → IsSound (run cs g)
unfolding run
run-IsSound [] g h = h
run-IsSound (c ∷ cs) g h = run-IsSound cs (step c g) (step-IsSound c g h)

new_group-IsSound : (id : ConsumerGroupId) (ns : NamespaceId) → IsSound (new_group id ns)
unfolding new_group
new_group-IsSound id ns = record { ordered = tt; keyed = tt }

-- A group that any sequence of calls has made out of a new one, failed calls included, is restored
-- from its checkpoint exactly as it was.
pub run-restored :
    (cs : List Call) (id : ConsumerGroupId) (ns : NamespaceId)
    → from_checkpoint (checkpoint (run cs (new_group id ns))) ≡ ok (run cs (new_group id ns))
run-restored cs id ns =
    let h = run-IsSound cs (new_group id ns) (new_group-IsSound id ns) in
    from_checkpoint-checkpoint_group (run cs (new_group id ns)) h.ordered h.keyed
