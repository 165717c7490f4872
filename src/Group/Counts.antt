-- ===== src/Group/Counts.antt =====
-- How many members a group has.
use herterarchy_broker.Common.{
  ℕ, suc, ◌+◌, ◌≤◌, ◌≡◌, ◌∙◌, ap, inl, inr, Option-cases, true, none, some, ok, length, arith,
  if◌then◌else◌,
}
use herterarchy_broker.Common.Maps.{Map, get, contains_key, insert, IsOrdered, length-insert}
use herterarchy_broker.Fencing.{next}
use herterarchy_broker.Identifiers.{ConsumerId}
use herterarchy_broker.Identifiers.Order.{id_key}
use herterarchy_broker.Group.CapabilitySet.{Capabilities}
use herterarchy_broker.Group.{
  ConsumerGroup, Consumer, JoinOutcome, new_consumer, consumer_count, touch, admit, join,
}

admit-count :
    (id : ConsumerId) (caps : Capabilities) (now max : ℕ) (g g' : ConsumerGroup)
    → IsOrdered g.consumers
    → get id g.consumers ≡ none
    → admit id caps now max g ≡ ok g'
    → (consumer_count g' ≡ consumer_count g + 1) × (consumer_count g' ≤ max)
unfolding admit next contains_key
admit-count id caps now max g g' o new h =
    let grown = length-insert id (new_consumer id caps now) g.consumers o in
    (ground (arith, grown), ground (arith, grown))

contains-known :
    (id : ConsumerId) (c : Consumer) (m : Map ConsumerId Consumer)
    → get id m ≡ some c
    → contains_key id m ≡ true
unfolding contains_key
contains-known id c m known = ground arith

insert-count :
    (id : ConsumerId) (c c' : Consumer) (m : Map ConsumerId Consumer)
    → IsOrdered m
    → get id m ≡ some c
    → length (insert id c' m) ≡ length m
insert-count id c c' m o known =
    length-insert id c' m o
    ∙ ap (λ b. if b then length m else suc (length m)) (contains-known id c m known)

touch-count :
    (id : ConsumerId) (c : Consumer) (now : ℕ) (g g' : ConsumerGroup)
    → IsOrdered g.consumers
    → get id g.consumers ≡ some c
    → touch id c now g ≡ ok g'
    → consumer_count g' ≡ consumer_count g
unfolding touch next consumer_count
touch-count id c now g g' o known h =
    let same =
      insert-count id c (record c { last_heartbeat_at_ms = now; revision = c.revision + 1 })
        g.consumers o known in
    ground (arith, same)

abbrev pub Sized : ℕ → ConsumerGroup → JoinOutcome → ConsumerGroup → Type 0
Sized max g JoinOutcome.added g' =
    (consumer_count g' ≡ consumer_count g + 1) × (consumer_count g' ≤ max)
Sized max g o g' = consumer_count g' ≡ consumer_count g

-- A join that adds a member makes the group one member larger, up to the maximum that the caller
-- permits; a join with another outcome leaves the number of members.
pub join-Sized :
    (id : ConsumerId) (caps : Capabilities) (now max : ℕ) (g : ConsumerGroup) (o : JoinOutcome)
    (g' : ConsumerGroup)
    → IsOrdered g.consumers
    → join id caps now max g ≡ ok (o, g')
    → Sized max g o g'
unfolding join
join-Sized id caps now max g JoinOutcome.added g' ordered h =
    elim (Option-cases (get id g.consumers)) [
      | inl new ↦ ground (arith, admit-count id caps now max g g' ordered new)
      | inr (c, known) ↦ absurd (ground arith)
    ]
join-Sized id caps now max g JoinOutcome.refreshed g' ordered h =
    elim (Option-cases (get id g.consumers)) [
      | inl new ↦ absurd (ground arith)
      | inr (c, known) ↦ touch-count id c now g g' ordered known (ground arith)
    ]
join-Sized id caps now max g JoinOutcome.unchanged g' ordered h =
    elim (Option-cases (get id g.consumers)) [
      | inl new ↦ absurd (ground arith)
      | inr (c, known) ↦ ground arith
    ]
