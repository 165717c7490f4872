-- ===== src/Group/Laws.antt =====
-- What a successful call on a group has done.
use herterarchy_broker.Common.{
  ℕ, ◌+◌, ◌≤◌, ◌<◌, ◌≡◌, inl, inr, none, some, ok, arith, if◌then◌else◌, Option-cases,
}
use herterarchy_broker.Common.Keys.{◌==◌}
use herterarchy_broker.Common.Maps.{get, get-insert, get-remove}
use herterarchy_broker.Fencing.{next}
use herterarchy_broker.Identifiers.{ConsumerId}
use herterarchy_broker.Identifiers.Order.{id_key}
use herterarchy_broker.Group.CapabilitySet.{Capabilities, caps_eq_iff}
use herterarchy_broker.Group.{
  ConsumerGroup, Consumer, JoinOutcome, HeartbeatOutcome, new_consumer, consumer_count, touch,
  admit, join, heartbeat, leave,
}

-- Both groups are one group, at two moments.
pub record SameGroup (g g' : ConsumerGroup) : Type 0 where
  pub same_id : g'.id ≡ g.id
  pub same_namespace : g'.namespace_id ≡ g.namespace_id

-- The group in which the member was last heard of at `now`.
pub record Touched (id : ConsumerId) (m : Consumer) (now : ℕ) (g g' : ConsumerGroup) : Type 0 where
  pub same : SameGroup g g'
  pub generation : g'.generation ≡ g.generation
  pub revision : g'.revision ≡ g.revision + 1
  pub members :
      (j : ConsumerId)
      → get j g'.consumers ≡ (
          if id == j
          then some (record m { last_heartbeat_at_ms = now; revision = m.revision + 1 })
          else get j g.consumers)

pub record Admitted (id : ConsumerId) (m : Consumer) (g g' : ConsumerGroup) : Type 0 where
  pub same : SameGroup g g'
  pub generation : g'.generation ≡ g.generation + 1
  pub revision : g'.revision ≡ g.revision + 1
  pub members :
      (j : ConsumerId) → get j g'.consumers ≡ (if id == j then some m else get j g.consumers)

pub touch-Touched :
    (id : ConsumerId) (m : Consumer) (now : ℕ) (g g' : ConsumerGroup)
    → touch id m now g ≡ ok g'
    → Touched id m now g g'
unfolding touch next
touch-Touched id m now g g' h = record {
  same = ground arith;
  generation = ground arith;
  revision = ground arith;
  members = λ j. ground (
    arith,
    get-insert id j (record m { last_heartbeat_at_ms = now; revision = m.revision + 1 })
        g.consumers,
  );
}

pub admit-Admitted :
    (id : ConsumerId) (caps : Capabilities) (now max : ℕ) (g g' : ConsumerGroup)
    → admit id caps now max g ≡ ok g'
    → (consumer_count g < max) × Admitted id (new_consumer id caps now) g g'
unfolding admit next
admit-Admitted id caps now max g g' h = (
  ground arith,
  record {
    same = ground arith;
    generation = ground arith;
    revision = ground arith;
    members = λ j. ground (arith, get-insert id j (new_consumer id caps now) g.consumers);
  },
)

-- What a join that succeeds has found and done, by its outcome.
abbrev pub Joined :
    ConsumerId → Capabilities → ℕ → ℕ → ConsumerGroup → JoinOutcome → ConsumerGroup → Type 0
Joined id caps now max g JoinOutcome.added g' =
    (get id g.consumers ≡ none)
    × (consumer_count g < max)
    × Admitted id (new_consumer id caps now) g g'
Joined id caps now max g JoinOutcome.refreshed g' =
    (m : Consumer) × (get id g.consumers ≡ some m)
    × (m.capabilities ≡ caps)
    × (m.last_heartbeat_at_ms < now)
    × Touched id m now g g'
Joined id caps now max g JoinOutcome.unchanged g' =
    (m : Consumer) × (get id g.consumers ≡ some m)
    × (m.capabilities ≡ caps)
    × (now ≤ m.last_heartbeat_at_ms)
    × (g' ≡ g)

-- A join admits a member only if it is new and there is room, advancing the generation by one; it
-- refreshes a known member of the same capabilities only with a later time, at the same
-- generation; and else it changes nothing. The other members stay as they were.
pub join-Joined :
    (id : ConsumerId) (caps : Capabilities) (now max : ℕ) (g : ConsumerGroup) (o : JoinOutcome)
    (g' : ConsumerGroup)
    → join id caps now max g ≡ ok (o, g')
    → Joined id caps now max g o g'
unfolding join
join-Joined id caps now max g JoinOutcome.added g' h = elim (Option-cases (get id g.consumers)) [
  | inl new ↦ ground (arith, admit-Admitted id caps now max g g')
  | inr (m, known) ↦ ground arith
]
join-Joined id caps now max g JoinOutcome.refreshed g' h =
    elim (Option-cases (get id g.consumers)) [
      | inl new ↦ ground arith
      | inr (m, known) ↦ (
        m,
        known,
        ground (arith, caps_eq_iff m.capabilities caps),
        ground arith,
        touch-Touched id m now g g' (ground arith),
      )
    ]
join-Joined id caps now max g JoinOutcome.unchanged g' h =
    elim (Option-cases (get id g.consumers)) [
      | inl new ↦ ground arith
      | inr (m, known) ↦
          (m, known, ground (arith, caps_eq_iff m.capabilities caps), ground arith, ground arith)
    ]

-- What a heartbeat that succeeds has found and done, by its outcome.
abbrev pub Beaten : ConsumerId → ℕ → ℕ → ConsumerGroup → HeartbeatOutcome → ConsumerGroup → Type 0
Beaten id expected now g HeartbeatOutcome.updated g' =
    (m : Consumer) × (get id g.consumers ≡ some m)
    × (g.generation ≡ expected)
    × (m.last_heartbeat_at_ms < now)
    × Touched id m now g g'
Beaten id expected now g HeartbeatOutcome.unchanged g' =
    (m : Consumer) × (get id g.consumers ≡ some m)
    × (g.generation ≡ expected)
    × (now ≤ m.last_heartbeat_at_ms)
    × (g' ≡ g)

-- A heartbeat is accepted only from a member and at the current generation; a later time is
-- recorded for that member alone and at the same generation, any other changes nothing.
pub heartbeat-Beaten :
    (id : ConsumerId) (expected now : ℕ) (g : ConsumerGroup) (o : HeartbeatOutcome)
    (g' : ConsumerGroup)
    → heartbeat id expected now g ≡ ok (o, g')
    → Beaten id expected now g o g'
unfolding heartbeat
heartbeat-Beaten id expected now g HeartbeatOutcome.updated g' h =
    elim (Option-cases (get id g.consumers)) [
      | inl new ↦ ground arith
      | inr (m, known) ↦
          (m, known, ground arith, ground arith, touch-Touched id m now g g' (ground arith))
    ]
heartbeat-Beaten id expected now g HeartbeatOutcome.unchanged g' h =
    elim (Option-cases (get id g.consumers)) [
      | inl new ↦ ground arith
      | inr (m, known) ↦ (m, known, ground arith, ground arith, ground arith)
    ]

pub record Left (id : ConsumerId) (expected : ℕ) (m : Consumer) (g g' : ConsumerGroup)
    : Type 0 where
  pub same : SameGroup g g'
  pub was_member : get id g.consumers ≡ some m
  pub current : g.generation ≡ expected
  pub generation : g'.generation ≡ g.generation + 1
  pub revision : g'.revision ≡ g.revision + 1
  pub members :
      (j : ConsumerId) → get j g'.consumers ≡ (if id == j then none else get j g.consumers)

-- A member leaves only at the current generation; it is returned and is gone, the others stay, and
-- the generation advances by one.
pub leave-Left :
    (id : ConsumerId) (expected : ℕ) (g : ConsumerGroup) (m : Consumer) (g' : ConsumerGroup)
    → leave id expected g ≡ ok (m, g')
    → Left id expected m g g'
unfolding leave next
leave-Left id expected g m g' h = record {
  same = ground arith;
  was_member = ground arith;
  current = ground arith;
  generation = ground arith;
  revision = ground arith;
  members = λ j. ground (arith, get-remove id j g.consumers);
}
