-- ===== src/Group/Reaping.antt =====
-- Which members `reap_stale_members` of crates/agent-broker-domain/src/group.rs takes out.
use herterarchy_broker.Common.{
  ℕ, zero, suc, ◌+◌, ◌≤◌, ◌≡◌, refl, ap, ◌⊎◌, ◌↔◌, ◌&&◌, is_some, inl, inr, true, none, some, List,
  [], ◌∷◌, map, filter, take, length, length-take, leb, ok, arith, if◌then◌else◌, Option-cases,
  Bool-cases,
}
use herterarchy_broker.Common.Keys.{◌==◌, nat_key, pair_key, beq_refl}
use herterarchy_broker.Common.Maps.{
  Map, get, remove, values, get-remove, get-Above, contains_key, IsOrdered, remove-IsOrdered,
  length-remove,
}
use herterarchy_broker.Common.Ends.{Above-tail}
use herterarchy_broker.Common.Sets.{contains, contains-extend}
use herterarchy_broker.Fencing.{next}
use herterarchy_broker.Identifiers.{ConsumerId}
use herterarchy_broker.Identifiers.Order.{id_key, id_eq_iff}
use herterarchy_broker.Group.{
  ConsumerGroup, Consumer, remove_members, reap_selected, reap_stale_members, stale_ids,
  stale_order,
}
use herterarchy_broker.Group.Membership.{IsRegular, remove-IsKeyed, get-IsKeyed}
use herterarchy_broker.Group.Restore.{IsKeyed}

-- The loop takes out just the members whose identifiers it is given.
get-remove_members :
    (ids : List ConsumerId) (m : Map ConsumerId Consumer) (j : ConsumerId)
    → get j (remove_members ids m).1 ≡ (if contains j ids then none else get j m)
unfolding remove_members contains
get-remove_members [] m j = refl
get-remove_members (id ∷ ids) m j =
    let ih = get-remove_members ids (remove id m) j in
    elim (Option-cases (get id m)) [
      | inl e ↦ ground (arith, ih, get-remove id j m)
      | inr (c, e) ↦ ground (arith, ih, get-remove id j m)
    ]

length-remove_members :
    (ids : List ConsumerId) (m : Map ConsumerId Consumer)
    → length (remove_members ids m).0 ≤ length ids
unfolding remove_members
length-remove_members [] m = ground arith
length-remove_members (id ∷ ids) m =
    let ih = length-remove_members ids (remove id m) in
    elim (Option-cases (get id m)) [ inl e ↦ ground (arith, ih) | inr (c, e) ↦ ground (arith, ih) ]

-- The list that the loop returns names just the members that it has taken out.
contains-remove_members :
    (ids : List ConsumerId) (m : Map ConsumerId Consumer) (j : ConsumerId)
    → IsKeyed m
    → contains j (map (λ c. c.id) (remove_members ids m).0) ≡ (contains j ids && is_some (get j m))
unfolding remove_members contains
contains-remove_members [] m j h = refl
contains-remove_members (id ∷ ids) m j h =
    let ih = contains-remove_members ids (remove id m) j (remove-IsKeyed id m h) in
    elim (Option-cases (get id m)) [
      | inl e ↦ ground (arith, ih, get-remove id j m, id_eq_iff id j)
      | inr (c, e) ↦ ground (arith, ih, get-remove id j m, id_eq_iff id j, get-IsKeyed id c m h e)
    ]

-- Every member is left in the map or returned.
length-remove_members_total :
    (ids : List ConsumerId) (m : Map ConsumerId Consumer)
    → IsOrdered m
    → length m ≡ length (remove_members ids m).1 + length (remove_members ids m).0
unfolding remove_members contains_key
length-remove_members_total [] m h = ground arith
length-remove_members_total (id ∷ ids) m h =
    let ih = length-remove_members_total ids (remove id m) (remove-IsOrdered id m h) in
    elim (Option-cases (get id m)) [
      | inl e ↦ ground (arith, ih, length-remove id m h)
      | inr (c, e) ↦ ground (arith, ih, length-remove id m h)
    ]

length-map {ℓ κ} :
    {A : Type ℓ} {B : Type κ} (f : A → B) (xs : List A) → length (map f xs) ≡ length xs
length-map f [] = refl
length-map f (x ∷ xs) = ap suc (length-map f xs)

-- The entry of a member who is stale.
abbrev HasStale : ℕ → ConsumerId → Map ConsumerId Consumer → Type 0
HasStale cutoff j m = (c : Consumer) × (get j m ≡ some c) × (c.last_heartbeat_at_ms ≤ cutoff)

-- The stale members of a map, as the source collects them.
abbrev stale_entries : ℕ → Map ConsumerId Consumer → List (ℕ × ConsumerId)
stale_entries cutoff m =
    map (λ c. (c.last_heartbeat_at_ms, c.id))
      (filter (λ c. leb c.last_heartbeat_at_ms cutoff) (values m))

stale_entries-HasStale :
    (cutoff : ℕ) (m : Map ConsumerId Consumer) (at : ℕ) (j : ConsumerId)
    → IsRegular m
    → contains (at, j) (stale_entries cutoff m) ≡ true
    → HasStale cutoff j m
unfolding contains get
stale_entries-HasStale cutoff [] at j h e = absurd (ground arith)
stale_entries-HasStale cutoff ((k, c) ∷ m) at j h e =
    let tail : IsRegular m = record { ordered = Above-tail k m h.ordered; keyed = h.keyed.1 } in
    elim (Bool-cases (contains (at, j) (stale_entries cutoff m))) [
      | inl deeper ↦
          let (d, got, stale) = stale_entries-HasStale cutoff m at j tail deeper in
          (d, ground (arith, id_eq_iff k j, get-Above k m h.ordered), stale)
      | inr shallow ↦ (c, ground (arith, h.keyed.0, id_eq_iff k j, id_eq_iff c.id j), ground arith)
    ]

-- An identifier among the first ones of a list of entries comes from one of its entries.
contains-take :
    (n : ℕ) (es : List (ℕ × ConsumerId)) (j : ConsumerId)
    → contains j (map (λ e. e.1) (take n es)) ≡ true
    → (at : ℕ) × (contains (at, j) es ≡ true)
unfolding contains
contains-take zero es j h = absurd (ground arith)
contains-take (suc n) [] j h = absurd (ground arith)
contains-take (suc n) ((at, i) ∷ es) j h = elim (Bool-cases (i == j)) [
  | inl same ↦ (at, ground (arith, beq_refl at, id_eq_iff i j))
  | inr other ↦ let (at', rest) = contains-take n es j (ground arith) in (at', ground (arith, rest))
]

stale_ids-HasStale :
    (cutoff max : ℕ) (g : ConsumerGroup) (j : ConsumerId)
    → IsRegular g.consumers
    → contains j (stale_ids cutoff max g) ≡ true
    → HasStale cutoff j g.consumers
unfolding stale_ids stale_order contains
stale_ids-HasStale cutoff max g j h e =
    let (at, found) = contains-take max (stale_order cutoff g) j e in
    stale_entries-HasStale cutoff g.consumers at j h
      (ground (arith, contains-extend (stale_entries cutoff g.consumers) [] (at, j)))

length-stale_ids : (cutoff max : ℕ) (g : ConsumerGroup) → length (stale_ids cutoff max g) ≤ max
unfolding stale_ids
length-stale_ids cutoff max g =
    let es = stale_order cutoff g in
    ground (arith, length-map (λ (e : ℕ × ConsumerId). e.1) (take max es), length-take max es)

-- What a reap has done: the members that are gone are just those that it returns.
pub record Reaped (cutoff max : ℕ) (g : ConsumerGroup) (removed : List Consumer)
    (g' : ConsumerGroup) : Type 0 where
  pub at_most : length removed ≤ max
  pub counted : length g.consumers ≡ length g'.consumers + length removed
  pub reported :
      (j : ConsumerId)
      → (contains j (map (λ c. c.id) removed) ≡ true)
        ↔ ((is_some (get j g.consumers) ≡ true) × (get j g'.consumers ≡ none))
  pub same_id : g'.id ≡ g.id
  pub members :
      (j : ConsumerId)
      → (get j g'.consumers ≡ get j g.consumers)
        ⊎ ((get j g'.consumers ≡ none) × HasStale cutoff j g.consumers)
  pub generation :
      ((g' ≡ g) × (removed ≡ []))
      ⊎ ((g'.generation ≡ g.generation + 1) × (g'.revision ≡ g.revision + 1))

none_reported :
    (m : Map ConsumerId Consumer) (j : ConsumerId)
    → (contains j [] ≡ true) ↔ ((is_some (get j m) ≡ true) × (get j m ≡ none))
unfolding contains
none_reported m j = elim (Option-cases (get j m)) [
  | inl e ↦ ground arith
  | inr (c, e) ↦ ground arith
]

reap_selected-Reaped :
    (cutoff max : ℕ) (ids : List ConsumerId) (g : ConsumerGroup) (removed : List Consumer)
    (g' : ConsumerGroup)
    → length ids ≤ max
    → IsRegular g.consumers
    → ((j : ConsumerId) → contains j ids ≡ true → HasStale cutoff j g.consumers)
    → reap_selected ids g ≡ ok (removed, g')
    → Reaped cutoff max g removed g'
unfolding reap_selected next
reap_selected-Reaped cutoff max [] g removed g' bound regular stale h = record {
  at_most = ground arith;
  counted = ground arith;
  reported = λ j.
      let gone : removed ≡ [] = ground arith in
      let same : g' ≡ g = ground arith in rw (gone, same) (none_reported g.consumers j);
  same_id = ground arith;
  members = λ j. inl (ground arith);
  generation = ground arith;
}
reap_selected-Reaped cutoff max (id ∷ ids) g removed g' bound regular stale h = record {
  at_most = ground (arith, length-remove_members (id ∷ ids) g.consumers);
  counted = ground (arith, length-remove_members_total (id ∷ ids) g.consumers regular.ordered);
  reported = λ j. ground (
    arith,
    get-remove_members (id ∷ ids) g.consumers j,
    contains-remove_members (id ∷ ids) g.consumers j regular.keyed,
  );
  same_id = ground arith;
  members = λ j.
      let put = get-remove_members (id ∷ ids) g.consumers j in
      elim (Bool-cases (contains j (id ∷ ids))) [
        | inl taken ↦ inr (ground (arith, put), stale j taken)
        | inr left ↦ inl (ground (arith, put))
      ];
  generation = inr (ground arith);
}

-- A reap that succeeds on a regular group has removed at most `max` members: as many as it returns, and
-- just those whose identifiers it returns. Every member that is gone had been heard of last at the
-- cutoff or before; every other member is as it was; and the generation and the revision advance by
-- one, unless no member went and the group is as it was.
pub reap_stale_members-Reaped :
    (cutoff max : ℕ) (g : ConsumerGroup) (removed : List Consumer) (g' : ConsumerGroup)
    → IsRegular g.consumers
    → reap_stale_members cutoff max g ≡ ok (removed, g')
    → Reaped cutoff max g removed g'
unfolding reap_stale_members
reap_stale_members-Reaped cutoff max g removed g' h e =
    reap_selected-Reaped cutoff max (stale_ids cutoff max g) g removed g'
      (length-stale_ids cutoff max g) h (λ j. stale_ids-HasStale cutoff max g j h) (ground arith)
