-- ===== src/Group/Matching.antt =====
-- The capabilities of crates/agent-broker-domain/src/group.rs as sets.
use herterarchy_broker.Common.{
  ℕ, ◌≤◌, ◌≡◌, refl, sym, ◌∙◌, ap, inl, inr, ◌↔◌, true, ◌||◌, List, [], ◌∷◌, map, length, all, ok,
  arith, Result-cases,
}
use herterarchy_broker.Common.Sets.{contains, insert, contains-insert, insert-IsOrdered, IsOrdered}
use herterarchy_broker.Common.Extensional.{ordered_ext}
use herterarchy_broker.Group.CapabilitySet.{
  Capability, Capabilities, max_capabilities, cap_key, cap_eq_iff, new_capability, normalize,
  new_capabilities, contains_all,
}

-- The capability that a value stands for.
abbrev pub named : List ℕ → Capability
named v = record { value = v }

new_capability-named : (v : List ℕ) (c : Capability) → new_capability v ≡ ok c → c ≡ named v
unfolding new_capability
new_capability-named [] c h = absurd (ground arith)
new_capability-named (b ∷ bs) c h = ground arith

normalize-set :
    (values : List (List ℕ)) (start items : List Capability)
    → IsOrdered start
    → normalize values start ≡ ok items
    → IsOrdered items
      × ((c : Capability) → contains c items ≡ (contains c (map named values) || contains c start))
unfolding normalize contains
normalize-set [] start items o h = (ground arith, λ c. ground arith)
normalize-set (v ∷ values) start items o h = elim (Result-cases (new_capability v)) [
  | inr (x, bad) ↦ absurd (ground arith)
  | inl (k, good) ↦
      let e = new_capability-named v k good in
      let (o', same) =
        normalize-set values (insert k start) items (insert-IsOrdered k start o) (ground arith) in
      (o', λ c. ground (arith, same c, contains-insert k c start))
]

-- An accepted list of capability values has at most the permitted length. It becomes a list in strict
-- order, so without repetition, of just the capabilities that the values name.
pub new_capabilities-set :
    (values : List (List ℕ)) (caps : Capabilities)
    → new_capabilities values ≡ ok caps
    → (length values ≤ max_capabilities)
      × IsOrdered caps.items
      × ((c : Capability) → contains c caps.items ≡ contains c (map named values))
unfolding new_capabilities contains
new_capabilities-set values caps h = elim (Result-cases (normalize values [])) [
  | inr (x, bad) ↦ absurd (ground arith)
  | inl (items, good) ↦
      let (o, same) = normalize-set values [] items tt good in
      let e : caps.items ≡ items = ground arith in
      (ground arith, rw e o, λ c. ground (arith, same c))
]

-- Two accepted lists that name the same values, in whatever order and however often, give equal
-- capabilities.
pub new_capabilities_ext :
    (values others : List (List ℕ)) (a b : Capabilities)
    → new_capabilities values ≡ ok a
    → new_capabilities others ≡ ok b
    → ((c : Capability) → contains c (map named values) ≡ contains c (map named others))
    → a ≡ b
new_capabilities_ext values others a b ha hb same =
    let (_, oa, sa) = new_capabilities-set values a ha in
    let (_, ob, sb) = new_capabilities-set others b hb in
    let e = ordered_ext a.items b.items oa ob (λ c. sa c ∙ same c ∙ sym (sb c)) in
    ap (λ (items : List Capability). record { items = items }) e

all-contains_iff :
    (need have : List Capability)
    → (all (λ c. contains c have) need ≡ true)
      ↔ ((c : Capability) → contains c need ≡ true → contains c have ≡ true)
unfolding contains
all-contains_iff [] have = (λ h c k. absurd (ground arith), λ h. refl)
all-contains_iff (d ∷ need) have =
    let ih = all-contains_iff need have in
    (
      λ h c k. ground (arith, cap_eq_iff d c, ih.0 (ground arith) c),
      λ h. ground (arith, ih.1 (λ c k. h c (ground arith)), h d, cap_eq_iff d d),
    )

-- A member's capabilities match a requirement exactly if every required capability is among them.
pub contains_all_iff :
    (advertised required : Capabilities)
    → (contains_all advertised required ≡ true)
      ↔ ((c : Capability) → contains c required.items ≡ true → contains c advertised.items ≡ true)
unfolding contains_all
contains_all_iff advertised required = all-contains_iff required.items advertised.items
