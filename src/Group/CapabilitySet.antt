-- ===== src/Group/CapabilitySet.antt =====
-- `Capability` and `Capabilities` of crates/agent-broker-domain/src/group.rs: validated, sorted,
-- without repetition. A string is the list of its bytes.
use Prim.Native.String.{String}
use herterarchy_broker.Common.{
  ℕ, ◌≡◌, ◌↔◌, Bool, true, false, ◌&&◌, not, List, [], ◌∷◌, Result, ok, err, ◌>>=◌, ltb,
  if◌then◌else◌, length, all, arith,
}
use herterarchy_broker.Common.Keys.{Key}
use herterarchy_broker.Common.Sets.{contains, insert}
use herterarchy_broker.Identifiers.{is_ascii_alphanumeric, is_body_byte}
use herterarchy_broker.Identifiers.Order.{
  bytes_eq, bytes_lt, bytes_eq_iff, bytes_lt_irrefl, bytes_lt_trans, bytes_lt_total,
}

abbrev pub max_capabilities : ℕ
max_capabilities = 64

abbrev pub max_capability_bytes : ℕ
max_capability_bytes = 64

pub record Capability : Type 0 where
  pub value : List ℕ

pub data CapabilitiesError : Type 0 where
  too_many : ℕ → CapabilitiesError
  invalid_capability : String → CapabilitiesError

unfoldable pub cap_eq : Capability → Capability → Bool
cap_eq a b = bytes_eq a.value b.value

unfoldable pub cap_lt : Capability → Capability → Bool
cap_lt a b = bytes_lt a.value b.value

pub cap_eq_iff : (a b : Capability) → (cap_eq a b ≡ true) ↔ (a ≡ b)
unfolding cap_eq
cap_eq_iff a b = ground (arith, bytes_eq_iff a.value b.value)

pub cap_lt_irrefl : (a : Capability) → cap_lt a a ≡ false
unfolding cap_lt
cap_lt_irrefl a = bytes_lt_irrefl a.value

pub cap_lt_trans : (a b c : Capability) → cap_lt a b ≡ true → cap_lt b c ≡ true → cap_lt a c ≡ true
unfolding cap_lt
cap_lt_trans a b c h k = bytes_lt_trans a.value b.value c.value h k

pub cap_lt_total : (a b : Capability) → cap_eq a b ≡ false → cap_lt a b ≡ false → cap_lt b a ≡ true
unfolding cap_eq cap_lt
cap_lt_total a b h k = bytes_lt_total a.value b.value h k

instance abbrev pub cap_key : Key Capability
cap_key = record {
  beq = cap_eq;
  lt = cap_lt;
  beq_iff = cap_eq_iff;
  lt_irrefl = cap_lt_irrefl;
  lt_trans = cap_lt_trans;
  lt_total = cap_lt_total;
}

pub record Capabilities : Type 0 where
  pub items : List Capability

-- `Capability::new`
unfoldable pub new_capability : List ℕ → Result CapabilitiesError Capability
new_capability [] = err (invalid_capability "capability must not be empty")
new_capability (first ∷ bytes) =
    if ltb max_capability_bytes (length (first ∷ bytes))
    then err (invalid_capability "capability must be at most 64 ASCII bytes")
    else if not (is_ascii_alphanumeric first)
    then err (invalid_capability "capability must start with an ASCII alphanumeric character")
    else if not (all is_body_byte bytes)
    then err (invalid_capability "capability contains unsupported characters")
    else ok (record { value = first ∷ bytes })

-- the loop of `Capabilities::new`
unfoldable pub normalize :
    List (List ℕ) → List Capability → Result CapabilitiesError (List Capability)
normalize [] normalized = ok normalized
normalize (value ∷ values) normalized = elim (new_capability value) [
  | ok c ↦ normalize values (insert c normalized)
  | err e ↦ err e
]

-- `Capabilities::new`
unfoldable pub new_capabilities : List (List ℕ) → Result CapabilitiesError Capabilities
unfolding normalize
new_capabilities values =
    if ltb max_capabilities (length values)
    then err (too_many max_capabilities)
    else normalize values [] >>= λ items. ok (record { items = items })

-- `Capabilities::contains_all`. `binary_search` of a sorted slice finds a value exactly if it is
-- there.
unfoldable pub contains_all : Capabilities → Capabilities → Bool
contains_all advertised required = all (λ c. contains c advertised.items) required.items

-- `PartialEq` of `Capabilities`
unfoldable pub items_eq : List Capability → List Capability → Bool
items_eq [] [] = true
items_eq [] (b ∷ bs) = false
items_eq (a ∷ as') [] = false
items_eq (a ∷ as') (b ∷ bs) = cap_eq a b && items_eq as' bs

unfoldable pub caps_eq : Capabilities → Capabilities → Bool
unfolding items_eq
caps_eq a b = items_eq a.items b.items

items_eq_iff : (a b : List Capability) → (items_eq a b ≡ true) ↔ (a ≡ b)
unfolding items_eq
items_eq_iff [] [] = ground arith
items_eq_iff [] (b ∷ bs) = ground arith
items_eq_iff (a ∷ as') [] = ground arith
items_eq_iff (a ∷ as') (b ∷ bs) = ground (arith, cap_eq_iff a b, items_eq_iff as' bs)

pub caps_eq_iff : (a b : Capabilities) → (caps_eq a b ≡ true) ↔ (a ≡ b)
unfolding caps_eq
caps_eq_iff a b = ground (arith, items_eq_iff a.items b.items)
