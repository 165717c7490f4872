-- ===== src/Identifiers/Validation.antt =====
-- Which strings are identifiers.
use Prim.Native.String.{String}
use herterarchy_broker.Common.{ℕ, ◌≡◌, ◌≤◌, ◌⊎◌, ◌↔◌, true, List, [], ◌∷◌, ok, length, all, arith}
use herterarchy_broker.Identifiers.{Identifier, is_ascii_alphanumeric, is_body_byte, new}

-- A digit, an upper-case or a lower-case letter, by the ASCII code.
abbrev pub IsAlphanumeric : ℕ → Type 0
IsAlphanumeric c = ((48 ≤ c) × (c ≤ 57)) ⊎ (((65 ≤ c) × (c ≤ 90)) ⊎ ((97 ≤ c) × (c ≤ 122)))

-- Alphanumeric, or one of `_` (95), `.` (46), `:` (58) and `-` (45).
abbrev pub IsAllowed : ℕ → Type 0
IsAllowed c = IsAlphanumeric c ⊎ ((c ≡ 95) ⊎ ((c ≡ 46) ⊎ ((c ≡ 58) ⊎ (c ≡ 45))))

abbrev pub AreAllowed : List ℕ → Type 0
AreAllowed [] = Unit {0}
AreAllowed (c ∷ cs) = IsAllowed c × AreAllowed cs

-- What the documentation asks of an identifier: one to 128 bytes, the first of them alphanumeric,
-- and each of the others alphanumeric or one of `_ . : -`.
abbrev pub IsWellFormed : List ℕ → Type 0
IsWellFormed [] = ⊥
IsWellFormed (first ∷ rest) = IsAlphanumeric first × AreAllowed rest × (length (first ∷ rest) ≤ 128)

is_ascii_alphanumeric_iff : (c : ℕ) → (is_ascii_alphanumeric c ≡ true) ↔ IsAlphanumeric c
unfolding is_ascii_alphanumeric
is_ascii_alphanumeric_iff c = ground arith

is_body_byte_iff : (c : ℕ) → (is_body_byte c ≡ true) ↔ IsAllowed c
unfolding is_body_byte
is_body_byte_iff c = ground (arith, is_ascii_alphanumeric_iff c)

all-is_body_byte_iff : (cs : List ℕ) → (all is_body_byte cs ≡ true) ↔ AreAllowed cs
all-is_body_byte_iff [] = ground arith
all-is_body_byte_iff (c ∷ cs) = ground (arith, is_body_byte_iff c, all-is_body_byte_iff cs)

-- `new` accepts exactly the well-formed strings, and keeps the text as it was given.
pub new-ok_iff :
    (kind : String) (value : List ℕ) (id : Identifier)
    → (new kind value ≡ ok id) ↔ (IsWellFormed value × (id ≡ record { bytes = value }))
unfolding new
new-ok_iff kind [] id = ground arith
new-ok_iff kind (first ∷ rest) id =
    ground (arith, is_ascii_alphanumeric_iff first, all-is_body_byte_iff rest)
