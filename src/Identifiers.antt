-- ===== src/Identifiers.antt =====
-- crates/agent-broker-domain/src/identifiers.rs: the validated identifiers. A Rust string is the
-- list of its UTF-8 bytes, so `len` is the length of the list. The macro defines five types of
-- one shape; they are synonyms of `Identifier` here.
pub mod Order
pub mod Validation
use Prim.Native.String.{String}
use herterarchy_broker.Common.{
  ℕ, ◌≡◌, Bool, true, false, ◌&&◌, ◌||◌, not, List, [], ◌∷◌, Result, ok, err, leb, ltb, nat_eq,
  if◌then◌else◌, length, all,
}

abbrev pub max_identifier_bytes : ℕ
max_identifier_bytes = 128

pub record IdentifierError : Type 0 where
  pub kind : String
  pub reason : String

pub record Identifier : Type 0 where
  pub bytes : List ℕ

abbrev pub NamespaceId : Type 0
NamespaceId = Identifier

abbrev pub TaskId : Type 0
TaskId = Identifier

abbrev pub ConsumerGroupId : Type 0
ConsumerGroupId = Identifier

abbrev pub ConsumerId : Type 0
ConsumerId = Identifier

abbrev pub LeaseId : Type 0
LeaseId = Identifier

-- `u8::is_ascii_alphanumeric`
unfoldable pub is_ascii_alphanumeric : ℕ → Bool
is_ascii_alphanumeric c =
    (leb b'0' c && leb c b'9') || (leb b'A' c && leb c b'Z') || (leb b'a' c && leb c b'z')

-- the test of the bytes behind the first
unfoldable pub is_body_byte : ℕ → Bool
is_body_byte c =
    is_ascii_alphanumeric c
    || (nat_eq c b'_' || (nat_eq c b'.' || (nat_eq c b':' || nat_eq c b'-')))

unfoldable pub validate_identifier : List ℕ → String → Result IdentifierError (Unit {0})
validate_identifier [] kind = err (record { kind = kind; reason = "must not be empty" })
validate_identifier (first ∷ bytes) kind =
    if ltb max_identifier_bytes (length (first ∷ bytes))
    then err (record { kind = kind; reason = "must be at most 128 ASCII bytes" })
    else if not (is_ascii_alphanumeric first)
    then err (record { kind = kind; reason = "must start with an ASCII alphanumeric character" })
    else if not (all is_body_byte bytes)
    then err (record { kind = kind; reason = "contains unsupported characters" })
    else ok tt

-- `$name::new`, which `FromStr` and `TryFrom<String>` call
unfoldable pub new : String → List ℕ → Result IdentifierError Identifier
unfolding validate_identifier
new kind value = elim (validate_identifier value kind) [
  | ok _ ↦ ok (record { bytes = value })
  | err e ↦ err e
]
