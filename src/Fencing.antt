-- ===== src/Fencing.antt =====
-- crates/agent-broker-domain/src/fencing.rs: the counters that fence stale writers. Each is a
-- `u64`, so `next` fails at the greatest one. The macro defines three counters of one shape.
use Prim.Native.String.{String}
use herterarchy_broker.Common.{
  ℕ, ◌+◌, Result, ok, err, nat_eq, if◌then◌else◌, ltb, Option, none, some,
}

abbrev pub u64_max : ℕ
u64_max = 18_446_744_073_709_551_615

pub data FencingValueError : Type 0 where
  zero_term : FencingValueError
  overflow : String → FencingValueError

-- `u64::checked_add`
unfoldable pub checked_add : ℕ → ℕ → Option ℕ
checked_add a b = if ltb u64_max (a + b) then none else some (a + b)

abbrev pub Term : Type 0
Term = ℕ

abbrev pub Generation : Type 0
Generation = ℕ

abbrev pub LeaseEpoch : Type 0
LeaseEpoch = ℕ

abbrev pub Revision : Type 0
Revision = ℕ

-- `Term::INITIAL`
abbrev pub initial_term : Term
initial_term = 1

-- `Term::new`
unfoldable pub new_term : ℕ → Result FencingValueError Term
new_term value = if nat_eq value 0 then err zero_term else ok value

-- `Term::next`
unfoldable pub next_term : Term → Result FencingValueError Term
unfolding checked_add new_term
next_term t = elim (checked_add t 1) [ none ↦ err (overflow "term") | some value ↦ new_term value ]

-- `next` of the counter whose name the error carries
unfoldable pub next : String → ℕ → Result FencingValueError ℕ
unfolding checked_add
next counter value = elim (checked_add value 1) [ none ↦ err (overflow counter) | some v ↦ ok v ]
