-- ===== src/Machine/Clock.antt =====
-- The term and the global revision of crates/agent-broker-domain/src/state_machine.rs, as commands
-- move them, and the rules that take a method apart for it.
pub mod Loops
pub mod Commands
pub mod Leasing
pub mod Run
use herterarchy_broker.Common.{
  ℕ, ◌+◌, ◌≤◌, ◌<◌, ◌≡◌, refl, ◌⊎◌, inl, inr, Result, ok, err, arith, Result-cases,
}
use herterarchy_broker.Fencing.{u64_max, next}
use herterarchy_broker.Machine.State.{BrokerStateMachine, StateMachineError}
use herterarchy_broker.Machine.Monad.{Action, ◌>>=◌}
use herterarchy_broker.Machine.Leases.{next_global_revision}

-- The clock shows this revision and term.
pub record Shows (revision term : ℕ) (m : BrokerStateMachine) : Type 0 where
  pub revision_same : m.revision ≡ revision
  pub term_same : m.term ≡ term

-- The clock has moved by one revision within 64 bits, and not back to an older term.
pub record Ticked (revision term : ℕ) (m : BrokerStateMachine) : Type 0 where
  pub revision_next : m.revision ≡ revision + 1
  pub in_range : revision < u64_max
  pub term_kept : term ≤ m.term

-- What holds after a success, and what holds after a failure.
pub record Ends {ℓ κ μ} {A : Type ℓ} (Q : A → BrokerStateMachine → Type κ)
    (E : BrokerStateMachine → Type μ) (out : Result StateMachineError A × BrokerStateMachine)
    : Type (ℓ ⊔ κ ⊔ μ) where
  pub success : (x : A) → out.0 ≡ ok x → Q x out.1
  pub failure : (e : StateMachineError) → out.0 ≡ err e → E out.1

-- What a command may do to the clock: a failure leaves it, a success moves it at most once.
abbrev pub Keeps {ℓ} :
    (revision term : ℕ) {A : Type ℓ} (out : Result StateMachineError A × BrokerStateMachine)
    → Type ℓ
Keeps revision term =
    Ends (λ _ n. Shows revision term n ⊎ Ticked revision term n) (Shows revision term)

pub bind-Ends {ℓ ℓ' κ κ' μ} :
    {A : Type ℓ} {B : Type ℓ'} {P : A → BrokerStateMachine → Type κ}
    {Q : B → BrokerStateMachine → Type κ'} {E : BrokerStateMachine → Type μ} (a : Action A)
    (f : A → Action B) (m : BrokerStateMachine)
    → Ends P E (a m)
    → ((x : A) (n : BrokerStateMachine) → P x n → Ends Q E (f x n))
    → Ends Q E ((a >>= f) m)
unfolding ◌>>=◌
bind-Ends a f m p q = elim (Result-cases (a m).0) [
  | inl (x, e) ↦ rw (e, ◌>>=◌) (q x (a m).1 (p.success x e))
  | inr (x, e) ↦ rw (e, ◌>>=◌) (record { success = λ y h. cc; failure = λ y h. p.failure x e })
]

-- A step that leaves the clock alone.
pub quiet-Ends {ℓ} :
    {A : Type ℓ} {r t : ℕ} (out : Result StateMachineError A × BrokerStateMachine)
    → Shows r t out.1
    → Ends (λ _. Shows r t) (Shows r t) out
quiet-Ends out s = record { success = λ _ _. s; failure = λ _ _. s }

pub next_revision-Ends :
    (r t : ℕ) (m : BrokerStateMachine)
    → Shows r t m
    → Ends (λ x n. Shows r t n × (x ≡ r + 1) × (r < u64_max)) (Shows r t) (next_global_revision m)
unfolding next_global_revision next
next_revision-Ends r t m s = record { success = λ x h. ground arith; failure = λ e h. ground arith }
