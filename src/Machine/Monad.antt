-- ===== src/Machine/Monad.antt =====
-- A method of the machine that takes `&mut self`: it returns a result and the machine that it
-- leaves behind, also when it fails.
use herterarchy_broker.Common.{Result, ok, err, Bool, true, false, Option}
use herterarchy_broker.Common
use herterarchy_broker.Machine.State.{BrokerStateMachine, StateMachineError}

abbrev pub Action {ℓ} : Type ℓ → Type ℓ
Action A = BrokerStateMachine → Result StateMachineError A × BrokerStateMachine

abbrev pub pure {ℓ} : {A : Type ℓ} → A → Action A
pure a m = (ok a, m)

abbrev pub self : Action BrokerStateMachine
self m = (ok m, m)

abbrev pub modify : (BrokerStateMachine → BrokerStateMachine) → Action (Unit {0})
modify f m = (ok tt, f m)

abbrev pub lift {ℓ} : {A : Type ℓ} → Result StateMachineError A → Action A
lift r m = (r, m)

abbrev pub fail {ℓ} : {A : Type ℓ} → StateMachineError → Action A
fail e m = (err e, m)

infixl 5 ◌>>=◌ ◌>>◌
-- Shut, so that a proof can take a method apart step by step.
unfoldable pub ◌>>=◌ {ℓ κ} : {A : Type ℓ} {B : Type κ} → Action A → (A → Action B) → Action B
◌>>=◌ action f m = let (r, m') = action m in elim r [ ok a ↦ f a m' | err e ↦ (err e, m') ]

abbrev pub ◌>>◌ {κ} : {B : Type κ} → Action (Unit {0}) → Action B → Action B
action >> next = action >>= λ _. next

abbrev pub reject_if : Bool → StateMachineError → Action (Unit {0})
reject_if c e m = (Common.reject_if c e, m)
