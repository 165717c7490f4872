-- ===== src/Common/Keys.antt =====
-- The interface of keys that the ordered collections stand on: `Eq` and `Ord` with their laws.
use herterarchy_broker.Common.Tests.{ltb, nat_eq, nat_eq_iff, Bool-cases}
use Prim.Native.Nat.{ℕ}
use mathlib.Core.Path.{◌≡◌, refl}
use mathlib.Core.Logic.{◌↔◌, inl, inr}
use mathlib.Core.Bool.{Bool, true, false, ◌&&◌, ◌||◌}
use native.Mathlib.Omega.{arith}

pub record Key {ℓ} (K : Type ℓ) : Type ℓ where
  pub beq : K → K → Bool
  pub lt : K → K → Bool
  pub beq_iff : (a b : K) → (beq a b ≡ true) ↔ (a ≡ b)
  pub lt_irrefl : (a : K) → lt a a ≡ false
  pub lt_trans : (a b c : K) → lt a b ≡ true → lt b c ≡ true → lt a c ≡ true
  pub lt_total : (a b : K) → beq a b ≡ false → lt a b ≡ false → lt b a ≡ true

infix 50 ◌==◌
abbrev pub ◌==◌ {ℓ} : {K : Type ℓ} ⦃key : Key K⦄ → K → K → Bool
◌==◌ ⦃key⦄ = key.beq

pub nat_lt_irrefl : (a : ℕ) → ltb a a ≡ false
nat_lt_irrefl a = ground arith

pub nat_lt_trans : (a b c : ℕ) → ltb a b ≡ true → ltb b c ≡ true → ltb a c ≡ true
nat_lt_trans a b c h k = ground arith

pub nat_lt_total : (a b : ℕ) → nat_eq a b ≡ false → ltb a b ≡ false → ltb b a ≡ true
nat_lt_total a b h k = ground arith

instance abbrev pub nat_key : Key ℕ
nat_key = record {
  beq = nat_eq;
  lt = ltb;
  beq_iff = nat_eq_iff;
  lt_irrefl = nat_lt_irrefl;
  lt_trans = nat_lt_trans;
  lt_total = nat_lt_total;
}

module _ {ℓ} {K : Type ℓ} ⦃key : Key K⦄ where
  pub beq_refl : (a : K) → key.beq a a ≡ true
  beq_refl a = (key.beq_iff a a).1 refl

  pub lt_asymm : (a b : K) → key.lt a b ≡ true → key.lt b a ≡ false
  lt_asymm a b h = elim (Bool-cases (key.lt b a)) [
    | inl k ↦ ground (arith, key.lt_trans a b a h k, key.lt_irrefl a)
    | inr k ↦ k
  ]

  pub lt→ne : (a b : K) → key.lt a b ≡ true → key.beq a b ≡ false
  lt→ne a b h = ground (arith, key.beq_iff a b, key.lt_irrefl a)

module _ {ℓ κ} {A : Type ℓ} {B : Type κ} ⦃ka : Key A⦄ ⦃kb : Key B⦄ where
  abbrev pub pair_beq : A × B → A × B → Bool
  pair_beq (a, b) (c, d) = ka.beq a c && kb.beq b d

  -- the derived order of a tuple
  abbrev pub pair_lt : A × B → A × B → Bool
  pair_lt (a, b) (c, d) = ka.lt a c || (ka.beq a c && kb.lt b d)

  pub pair_beq_iff : (p q : A × B) → (pair_beq p q ≡ true) ↔ (p ≡ q)
  pair_beq_iff (a, b) (c, d) = ground (arith, ka.beq_iff a c, kb.beq_iff b d)

  pub pair_lt_irrefl : (p : A × B) → pair_lt p p ≡ false
  pair_lt_irrefl (a, b) = ground (arith, ka.lt_irrefl a, kb.lt_irrefl b)

  pub pair_lt_trans : (p q r : A × B) → pair_lt p q ≡ true → pair_lt q r ≡ true → pair_lt p r ≡ true
  pair_lt_trans (a, b) (c, d) (e, f) h k =
      ground (
        arith,
        ka.lt_trans a c e,
        kb.lt_trans b d f,
        ka.beq_iff a c,
        ka.beq_iff c e,
        ka.beq_iff a e,
      )

  pub pair_lt_total :
      (p q : A × B) → pair_beq p q ≡ false → pair_lt p q ≡ false → pair_lt q p ≡ true
  pair_lt_total (a, b) (c, d) h k =
      ground (arith, ka.lt_total a c, kb.lt_total b d, ka.beq_iff a c, ka.beq_iff c a)

  instance abbrev pub pair_key : Key (A × B)
  pair_key = record {
    beq = pair_beq;
    lt = pair_lt;
    beq_iff = pair_beq_iff;
    lt_irrefl = pair_lt_irrefl;
    lt_trans = pair_lt_trans;
    lt_total = pair_lt_total;
  }
