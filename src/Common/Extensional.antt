-- ===== src/Common/Extensional.antt =====
-- `BTreeSet`: two ordered sets with the same members are equal.
use herterarchy_broker.Common.Tests.{Bool-cases}
use herterarchy_broker.Common.Keys.{Key, ◌==◌, beq_refl, lt_asymm}
use herterarchy_broker.Common.Sets.{contains, Above, IsOrdered}
use mathlib.Core.Path.{◌≡◌, refl}
use mathlib.Core.Logic.{inl, inr}
use mathlib.Core.Bool.{true}
use mathlib.Core.List.{List, [], ◌∷◌}
use native.Mathlib.Omega.{arith}

module _ {ℓ} {K : Type ℓ} ⦃key : Key K⦄ where
  -- What stands in an ordered rest is above the bound.
  contains-Above : (k j : K) (s : List K) → Above k s → contains j s ≡ true → key.lt k j ≡ true
  unfolding contains
  contains-Above k j [] a h = ground arith
  contains-Above k j (i ∷ s) a h = elim (Bool-cases (i == j)) [
    | inl same ↦ ground (arith, key.beq_iff i j)
    | inr other ↦ key.lt_trans k i j a.0 (contains-Above i j s a.1 (ground arith))
  ]

  Above-IsOrdered : (k : K) (s : List K) → Above k s → IsOrdered s
  Above-IsOrdered k [] a = tt
  Above-IsOrdered k (j ∷ s) a = a.1

  heads :
      (a b : K) (s t : List K)
      → Above a s
      → Above b t
      → contains a (b ∷ t) ≡ true
      → contains b (a ∷ s) ≡ true
      → a ≡ b
  unfolding contains
  heads a b s t ha hb ia ib = elim (Bool-cases (a == b)) [
    | inl same ↦ (key.beq_iff a b).0 same
    | inr other ↦
        let below = contains-Above a b s ha (ground arith) in
        let above = contains-Above b a t hb (ground (arith, key.beq_iff a b, key.beq_iff b a)) in
        absurd (ground (arith, lt_asymm a b below))
  ]

  -- The same members, for the rests behind equal heads.
  rests :
      (a c : K) (s t : List K)
      → Above a s
      → Above a t
      → contains c (a ∷ s) ≡ contains c (a ∷ t)
      → contains c s ≡ contains c t
  unfolding contains
  rests a c s t hs ht h = elim (Bool-cases (a == c)) [
    | inl same ↦
        ground (
          arith,
          key.beq_iff a c,
          key.lt_irrefl a,
          contains-Above a c s hs,
          contains-Above a c t ht,
        )
    | inr other ↦ ground arith
  ]

  pub ordered_ext :
      (s t : List K) → IsOrdered s → IsOrdered t → ((c : K) → contains c s ≡ contains c t) → s ≡ t
  unfolding contains
  ordered_ext [] [] hs ht h = refl
  ordered_ext [] (b ∷ t) hs ht h = absurd (ground (arith, h b, beq_refl b))
  ordered_ext (a ∷ s) [] hs ht h = absurd (ground (arith, h a, beq_refl a))
  ordered_ext (a ∷ s) (b ∷ t) hs ht h =
      let e =
        heads a b s t hs ht (ground (arith, h a, beq_refl a)) (ground (arith, h b, beq_refl b)) in
      let ht' : Above a t = rw e ht in
      let same =
        ordered_ext s t (Above-IsOrdered a s hs) (Above-IsOrdered a t ht')
          (λ c. rests a c s t hs ht' (ground (arith, h c))) in
      ground arith
