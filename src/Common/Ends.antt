-- ===== src/Common/Ends.antt =====
-- `BTreeMap`: what happens at the end of a map, where a restored entry goes.
use herterarchy_broker.Common.Keys.{Key, lt_asymm, lt→ne}
use herterarchy_broker.Common.Maps.{Map, get, contains_key, insert, Above, IsOrdered}
use mathlib.Core.Path.{◌≡◌, refl, ap}
use mathlib.Core.Bool.{true, false}
use mathlib.Core.List.{List, [], ◌∷◌, ◌++◌}
use native.Mathlib.Omega.{arith}

pub append_assoc {ℓ} : {A : Type ℓ} (xs ys zs : List A) → (xs ++ ys) ++ zs ≡ xs ++ (ys ++ zs)
append_assoc [] ys zs = refl
append_assoc (x ∷ xs) ys zs = ap (λ t. x ∷ t) (append_assoc xs ys zs)

pub append_nil {ℓ} : {A : Type ℓ} (xs : List A) → xs ++ [] ≡ xs
append_nil [] = refl
append_nil (x ∷ xs) = ap (λ t. x ∷ t) (append_nil xs)

module _ {ℓ κ} {K : Type ℓ} ⦃key : Key K⦄ {V : Type κ} where
  Above-last : (j k : K) (v : V) (a b : Map K V) → Above j (a ++ ((k, v) ∷ b)) → key.lt j k ≡ true
  Above-last j k v [] b h = h.0
  Above-last j k v ((i, w) ∷ a) b h = key.lt_trans j i k h.0 (Above-last i k v a b h.1)

  pub Above-tail : (j : K) (a : Map K V) → Above j a → IsOrdered a
  Above-tail j [] h = tt
  Above-tail j ((i, w) ∷ a) h = h.1

  -- An entry that comes last is put at the end, and was not there.
  pub insert-end :
      (k : K) (v : V) (a b : Map K V)
      → IsOrdered (a ++ ((k, v) ∷ b))
      → (insert k v a ≡ a ++ ((k, v) ∷ [])) × (contains_key k a ≡ false)
  unfolding insert contains_key get
  insert-end k v [] b h = (refl, refl)
  insert-end k v ((j, w) ∷ a) b h =
      let below = Above-last j k v a b h in
      let rest = insert-end k v a b (Above-tail j (a ++ ((k, v) ∷ b)) h) in
      let asym = lt_asymm j k below in
      (
        ground (arith, lt→ne j k below, key.beq_iff j k),
        ground (arith, lt→ne j k below, key.beq_iff j k),
      )
