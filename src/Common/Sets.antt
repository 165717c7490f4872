-- ===== src/Common/Sets.antt =====
-- `BTreeSet`: a list without repetition that is kept in order.
use herterarchy_broker.Common.Tests.{if◌then◌else◌}
use herterarchy_broker.Common.Keys.{Key, ◌==◌}
use mathlib.Core.Path.{◌≡◌, refl}
use mathlib.Core.Bool.{Bool, true, false, ◌&&◌, ◌||◌, not}
use mathlib.Core.List.{List, [], ◌∷◌}
use native.Mathlib.Omega.{arith}

module _ {ℓ} {K : Type ℓ} ⦃key : Key K⦄ where
  unfoldable pub contains : K → List K → Bool
  contains k [] = false
  contains k (j ∷ s) = j == k || contains k s

  unfoldable pub insert : K → List K → List K
  insert k [] = k ∷ []
  insert k (j ∷ s) =
      let rest = insert k s in if j == k then j ∷ s else if key.lt k j then k ∷ j ∷ s else j ∷ rest

  unfoldable pub remove : K → List K → List K
  remove k [] = []
  remove k (j ∷ s) = let rest = remove k s in if j == k then rest else j ∷ rest

  -- `extend`, and `collect` from the empty set
  unfoldable pub extend : List K → List K → List K
  extend [] s = s
  extend (k ∷ ks) s = extend ks (insert k s)

  pub contains-insert : (k j : K) (s : List K) → contains j (insert k s) ≡ (k == j || contains j s)
  unfolding contains insert
  contains-insert k j [] = refl
  contains-insert k j (i ∷ s) =
      ground (arith, key.beq_iff k j, key.beq_iff i k, key.beq_iff i j, contains-insert k j s)

  pub contains-remove :
      (k j : K) (s : List K) → contains j (remove k s) ≡ (not (k == j) && contains j s)
  unfolding contains remove
  contains-remove k j [] = ground arith
  contains-remove k j (i ∷ s) =
      ground (arith, key.beq_iff k j, key.beq_iff i k, key.beq_iff i j, contains-remove k j s)

  pub contains-extend :
      (ks s : List K) (j : K) → contains j (extend ks s) ≡ (contains j ks || contains j s)
  unfolding contains extend
  contains-extend [] s j = refl
  contains-extend (k ∷ ks) s j =
      ground (arith, contains-extend ks (insert k s) j, contains-insert k j s)

  abbrev pub Above : K → List K → Type 0
  Above k [] = Unit {0}
  Above k (j ∷ s) = (key.lt k j ≡ true) × Above j s

  abbrev pub IsOrdered : List K → Type 0
  IsOrdered [] = Unit {0}
  IsOrdered (k ∷ s) = Above k s

  insert-Above : (i k : K) (s : List K) → key.lt i k ≡ true → Above i s → Above i (insert k s)
  unfolding insert
  insert-Above i k [] h a = (h, tt)
  insert-Above i k (j ∷ s) h a =
      ground (arith, insert-Above j k s, key.lt_total k j, key.beq_iff j k, key.beq_iff k j)

  pub insert-IsOrdered : (k : K) (s : List K) → IsOrdered s → IsOrdered (insert k s)
  unfolding insert
  insert-IsOrdered k [] h = tt
  insert-IsOrdered k (j ∷ s) h =
      ground (arith, insert-Above j k s, key.lt_total k j, key.beq_iff j k, key.beq_iff k j)

  pub extend-IsOrdered : (ks s : List K) → IsOrdered s → IsOrdered (extend ks s)
  unfolding extend
  extend-IsOrdered [] s h = h
  extend-IsOrdered (k ∷ ks) s h = extend-IsOrdered ks (insert k s) (insert-IsOrdered k s h)
