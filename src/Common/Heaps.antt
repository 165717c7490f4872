-- ===== src/Common/Heaps.antt =====
-- `BinaryHeap<Reverse<_>>`: a priority queue whose least entry comes out first. Only the order
-- in which entries come out is seen, so it is a sorted list with repetition.
use herterarchy_broker.Common.Tests.{if◌then◌else◌}
use herterarchy_broker.Common.Keys.{Key, ◌==◌}
use mathlib.Core.Path.{◌≡◌, refl}
use mathlib.Core.Bool.{◌||◌}
use mathlib.Core.List.{List, [], ◌∷◌}
use native.Mathlib.Omega.{arith}
use herterarchy_broker.Common.Sets.{contains}

module _ {ℓ} {K : Type ℓ} ⦃key : Key K⦄ where
  unfoldable pub push : K → List K → List K
  push k [] = k ∷ []
  push k (j ∷ h) = let rest = push k h in if key.lt j k then j ∷ rest else k ∷ j ∷ h

  pub contains-push : (k j : K) (h : List K) → contains j (push k h) ≡ (k == j || contains j h)
  unfolding contains push
  contains-push k j [] = refl
  contains-push k j (i ∷ h) = ground (arith, contains-push k j h)
