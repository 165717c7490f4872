-- ===== src/Common/Maps.antt =====
-- `BTreeMap`: an association list that is kept in key order, so that iteration is by key.
use herterarchy_broker.Common.Tests.{if◌then◌else◌, is_some, Bool-cases}
use herterarchy_broker.Common.Lists.{length}
use herterarchy_broker.Common.Keys.{Key, ◌==◌, beq_refl, lt→ne}
use Prim.Native.Nat.{suc, ◌≤◌, ◌<◌}
use mathlib.Core.Path.{◌≡◌, refl}
use mathlib.Core.Logic.{inl, inr}
use mathlib.Core.Bool.{Bool, true}
use mathlib.Core.Option.{Option, none, some}
use mathlib.Core.List.{List, [], ◌∷◌, map}
use native.Mathlib.Omega.{arith}

abbrev pub Map {ℓ κ} : Type ℓ → Type κ → Type (ℓ ⊔ κ)
Map K V = List (K × V)

-- `values`
abbrev pub values {ℓ κ} : {K : Type ℓ} {V : Type κ} → Map K V → List V
values m = map (λ e. e.1) m

module _ {ℓ κ} {K : Type ℓ} ⦃key : Key K⦄ {V : Type κ} where
  unfoldable pub get : K → Map K V → Option V
  get k [] = none
  get k ((j, v) ∷ m) = if j == k then some v else get k m

  unfoldable pub contains_key : K → Map K V → Bool
  contains_key k m = is_some (get k m)

  unfoldable pub insert : K → V → Map K V → Map K V
  insert k v [] = (k, v) ∷ []
  insert k v ((j, w) ∷ m) =
      let rest = insert k v m in
      if j == k then (k, v) ∷ m else if key.lt k j then (k, v) ∷ (j, w) ∷ m else (j, w) ∷ rest

  unfoldable pub remove : K → Map K V → Map K V
  remove k [] = []
  remove k ((j, w) ∷ m) = let rest = remove k m in if j == k then rest else (j, w) ∷ rest

  pub get-insert :
      (k j : K) (v : V) (m : Map K V) → get j (insert k v m) ≡ (if k == j then some v else get j m)
  unfolding get insert
  get-insert k j v [] = refl
  get-insert k j v ((i, w) ∷ m) =
      ground (arith, key.beq_iff k j, key.beq_iff i k, key.beq_iff i j, get-insert k j v m)

  pub get-remove : (k j : K) (m : Map K V) → get j (remove k m) ≡ (if k == j then none else get j m)
  unfolding get remove
  get-remove k j [] = ground arith
  get-remove k j ((i, w) ∷ m) =
      ground (arith, key.beq_iff k j, key.beq_iff i k, key.beq_iff i j, get-remove k j m)

  pub get-insert_self : (k : K) (v : V) (m : Map K V) → get k (insert k v m) ≡ some v
  get-insert_self k v m = ground (arith, get-insert k k v m, beq_refl k)

  -- Keys rise along the list, and stay above the bound.
  abbrev pub Above : K → Map K V → Type 0
  Above k [] = Unit {0}
  Above k ((j, v) ∷ m) = (key.lt k j ≡ true) × Above j m

  abbrev pub IsOrdered : Map K V → Type 0
  IsOrdered [] = Unit {0}
  IsOrdered ((k, v) ∷ m) = Above k m

  Above-trans : (i k : K) (m : Map K V) → key.lt i k ≡ true → Above k m → Above i m
  Above-trans i k [] h a = tt
  Above-trans i k ((j, v) ∷ m) h a = (key.lt_trans i k j h a.0, a.1)

  insert-Above :
      (i k : K) (v : V) (m : Map K V) → key.lt i k ≡ true → Above i m → Above i (insert k v m)
  unfolding insert
  insert-Above i k v [] h a = (h, tt)
  insert-Above i k v ((j, w) ∷ m) h a =
      ground (arith, insert-Above j k v m, key.lt_total k j, key.beq_iff j k, key.beq_iff k j)

  pub insert-IsOrdered : (k : K) (v : V) (m : Map K V) → IsOrdered m → IsOrdered (insert k v m)
  unfolding insert
  insert-IsOrdered k v [] h = tt
  insert-IsOrdered k v ((j, w) ∷ m) h =
      ground (arith, insert-Above j k v m, key.lt_total k j, key.beq_iff j k, key.beq_iff k j)

  remove-Above : (i k : K) (m : Map K V) → Above i m → Above i (remove k m)
  unfolding remove
  remove-Above i k [] a = tt
  remove-Above i k ((j, w) ∷ m) a = elim (Bool-cases (j == k)) [
    | inl same ↦ ground (arith, remove-Above i k m (Above-trans i j m a.0 a.1))
    | inr other ↦ ground (arith, remove-Above j k m a.1)
  ]

  Above-IsOrdered : (k : K) (m : Map K V) → Above k m → IsOrdered m
  Above-IsOrdered k [] a = tt
  Above-IsOrdered k ((j, v) ∷ m) a = a.1

  pub remove-IsOrdered : (k : K) (m : Map K V) → IsOrdered m → IsOrdered (remove k m)
  unfolding remove
  remove-IsOrdered k [] h = tt
  remove-IsOrdered k ((j, w) ∷ m) h = elim (Bool-cases (j == k)) [
    | inl same ↦ ground (arith, Above-IsOrdered j (remove k m) (remove-Above j k m h))
    | inr other ↦ ground (arith, remove-Above j k m h)
  ]

  -- A key below all of a map is not in it.
  pub get-Above : (k : K) (m : Map K V) → Above k m → get k m ≡ none
  unfolding get
  get-Above k [] a = refl
  get-Above k ((j, w) ∷ m) a = ground (
    arith,
    lt→ne k j a.0,
    key.beq_iff j k,
    key.beq_iff k j,
    get-Above k m (Above-trans k j m a.0 a.1),
  )

  -- A new key makes the map one entry longer; a known one leaves its length.
  pub length-insert :
      (k : K) (v : V) (m : Map K V)
      → IsOrdered m
      → length (insert k v m) ≡ (if contains_key k m then length m else suc (length m))
  unfolding insert contains_key get
  length-insert k v [] h = refl
  length-insert k v ((j, w) ∷ m) h =
      ground (arith, length-insert k v m (Above-IsOrdered j m h), get-Above k m, Above-trans k j m)

  -- Removing takes out one entry, if the key is there.
  pub length-remove :
      (k : K) (m : Map K V)
      → IsOrdered m
      → length m ≡ (if contains_key k m then suc (length (remove k m)) else length (remove k m))
  unfolding remove contains_key get
  length-remove k [] h = refl
  length-remove k ((j, w) ∷ m) h = elim (Bool-cases (j == k)) [
    | inl same ↦
        ground (arith, length-remove k m (Above-IsOrdered j m h), get-Above j m h, key.beq_iff j k)
    | inr other ↦ ground (arith, length-remove k m (Above-IsOrdered j m h))
  ]

  pub length-remove_le : (k : K) (m : Map K V) → length (remove k m) ≤ length m
  unfolding remove
  length-remove_le k [] = ground arith
  length-remove_le k ((j, w) ∷ m) = ground (arith, length-remove_le k m)

  pub length-remove_lt :
      (k : K) (v : V) (m : Map K V) → get k m ≡ some v → length (remove k m) < length m
  unfolding remove get
  length-remove_lt k v [] h = absurd (ground arith)
  length-remove_lt k v ((j, w) ∷ m) h = elim (Bool-cases (j == k)) [
    | inl same ↦ ground (arith, length-remove_le k m)
    | inr other ↦
        let found : get k m ≡ some v = ground arith in ground (arith, length-remove_lt k v m found)
  ]
