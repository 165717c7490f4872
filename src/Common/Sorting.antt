-- ===== src/Common/Sorting.antt =====
-- `sort_by` of a slice, which is stable, and `find` of an iterator, both by a key.
use mathlib.Core.Path.{◌≡◌, refl, ap, ◌∙◌}
use mathlib.Core.Bool.{true}
use mathlib.Core.Option.{Option, none, some}
use mathlib.Core.List.{List, [], ◌∷◌, map}
use native.Mathlib.Omega.{arith}
use herterarchy_broker.Common.Tests.{if◌then◌else◌}
use herterarchy_broker.Common.Keys.{Key, ◌==◌}

module _ {ℓ κ} {A : Type ℓ} {K : Type κ} ⦃key : Key K⦄ where
  -- in front of the entries with the same key
  unfoldable pub insert_by : (A → K) → A → List A → List A
  insert_by of x [] = x ∷ []
  insert_by of x (y ∷ ys) =
      let rest = insert_by of x ys in if key.lt (of y) (of x) then y ∷ rest else x ∷ y ∷ ys

  unfoldable pub sort_by : (A → K) → List A → List A
  unfolding insert_by
  sort_by of [] = []
  sort_by of (x ∷ xs) = insert_by of x (sort_by of xs)

  unfoldable pub find : (A → K) → K → List A → Option A
  find of k [] = none
  find of k (x ∷ xs) = let rest = find of k xs in if of x == k then some x else rest

  find-insert_by :
      (of : A → K) (k : K) (x : A) (ys : List A)
      → find of k (insert_by of x ys) ≡ (if of x == k then some x else find of k ys)
  unfolding find insert_by
  find-insert_by of k x [] = refl
  find-insert_by of k x (y ∷ ys) =
      ground (
        arith,
        find-insert_by of k x ys,
        key.beq_iff (of x) k,
        key.beq_iff (of y) k,
        key.lt_irrefl k,
      )

  -- Sorting does not change what is found first.
  pub find-sort_by : (of : A → K) (k : K) (xs : List A) → find of k (sort_by of xs) ≡ find of k xs
  unfolding find sort_by
  find-sort_by of k [] = refl
  find-sort_by of k (x ∷ xs) =
      ground (arith, find-insert_by of k x (sort_by of xs), find-sort_by of k xs)

  abbrev pub Ascends : (A → K) → List A → Type 0
  Ascends of [] = Unit
  Ascends of (x ∷ []) = Unit
  Ascends of (x ∷ y ∷ ys) = (key.lt (of x) (of y) ≡ true) × Ascends of (y ∷ ys)

  insert_by-first :
      (of : A → K) (x y : A) (ys : List A)
      → key.lt (of x) (of y) ≡ true
      → insert_by of x (y ∷ ys) ≡ x ∷ y ∷ ys
  unfolding insert_by
  insert_by-first of x y ys h =
      ground (arith, key.lt_irrefl (of x), key.lt_trans (of x) (of y) (of x))

  -- A list in rising order stays as it is.
  pub sort_by-Ascends : (of : A → K) (xs : List A) → Ascends of xs → sort_by of xs ≡ xs
  unfolding sort_by insert_by
  sort_by-Ascends of [] h = refl
  sort_by-Ascends of (x ∷ []) h = refl
  sort_by-Ascends of (x ∷ y ∷ ys) (below, rest) =
      ap (insert_by of x) (sort_by-Ascends of (y ∷ ys) rest) ∙ insert_by-first of x y ys below

map-Ascends {ℓ κ μ} :
    {A : Type ℓ} {B : Type κ} {K : Type μ} ⦃key : Key K⦄ (of : B → K) (g : A → B) (xs : List A)
    → Ascends (λ x. of (g x)) xs
    → Ascends of (map g xs)
map-Ascends of g [] h = tt
map-Ascends of g (x ∷ []) h = tt
map-Ascends of g (x ∷ y ∷ ys) (below, rest) = (below, map-Ascends of g (y ∷ ys) rest)

pub sort_by-map {ℓ κ μ} :
    {A : Type ℓ} {B : Type κ} {K : Type μ} ⦃key : Key K⦄ (of : B → K) (g : A → B) (xs : List A)
    → Ascends (λ x. of (g x)) xs
    → sort_by of (map g xs) ≡ map g xs
sort_by-map of g xs h = sort_by-Ascends of (map g xs) (map-Ascends of g xs h)
