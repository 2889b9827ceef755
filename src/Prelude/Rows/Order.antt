-- ===== src/Prelude/Rows/Order.antt =====
-- ORDER BY, as an insertion sort that keeps the table's order among equal keys.
use mathlib.Core.Path.{◌≡◌, refl}
use mathlib.Core.Bool.{Bool, true}
use mathlib.Core.List.{List, [], ◌∷◌, Perm}
use mathlib.Core.List.Perm
use native.Mathlib.Omega.{arith}
use mathlib.Core.Logic.{inl, inr}
use tintin.Prelude.Tests.{Bool-cases, if◌then◌else◌}
use tintin.Prelude.Lists.{Every}

module _ {ℓ} {A : Type ℓ} (le : A → A → Bool) where
  unfoldable pub insert : A → List A → List A
  insert a [] = a ∷ []
  insert a (x ∷ xs) = let rest = insert a xs in if le a x then a ∷ x ∷ xs else x ∷ rest

  unfoldable pub order_by : List A → List A
  unfolding insert
  order_by [] = []
  order_by (x ∷ xs) = insert x (order_by xs)

  abbrev pub IsSorted : List A → Type 0
  IsSorted [] = Unit
  IsSorted (x ∷ xs) = Every (λ y. le x y ≡ true) xs × IsSorted xs

  insert-perm : (a : A) (xs : List A) → Perm (insert a xs) (a ∷ xs)
  unfolding insert
  insert-perm a [] = Perm.refl (a ∷ [])
  insert-perm a (x ∷ xs) = elim (Bool-cases (le a x)) [
    | inl here ↦ rw here (Perm.refl (a ∷ x ∷ xs))
    | inr later ↦ rw later (Perm.trans (Perm.cons x (insert-perm a xs)) (Perm.swap a x xs))
  ]

  -- ORDER BY loses no row and adds none.
  pub order_by-perm : (xs : List A) → Perm (order_by xs) xs
  unfolding order_by
  order_by-perm [] = Perm.refl []
  order_by-perm (x ∷ xs) = Perm.trans (insert-perm x (order_by xs)) (Perm.cons x (order_by-perm xs))

  insert_sorted : (a : A) (xs : List A) → Every (λ y. le a y ≡ true) xs → insert a xs ≡ a ∷ xs
  unfolding insert
  insert_sorted a [] h = refl
  insert_sorted a (x ∷ xs) h = ground (arith, h.0)

  -- What is in order stays as it is.
  pub order_by_sorted : (xs : List A) → IsSorted xs → order_by xs ≡ xs
  unfolding order_by
  order_by_sorted [] h = refl
  order_by_sorted (x ∷ xs) h = rw (order_by_sorted xs h.1) (insert_sorted x xs h.0)
