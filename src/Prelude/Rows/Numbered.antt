-- ===== src/Prelude/Rows/Numbered.antt =====
-- INTEGER PRIMARY KEY AUTOINCREMENT: each new row is numbered above every row that ever was.
use Prim.Native.Nat.{ℕ, ◌+◌, ◌≤◌, ◌<◌}
use mathlib.Core.Path.{◌≡◌, refl}
use mathlib.Core.Logic.{inl, inr}
use mathlib.Core.Bool.{Bool, true, false}
use mathlib.Core.List.{List, [], ◌∷◌, ◌++◌}
use native.Mathlib.Omega.{arith}
use tintin.Prelude.Tests.{leb, Bool-cases, ◌==◌, number_eq}
use tintin.Prelude.Lists.{Every, Every-append}
use tintin.Prelude.Rows.{select, delete, update, exists}
use tintin.Prelude.Rows.Laws.{Every-delete, Every-select}
use tintin.Prelude.Rows.Order.{IsSorted}

module _ {A : Type 0} (id : A → ℕ) where
  -- The numbers grow along the table, up to the last that was given.
  abbrev pub IsNumbered : ℕ → List A → Type 0
  IsNumbered seq [] = Unit
  IsNumbered seq (x ∷ xs) = (id x ≤ seq) × Every (λ y. id x < id y) xs × IsNumbered seq xs

  abbrev pub id_le : A → A → Bool
  id_le a b = leb (id a) (id b)

  pub IsNumbered-append :
      (seq : ℕ) (xs : List A) (r : A)
      → id r ≡ seq + 1
      → IsNumbered seq xs
      → IsNumbered (seq + 1) (xs ++ r ∷ [])
  IsNumbered-append seq [] r e h = (omega arith, tt, tt)
  IsNumbered-append seq (x ∷ xs) r e h = (
    omega arith,
    Every-append (λ y. id x < id y) xs (r ∷ []) h.1 (omega arith, tt),
    IsNumbered-append seq xs r e h.2,
  )

  pub IsNumbered-delete :
      (seq : ℕ) (p : A → Bool) (xs : List A) → IsNumbered seq xs → IsNumbered seq (delete p xs)
  unfolding delete
  IsNumbered-delete seq p [] h = h
  IsNumbered-delete seq p (x ∷ xs) h = elim (Bool-cases (p x)) [
    | inl gone ↦ rw gone (IsNumbered-delete seq p xs h.2)
    | inr kept ↦
        rw kept (h.0, Every-delete (λ y. id x < id y) p xs h.1, IsNumbered-delete seq p xs h.2)
  ]

  pub IsNumbered-select :
      (seq : ℕ) (p : A → Bool) (xs : List A) → IsNumbered seq xs → IsNumbered seq (select p xs)
  unfolding select
  IsNumbered-select seq p [] h = h
  IsNumbered-select seq p (x ∷ xs) h = elim (Bool-cases (p x)) [
    | inl hit ↦
        rw hit (h.0, Every-select (λ y. id x < id y) p xs h.1, IsNumbered-select seq p xs h.2)
    | inr miss ↦ rw miss (IsNumbered-select seq p xs h.2)
  ]

  le_of_lt-Every :
      (n : ℕ) (xs : List A) → Every (λ y. n < id y) xs → Every (λ y. leb n (id y) ≡ true) xs
  le_of_lt-Every n [] h = tt
  le_of_lt-Every n (x ∷ xs) h = (ground arith, le_of_lt-Every n xs h.1)

  pub IsNumbered-IsSorted : (seq : ℕ) (xs : List A) → IsNumbered seq xs → IsSorted id_le xs
  IsNumbered-IsSorted seq [] h = tt
  IsNumbered-IsSorted seq (x ∷ xs) h =
      (le_of_lt-Every (id x) xs h.1, IsNumbered-IsSorted seq xs h.2)

  -- A new number is no row's yet.
  pub exists-new :
      (seq n : ℕ) (xs : List A) → seq < n → IsNumbered seq xs → exists (λ x. id x == n) xs ≡ false
  unfolding exists
  exists-new seq n [] l h = refl
  exists-new seq n (x ∷ xs) l h = ground (arith, exists-new seq n xs l h.2)

  Every-update_lt :
      (n : ℕ) (p : A → Bool) (f : A → A) (xs : List A)
      → ((x : A) → id (f x) ≡ id x)
      → Every (λ y. n < id y) xs
      → Every (λ y. n < id y) (update p f xs)
  unfolding update
  Every-update_lt n p f [] k h = tt
  Every-update_lt n p f (x ∷ xs) k h = (ground (arith, k x), Every-update_lt n p f xs k h.1)

  pub IsNumbered-update :
      (seq : ℕ) (p : A → Bool) (f : A → A) (xs : List A)
      → ((x : A) → id (f x) ≡ id x)
      → IsNumbered seq xs
      → IsNumbered seq (update p f xs)
  unfolding update
  IsNumbered-update seq p f [] k h = tt
  IsNumbered-update seq p f (x ∷ xs) k h = elim (Bool-cases (p x)) [
    | inl hit ↦
        rw (hit, k) (h.0, Every-update_lt (id x) p f xs k h.1, IsNumbered-update seq p f xs k h.2)
    | inr miss ↦
        rw miss (h.0, Every-update_lt (id x) p f xs k h.1, IsNumbered-update seq p f xs k h.2)
  ]
