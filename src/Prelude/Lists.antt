-- ===== src/Prelude/Lists.antt =====
-- Lists measured by native numbers, and predicates on all their elements.
use Prim.Native.Nat.{ℕ, zero, suc, ◌+◌, ◌≤◌}
use mathlib.Core.Path.{◌≡◌, refl, ap}
use mathlib.Core.Option.{Option, none, some}
use mathlib.Core.List.{List, [], ◌∷◌, ◌++◌, map}
use native.Mathlib.Omega.{arith}

module _ {ℓ} {A : Type ℓ} where
  abbrev pub length : List A → ℕ
  length [] = 0
  length (x ∷ xs) = suc (length xs)

  abbrev pub take : ℕ → List A → List A
  take zero xs = []
  take (suc n) [] = []
  take (suc n) (x ∷ xs) = x ∷ take n xs

  abbrev pub drop : ℕ → List A → List A
  drop zero xs = xs
  drop (suc n) [] = []
  drop (suc n) (x ∷ xs) = drop n xs

  abbrev pub get_elem? : List A → ℕ → Option A
  get_elem? [] i = none
  get_elem? (x ∷ xs) zero = some x
  get_elem? (x ∷ xs) (suc i) = get_elem? xs i

  pub length-append : (xs ys : List A) → length (xs ++ ys) ≡ length xs + length ys
  length-append [] ys = omega arith
  length-append (x ∷ xs) ys = omega (arith, length-append xs ys)

  pub length-take-le : (n : ℕ) (xs : List A) → length (take n xs) ≤ n
  length-take-le zero xs = omega arith
  length-take-le (suc n) [] = omega arith
  length-take-le (suc n) (x ∷ xs) = omega (arith, length-take-le n xs)

pub length-map {ℓ κ} :
    {A : Type ℓ} {B : Type κ} (f : A → B) (xs : List A) → length (map f xs) ≡ length xs
length-map f [] = refl
length-map f (x ∷ xs) = ap suc (length-map f xs)

abbrev pub Every {ℓ κ} : {A : Type ℓ} → (A → Type κ) → List A → Type κ
Every P [] = Unit
Every P (x ∷ xs) = P x × Every P xs

pub Every-append {ℓ κ} :
    {A : Type ℓ} (holds : A → Type κ) (front back : List A)
    → Every holds front
    → Every holds back
    → Every holds (front ++ back)
Every-append holds [] back _ on_back = on_back
Every-append holds (a ∷ rest) back on_front on_back =
    (on_front.0, Every-append holds rest back on_front.1 on_back)

pub Every-all {ℓ κ} :
    {A : Type ℓ} {holds : A → Type κ} (xs : List A) → ((x : A) → holds x) → Every holds xs
Every-all [] h = tt
Every-all (x ∷ xs) h = (h x, Every-all xs h)

pub Every-weaken {ℓ κ η} :
    {A : Type ℓ} {holds : A → Type κ} {then : A → Type η} (xs : List A)
    → ((x : A) → holds x → then x)
    → Every holds xs
    → Every then xs
Every-weaken [] f h = tt
Every-weaken (x ∷ xs) f h = (f x h.0, Every-weaken xs f h.1)

pub Every-map {ℓ μ κ} :
    {A : Type ℓ} {B : Type μ} (holds : B → Type κ) (f : A → B) (xs : List A)
    → Every (λ x. holds (f x)) xs
    → Every holds (map f xs)
Every-map holds f [] h = tt
Every-map holds f (x ∷ xs) h = (h.0, Every-map holds f xs h.1)
