-- ===== src/Client/Toy/Codes.antt =====
-- Texts and the codes of their characters, for the tests of the client.
use Prim.Native.Nat.{compare, Ordering}
use Prim.Native.Char.{Char, char, code, IsLt}
use tintin.Prelude.{ℕ, ◌≡◌, refl, number_eq, String, [], ◌∷◌, Option, none, some}
use tintin.Core.Crypto.{Bytes}

-- Characters from their codes.
abbrev pub Both : Ordering → Ordering → Type 0
Both Ordering.lt o = IsLt o
Both Ordering.eq _ = ⊥
Both Ordering.gt _ = ⊥

abbrev pub Scalar : Ordering → Ordering → Ordering → Type 0
Scalar Ordering.lt _ _ = Unit
Scalar Ordering.eq o p = Both o p
Scalar Ordering.gt o p = Both o p

unfoldable pub is_lt_of : (o : Ordering) → Option (IsLt o)
is_lt_of Ordering.lt = some tt
is_lt_of Ordering.eq = none
is_lt_of Ordering.gt = none

unfoldable pub both_of : (o p : Ordering) → Option (Both o p)
both_of Ordering.lt p = is_lt_of p
both_of Ordering.eq p = none
both_of Ordering.gt p = none

unfoldable pub scalar_of : (o p q : Ordering) → Option (Scalar o p q)
scalar_of Ordering.lt p q = some tt
scalar_of Ordering.eq p q = both_of p q
scalar_of Ordering.gt p q = both_of p q

is_lt_of_lem : (o : Ordering) (x : IsLt o) → is_lt_of o ≡ some x
unfolding is_lt_of
is_lt_of_lem Ordering.lt x = refl
is_lt_of_lem Ordering.eq x = absurd x
is_lt_of_lem Ordering.gt x = absurd x

both_of_lem : (o p : Ordering) (x : Both o p) → both_of o p ≡ some x
unfolding both_of
both_of_lem Ordering.lt p x = is_lt_of_lem p x
both_of_lem Ordering.eq p x = absurd x
both_of_lem Ordering.gt p x = absurd x

scalar_of_lem : (o p q : Ordering) (x : Scalar o p q) → scalar_of o p q ≡ some x
unfolding scalar_of
scalar_of_lem Ordering.lt p q x = refl
scalar_of_lem Ordering.eq p q x = both_of_lem p q x
scalar_of_lem Ordering.gt p q x = both_of_lem p q x

unfoldable pub from_code : ℕ → Char
from_code n = elim (scalar_of (compare n 55296) (compare 57343 n) (compare n 1114112)) [
  | some is_scalar ↦ char n is_scalar
  | none ↦ "?"
]

from_code-code : (c : Char) → from_code (code c) ≡ c
unfolding from_code
from_code-code (char n is_scalar) =
    rw (scalar_of_lem (compare n 55296) (compare 57343 n) (compare n 1114112) is_scalar, from_code)
      refl

unfoldable pub to_codes : String → Bytes
to_codes String.[] = []
to_codes (String.◌∷◌ c s) = code c ∷ to_codes s

unfoldable pub from_codes : Bytes → String
unfolding from_code
from_codes [] = String.[]
from_codes (n ∷ bytes) = String.◌∷◌ (from_code n) (from_codes bytes)

pub from_codes-to_codes : (s : String) → from_codes (to_codes s) ≡ s
unfolding from_codes to_codes
from_codes-to_codes String.[] = refl
from_codes-to_codes (String.◌∷◌ c s) =
    λ i. String.◌∷◌ (from_code-code c i) (from_codes-to_codes s i)
