-- ===== src/Prelude/Rows/Laws.antt =====
-- The laws of the statement forms, and of keys that no two rows share.
use Prim.Native.Nat.{◌+◌}
use mathlib.Core.Path.{◌≡◌, refl, ◌∙◌, fun_ext}
use mathlib.Core.Logic.{inl, inr}
use mathlib.Core.Bool.{Bool, true, false, ◌||◌}
use mathlib.Core.List.{List, [], ◌∷◌, ◌++◌}
use native.Mathlib.Omega.{arith}
use tintin.Prelude.Tests.{if◌then◌else◌, Bool-cases, ltb}
use tintin.Prelude.Lists.{length, Every}
use mathlib.Core.Option.{none, some}
use tintin.Prelude.Rows.{find, select, delete, update, count, exists, Distinct}

module _ {ℓ} {A : Type ℓ} where
  pub select-append :
      (p : A → Bool) (xs ys : List A) → select p (xs ++ ys) ≡ select p xs ++ select p ys
  unfolding select
  select-append p [] ys = refl
  select-append p (x ∷ xs) ys = ground (arith, select-append p xs ys)

  pub delete-append :
      (p : A → Bool) (xs ys : List A) → delete p (xs ++ ys) ≡ delete p xs ++ delete p ys
  unfolding delete
  delete-append p [] ys = refl
  delete-append p (x ∷ xs) ys = ground (arith, delete-append p xs ys)

  pub exists-append :
      (p : A → Bool) (xs ys : List A) → exists p (xs ++ ys) ≡ (exists p xs || exists p ys)
  unfolding exists
  exists-append p [] ys = refl
  exists-append p (x ∷ xs) ys = ground (arith, exists-append p xs ys)

  pub count-append : (p : A → Bool) (xs ys : List A) → count p (xs ++ ys) ≡ count p xs + count p ys
  unfolding count
  count-append p [] ys = omega arith
  count-append p (x ∷ xs) ys = omega (arith, count-append p xs ys)

  pub count-eq-length : (p : A → Bool) (xs : List A) → count p xs ≡ length (select p xs)
  unfolding count select
  count-eq-length p [] = refl
  count-eq-length p (x ∷ xs) = ground (arith, count-eq-length p xs)

  pub exists-delete_self : (p : A → Bool) (xs : List A) → exists p (delete p xs) ≡ false
  unfolding exists delete
  exists-delete_self p [] = refl
  exists-delete_self p (x ∷ xs) = ground (arith, exists-delete_self p xs)

  pub exists-delete_of :
      (q p : A → Bool) (xs : List A) → exists q xs ≡ false → exists q (delete p xs) ≡ false
  unfolding exists delete
  exists-delete_of q p [] h = refl
  exists-delete_of q p (x ∷ xs) h = ground (arith, exists-delete_of q p xs)

  pub select-delete_self : (p : A → Bool) (xs : List A) → select p (delete p xs) ≡ []
  unfolding select delete
  select-delete_self p [] = refl
  select-delete_self p (x ∷ xs) = ground (arith, select-delete_self p xs)

  -- A DELETE does not touch what it does not match.
  pub select-delete_apart :
      (q p : A → Bool) (xs : List A)
      → ((x : A) → q x ≡ true → p x ≡ false)
      → select q (delete p xs) ≡ select q xs
  unfolding select delete
  select-delete_apart q p [] h = refl
  select-delete_apart q p (x ∷ xs) h = ground (arith, h x, select-delete_apart q p xs h)

  pub exists-delete_apart :
      (q p : A → Bool) (xs : List A)
      → ((x : A) → q x ≡ true → p x ≡ false)
      → exists q (delete p xs) ≡ exists q xs
  unfolding exists delete
  exists-delete_apart q p [] h = refl
  exists-delete_apart q p (x ∷ xs) h = ground (arith, h x, exists-delete_apart q p xs h)

  pub Every-delete {κ} :
      (P : A → Type κ) (p : A → Bool) (xs : List A) → Every P xs → Every P (delete p xs)
  unfolding delete
  Every-delete P p [] h = h
  Every-delete P p (x ∷ xs) h = elim (Bool-cases (p x)) [
    | inl gone ↦ rw gone (Every-delete P p xs h.1)
    | inr kept ↦ rw kept (h.0, Every-delete P p xs h.1)
  ]

  pub Every-select {κ} :
      (P : A → Type κ) (p : A → Bool) (xs : List A) → Every P xs → Every P (select p xs)
  unfolding select
  Every-select P p [] h = h
  Every-select P p (x ∷ xs) h = elim (Bool-cases (p x)) [
    | inl hit ↦ rw hit (h.0, Every-select P p xs h.1)
    | inr miss ↦ rw miss (Every-select P p xs h.1)
  ]

  pub Distinct-delete :
      (same : A → A → Bool) (p : A → Bool) (xs : List A)
      → Distinct same xs
      → Distinct same (delete p xs)
  unfolding delete
  Distinct-delete same p [] d = d
  Distinct-delete same p (x ∷ xs) d = elim (Bool-cases (p x)) [
    | inl gone ↦ rw gone (Distinct-delete same p xs d.1)
    | inr kept ↦ rw kept (exists-delete_of (same x) p xs d.0, Distinct-delete same p xs d.1)
  ]

  -- A row whose key is new may be added.
  pub Distinct-append :
      (same : A → A → Bool) (xs : List A) (r : A)
      → Distinct same xs
      → exists (λ x. same x r) xs ≡ false
      → Distinct same (xs ++ r ∷ [])
  unfolding exists
  Distinct-append same [] r d h = (refl, tt)
  Distinct-append same (x ∷ xs) r d h = (
    ground (arith, d.0, exists-append (same x) xs (r ∷ [])),
    Distinct-append same xs r d.1 (ground arith),
  )

  exists-update :
      (q p : A → Bool) (f : A → A) (xs : List A)
      → ((x : A) → q (f x) ≡ q x)
      → exists q (update p f xs) ≡ exists q xs
  unfolding exists update
  exists-update q p f [] h = refl
  exists-update q p f (x ∷ xs) h = ground (arith, h x, exists-update q p f xs h)

  -- An UPDATE of columns outside the key keeps the keys distinct.
  pub Distinct-update :
      (same : A → A → Bool) (p : A → Bool) (f : A → A) (xs : List A)
      → ((x y : A) → same (f x) y ≡ same x y)
      → ((x y : A) → same x (f y) ≡ same x y)
      → Distinct same xs
      → Distinct same (update p f xs)
  unfolding update
  Distinct-update same p f [] hl hr d = tt
  Distinct-update same p f (x ∷ xs) hl hr d =
      let fresh : exists (same x) (update p f xs) ≡ false =
        exists-update (same x) p f xs (hr x) ∙ d.0 in
      let rest = Distinct-update same p f xs hl hr d.1 in
      elim (Bool-cases (p x)) [
        | inl hit ↦ rw (hit, fun_ext (hl x)) (fresh, rest)
        | inr miss ↦ rw miss (fresh, rest)
      ]

  -- The first row that matches, after an INSERT.
  pub find-append :
      (p : A → Bool) (xs : List A) (r : A)
      → find p (xs ++ r ∷ [])
        ≡ elim (find p xs) [ some x ↦ some x | none ↦ if p r then some r else none ]
  unfolding find
  find-append p [] r = refl
  find-append p (x ∷ xs) r = ground (arith, find-append p xs r)

  pub find-none : (p : A → Bool) (xs : List A) → exists p xs ≡ false → find p xs ≡ none
  unfolding find exists
  find-none p [] h = refl
  find-none p (x ∷ xs) h = ground (arith, find-none p xs)

  pub find-some :
      (p : A → Bool) (xs : List A)
      → exists p xs ≡ true
      → (x : A) × (find p xs ≡ some x) × (p x ≡ true)
  unfolding find exists
  find-some p [] h = cc
  find-some p (x ∷ xs) h = elim (Bool-cases (p x)) [
    | inl hit ↦ (x, rw hit, hit)
    | inr miss ↦ let (y, found, holds) = find-some p xs (ground arith) in (y, rw miss found, holds)
  ]

  pub count-zero : (p : A → Bool) (xs : List A) → exists p xs ≡ false → count p xs ≡ 0
  unfolding count exists
  count-zero p [] h = refl
  count-zero p (x ∷ xs) h = ground (arith, count-zero p xs)

-- `COUNT(*) > 0` is EXISTS.
pub count-exists {ℓ} : {A : Type ℓ} (p : A → Bool) (xs : List A) → ltb 0 (count p xs) ≡ exists p xs
unfolding count exists
count-exists p [] = refl
count-exists p (x ∷ xs) = elim (Bool-cases (p x)) [
  | inl e ↦ rw e (ground arith)
  | inr e ↦ let ih = count-exists p xs in rw e (ground arith)
]
