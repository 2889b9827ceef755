-- ===== src/Prelude/Results.antt =====
-- Rust's `Result`, and methods on `&mut self` that may fail: what was written before an error
-- stays written, so the state comes back beside the error too.
use mathlib.Core.Path.{◌≡◌, ap}

pub data Result {ℓ} (E A : Type ℓ) : Type ℓ where
  ok : A → Result E A
  err : E → Result E A

abbrev pub Exec {ℓ} : Type ℓ → Type ℓ → Type ℓ → Type ℓ
Exec S E A = S → Result E A × S

module _ {ℓ} {S E A : Type ℓ} where
  abbrev pub pure : A → Exec S E A
  pure a s = (ok a, s)

  abbrev pub raise : E → Exec S E A
  raise e s = (err e, s)

  abbrev pub lift : Result E A → Exec S E A
  lift r s = (r, s)

  abbrev pub gets : (S → A) → Exec S E A
  gets f s = (ok (f s), s)

module _ {ℓ} {S E A B : Type ℓ} where
  -- the rest of a block, after a step that returned `r`
  abbrev pub continue : Result E A → (A → Exec S E B) → Exec S E B
  continue (ok a) f s = f a s
  continue (err e) f s = (err e, s)

  infixl 5 ◌>>=◌ ◌>>◌
  -- `?`
  abbrev pub ◌>>=◌ : Exec S E A → (A → Exec S E B) → Exec S E B
  ◌>>=◌ first rest before = let (outcome, after) = first before in continue outcome rest after

  abbrev pub ◌>>◌ : Exec S E A → Exec S E B → Exec S E B
  first >> second = first >>= λ _. second

module _ {ℓ} {S E A B : Type ℓ} where
  -- A block goes on from where its first step returned, and stops where it failed.
  pub >>=-ok :
      (m : Exec S E A) (f : A → Exec S E B) {s s' : S} {a : A}
      → m s ≡ (ok a, s')
      → (m >>= f) s ≡ f a s'
  >>=-ok m f h = ap (λ (x : Result E A × S). continue x.0 f x.1) h

  pub >>=-err :
      (m : Exec S E A) (f : A → Exec S E B) {s s' : S} {e : E}
      → m s ≡ (err e, s')
      → (m >>= f) s ≡ (err e, s')
  >>=-err m f h = ap (λ (x : Result E A × S). continue x.0 f x.1) h
