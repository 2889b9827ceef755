-- ===== src/Prelude/Shuffles.antt =====
-- What stays when the elements of a list are put in another order.
use Prim.Native.Nat.{suc}
use mathlib.Core.Path.{◌≡◌, refl, sym, ap, ◌∙◌, subst}
use mathlib.Core.Bool.{Bool, ◌||◌}
use mathlib.Core.List.{List, ◌∷◌, Permᴰ}
use native.Mathlib.Omega.{arith}
use tintin.Prelude.Lists.{length, Every}
use tintin.Prelude.Rows.{exists, Distinct}

module _ {ℓ} {A : Type ℓ} where
  pub length-shuffle : {xs ys : List A} → Permᴰ xs ys → length xs ≡ length ys
  length-shuffle Permᴰ.nil = refl
  length-shuffle (Permᴰ.cons e d) = ap suc (length-shuffle d)
  length-shuffle (Permᴰ.swap e d) = refl
  length-shuffle (Permᴰ.trans d e) = length-shuffle d ∙ length-shuffle e

  pub Every-shuffle {κ} : (P : A → Type κ) {xs ys : List A} → Permᴰ xs ys → Every P ys → Every P xs
  Every-shuffle P Permᴰ.nil h = h
  Every-shuffle P (Permᴰ.cons e d) h = (subst P (sym e) h.0, Every-shuffle P d h.1)
  Every-shuffle P (Permᴰ.swap e d) h = (subst P (sym e) h.1.0, (subst P (sym d) h.0, h.1.1))
  Every-shuffle P (Permᴰ.trans d e) h = Every-shuffle P d (Every-shuffle P e h)

  pub exists-shuffle : (p : A → Bool) {xs ys : List A} → Permᴰ xs ys → exists p xs ≡ exists p ys
  unfolding exists
  exists-shuffle p Permᴰ.nil = refl
  exists-shuffle p (Permᴰ.cons e d) = λ i. p (e i) || exists-shuffle p d i
  exists-shuffle p (Permᴰ.swap {a = a} {b = b} {l = l} e d) = rw (sym e) (rw (sym d) (ground arith))
  exists-shuffle p (Permᴰ.trans d e) = exists-shuffle p d ∙ exists-shuffle p e

  swapped :
      (same : A → A → Bool)
      → ((x y : A) → same x y ≡ same y x)
      → (c f : A) (l : List A) → Distinct same (c ∷ f ∷ l)
      → Distinct same (f ∷ c ∷ l)
  unfolding exists
  swapped same symmetric c f l h =
      let turned = symmetric f c in
      let apart = h.0 in let rest = h.1.0 in (ground arith, (ground arith, h.1.1))

  pub Distinct-shuffle :
      (same : A → A → Bool) {xs ys : List A}
      → ((x y : A) → same x y ≡ same y x)
      → Permᴰ xs ys
      → Distinct same ys
      → Distinct same xs
  unfolding exists
  Distinct-shuffle same symmetric Permᴰ.nil h = h
  Distinct-shuffle same symmetric (Permᴰ.cons {a = a} {b = b} {l₁ = xs} {l₂ = ys} e d) h = (
    ap (λ (x : A). exists (same x) xs) e ∙ exists-shuffle (same b) d ∙ h.0,
    Distinct-shuffle same symmetric d h.1,
  )
  Distinct-shuffle same symmetric (Permᴰ.swap {a = a} {b = b} {a' = c} {b' = f} {l = l} e d) h =
      subst (λ (x : A). Distinct same (x ∷ b ∷ l)) (sym e)
        (subst (λ (y : A). Distinct same (f ∷ y ∷ l)) (sym d) (swapped same symmetric c f l h))
  Distinct-shuffle same symmetric (Permᴰ.trans d e) h =
      Distinct-shuffle same symmetric d (Distinct-shuffle same symmetric e h)
