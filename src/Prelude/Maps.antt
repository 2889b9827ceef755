-- ===== src/Prelude/Maps.antt =====
-- `HashMap` of Rust as a list of keys with their values, the last one inserted first.
use Prim.Native.Nat.{suc}
use mathlib.Core.Path.{◌≡◌, refl, sym, ap, ◌∙◌}
use mathlib.Core.Logic.{inl, inr}
use mathlib.Core.Bool.{false}
use mathlib.Core.Option.{Option, none, some}
use mathlib.Core.List.{List, [], ◌∷◌}
use native.Mathlib.Omega.{arith}
use tintin.Prelude.Tests.{PartialEq, if◌then◌else◌, ◌==◌, beq_refl, Bool-cases}
use tintin.Prelude.Lists.{length}

abbrev pub HashMap {ℓ} : Type ℓ → Type ℓ → Type ℓ
HashMap K V = List (K × V)

module _ {ℓ} {K V : Type ℓ} ⦃e : PartialEq K⦄ where
  unfoldable pub lookup : K → HashMap K V → Option V
  lookup k [] = none
  lookup k ((j, v) ∷ m) = let rest = lookup k m in if k == j then some v else rest

  unfoldable pub remove : K → HashMap K V → HashMap K V
  remove k [] = []
  remove k ((j, v) ∷ m) = let rest = remove k m in if k == j then rest else (j, v) ∷ rest

  unfoldable pub insert : K → V → HashMap K V → HashMap K V
  unfolding remove
  insert k v m = (k, v) ∷ remove k m

  pub remove_absent : (k : K) (m : HashMap K V) → lookup k m ≡ none → remove k m ≡ m
  unfolding lookup remove
  remove_absent k [] h = refl
  remove_absent k ((j, v) ∷ m) h = elim (Bool-cases (k == j)) [
    | inl there ↦ absurd (ground (arith))
    | inr other ↦
        rw other (ap (λ (r : HashMap K V). (j, v) ∷ r) (remove_absent k m (rw other at h)))
  ]

  pub lookup-remove_other :
      (k j : K) (m : HashMap K V) → (k == j) ≡ false → lookup k (remove j m) ≡ lookup k m
  unfolding lookup remove
  lookup-remove_other k j [] h = refl
  lookup-remove_other k j ((i, v) ∷ m) h = elim (Bool-cases (j == i)) [
    | inl there ↦
        let same : j ≡ i = (e.same_iff j i).0 there in
        let apart : (k == i) ≡ false = ap (λ (x : K). k == x) (sym same) ∙ h in
        rw there (rw apart (lookup-remove_other k j m h))
    | inr other ↦
        rw other (ap (λ (r : Option V). if k == i then some v else r) (lookup-remove_other k j m h))
  ]

  pub lookup-insert_self : (k : K) (v : V) (m : HashMap K V) → lookup k (insert k v m) ≡ some v
  unfolding lookup insert
  lookup-insert_self k v m = rw (beq_refl k) refl

  pub lookup-insert_other :
      (k j : K) (v : V) (m : HashMap K V) → (k == j) ≡ false → lookup k (insert j v m) ≡ lookup k m
  unfolding lookup insert
  lookup-insert_other k j v m h = rw h (lookup-remove_other k j m h)

  pub length-insert_new :
      (k : K) (v : V) (m : HashMap K V) → lookup k m ≡ none → length (insert k v m) ≡ suc (length m)
  unfolding insert
  length-insert_new k v m h = ap (λ (r : HashMap K V). suc (length r)) (remove_absent k m h)
