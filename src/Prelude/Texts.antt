-- ===== src/Prelude/Texts.antt =====
-- Texts: `format!`, `split`, `splitn(2, ..)` and `strip_prefix` of Rust, on characters.
use Prim.Native.Char.{Char, code}
use Prim.Native.String.{String}
use mathlib.Core.Path.{◌≡◌, refl, ap}
use mathlib.Core.Logic.{inl, inr}
use mathlib.Core.Bool.{Bool, true, false}
use mathlib.Core.Option.{Option, none, some}
use mathlib.Core.List.{List, [], ◌∷◌}
use tintin.Prelude.Tests.{if◌then◌else◌, ◌==◌, number_eq, beq_refl, Bool-cases}

-- one text behind another
unfoldable pub join : String → String → String
join String.[] t = t
join (String.◌∷◌ c s) t = String.◌∷◌ c (join s t)

abbrev pub is_empty : String → Bool
is_empty String.[] = true
is_empty (String.◌∷◌ c s) = false

-- whether a character, given by its code, stands in a text
unfoldable pub has : Char → String → Bool
has d String.[] = false
has d (String.◌∷◌ c s) = let rest = has d s in if code c == code d then true else rest

unfoldable pub starts_with : Char → String → Bool
starts_with d String.[] = false
starts_with d (String.◌∷◌ c s) = code c == code d

-- `s.strip_prefix(p)`
unfoldable pub strip_prefix : String → String → Option String
strip_prefix String.[] s = some s
strip_prefix (String.◌∷◌ c p) String.[] = none
strip_prefix (String.◌∷◌ c p) (String.◌∷◌ d s) =
    let rest = strip_prefix p s in if code c == code d then rest else none

-- a character in front of the first part
abbrev pub onto_first : Char → List String → List String
onto_first c [] = String.◌∷◌ c String.[] ∷ []
onto_first c (part ∷ parts) = String.◌∷◌ c part ∷ parts

-- `s.split(d)`: the parts between the separators, one at least
unfoldable pub split : Char → String → List String
split d String.[] = String.[] ∷ []
split d (String.◌∷◌ c s) =
    let rest = split d s in if code c == code d then String.[] ∷ rest else onto_first c rest

abbrev pub before : Char → Option (String × String) → Option (String × String)
before c none = none
before c (some (a, b)) = some (String.◌∷◌ c a, b)

-- the two parts of `s.splitn(2, d)`, if there are two
unfoldable pub split_once : Char → String → Option (String × String)
split_once d String.[] = none
split_once d (String.◌∷◌ c s) =
    let rest = split_once d s in if code c == code d then some (String.[], s) else before c rest

-- A prefix comes off the text that it was put before.
pub strip_prefix-join : (p s : String) → strip_prefix p (join p s) ≡ some s
unfolding strip_prefix join
strip_prefix-join String.[] s = refl
strip_prefix-join (String.◌∷◌ c p) s = rw (beq_refl (code c)) (strip_prefix-join p s)

-- A text without the separator is the first part.
pub split-join :
    (d : Char) (a b : String) → has d a ≡ false → split d (join a (String.◌∷◌ d b)) ≡ a ∷ split d b
unfolding split join has
split-join d String.[] b h = rw (beq_refl (code d)) refl
split-join d (String.◌∷◌ c a) b h = elim (Bool-cases (code c == code d)) [
  | inl same ↦ cc
  | inr other ↦ rw other (ap (onto_first c) (split-join d a b (rw other at h)))
]

pub split_whole : (d : Char) (a : String) → has d a ≡ false → split d a ≡ a ∷ []
unfolding split has
split_whole d String.[] h = refl
split_whole d (String.◌∷◌ c a) h = elim (Bool-cases (code c == code d)) [
  | inl same ↦ cc
  | inr other ↦ rw other (ap (onto_first c) (split_whole d a (rw other at h)))
]

-- The first part ends at the first separator.
pub split_once-join :
    (d : Char) (a b : String)
    → has d a ≡ false
    → split_once d (join a (String.◌∷◌ d b)) ≡ some (a, b)
unfolding split_once join has
split_once-join d String.[] b h = rw (beq_refl (code d)) refl
split_once-join d (String.◌∷◌ c a) b h = elim (Bool-cases (code c == code d)) [
  | inl same ↦ cc
  | inr other ↦ rw other (ap (before c) (split_once-join d a b (rw other at h)))
]

pub has-join :
    (d : Char) (a b : String) → has d a ≡ false → has d b ≡ false → has d (join a b) ≡ false
unfolding has join
has-join d String.[] b h k = k
has-join d (String.◌∷◌ c a) b h k = elim (Bool-cases (code c == code d)) [
  | inl same ↦ cc
  | inr other ↦ rw other (has-join d a b (rw other at h) k)
]
