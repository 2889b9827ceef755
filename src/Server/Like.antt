-- ===== src/Server/Like.antt =====
-- The operator LIKE of SQL, as `list_users` uses it: `%` stands for any text, `_` for any one
-- character, and ASCII letters match in either case.
use tintin.Prelude.{
  ℕ, ◌+◌, Bool, true, false, ◌&&◌, ◌||◌, String, List, [], ◌∷◌, ◌++◌, if◌then◌else◌, leb, ◌==◌,
  number_eq,
}
use tintin.Core.Crypto.{codes}

unfoldable pub to_lower : ℕ → ℕ
to_lower c = if leb b'A' c && leb c b'Z' then c + 32 else c

-- some rest of the text passes the test
unfoldable pub some_rest : (List ℕ → Bool) → List ℕ → Bool
some_rest p [] = p []
some_rest p (c ∷ s) = p (c ∷ s) || some_rest p s

unfoldable pub first_then : (ℕ → Bool) → (List ℕ → Bool) → List ℕ → Bool
first_then p q [] = false
first_then p q (c ∷ s) = p c && q s

unfoldable pub like : List ℕ → List ℕ → Bool
unfolding to_lower some_rest first_then
like [] s = elim s [ [] ↦ true | _ ∷ _ ↦ false ]
like (p ∷ ps) s =
    let rest = like ps in
    if p == b'%'
    then some_rest rest s
    else if p == b'_'
    then first_then (λ c. true) rest s
    else first_then (λ c. to_lower c == to_lower p) rest s

-- LIKE '%q%', whatever the characters of `q`
unfoldable pub contains_like : String → String → Bool
unfolding like
contains_like q text = like (b'%' ∷ codes q ++ b'%' ∷ []) (codes text)
