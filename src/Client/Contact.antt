-- ===== src/Client/Contact.antt =====
-- The contact link of tintin-cli/src/main.rs.
use tintin.Prelude.{
  ◌≡◌, refl, ◌∙◌, ap, false, String, List, [], ◌∷◌, Option, none, some, ◌==◌, text_eq,
  if◌then◌else◌,
}
use tintin.Prelude.Texts.{
  join, strip_prefix, split, split_once, has, split-join, split_whole, has-join,
}
use tintin.Core.Crypto.{Bytes}

-- `hex` is `hex::encode`.
unfoldable pub contact_uri : (Bytes → String) → String → Bytes → String
unfolding join
contact_uri hex user_id public_key =
    join "tintin://add-contact?user_id=" (join user_id (join "&key=" (hex public_key)))

-- what one `name=value` does to the user and the key found so far
abbrev take_pair : String → String → Option String × Option String → Option String × Option String
take_pair name value (user_id, key) =
    if name == "user_id"
    then (some value, key)
    else if name == "key"
    then (user_id, some value)
    else (user_id, key)

-- the loop over the pairs; one without `=` ends it with nothing
unfoldable pub take_pairs :
    List String → Option String × Option String → Option (Option String × Option String)
unfolding split_once
take_pairs [] found = some found
take_pairs (pair ∷ pairs) found = elim (split_once "=" pair) [
  | none ↦ none
  | some (name, value) ↦ take_pairs pairs (take_pair name value found)
]

-- `Some((user_id?, key?))`
abbrev both : Option (Option String × Option String) → Option (String × String)
both (some (some user_id, some key)) = some (user_id, key)
both (some (some user_id, none)) = none
both (some (none, key)) = none
both none = none

unfoldable pub parse_contact_uri : String → Option (String × String)
unfolding take_pairs strip_prefix split
parse_contact_uri uri = elim (strip_prefix "tintin://add-contact?" uri) [
  | none ↦ none
  | some rest ↦ both (take_pairs (split "&" rest) (none, none))
]

-- A contact link is read back as the user and the key that it was made from, where neither the user
-- nor the hexadecimal form of the key has an ampersand.
pub parse_contact_uri-contact_uri :
    (hex : Bytes → String) (user_id : String) (key : Bytes)
    → has "&" user_id ≡ false
    → has "&" (hex key) ≡ false
    → parse_contact_uri (contact_uri hex user_id key) ≡ some (user_id, hex key)
unfolding parse_contact_uri contact_uri has
parse_contact_uri-contact_uri hex user_id key plain plain_key =
    let first : String = join "user_id=" user_id in
    let second : String = join "key=" (hex key) in
    ap (λ parts. both (take_pairs parts (none, none)))
      (split-join "&" first second (has-join "&" "user_id=" user_id refl plain)
        ∙ ap (λ parts. first ∷ parts)
            (split_whole "&" second (has-join "&" "key=" (hex key) refl plain_key)))
