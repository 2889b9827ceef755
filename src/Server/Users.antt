-- ===== src/Server/Users.antt =====
-- The users of tintin-server/src/store.rs: registration, presence, key bundles.
pub mod Directory
use tintin.Prelude.{
  ℕ, ◌≡◌, refl, Bool, true, false, String, List, [], ◌∷◌, ◌++◌, Option, none, some, map, pure,
  ◌>>=◌, ◌==◌, text_eq,
}
use tintin.Prelude.Rows.{select, delete, update, find}
use tintin.Prelude.Rows.Order.{order_by}
use tintin.Core.Crypto.{Bytes}
use tintin.Server.Db.{Tables, UserRow, Db, query, execute, text_le}
use tintin.Server.Like.{contains_like}

abbrev pub is_user : String → UserRow → Bool
is_user user_id row = row.user_id == user_id

-- INSERT OR REPLACE: the old row goes, and `presence` takes its default.
unfoldable pub register_user : String → Bytes → String → Db (Unit {0})
register_user user_id identity_key signed_pre_key = execute (λ t. record t {
  users =
      delete (is_user user_id) t.users
      ++ record {
        user_id = user_id;
        identity_key = identity_key;
        signed_pre_key = signed_pre_key;
        presence = "offline";
      }
        ∷ [];
})

unfoldable pub set_presence : String → String → Db (Unit {0})
set_presence user_id presence = execute (λ t. record t {
  users = update (is_user user_id) (λ row. record row { presence = presence }) t.users;
})

abbrev pub user_le : UserRow → UserRow → Bool
user_le a b = text_le a.user_id b.user_id

-- the name and the presence of each user, all or those LIKE '%q%'
unfoldable pub list_users : Option String → Db (List (String × String))
list_users (some q) = query (λ t.
    map (λ (row : UserRow). (row.user_id, row.presence))
      (order_by user_le (select (λ row. contains_like q row.user_id) t.users)))
list_users none =
    query (λ t. map (λ (row : UserRow). (row.user_id, row.presence)) (order_by user_le t.users))

pub record KeyBundle {ℓ} (V : Type ℓ) : Type ℓ where
  pub identity_key : Bytes
  pub signed_pre_key : V

-- `parse` is `serde_json::from_str`, with `Null` where it fails.
unfoldable pub get_key_bundle : {V : Type 0} → (String → V) → String → Db (Option (KeyBundle V))
get_key_bundle parse user_id = query (λ t. elim (find (is_user user_id) t.users) [
  | none ↦ none
  | some row ↦
      some (record { identity_key = row.identity_key; signed_pre_key = parse row.signed_pre_key })
])
