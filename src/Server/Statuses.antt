-- ===== src/Server/Statuses.antt =====
-- The stories of tintin-server/src/store.rs. `now` is the clock, in seconds since the epoch.
pub mod Expiry
use tintin.Prelude.{
  ℕ, ◌+◌, ◌-◌, ◌%◌, ◌^◌, ◌≡◌, refl, Bool, ◌||◌, String, List, [], ◌∷◌, ◌++◌, ltb, leb, pure, ◌>>◌,
  ◌==◌, text_eq,
}
use tintin.Prelude.Rows.{select, delete}
use tintin.Prelude.Rows.Order.{order_by}
use tintin.Server.Db.{Tables, StatusRow, Db, query, execute}

abbrev pub is_status_of : String → StatusRow → Bool
is_status_of user_id row = row.user_id == user_id

unfoldable pub set_status : ℕ → String → String → Db ℕ
set_status ts user_id content = do
  execute (λ t. record t {
    statuses =
        delete (is_status_of user_id) t.statuses
        ++ record { user_id = user_id; content = content; created_at = ts } ∷ [];
  })
  pure ts

unfoldable pub clear_status : String → Db (Unit {0})
clear_status user_id =
    execute (λ t. record t { statuses = delete (is_status_of user_id) t.statuses })

-- `now - 86400` on u64, in a build that wraps around
unfoldable pub cutoff : ℕ → ℕ
cutoff now = (now + 2 ^ 64 - 86400) % 2 ^ 64

-- `created_at > cutoff as i64`: a bit pattern from 2^63 on is a negative number
unfoldable pub is_active : ℕ → StatusRow → Bool
unfolding cutoff
is_active now row = leb (2 ^ 63) (cutoff now) || ltb (cutoff now) row.created_at

unfoldable pub get_active_statuses : ℕ → Db (List StatusRow)
unfolding is_active
get_active_statuses now = query (λ t.
    order_by (λ (a b : StatusRow). leb b.created_at a.created_at)
      (select (is_active now) t.statuses))
