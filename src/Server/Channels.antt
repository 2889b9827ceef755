-- ===== src/Server/Channels.antt =====
-- The channels of tintin-server/src/store.rs.
pub mod Subscribers
use tintin.Prelude.{
  ℕ, ◌+◌, ◌≡◌, refl, Bool, ◌&&◌, String, List, [], ◌∷◌, ◌++◌, Option, none, some, map,
  if◌then◌else◌, ◌==◌, text_eq, number_eq,
}
use mathlib.Core.List.{flat_map}
use tintin.Prelude.Rows.{select, delete, exists, find}
use tintin.Prelude.Rows.Order.{order_by}
use tintin.Server.Db.{
  Tables, ChannelRow, SubscriberRow, Db, query, change, execute, checked, references, text_le,
}

abbrev pub is_channel : ℕ → ChannelRow → Bool
is_channel channel_id row = row.channel_id == channel_id

abbrev pub is_subscriber : ℕ → String → SubscriberRow → Bool
is_subscriber channel_id user_id row = row.channel_id == channel_id && row.user_id == user_id

abbrev pub with_channel : String → String → Tables → Tables
with_channel name owner_id t = record t {
  channels =
      t.channels
      ++ record { channel_id = t.channel_seq + 1; name = name; owner_id = owner_id } ∷ [];
  channel_seq = t.channel_seq + 1;
}

abbrev pub with_subscriber : ℕ → String → Tables → Tables
with_subscriber channel_id user_id t = record t {
  channel_subscribers =
      t.channel_subscribers ++ record { channel_id = channel_id; user_id = user_id } ∷ [];
}

-- the result is `last_insert_rowid`
unfoldable pub create_channel : String → String → Db ℕ
create_channel name owner_id = change (λ t. (t.channel_seq + 1, with_channel name owner_id t))

unfoldable pub subscribe_channel : ℕ → String → Db (Unit {0})
subscribe_channel channel_id user_id =
    checked
      (λ b t.
        if exists (is_subscriber channel_id user_id) t.channel_subscribers
        then none
        else references b (exists (is_channel channel_id) t.channels))
      (λ t.
        if exists (is_subscriber channel_id user_id) t.channel_subscribers
        then t
        else with_subscriber channel_id user_id t)

unfoldable pub unsubscribe_channel : ℕ → String → Db (Unit {0})
unsubscribe_channel channel_id user_id = execute (λ t. record t {
  channel_subscribers = delete (is_subscriber channel_id user_id) t.channel_subscribers;
})

unfoldable pub get_channel_owner : ℕ → Db (Option String)
get_channel_owner channel_id = query (λ t. elim (find (is_channel channel_id) t.channels) [
  | none ↦ none
  | some row ↦ some row.owner_id
])

unfoldable pub list_channel_subscribers : ℕ → Db (List String)
list_channel_subscribers channel_id = query (λ t.
    map (λ (row : SubscriberRow). row.user_id)
      (order_by (λ (a b : SubscriberRow). text_le a.user_id b.user_id)
        (select (λ row. row.channel_id == channel_id) t.channel_subscribers)))

abbrev pub channel_le : ChannelRow → ChannelRow → Bool
channel_le a b = text_le a.name b.name

-- FROM channels JOIN channel_subscribers
unfoldable pub join_channels : String → List ChannelRow → List SubscriberRow → List ChannelRow
join_channels user_id channels subscribers =
    flat_map
      (λ (c : ChannelRow).
        map (λ (cs : SubscriberRow). c) (select (is_subscriber c.channel_id user_id) subscribers))
      channels

unfoldable pub list_my_channels : String → Db (List ChannelRow)
unfolding join_channels
list_my_channels user_id =
    query (λ t. order_by channel_le (join_channels user_id t.channels t.channel_subscribers))

unfoldable pub list_all_channels : Db (List ChannelRow)
list_all_channels = query (λ t. order_by channel_le t.channels)
