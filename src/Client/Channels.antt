-- ===== src/Client/Channels.antt =====
-- Channels, of tintin-cli/src/main.rs.
use tintin.Prelude.{
  ℕ, true, false, not, String, List, [], ◌∷◌, Option, none, some, pure, ◌>>=◌, ◌>>◌, ◌==◌, text_eq,
  number_eq,
}
use tintin.Prelude.Rows.{select}
use tintin.Prelude.Maps.{HashMap, lookup, insert, remove}
use tintin.Prelude.Texts.{join}
use tintin.Client.Wire.{Payload, blank, unwrap_or}
use tintin.Client.State.{
  TinTinClient, create_channel as create_channel_request, subscribe_channel as subscribe_request,
  unsubscribe_channel as unsubscribe_request, list_channels, my_channels,
  channel_members as channel_members_request, Outside, Run, modify, asks, now,
}
use tintin.Client.Sending.{request_ok, record_message, tracked}
use tintin.Client.Groups.{names, send_copies}

abbrev pub with_channels : HashMap ℕ String → TinTinClient → TinTinClient
with_channels channels me = record me { channels = channels }

-- the loop of `list_my_channels`; an entry without a number or a name is passed over
unfoldable pub cache_all : List (Option ℕ × Option String) → HashMap ℕ String → HashMap ℕ String
unfolding insert
cache_all [] channels = channels
cache_all ((some id, some name) ∷ rest) channels = cache_all rest (insert id name channels)
cache_all ((some id, none) ∷ rest) channels = cache_all rest channels
cache_all ((none, name) ∷ rest) channels = cache_all rest channels

module _ {R : Type 0} (o : Outside R) where
  -- the name of a channel of which only the number is known
  abbrev pub numbered : ℕ → String
  numbered channel_id = join "ch" (o.codec.decimal channel_id)

  unfoldable pub create_channel : String → Run R ℕ
  unfolding request_ok insert
  create_channel name = do
    user_id ← asks (λ me. me.user_id)
    resp ← request_ok o "Failed to create channel" (create_channel_request name user_id)
    let channel_id = unwrap_or 0 resp.channel_id
    modify (λ me. with_channels (insert channel_id name me.channels) me)
    pure channel_id

  unfoldable pub subscribe_channel : ℕ → Run R (Unit {0})
  unfolding request_ok insert join
  subscribe_channel channel_id = asks (λ me. me.user_id) >>= λ user_id.
      request_ok o "Failed to subscribe" (subscribe_request channel_id user_id)
      >> modify (λ me. with_channels (insert channel_id (numbered channel_id) me.channels) me)

  unfoldable pub unsubscribe_channel : ℕ → Run R (Unit {0})
  unfolding request_ok remove
  unsubscribe_channel channel_id = asks (λ me. me.user_id) >>= λ user_id.
      request_ok o "Failed to unsubscribe" (unsubscribe_request channel_id user_id)
      >> modify (λ me. with_channels (remove channel_id me.channels) me)

  unfoldable pub list_all_channels : Run R (List (Option ℕ × Option String))
  unfolding request_ok
  list_all_channels =
      request_ok o "Failed to list channels" list_channels >>= λ resp. pure resp.channels

  unfoldable pub list_my_channels : Run R (List (Option ℕ × Option String))
  unfolding request_ok cache_all
  list_my_channels = do
    user_id ← asks (λ me. me.user_id)
    resp ← request_ok o "Failed to list my channels" (my_channels user_id)
    modify (λ me. with_channels (cache_all resp.channels me.channels) me)
    pure resp.channels

  unfoldable pub channel_members : ℕ → Run R (List String)
  unfolding request_ok names
  channel_members channel_id =
      request_ok o "Failed to get channel members" (channel_members_request channel_id) >>= λ resp.
      pure (names resp.members)

  unfoldable pub channel_payload : ℕ → String → String → Payload
  channel_payload channel_id channel_name plaintext = record blank {
    tintin_type = some "channel";
    channel_id = some channel_id;
    channel_name = some channel_name;
    text = some plaintext;
  }

  -- the message to the others, and what is kept of it
  unfoldable pub broadcast : ℕ → String → String → List String → Run R (Unit {0})
  unfolding send_copies channel_payload record_message join
  broadcast channel_id channel_name plaintext others = do
    send_copies o (o.codec.payloads.to_vec (channel_payload channel_id channel_name plaintext))
        others
    timestamp ← now o
    modify (
        tracked o (join "[" (join channel_name (join "] " (numbered channel_id)))) plaintext
          timestamp)
    record_message o channel_name plaintext true false none true (some channel_name)

  unfoldable pub send_channel_message : ℕ → String → Run R (Unit {0})
  unfolding channel_members broadcast lookup select
  send_channel_message channel_id plaintext = do
    channel_name ← asks (λ me. unwrap_or (numbered channel_id) (lookup channel_id me.channels))
    members ← channel_members channel_id
    user_id ← asks (λ me. me.user_id)
    elim (select (λ m. not (m == user_id)) members) [
      | [] ↦ pure tt
      | m ∷ others ↦ broadcast channel_id channel_name plaintext (m ∷ others)
    ]
