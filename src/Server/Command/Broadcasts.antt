-- ===== src/Server/Command/Broadcasts.antt =====
-- The handlers of tintin-server/src/main.rs for channels.
use tintin.Prelude.{ℕ, String, Option, none, some, Result, ok, err}
use tintin.Server.Command.Payload.{Json}
use tintin.Server.Command.Response.{
  success, failure, Handled, reply, refuse, payload, channel_not_found, database_error,
  json_channel_id, json_channels, json_members,
}
use tintin.Server.Db.{SqlError, ok_or}
use tintin.Server.Channels.{
  create_channel, subscribe_channel, get_channel_owner, unsubscribe_channel, list_all_channels,
  list_my_channels, list_channel_subscribers,
}

module _ (js : Json) where
  -- The owner subscribes; whether that fails does not show (`.ok()`).
  abbrev pub auto_subscribe : String → Result SqlError ℕ → Handled js.Value
  auto_subscribe owner_id (err e) c = (failure (database_error e), c)
  auto_subscribe owner_id (ok channel_id) c =
      let (_, c') = subscribe_channel channel_id owner_id c in
      (success (some (json_channel_id channel_id)), c')

  unfoldable pub handle_create_channel : js.Value → Handled js.Value
  handle_create_channel value = payload "" (js.as_create_channel value) λ cmd c.
      let (created, c') = create_channel cmd.name cmd.owner_id c in
      auto_subscribe cmd.owner_id created c'

  -- `get_channel_owner(..).unwrap_or(None).is_none()` is an early return
  abbrev pub if_owned : Option String → Handled js.Value → ℕ → Handled js.Value
  if_owned (some owner) go_on channel_id = go_on
  if_owned none go_on channel_id = refuse (channel_not_found channel_id)

  unfoldable pub handle_subscribe_channel : js.Value → Handled js.Value
  handle_subscribe_channel value = payload "" (js.as_subscribe_channel value) λ cmd c.
      let (owner, c') = get_channel_owner cmd.channel_id c in
      if_owned (ok_or none owner)
        (reply (subscribe_channel cmd.channel_id cmd.user_id) (λ _. success none) database_error)
        cmd.channel_id c'

  unfoldable pub handle_unsubscribe_channel : js.Value → Handled js.Value
  handle_unsubscribe_channel value = payload "" (js.as_unsubscribe_channel value) λ cmd.
      reply (unsubscribe_channel cmd.channel_id cmd.user_id) (λ _. success none) database_error

  unfoldable pub handle_list_channels : js.Value → Handled js.Value
  handle_list_channels value =
      reply list_all_channels (λ channels. success (some (json_channels channels))) database_error

  -- The payload is the one of `subscribe_channel`, so that it needs a `channel_id` too.
  unfoldable pub handle_my_channels : js.Value → Handled js.Value
  handle_my_channels value = payload "" (js.as_subscribe_channel value) λ cmd.
      reply (list_my_channels cmd.user_id) (λ channels. success (some (json_channels channels)))
        database_error

  unfoldable pub handle_channel_members : js.Value → Handled js.Value
  handle_channel_members value = payload "" (js.as_channel_members value) λ cmd.
      reply (list_channel_subscribers cmd.channel_id)
        (λ members. success (some (json_members members))) database_error
