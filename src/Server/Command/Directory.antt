-- ===== src/Server/Command/Directory.antt =====
-- The handlers of tintin-server/src/main.rs for users and messages.
use tintin.Prelude.{ℕ, String, Option, none, some, ok, err}
use tintin.Server.Command.Payload.{Json}
use tintin.Server.Command.Response.{
  ServerResponse, success, failure, Handled, reply, payload, user_not_found, database_error,
  json_user_id, json_bundle, json_queued_for, json_messages, json_users,
}
use tintin.Server.Users.{KeyBundle, register_user, set_presence, list_users, get_key_bundle}
use tintin.Server.Messages.{queue_message, fetch_messages}

module _ (js : Json) where
  -- `serde_json::from_str(..).unwrap_or(Null)`
  abbrev pub parse_or_null : String → js.Value
  parse_or_null text = elim (js.from_str text) [ ok v ↦ v | err e ↦ js.null ]

  unfoldable pub handle_register : js.Value → Handled js.Value
  handle_register value = payload "register" (js.as_register value) λ cmd.
      reply (register_user cmd.user_id cmd.identity_key (js.bundle_to_string cmd.signed_pre_key))
        (λ _. success (some (json_user_id cmd.user_id))) database_error

  abbrev pub bundle_answer : String → Option (KeyBundle js.Value) → ServerResponse js.Value
  bundle_answer user_id (some bundle) = success (some (json_bundle bundle))
  bundle_answer user_id none = failure (user_not_found user_id)

  unfoldable pub handle_fetch_keys : js.Value → Handled js.Value
  handle_fetch_keys value = payload "fetch_keys" (js.as_fetch_keys value) λ cmd.
      reply (get_key_bundle parse_or_null cmd.user_id) (bundle_answer cmd.user_id) database_error

  unfoldable pub handle_send : js.Value → Handled js.Value
  handle_send value = payload "send" (js.as_send value) λ cmd.
      reply (queue_message js.envelopes cmd.envelope)
        (λ _. success (some (json_queued_for cmd.envelope.recipient_id))) database_error

  -- `clock i` is the reading for the receipt of the i-th message
  unfoldable pub handle_receive : (ℕ → ℕ) → js.Value → Handled js.Value
  handle_receive clock value = payload "receive" (js.as_receive value) λ cmd.
      reply (fetch_messages js.envelopes clock cmd.user_id)
        (λ messages. success (some (json_messages messages))) database_error

  unfoldable pub handle_list_users : js.Value → Handled js.Value
  handle_list_users value = payload "" (js.as_list_users value) λ cmd.
      reply (list_users cmd.query) (λ users. success (some (json_users users))) database_error

  unfoldable pub handle_set_presence : js.Value → Handled js.Value
  handle_set_presence value =
      payload "" (js.as_set_presence value)
        λ cmd. reply (set_presence cmd.user_id cmd.presence) (λ _. success none) database_error
