-- ===== src/Server/Command.antt =====
-- The dispatch of tintin-server/src/main.rs: a request line and the connection give the response
-- and the connection after it.
pub mod Payload
pub mod Response
pub mod Directory
pub mod Rooms
pub mod Stories
pub mod Broadcasts
pub mod Votes
pub mod Posts
pub mod Answers
pub mod Effects
use tintin.Prelude.{
  ℕ, String, [], ◌∷◌, Bool, List, Option, none, some, Result, ok, err, ◌==◌, text_eq, if◌then◌else◌,
}
use tintin.Server.Command.Payload.{Json}
use tintin.Server.Command.Response.{Handled, refuse, invalid_json, missing_cmd, unknown_command}
use tintin.Server.Command.Directory.{
  handle_register, handle_fetch_keys, handle_send, handle_receive, handle_list_users,
  handle_set_presence,
}
use tintin.Server.Command.Rooms.{
  handle_create_group, handle_join_group, handle_leave_group, handle_my_groups,
  handle_group_members,
}
use tintin.Server.Command.Stories.{handle_set_status, handle_clear_status, handle_get_stories}
use tintin.Server.Command.Broadcasts.{
  handle_create_channel, handle_subscribe_channel, handle_unsubscribe_channel, handle_list_channels,
  handle_my_channels, handle_channel_members,
}
use tintin.Server.Command.Votes.{
  handle_create_poll, handle_vote_poll, handle_poll_results, handle_list_polls, handle_close_poll,
}
use tintin.Server.Command.Posts.{
  handle_create_post, handle_get_timeline, handle_add_comment, handle_delete_post,
  handle_get_comments,
}

-- What a handler reads beside the request and the database: the clock in seconds and in
-- milliseconds, a random u16, and the clock again for each receipt.
pub record Host : Type 0 where
  pub now : ℕ
  pub millis : ℕ
  pub rnd : ℕ
  pub clock : ℕ → ℕ

module _ (js : Json) where
  -- `match cmd`: each command with its handler
  abbrev pub handlers : Host → List (String × (js.Value → Handled js.Value))
  handlers host =
      ("register", handle_register js)
      ∷ ("fetch_keys", handle_fetch_keys js)
      ∷ ("send", handle_send js)
      ∷ ("receive", handle_receive js host.clock)
      ∷ ("list_users", handle_list_users js)
      ∷ ("create_group", handle_create_group js host.millis host.rnd)
      ∷ ("join_group", handle_join_group js)
      ∷ ("leave_group", handle_leave_group js)
      ∷ ("my_groups", handle_my_groups js)
      ∷ ("group_members", handle_group_members js)
      ∷ ("set_status", handle_set_status js host.now)
      ∷ ("set_presence", handle_set_presence js)
      ∷ ("clear_status", handle_clear_status js)
      ∷ ("get_stories", handle_get_stories js host.now)
      ∷ ("create_channel", handle_create_channel js)
      ∷ ("subscribe_channel", handle_subscribe_channel js)
      ∷ ("unsubscribe_channel", handle_unsubscribe_channel js)
      ∷ ("list_channels", handle_list_channels js)
      ∷ ("my_channels", handle_my_channels js)
      ∷ ("channel_members", handle_channel_members js)
      ∷ ("create_poll", handle_create_poll js host.now)
      ∷ ("vote_poll", handle_vote_poll js)
      ∷ ("poll_results", handle_poll_results js)
      ∷ ("list_polls", handle_list_polls js)
      ∷ ("close_poll", handle_close_poll js)
      ∷ ("create_post", handle_create_post js host.now)
      ∷ ("get_timeline", handle_get_timeline js)
      ∷ ("add_comment", handle_add_comment js host.now)
      ∷ ("delete_post", handle_delete_post js)
      ∷ ("get_comments", handle_get_comments js)
      ∷ []

  abbrev pub dispatch :
      List (String × (js.Value → Handled js.Value)) → String → js.Value → Handled js.Value
  dispatch [] cmd value = refuse (unknown_command cmd)
  dispatch ((name, handle) ∷ rest) cmd value =
      if name == cmd then handle value else dispatch rest cmd value

  abbrev pub handle_value : Host → js.Value → Option String → Handled js.Value
  handle_value host value none = refuse missing_cmd
  handle_value host value (some cmd) = dispatch (handlers host) cmd value

  abbrev pub handle_parsed : Host → Result String js.Value → Handled js.Value
  handle_parsed host (err e) = refuse (invalid_json e)
  handle_parsed host (ok value) = handle_value host value (js.cmd_of value)

  unfoldable pub handle_command : Host → String → Handled js.Value
  handle_command host line = handle_parsed host (js.from_str line)
