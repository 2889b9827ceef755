-- ===== src/Server/Command/Answers/Handlers.antt =====
-- The form of the response to each request of tintin-server/src/main.rs.
use tintin.Prelude.{String, List, [], ◌∷◌, Option, none, some, Result, ok, err, ◌==◌, text_eq}
use tintin.Server.Db.{Conn}
use tintin.Server.Command.{Host, handlers, dispatch, handle_value, handle_parsed, handle_command}
use tintin.Server.Command.Payload.{Json}
use tintin.Server.Command.Response.{Handled}
use tintin.Server.Command.Answers.{IsWellFormed, Answers, refuse-Answers, if-Answers}
use tintin.Server.Command.Answers.RoomHandlers.{
  handle_register-Answers, handle_fetch_keys-Answers, handle_send-Answers, handle_receive-Answers,
  handle_list_users-Answers, handle_set_presence-Answers, handle_create_group-Answers,
  handle_join_group-Answers, handle_leave_group-Answers, handle_my_groups-Answers,
  handle_group_members-Answers, handle_set_status-Answers, handle_clear_status-Answers,
  handle_get_stories-Answers,
}
use tintin.Server.Command.Answers.FeedHandlers.{
  handle_create_channel-Answers, handle_subscribe_channel-Answers,
  handle_unsubscribe_channel-Answers, handle_list_channels-Answers, handle_my_channels-Answers,
  handle_channel_members-Answers, handle_create_poll-Answers, handle_vote_poll-Answers,
  handle_poll_results-Answers, handle_list_polls-Answers, handle_close_poll-Answers,
  handle_create_post-Answers, handle_get_timeline-Answers, handle_add_comment-Answers,
  handle_delete_post-Answers, handle_get_comments-Answers,
}

module _ (js : Json) where
  infixr 5 ◌⨾◌
  data AnswerAll : List (String × (js.Value → Handled js.Value)) → Type 0 where
    nothing_left : AnswerAll []
    ◌⨾◌ :
        {name : String} {h : js.Value → Handled js.Value}
        {rest : List (String × (js.Value → Handled js.Value))}
        → ((value : js.Value) → Answers (h value))
        → AnswerAll rest
        → AnswerAll ((name, h) ∷ rest)

  dispatch-Answers :
      (hs : List (String × (js.Value → Handled js.Value))) (cmd : String) (value : js.Value)
      → AnswerAll hs
      → Answers (dispatch js hs cmd value)
  dispatch-Answers [] cmd value nothing_left = refuse-Answers _
  dispatch-Answers ((name, h) ∷ rest) cmd value (x ⨾ xs) =
      if-Answers (name == cmd) _ _ (x value) (dispatch-Answers rest cmd value xs)

  handlers-AnswerAll : (host : Host) → AnswerAll (handlers js host)
  handlers-AnswerAll host =
      handle_register-Answers js
      ⨾ handle_fetch_keys-Answers js
      ⨾ handle_send-Answers js
      ⨾ handle_receive-Answers js host.clock
      ⨾ handle_list_users-Answers js
      ⨾ handle_create_group-Answers js host.millis host.rnd
      ⨾ handle_join_group-Answers js
      ⨾ handle_leave_group-Answers js
      ⨾ handle_my_groups-Answers js
      ⨾ handle_group_members-Answers js
      ⨾ handle_set_status-Answers js host.now
      ⨾ handle_set_presence-Answers js
      ⨾ handle_clear_status-Answers js
      ⨾ handle_get_stories-Answers js host.now
      ⨾ handle_create_channel-Answers js
      ⨾ handle_subscribe_channel-Answers js
      ⨾ handle_unsubscribe_channel-Answers js
      ⨾ handle_list_channels-Answers js
      ⨾ handle_my_channels-Answers js
      ⨾ handle_channel_members-Answers js
      ⨾ handle_create_poll-Answers js host.now
      ⨾ handle_vote_poll-Answers js
      ⨾ handle_poll_results-Answers js
      ⨾ handle_list_polls-Answers js
      ⨾ handle_close_poll-Answers js
      ⨾ handle_create_post-Answers js host.now
      ⨾ handle_get_timeline-Answers js
      ⨾ handle_add_comment-Answers js host.now
      ⨾ handle_delete_post-Answers js
      ⨾ handle_get_comments-Answers js
      ⨾ nothing_left

  handle_value-Answers :
      (host : Host) (value : js.Value) (o : Option String) → Answers (handle_value js host value o)
  handle_value-Answers host value none = refuse-Answers _
  handle_value-Answers host value (some cmd) =
      dispatch-Answers (handlers js host) cmd value (handlers-AnswerAll host)

  handle_parsed-Answers :
      (host : Host) (r : Result String js.Value) → Answers (handle_parsed js host r)
  handle_parsed-Answers host (err e) = refuse-Answers _
  handle_parsed-Answers host (ok value) = handle_value-Answers host value (js.cmd_of value)

  -- Whatever the request line, and whatever statements of the database fail, the response either
  -- has status "ok" and no error, or has status "error", an error and no data.
  pub handle_command-IsWellFormed :
      (host : Host) (line : String) (c : Conn) → IsWellFormed (handle_command js host line c).0
  unfolding handle_command
  handle_command-IsWellFormed host line c = (handle_parsed-Answers host (js.from_str line)).at c
