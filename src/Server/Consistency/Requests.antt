-- ===== src/Server/Consistency/Requests.antt =====
-- Sequences of requests to tintin-server/src/main.rs, against the invariant of the tables.
use tintin.Prelude.{
  Bool, String, List, [], ◌∷◌, Option, none, some, Result, ok, err, ◌==◌, text_eq, number_eq,
}
use tintin.Server.Db.{new_tables, Conn, SqlError}
use tintin.Server.Consistency.{IsConsistent}
use tintin.Server.Command.{Host, handlers, dispatch, handle_value, handle_parsed, handle_command}
use tintin.Server.Command.Payload.{Json}
use tintin.Server.Command.Response.{Handled}
use tintin.Server.Consistency.Keeps.{Keeps, refuse-Keeps, if-Keeps}
use tintin.Server.Consistency.RoomRequests.{
  handle_register-Keeps, handle_fetch_keys-Keeps, handle_send-Keeps, handle_receive-Keeps,
  handle_list_users-Keeps, handle_set_presence-Keeps, handle_create_group-Keeps,
  handle_join_group-Keeps, handle_leave_group-Keeps, handle_my_groups-Keeps,
  handle_group_members-Keeps, handle_set_status-Keeps, handle_clear_status-Keeps,
  handle_get_stories-Keeps,
}
use tintin.Server.Consistency.FeedRequests.{
  handle_create_channel-Keeps, handle_subscribe_channel-Keeps, handle_unsubscribe_channel-Keeps,
  handle_list_channels-Keeps, handle_my_channels-Keeps, handle_channel_members-Keeps,
  handle_create_poll-Keeps, handle_vote_poll-Keeps, handle_poll_results-Keeps,
  handle_list_polls-Keeps, handle_close_poll-Keeps, handle_create_post-Keeps,
  handle_get_timeline-Keeps, handle_add_comment-Keeps, handle_delete_post-Keeps,
  handle_get_comments-Keeps,
}

module _ (js : Json) where
  infixr 5 ◌⨾◌
  data KeepAll : List (String × (js.Value → Handled js.Value)) → Type 0 where
    nothing_left : KeepAll []
    ◌⨾◌ :
        {name : String} {h : js.Value → Handled js.Value}
        {rest : List (String × (js.Value → Handled js.Value))}
        → ((value : js.Value) → Keeps (h value))
        → KeepAll rest
        → KeepAll ((name, h) ∷ rest)

  dispatch-Keeps :
      (hs : List (String × (js.Value → Handled js.Value))) (cmd : String) (value : js.Value)
      → KeepAll hs
      → Keeps (dispatch js hs cmd value)
  dispatch-Keeps [] cmd value nothing_left = refuse-Keeps _
  dispatch-Keeps ((name, h) ∷ rest) cmd value (x ⨾ xs) =
      if-Keeps (name == cmd) _ _ (x value) (dispatch-Keeps rest cmd value xs)

  handlers-KeepAll : (host : Host) → KeepAll (handlers js host)
  handlers-KeepAll host =
      handle_register-Keeps js
      ⨾ handle_fetch_keys-Keeps js
      ⨾ handle_send-Keeps js
      ⨾ handle_receive-Keeps js host.clock
      ⨾ handle_list_users-Keeps js
      ⨾ handle_create_group-Keeps js host.millis host.rnd
      ⨾ handle_join_group-Keeps js
      ⨾ handle_leave_group-Keeps js
      ⨾ handle_my_groups-Keeps js
      ⨾ handle_group_members-Keeps js
      ⨾ handle_set_status-Keeps js host.now
      ⨾ handle_set_presence-Keeps js
      ⨾ handle_clear_status-Keeps js
      ⨾ handle_get_stories-Keeps js host.now
      ⨾ handle_create_channel-Keeps js
      ⨾ handle_subscribe_channel-Keeps js
      ⨾ handle_unsubscribe_channel-Keeps js
      ⨾ handle_list_channels-Keeps js
      ⨾ handle_my_channels-Keeps js
      ⨾ handle_channel_members-Keeps js
      ⨾ handle_create_poll-Keeps js host.now
      ⨾ handle_vote_poll-Keeps js
      ⨾ handle_poll_results-Keeps js
      ⨾ handle_list_polls-Keeps js
      ⨾ handle_close_poll-Keeps js
      ⨾ handle_create_post-Keeps js host.now
      ⨾ handle_get_timeline-Keeps js
      ⨾ handle_add_comment-Keeps js host.now
      ⨾ handle_delete_post-Keeps js
      ⨾ handle_get_comments-Keeps js
      ⨾ nothing_left

  handle_value-Keeps :
      (host : Host) (value : js.Value) (o : Option String) → Keeps (handle_value js host value o)
  handle_value-Keeps host value none = refuse-Keeps _
  handle_value-Keeps host value (some cmd) =
      dispatch-Keeps (handlers js host) cmd value (handlers-KeepAll host)

  handle_parsed-Keeps : (host : Host) (r : Result String js.Value) → Keeps (handle_parsed js host r)
  handle_parsed-Keeps host (err e) = refuse-Keeps _
  handle_parsed-Keeps host (ok value) = handle_value-Keeps host value (js.cmd_of value)

  handle_command-Keeps : (host : Host) (line : String) → Keeps (handle_command js host line)
  unfolding handle_command
  handle_command-Keeps host line = handle_parsed-Keeps host (js.from_str line)

  -- the connection after the requests, one after another
  pub serve : List (Host × String) → Conn → Conn
  serve [] c = c
  serve ((host, line) ∷ rest) c = serve rest (handle_command js host line c).1

  serve-kept :
      (requests : List (Host × String)) (c : Conn)
      → IsConsistent c.tables
      → IsConsistent (serve requests c).tables
  unfolding serve
  serve-kept [] c h = h
  serve-kept ((host, line) ∷ rest) c h =
      serve-kept rest (handle_command js host line c).1 ((handle_command-Keeps host line).at c h)

  new_tables-IsConsistent : IsConsistent new_tables
  new_tables-IsConsistent = record {
    users = tt;
    messages = tt;
    groups = tt;
    members = tt;
    statuses = tt;
    channels = tt;
    subscribers = tt;
    polls = tt;
    options = tt;
    votes = tt;
    match = tt;
    posts = tt;
    comments = tt;
  }

  -- From an empty database on, after any sequence of request lines, and whatever statements of the
  -- database fail, no two rows share a primary key, the numbers of each table grow along it, and
  -- each vote is for an option of its poll.
  pub serve-IsConsistent :
      (requests : List (Host × String)) (faults : List (Option SqlError)) (enforces : Bool)
      → IsConsistent
          (serve requests
            (record { tables = new_tables; faults = faults; enforces = enforces })).tables
  serve-IsConsistent requests faults enforces =
      serve-kept requests (record { tables = new_tables; faults = faults; enforces = enforces })
        new_tables-IsConsistent
