-- ===== src/Server/Toy/Requests.antt =====
-- A small `Json` for the tests: the requests themselves are the values.
use tintin.Prelude.{[], ◌∷◌, String, Option, none, some, Result, ok, err}
use tintin.Server.Command.Payload.{Json, JoinGroupCmd, CreateChannelCmd, CreatePollCmd}
use tintin.Server.Toy.{toy_envelopes}

pub data Request : Type 0 where
  null_value : Request
  bare : String → Request
  join : JoinGroupCmd → Request
  channel : CreateChannelCmd → Request
  poll : CreatePollCmd → Request

-- every line is the value that has the line as its `cmd`, but for the empty line
abbrev toy_from_line : String → Result String Request
toy_from_line String.[] = err "EOF while parsing a value"
toy_from_line line = ok (bare line)

abbrev toy_cmd_of : Request → Option String
toy_cmd_of null_value = none
toy_cmd_of (bare line) = some line
toy_cmd_of (join cmd) = some "join_group"
toy_cmd_of (channel cmd) = some "create_channel"
toy_cmd_of (poll cmd) = some "create_poll"

abbrev no_object : {A : Type 0} → Request → Result String A
no_object value = err "missing field"

abbrev as_join : Request → Result String JoinGroupCmd
as_join (join cmd) = ok cmd
as_join _ = err "missing field"

abbrev as_channel : Request → Result String CreateChannelCmd
as_channel (channel cmd) = ok cmd
as_channel (bare line) = ok (record { cmd = line; name = "jazz"; owner_id = "bob" })
as_channel _ = err "missing field"

abbrev as_poll : Request → Result String CreatePollCmd
as_poll (poll cmd) = ok cmd
as_poll (bare line) =
    ok (record { cmd = line; creator = "bob"; question = "when"; options = "now" ∷ "later" ∷ [] })
as_poll _ = err "missing field"

abbrev pub toy_json : Json
toy_json = record {
  Value = Request;
  from_str = toy_from_line;
  cmd_of = toy_cmd_of;
  null = null_value;
  bundle_to_string = λ _. "{}";
  envelopes = toy_envelopes;
  as_register = no_object;
  as_fetch_keys = no_object;
  as_send = no_object;
  as_receive = no_object;
  as_list_users = no_object;
  as_create_group = no_object;
  as_join_group = as_join;
  as_leave_group = no_object;
  as_my_groups = no_object;
  as_group_members = no_object;
  as_set_status = no_object;
  as_clear_status = no_object;
  as_set_presence = no_object;
  as_create_channel = as_channel;
  as_subscribe_channel = no_object;
  as_unsubscribe_channel = no_object;
  as_channel_members = no_object;
  as_create_poll = as_poll;
  as_vote_poll = no_object;
  as_poll_by_id = no_object;
  as_close_poll = no_object;
  as_create_post = no_object;
  as_timeline = no_object;
  as_add_comment = no_object;
  as_post_id = no_object;
  as_delete_post = no_object;
}
