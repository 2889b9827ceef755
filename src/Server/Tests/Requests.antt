-- ===== src/Server/Tests/Requests.antt =====
-- The relay on requests.
use tintin.Prelude.{◌+◌, ◌≡◌, refl, true, [], ◌∷◌, none, some}
use tintin.Prelude.Rows.{exists, find}
use tintin.Server.Db.{Tables, Conn, reliable, fault}
use tintin.Server.Groups.Members.{role_of}
use tintin.Server.Channels.Subscribers.{subscribes}
use tintin.Server.Command.{Host, handle_command}
use tintin.Server.Command.Response.{success, json_channel_id}
use tintin.Server.Command.Rooms.{handle_join_group}
use tintin.Server.Command.Broadcasts.{handle_create_channel}
use tintin.Server.Command.Votes.{handle_create_poll}
use tintin.Server.Command.Answers.{IsWellFormed}
use tintin.Server.Command.Answers.Handlers.{handle_command-IsWellFormed}
use tintin.Server.Command.Effects.{
  handle_join_group_lem, handle_create_channel_lem, handle_create_poll_lem,
}
use tintin.Server.Db.{new_tables}
use tintin.Server.Consistency.{IsConsistent}
use tintin.Server.Consistency.Requests.{serve, serve-IsConsistent}
use tintin.Server.Polls.Making.{offered}
use tintin.Prelude.Rows.{select}
use tintin.Prelude.{arith}
use tintin.Server.Command.Response.{json_poll_id}
use tintin.Server.Toy.Requests.{toy_json, join, channel, poll}
use tintin.Server.Tests.{town}

abbrev noon : Host
noon = record { now = 43200; millis = 43200000; rnd = 7; clock = λ i. 43200000 + i }

-- a connection whose first statement fails
abbrev failing : Conn
failing = record { tables = town; faults = some (fault "disk full") ∷ []; enforces = true }

handle_command-IsWellFormed_example :
    IsWellFormed (handle_command toy_json noon "get_stories" failing).0
handle_command-IsWellFormed_example =
    handle_command-IsWellFormed toy_json noon "get_stories" failing

handle_join_group_lem_example :
    (t : Tables) × (handle_join_group toy_json
        (join (record { cmd = "join_group"; group_id = "g"; user_id = "bob" }))
        (reliable true town)
      ≡ (success none, reliable true t))
    × (role_of "g" "bob" t ≡ some "member")
unfolding exists role_of find
handle_join_group_lem_example =
    handle_join_group_lem toy_json
      (join (record { cmd = "join_group"; group_id = "g"; user_id = "bob" }))
      (record { cmd = "join_group"; group_id = "g"; user_id = "bob" }) true town "g" "bob" refl

handle_create_channel_lem_example :
    (t : Tables) × (handle_create_channel toy_json
        (channel (record { cmd = "create_channel"; name = "jazz"; owner_id = "bob" }))
        (reliable true town)
      ≡ (success (some (json_channel_id 2)), reliable true t))
    × (subscribes 2 "bob" t ≡ true)
unfolding exists subscribes
handle_create_channel_lem_example =
    handle_create_channel_lem toy_json
      (channel (record { cmd = "create_channel"; name = "jazz"; owner_id = "bob" }))
      (record { cmd = "create_channel"; name = "jazz"; owner_id = "bob" }) true town 2 "bob" refl

handle_create_poll_lem_example :
    (t : Tables) × (handle_create_poll toy_json 43200
        (poll (record {
          cmd = "create_poll";
          creator = "bob";
          question = "?";
          options = "a" ∷ "b" ∷ [];
        }))
        (reliable true town)
      ≡ (success (some (json_poll_id 2)), reliable true t))
    × (offered 2 t ≡ "a" ∷ "b" ∷ [])
unfolding offered select
handle_create_poll_lem_example =
    handle_create_poll_lem toy_json 43200
      (poll
        (record { cmd = "create_poll"; creator = "bob"; question = "?"; options = "a" ∷ "b" ∷ [] }))
      (record { cmd = "create_poll"; creator = "bob"; question = "?"; options = "a" ∷ "b" ∷ [] })
      true town refl (omega arith, tt, tt)

-- The second statement fails: the owner of the channel does not subscribe.
serve-IsConsistent_example :
    IsConsistent
      (serve toy_json ((noon, "create_channel") ∷ (noon, "create_poll") ∷ []) (record {
        tables = new_tables;
        faults = none ∷ some (fault "disk full") ∷ [];
        enforces = true;
      })).tables
serve-IsConsistent_example =
    serve-IsConsistent toy_json ((noon, "create_channel") ∷ (noon, "create_poll") ∷ [])
      (none ∷ some (fault "disk full") ∷ []) true
