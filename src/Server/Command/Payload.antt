-- ===== src/Server/Command/Payload.antt =====
-- The request payloads of tintin-server/src/main.rs, and what serde_json makes of a request line.
use tintin.Prelude.{ℕ, String, List, Option, Result}
use tintin.Core.Crypto.{Bytes}
use tintin.Core.Message.{Envelope, EnvelopeJson, PreKeyBundle}

pub record RegisterCmd : Type 0 where
  pub cmd : String
  pub user_id : String
  pub identity_key : Bytes
  pub signed_pre_key : PreKeyBundle

pub record FetchKeysCmd : Type 0 where
  pub cmd : String
  pub user_id : String

pub record SendCmd : Type 0 where
  pub cmd : String
  pub envelope : Envelope

pub record ReceiveCmd : Type 0 where
  pub cmd : String
  pub user_id : String

pub record ListUsersCmd : Type 0 where
  pub cmd : String
  pub query : Option String

pub record CreateGroupCmd : Type 0 where
  pub cmd : String
  pub name : String
  pub creator : String

pub record JoinGroupCmd : Type 0 where
  pub cmd : String
  pub group_id : String
  pub user_id : String

pub record LeaveGroupCmd : Type 0 where
  pub cmd : String
  pub group_id : String
  pub user_id : String

pub record MyGroupsCmd : Type 0 where
  pub cmd : String
  pub user_id : String

pub record GroupMembersCmd : Type 0 where
  pub cmd : String
  pub group_id : String

pub record SetStatusCmd : Type 0 where
  pub cmd : String
  pub user_id : String
  pub content : String

pub record ClearStatusCmd : Type 0 where
  pub cmd : String
  pub user_id : String

pub record SetPresenceCmd : Type 0 where
  pub cmd : String
  pub user_id : String
  pub presence : String

pub record CreateChannelCmd : Type 0 where
  pub cmd : String
  pub name : String
  pub owner_id : String

pub record SubscribeChannelCmd : Type 0 where
  pub cmd : String
  pub channel_id : ℕ
  pub user_id : String

pub record UnsubscribeChannelCmd : Type 0 where
  pub cmd : String
  pub channel_id : ℕ
  pub user_id : String

pub record ChannelMembersCmd : Type 0 where
  pub cmd : String
  pub channel_id : ℕ

pub record CreatePollCmd : Type 0 where
  pub cmd : String
  pub creator : String
  pub question : String
  pub options : List String

pub record VotePollCmd : Type 0 where
  pub cmd : String
  pub poll_id : ℕ
  pub user_id : String
  pub option_id : ℕ

pub record PollByIdCmd : Type 0 where
  pub cmd : String
  pub poll_id : ℕ

pub record ClosePollCmd : Type 0 where
  pub cmd : String
  pub poll_id : ℕ
  pub user_id : String

pub record CreatePostCmd : Type 0 where
  pub cmd : String
  pub user_id : String
  pub content : String
  pub target_user_id : Option String

pub record TimelineCmd : Type 0 where
  pub cmd : String
  pub user_id : String

pub record AddCommentCmd : Type 0 where
  pub cmd : String
  pub post_id : ℕ
  pub user_id : String
  pub content : String

pub record PostIdCmd : Type 0 where
  pub cmd : String
  pub post_id : ℕ

pub record DeletePostCmd : Type 0 where
  pub cmd : String
  pub post_id : ℕ
  pub user_id : String

-- serde_json on a request: `from_str`, the text of the `cmd` member, and `from_value` at the type of
-- each payload. `null` is `Value::Null`.
pub record Json : Type 1 where
  pub Value : Type 0
  pub from_str : String → Result String Value
  pub cmd_of : Value → Option String
  pub null : Value
  pub bundle_to_string : PreKeyBundle → String
  pub envelopes : EnvelopeJson
  pub as_register : Value → Result String RegisterCmd
  pub as_fetch_keys : Value → Result String FetchKeysCmd
  pub as_send : Value → Result String SendCmd
  pub as_receive : Value → Result String ReceiveCmd
  pub as_list_users : Value → Result String ListUsersCmd
  pub as_create_group : Value → Result String CreateGroupCmd
  pub as_join_group : Value → Result String JoinGroupCmd
  pub as_leave_group : Value → Result String LeaveGroupCmd
  pub as_my_groups : Value → Result String MyGroupsCmd
  pub as_group_members : Value → Result String GroupMembersCmd
  pub as_set_status : Value → Result String SetStatusCmd
  pub as_clear_status : Value → Result String ClearStatusCmd
  pub as_set_presence : Value → Result String SetPresenceCmd
  pub as_create_channel : Value → Result String CreateChannelCmd
  pub as_subscribe_channel : Value → Result String SubscribeChannelCmd
  pub as_unsubscribe_channel : Value → Result String UnsubscribeChannelCmd
  pub as_channel_members : Value → Result String ChannelMembersCmd
  pub as_create_poll : Value → Result String CreatePollCmd
  pub as_vote_poll : Value → Result String VotePollCmd
  pub as_poll_by_id : Value → Result String PollByIdCmd
  pub as_close_poll : Value → Result String ClosePollCmd
  pub as_create_post : Value → Result String CreatePostCmd
  pub as_timeline : Value → Result String TimelineCmd
  pub as_add_comment : Value → Result String AddCommentCmd
  pub as_post_id : Value → Result String PostIdCmd
  pub as_delete_post : Value → Result String DeletePostCmd
