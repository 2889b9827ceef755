-- ===== src/Server/Command/Response.antt =====
-- `ServerResponse` of tintin-server/src/main.rs. Its `data` and `error` texts are data types with a
-- constructor for each shape the handlers write.
use tintin.Prelude.{ℕ, String, List, Option, none, some, Result, ok, err}
use tintin.Core.Message.{Envelope}
use tintin.Server.Db.{StatusRow, ChannelRow, PollRow, CommentRow, SqlError, Conn, Db}
use tintin.Server.Users.{KeyBundle}
use tintin.Server.Groups.{MyGroup}
use tintin.Server.Polls.{PollResults}
use tintin.Server.Timeline.{TimelinePost}

-- `V` is the type of JSON values.
pub data Data (V : Type 0) : Type 0 where
  json_user_id : String → Data V
  json_bundle : KeyBundle V → Data V
  json_queued_for : String → Data V
  json_messages : List Envelope → Data V
  json_users : List (String × String) → Data V
  json_group_id : String → Data V
  json_groups : List MyGroup → Data V
  json_members : List String → Data V
  json_created_at : ℕ → Data V
  json_stories : List StatusRow → Data V
  json_channel_id : ℕ → Data V
  json_channels : List ChannelRow → Data V
  json_poll_id : ℕ → Data V
  json_results : PollResults → Data V
  json_polls : List PollRow → Data V
  json_post_id : ℕ → Data V
  json_posts : List TimelinePost → Data V
  json_comment_id : ℕ → Data V
  json_comments : List CommentRow → Data V

-- The error texts, with what they quote: "Invalid JSON: ..", "Missing 'cmd' field", "Unknown
-- command: ..", "Invalid .. payload: ..", "Database error: ..", "Vote error: ..", ".. not found",
-- "Poll must have at least 2 options", "Poll not found or you are not the creator" and "Post not
-- found or not yours".
pub data Problem : Type 0 where
  invalid_json : String → Problem
  missing_cmd : Problem
  unknown_command : String → Problem
  invalid_payload : String → String → Problem
  database_error vote_error : SqlError → Problem
  user_not_found group_not_found : String → Problem
  channel_not_found poll_not_found : ℕ → Problem
  too_few_options not_creator not_yours : Problem

pub record ServerResponse (V : Type 0) : Type 0 where
  pub status : String
  pub data_json : Option (Data V)
  pub error : Option Problem

-- A handler on the connection: what it answers, and the connection it leaves.
abbrev pub Handled : Type 0 → Type 0
Handled V = Conn → ServerResponse V × Conn

module _ {V : Type 0} where
  abbrev pub success : Option (Data V) → ServerResponse V
  success answer = record { status = "ok"; data_json = answer; error = none }

  abbrev pub failure : Problem → ServerResponse V
  failure problem = record { status = "error"; data_json = none; error = some problem }

  -- `match r { Ok(a) => .., Err(e) => .. }`
  abbrev pub answer_of :
      {A : Type 0}
      → (A → ServerResponse V)
      → (SqlError → Problem)
      → Result SqlError A
      → ServerResponse V
  answer_of on_ok on_err (ok a) = on_ok a
  answer_of on_ok on_err (err e) = failure (on_err e)

  -- `match store.operation(..)`
  abbrev pub reply : {A : Type 0} → Db A → (A → ServerResponse V) → (SqlError → Problem) → Handled V
  reply m on_ok on_err c = let (r, c') = m c in (answer_of on_ok on_err r, c')

  -- an early return
  abbrev pub refuse : Problem → Handled V
  refuse problem c = (failure problem, c)

  -- `match serde_json::from_value(..)` with an early return
  abbrev pub payload : {C : Type 0} → String → Result String C → (C → Handled V) → Handled V
  payload name (ok cmd) handle = handle cmd
  payload name (err e) handle = refuse (invalid_payload name e)
