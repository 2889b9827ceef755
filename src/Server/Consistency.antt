-- ===== src/Server/Consistency.antt =====
-- The constraints of the schema of store.rs and the numbering of its keys, as an invariant of the
-- tables.
pub mod Operations
pub mod Rooms
pub mod Feeds
pub mod Keeps
pub mod RoomRequests
pub mod FeedRequests
pub mod Requests
use tintin.Prelude.{ℕ, ◌≡◌, Bool, ◌&&◌, ◌==◌, text_eq, number_eq, Every, true}
use tintin.Prelude.Rows.{exists, Distinct}
use tintin.Prelude.Rows.Numbered.{IsNumbered}
use tintin.Server.Db.{
  Tables, UserRow, MessageRow, GroupRow, MemberRow, StatusRow, ChannelRow, SubscriberRow, PollRow,
  OptionRow, VoteRow, PostRow, CommentRow,
}
use tintin.Server.Users.{is_user}
use tintin.Server.Groups.{is_group, is_member}
use tintin.Server.Channels.{is_subscriber}
use tintin.Server.Statuses.{is_status_of}
use tintin.Server.Polls.{is_vote_of, is_option_of}

-- Each PRIMARY KEY is in one row at most, each AUTOINCREMENT key grows along its table, and each
-- vote is for an option of its poll.
pub record IsConsistent (t : Tables) : Type 0 where
  pub users : Distinct (λ (a b : UserRow). is_user b.user_id a) t.users
  pub messages : IsNumbered (λ (r : MessageRow). r.id) t.message_seq t.messages
  pub groups : Distinct (λ (a b : GroupRow). is_group b.group_id a) t.groups
  pub members : Distinct (λ (a b : MemberRow). is_member b.group_id b.user_id a) t.group_members
  pub statuses : Distinct (λ (a b : StatusRow). is_status_of b.user_id a) t.statuses
  pub channels : IsNumbered (λ (r : ChannelRow). r.channel_id) t.channel_seq t.channels
  pub subscribers :
      Distinct
        (λ (a b : SubscriberRow). is_subscriber b.channel_id b.user_id a)
        t.channel_subscribers
  pub polls : IsNumbered (λ (r : PollRow). r.poll_id) t.poll_seq t.polls
  pub options : IsNumbered (λ (r : OptionRow). r.option_id) t.option_seq t.poll_options
  pub votes : Distinct (λ (a b : VoteRow). is_vote_of b.poll_id b.user_id a) t.poll_votes
  pub match :
      Every
        (λ (v : VoteRow). exists (is_option_of v.option_id v.poll_id) t.poll_options ≡ true)
        t.poll_votes
  pub posts : IsNumbered (λ (r : PostRow). r.post_id) t.post_seq t.timeline_posts
  pub comments : IsNumbered (λ (r : CommentRow). r.comment_id) t.comment_seq t.timeline_comments
