-- ===== src/Server/Consistency/FeedRequests.antt =====
-- The handlers of tintin-server/src/main.rs for channels, polls and the timeline, against the
-- invariant of the tables.
use tintin.Prelude.{
  ℕ, String, Option, none, some, Result, ok, err, ltb, length, ◌==◌, text_eq, number_eq, not, pure,
  ◌>>=◌,
}
use tintin.Server.Db.{PollRow, query, SqlError, ok_or}
use tintin.Server.Db.Keep.{
  Preserves, Preserves-query, Preserves-bind, Preserves-pure, Preserves-or_else, Preserves-prepare,
}
use tintin.Server.Channels.{
  create_channel, get_channel_owner, list_all_channels, list_my_channels, list_channel_subscribers,
}
use tintin.Server.Polls.{tally, poll_results, list_active_polls}
use tintin.Server.Timeline.{get_timeline, get_comments}
use tintin.Server.Consistency.{IsConsistent}
use tintin.Server.Consistency.Rooms.{
  create_channel-IsConsistent, subscribe_channel-IsConsistent, unsubscribe_channel-IsConsistent,
}
use tintin.Server.Consistency.Feeds.{
  create_poll-IsConsistent, vote_poll-IsConsistent, close_poll-IsConsistent,
  create_post-IsConsistent, delete_post-IsConsistent, add_comment-IsConsistent,
}
use tintin.Server.Command.Payload.{Json}
use tintin.Server.Command.Response.{Handled}
use tintin.Server.Command.Broadcasts.{
  handle_create_channel, handle_subscribe_channel, handle_unsubscribe_channel, handle_list_channels,
  handle_my_channels, handle_channel_members, auto_subscribe, if_owned,
}
use tintin.Server.Command.Votes.{
  handle_create_poll, handle_vote_poll, handle_poll_results, handle_list_polls, handle_close_poll,
}
use tintin.Server.Command.Posts.{
  handle_create_post, handle_get_timeline, handle_add_comment, handle_delete_post,
  handle_get_comments,
}
use tintin.Server.Consistency.Keeps.{Keeps, reply-Keeps, refuse-Keeps, payload-Keeps, if-Keeps}

poll_results-IsConsistent : (i : ℕ) → Preserves IsConsistent (poll_results i)
unfolding poll_results
poll_results-IsConsistent i = Preserves-prepare _ (
    Preserves-bind _ _ (Preserves-or_else {A = Option PollRow} none _ (Preserves-query _)) λ poll.
      elim poll
        as (λ (o : Option PollRow). Preserves IsConsistent (elim o [
          | none ↦ pure none
          | some row ↦ query (tally i) >>= λ options. pure (
              some (record {
                poll_id = i;
                question = row.question;
                creator = row.creator;
                active = not (row.active == 0);
                options = options;
              }))
        ])) [
          | none ↦ Preserves-pure none
          | some row ↦ Preserves-bind _ _ (Preserves-query (tally i)) λ options. Preserves-pure _
        ])

module _ (js : Json) where
  auto_subscribe-Keeps : (u : String) (r : Result SqlError ℕ) → Keeps (auto_subscribe js u r)
  auto_subscribe-Keeps u (ok i) = record { at = (subscribe_channel-IsConsistent i u).at }
  auto_subscribe-Keeps u (err e) = record { at = λ c h. h }

  if_owned-Keeps :
      (o : Option String) (h : Handled js.Value) (i : ℕ) → Keeps h → Keeps (if_owned js o h i)
  if_owned-Keeps none h i x = refuse-Keeps _
  if_owned-Keeps (some u) h i x = x

  get_channel_owner-IsConsistent : (i : ℕ) → Preserves IsConsistent (get_channel_owner i)
  unfolding get_channel_owner
  get_channel_owner-IsConsistent i = Preserves-query _

  pub handle_create_channel-Keeps : (value : js.Value) → Keeps (handle_create_channel js value)
  unfolding handle_create_channel
  handle_create_channel-Keeps value = payload-Keeps "" (js.as_create_channel value) _ λ cmd.
      record {
        at = λ c h.
            (auto_subscribe-Keeps cmd.owner_id (create_channel cmd.name cmd.owner_id c).0).at _
              ((create_channel-IsConsistent cmd.name cmd.owner_id).at c h);
      }

  pub handle_subscribe_channel-Keeps :
      (value : js.Value) → Keeps (handle_subscribe_channel js value)
  unfolding handle_subscribe_channel
  handle_subscribe_channel-Keeps value = payload-Keeps "" (js.as_subscribe_channel value) _ λ cmd.
      record {
        at = λ c h.
            (if_owned-Keeps (ok_or none (get_channel_owner cmd.channel_id c).0) _ cmd.channel_id
                (reply-Keeps _ _ _ (subscribe_channel-IsConsistent _ _))).at
              _ ((get_channel_owner-IsConsistent cmd.channel_id).at c h);
      }

  pub handle_unsubscribe_channel-Keeps :
      (value : js.Value) → Keeps (handle_unsubscribe_channel js value)
  unfolding handle_unsubscribe_channel
  handle_unsubscribe_channel-Keeps value =
      payload-Keeps "" (js.as_unsubscribe_channel value) _
        λ cmd. reply-Keeps _ _ _ (unsubscribe_channel-IsConsistent _ _)

  pub handle_list_channels-Keeps : (value : js.Value) → Keeps (handle_list_channels js value)
  unfolding handle_list_channels list_all_channels
  handle_list_channels-Keeps value = reply-Keeps _ _ _ (Preserves-query _)

  pub handle_my_channels-Keeps : (value : js.Value) → Keeps (handle_my_channels js value)
  unfolding handle_my_channels list_my_channels
  handle_my_channels-Keeps value =
      payload-Keeps "" (js.as_subscribe_channel value) _
        λ cmd. reply-Keeps _ _ _ (Preserves-query _)

  pub handle_channel_members-Keeps : (value : js.Value) → Keeps (handle_channel_members js value)
  unfolding handle_channel_members list_channel_subscribers
  handle_channel_members-Keeps value =
      payload-Keeps "" (js.as_channel_members value) _ λ cmd. reply-Keeps _ _ _ (Preserves-query _)

  pub handle_create_poll-Keeps :
      (now : ℕ) (value : js.Value) → Keeps (handle_create_poll js now value)
  unfolding handle_create_poll
  handle_create_poll-Keeps now value = payload-Keeps "" (js.as_create_poll value) _ λ cmd.
      if-Keeps (ltb (length cmd.options) 2) _ _ (refuse-Keeps _)
        (reply-Keeps _ _ _ (create_poll-IsConsistent now _ _ _))

  pub handle_vote_poll-Keeps : (value : js.Value) → Keeps (handle_vote_poll js value)
  unfolding handle_vote_poll
  handle_vote_poll-Keeps value =
      payload-Keeps "" (js.as_vote_poll value) _
        λ cmd. reply-Keeps _ _ _ (vote_poll-IsConsistent _ _ _)

  pub handle_poll_results-Keeps : (value : js.Value) → Keeps (handle_poll_results js value)
  unfolding handle_poll_results
  handle_poll_results-Keeps value =
      payload-Keeps "" (js.as_poll_by_id value) _
        λ cmd. reply-Keeps _ _ _ (poll_results-IsConsistent cmd.poll_id)

  pub handle_list_polls-Keeps : (value : js.Value) → Keeps (handle_list_polls js value)
  unfolding handle_list_polls list_active_polls
  handle_list_polls-Keeps value = reply-Keeps _ _ _ (Preserves-query _)

  pub handle_close_poll-Keeps : (value : js.Value) → Keeps (handle_close_poll js value)
  unfolding handle_close_poll
  handle_close_poll-Keeps value =
      payload-Keeps "" (js.as_close_poll value) _
        λ cmd. reply-Keeps _ _ _ (close_poll-IsConsistent _ _)

  pub handle_create_post-Keeps :
      (now : ℕ) (value : js.Value) → Keeps (handle_create_post js now value)
  unfolding handle_create_post
  handle_create_post-Keeps now value =
      payload-Keeps "" (js.as_create_post value) _
        λ cmd. reply-Keeps _ _ _ (create_post-IsConsistent now _ _ _)

  pub handle_get_timeline-Keeps : (value : js.Value) → Keeps (handle_get_timeline js value)
  unfolding handle_get_timeline get_timeline
  handle_get_timeline-Keeps value =
      payload-Keeps "" (js.as_timeline value) _ λ cmd. reply-Keeps _ _ _ (Preserves-query _)

  pub handle_add_comment-Keeps :
      (now : ℕ) (value : js.Value) → Keeps (handle_add_comment js now value)
  unfolding handle_add_comment
  handle_add_comment-Keeps now value =
      payload-Keeps "" (js.as_add_comment value) _
        λ cmd. reply-Keeps _ _ _ (add_comment-IsConsistent now _ _ _)

  pub handle_delete_post-Keeps : (value : js.Value) → Keeps (handle_delete_post js value)
  unfolding handle_delete_post
  handle_delete_post-Keeps value =
      payload-Keeps "" (js.as_delete_post value) _
        λ cmd. reply-Keeps _ _ _ (delete_post-IsConsistent _ _)

  pub handle_get_comments-Keeps : (value : js.Value) → Keeps (handle_get_comments js value)
  unfolding handle_get_comments get_comments
  handle_get_comments-Keeps value =
      payload-Keeps "" (js.as_post_id value) _ λ cmd. reply-Keeps _ _ _ (Preserves-query _)
