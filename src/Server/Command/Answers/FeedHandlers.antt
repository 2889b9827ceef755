-- ===== src/Server/Command/Answers/FeedHandlers.antt =====
-- The form of the responses of tintin-server/src/main.rs to requests on channels, polls and the
-- timeline.
use tintin.Prelude.{
  ℕ, Bool, true, false, String, Option, none, some, Result, ok, err, ltb, length, text_eq,
}
use tintin.Server.Db.{SqlError, ok_or}
use tintin.Server.Channels.{create_channel, get_channel_owner}
use tintin.Server.Polls.{PollResults}
use tintin.Server.Command.Payload.{Json}
use tintin.Server.Command.Response.{Problem, Handled}
use tintin.Server.Command.Broadcasts.{
  auto_subscribe, if_owned, handle_create_channel, handle_subscribe_channel,
  handle_unsubscribe_channel, handle_list_channels, handle_my_channels, handle_channel_members,
}
use tintin.Server.Command.Votes.{
  results_answer, done_or, handle_create_poll, handle_vote_poll, handle_poll_results,
  handle_list_polls, handle_close_poll,
}
use tintin.Server.Command.Posts.{
  deleted_answer, handle_create_post, handle_get_timeline, handle_add_comment, handle_delete_post,
  handle_get_comments,
}
use tintin.Server.Command.Answers.{
  IsWellFormed, success-IsWellFormed, failure-IsWellFormed, Answers, reply-Answers, refuse-Answers,
  payload-Answers, if-Answers,
}

module _ (js : Json) where
  results_answer-IsWellFormed :
      (i : ℕ) (o : Option PollResults) → IsWellFormed (results_answer js i o)
  results_answer-IsWellFormed i none = failure-IsWellFormed _ _
  results_answer-IsWellFormed i (some b) = success-IsWellFormed _

  done_or-IsWellFormed : (p : Problem) (b : Bool) → IsWellFormed (done_or js p b)
  done_or-IsWellFormed p true = success-IsWellFormed _
  done_or-IsWellFormed p false = failure-IsWellFormed _ _

  deleted_answer-IsWellFormed : (b : Bool) → IsWellFormed (deleted_answer js b)
  deleted_answer-IsWellFormed true = success-IsWellFormed _
  deleted_answer-IsWellFormed false = failure-IsWellFormed _ _

  auto_subscribe-Answers : (u : String) (r : Result SqlError ℕ) → Answers (auto_subscribe js u r)
  auto_subscribe-Answers u (ok i) = record { at = λ c. success-IsWellFormed _ }
  auto_subscribe-Answers u (err e) = record { at = λ c. failure-IsWellFormed _ _ }

  if_owned-Answers :
      (o : Option String) (h : Handled js.Value) (i : ℕ) → Answers h → Answers (if_owned js o h i)
  if_owned-Answers none h i x = refuse-Answers _
  if_owned-Answers (some u) h i x = x

  pub handle_create_channel-Answers : (value : js.Value) → Answers (handle_create_channel js value)
  unfolding handle_create_channel
  handle_create_channel-Answers value = payload-Answers "" (js.as_create_channel value) _ λ cmd.
      record {
        at = λ c.
            (auto_subscribe-Answers cmd.owner_id (create_channel cmd.name cmd.owner_id c).0).at _;
      }

  pub handle_subscribe_channel-Answers :
      (value : js.Value) → Answers (handle_subscribe_channel js value)
  unfolding handle_subscribe_channel
  handle_subscribe_channel-Answers value =
      payload-Answers "" (js.as_subscribe_channel value) _ λ cmd. record {
        at = λ c.
            (if_owned-Answers (ok_or none (get_channel_owner cmd.channel_id c).0) _ cmd.channel_id
                (reply-Answers _ _ _ (λ a. success-IsWellFormed _))).at
              _;
      }

  pub handle_unsubscribe_channel-Answers :
      (value : js.Value) → Answers (handle_unsubscribe_channel js value)
  unfolding handle_unsubscribe_channel
  handle_unsubscribe_channel-Answers value =
      payload-Answers "" (js.as_unsubscribe_channel value) _
        λ cmd. reply-Answers _ _ _ (λ a. success-IsWellFormed _)

  pub handle_list_channels-Answers : (value : js.Value) → Answers (handle_list_channels js value)
  unfolding handle_list_channels
  handle_list_channels-Answers value = reply-Answers _ _ _ (λ a. success-IsWellFormed _)

  pub handle_my_channels-Answers : (value : js.Value) → Answers (handle_my_channels js value)
  unfolding handle_my_channels
  handle_my_channels-Answers value =
      payload-Answers "" (js.as_subscribe_channel value) _
        λ cmd. reply-Answers _ _ _ (λ a. success-IsWellFormed _)

  pub handle_channel_members-Answers :
      (value : js.Value) → Answers (handle_channel_members js value)
  unfolding handle_channel_members
  handle_channel_members-Answers value =
      payload-Answers "" (js.as_channel_members value) _
        λ cmd. reply-Answers _ _ _ (λ a. success-IsWellFormed _)

  pub handle_create_poll-Answers :
      (now : ℕ) (value : js.Value) → Answers (handle_create_poll js now value)
  unfolding handle_create_poll
  handle_create_poll-Answers now value = payload-Answers "" (js.as_create_poll value) _ λ cmd.
      if-Answers (ltb (length cmd.options) 2) _ _ (refuse-Answers _)
        (reply-Answers _ _ _ (λ a. success-IsWellFormed _))

  pub handle_vote_poll-Answers : (value : js.Value) → Answers (handle_vote_poll js value)
  unfolding handle_vote_poll
  handle_vote_poll-Answers value =
      payload-Answers "" (js.as_vote_poll value) _
        λ cmd. reply-Answers _ _ _ (λ a. success-IsWellFormed _)

  pub handle_poll_results-Answers : (value : js.Value) → Answers (handle_poll_results js value)
  unfolding handle_poll_results
  handle_poll_results-Answers value =
      payload-Answers "" (js.as_poll_by_id value) _
        λ cmd. reply-Answers _ _ _ (λ a. results_answer-IsWellFormed cmd.poll_id a)

  pub handle_list_polls-Answers : (value : js.Value) → Answers (handle_list_polls js value)
  unfolding handle_list_polls
  handle_list_polls-Answers value = reply-Answers _ _ _ (λ a. success-IsWellFormed _)

  pub handle_close_poll-Answers : (value : js.Value) → Answers (handle_close_poll js value)
  unfolding handle_close_poll
  handle_close_poll-Answers value =
      payload-Answers "" (js.as_close_poll value) _
        λ cmd. reply-Answers _ _ _ (λ a. done_or-IsWellFormed Problem.not_creator a)

  pub handle_create_post-Answers :
      (now : ℕ) (value : js.Value) → Answers (handle_create_post js now value)
  unfolding handle_create_post
  handle_create_post-Answers now value =
      payload-Answers "" (js.as_create_post value) _
        λ cmd. reply-Answers _ _ _ (λ a. success-IsWellFormed _)

  pub handle_get_timeline-Answers : (value : js.Value) → Answers (handle_get_timeline js value)
  unfolding handle_get_timeline
  handle_get_timeline-Answers value =
      payload-Answers "" (js.as_timeline value) _
        λ cmd. reply-Answers _ _ _ (λ a. success-IsWellFormed _)

  pub handle_add_comment-Answers :
      (now : ℕ) (value : js.Value) → Answers (handle_add_comment js now value)
  unfolding handle_add_comment
  handle_add_comment-Answers now value =
      payload-Answers "" (js.as_add_comment value) _
        λ cmd. reply-Answers _ _ _ (λ a. success-IsWellFormed _)

  pub handle_delete_post-Answers : (value : js.Value) → Answers (handle_delete_post js value)
  unfolding handle_delete_post
  handle_delete_post-Answers value =
      payload-Answers "" (js.as_delete_post value) _
        λ cmd. reply-Answers _ _ _ deleted_answer-IsWellFormed

  pub handle_get_comments-Answers : (value : js.Value) → Answers (handle_get_comments js value)
  unfolding handle_get_comments
  handle_get_comments-Answers value =
      payload-Answers "" (js.as_post_id value) _
        λ cmd. reply-Answers _ _ _ (λ a. success-IsWellFormed _)
