-- ===== src/Server/Command/Votes.antt =====
-- The handlers of tintin-server/src/main.rs for polls.
use tintin.Prelude.{ℕ, Bool, true, false, Option, none, some, if◌then◌else◌, ltb, length}
use tintin.Server.Command.Payload.{Json}
use tintin.Server.Command.Response.{
  ServerResponse, success, failure, Handled, reply, refuse, payload, Problem, too_few_options,
  not_creator, poll_not_found, database_error, vote_error, json_poll_id, json_results, json_polls,
}
use tintin.Server.Polls.{
  PollResults, create_poll, vote_poll, poll_results, list_active_polls, close_poll,
}

module _ (js : Json) where
  unfoldable pub handle_create_poll : ℕ → js.Value → Handled js.Value
  handle_create_poll now value = payload "" (js.as_create_poll value) λ cmd.
      if ltb (length cmd.options) 2
      then refuse too_few_options
      else reply (create_poll now cmd.creator cmd.question cmd.options)
          (λ poll_id. success (some (json_poll_id poll_id))) database_error

  unfoldable pub handle_vote_poll : js.Value → Handled js.Value
  handle_vote_poll value =
      payload "" (js.as_vote_poll value) λ cmd.
        reply (vote_poll cmd.poll_id cmd.user_id cmd.option_id) (λ _. success none) vote_error

  abbrev pub results_answer : ℕ → Option PollResults → ServerResponse js.Value
  results_answer poll_id (some results) = success (some (json_results results))
  results_answer poll_id none = failure (poll_not_found poll_id)

  unfoldable pub handle_poll_results : js.Value → Handled js.Value
  handle_poll_results value =
      payload "" (js.as_poll_by_id value)
        λ cmd. reply (poll_results cmd.poll_id) (results_answer cmd.poll_id) database_error

  unfoldable pub handle_list_polls : js.Value → Handled js.Value
  handle_list_polls value =
      reply list_active_polls (λ polls. success (some (json_polls polls))) database_error

  abbrev pub done_or : Problem → Bool → ServerResponse js.Value
  done_or problem true = success none
  done_or problem false = failure problem

  unfoldable pub handle_close_poll : js.Value → Handled js.Value
  handle_close_poll value =
      payload "" (js.as_close_poll value)
        λ cmd. reply (close_poll cmd.poll_id cmd.user_id) (done_or not_creator) database_error
