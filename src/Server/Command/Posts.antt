-- ===== src/Server/Command/Posts.antt =====
-- The handlers of tintin-server/src/main.rs for the timeline.
use tintin.Prelude.{ℕ, Bool, true, false, none, some}
use tintin.Server.Command.Payload.{Json}
use tintin.Server.Command.Response.{
  ServerResponse, success, failure, Handled, reply, payload, not_yours, database_error,
  json_post_id, json_posts, json_comment_id, json_comments,
}
use tintin.Server.Timeline.{create_post, get_timeline, add_comment, delete_post, get_comments}

module _ (js : Json) where
  unfoldable pub handle_create_post : ℕ → js.Value → Handled js.Value
  handle_create_post now value = payload "" (js.as_create_post value) λ cmd.
      reply (create_post now cmd.user_id cmd.content cmd.target_user_id)
        (λ post_id. success (some (json_post_id post_id))) database_error

  unfoldable pub handle_get_timeline : js.Value → Handled js.Value
  handle_get_timeline value = payload "" (js.as_timeline value) λ cmd.
      reply (get_timeline cmd.user_id) (λ posts. success (some (json_posts posts))) database_error

  unfoldable pub handle_add_comment : ℕ → js.Value → Handled js.Value
  handle_add_comment now value = payload "" (js.as_add_comment value) λ cmd.
      reply (add_comment now cmd.post_id cmd.user_id cmd.content)
        (λ comment_id. success (some (json_comment_id comment_id))) database_error

  abbrev pub deleted_answer : Bool → ServerResponse js.Value
  deleted_answer true = success none
  deleted_answer false = failure not_yours

  unfoldable pub handle_delete_post : js.Value → Handled js.Value
  handle_delete_post value =
      payload "" (js.as_delete_post value)
        λ cmd. reply (delete_post cmd.post_id cmd.user_id) deleted_answer database_error

  unfoldable pub handle_get_comments : js.Value → Handled js.Value
  handle_get_comments value = payload "" (js.as_post_id value) λ cmd.
      reply (get_comments cmd.post_id) (λ comments. success (some (json_comments comments)))
        database_error
