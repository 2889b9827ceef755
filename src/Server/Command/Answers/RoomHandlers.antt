-- ===== src/Server/Command/Answers/RoomHandlers.antt =====
-- The form of the responses of tintin-server/src/main.rs to requests on users, messages, groups
-- and stories.
use tintin.Prelude.{ℕ, false, String, Option, none, some, text_eq}
use tintin.Server.Db.{ok_or}
use tintin.Server.Users.{KeyBundle}
use tintin.Server.Groups.{group_exists}
use tintin.Server.Command.Payload.{Json}
use tintin.Server.Command.Directory.{
  bundle_answer, handle_register, handle_fetch_keys, handle_send, handle_receive, handle_list_users,
  handle_set_presence,
}
use tintin.Server.Command.Rooms.{
  handle_create_group, handle_join_group, handle_leave_group, handle_my_groups,
  handle_group_members,
}
use tintin.Server.Command.Stories.{handle_set_status, handle_clear_status, handle_get_stories}
use tintin.Server.Command.Answers.{
  IsWellFormed, success-IsWellFormed, failure-IsWellFormed, Answers, reply-Answers, refuse-Answers,
  payload-Answers, if-Answers,
}

module _ (js : Json) where
  bundle_answer-IsWellFormed :
      (u : String) (o : Option (KeyBundle js.Value)) → IsWellFormed (bundle_answer js u o)
  bundle_answer-IsWellFormed u none = failure-IsWellFormed _ _
  bundle_answer-IsWellFormed u (some b) = success-IsWellFormed _

  pub handle_register-Answers : (value : js.Value) → Answers (handle_register js value)
  unfolding handle_register
  handle_register-Answers value =
      payload-Answers "register" (js.as_register value) _
        λ cmd. reply-Answers _ _ _ (λ a. success-IsWellFormed _)

  pub handle_fetch_keys-Answers : (value : js.Value) → Answers (handle_fetch_keys js value)
  unfolding handle_fetch_keys
  handle_fetch_keys-Answers value =
      payload-Answers "fetch_keys" (js.as_fetch_keys value) _
        λ cmd. reply-Answers _ _ _ (λ a. bundle_answer-IsWellFormed cmd.user_id a)

  pub handle_send-Answers : (value : js.Value) → Answers (handle_send js value)
  unfolding handle_send
  handle_send-Answers value =
      payload-Answers "send" (js.as_send value) _
        λ cmd. reply-Answers _ _ _ (λ a. success-IsWellFormed _)

  pub handle_receive-Answers :
      (clock : ℕ → ℕ) (value : js.Value) → Answers (handle_receive js clock value)
  unfolding handle_receive
  handle_receive-Answers clock value =
      payload-Answers "receive" (js.as_receive value) _
        λ cmd. reply-Answers _ _ _ (λ a. success-IsWellFormed _)

  pub handle_list_users-Answers : (value : js.Value) → Answers (handle_list_users js value)
  unfolding handle_list_users
  handle_list_users-Answers value =
      payload-Answers "" (js.as_list_users value) _
        λ cmd. reply-Answers _ _ _ (λ a. success-IsWellFormed _)

  pub handle_set_presence-Answers : (value : js.Value) → Answers (handle_set_presence js value)
  unfolding handle_set_presence
  handle_set_presence-Answers value =
      payload-Answers "" (js.as_set_presence value) _
        λ cmd. reply-Answers _ _ _ (λ a. success-IsWellFormed _)

  pub handle_create_group-Answers :
      (millis rnd : ℕ) (value : js.Value) → Answers (handle_create_group js millis rnd value)
  unfolding handle_create_group
  handle_create_group-Answers millis rnd value =
      payload-Answers "" (js.as_create_group value) _
        λ cmd. reply-Answers _ _ _ (λ a. success-IsWellFormed _)

  pub handle_join_group-Answers : (value : js.Value) → Answers (handle_join_group js value)
  unfolding handle_join_group
  handle_join_group-Answers value = payload-Answers "" (js.as_join_group value) _ λ cmd. record {
    at = λ c.
        (if-Answers (ok_or false (group_exists cmd.group_id c).0) _ _
            (reply-Answers _ _ _ (λ a. success-IsWellFormed _)) (refuse-Answers _)).at
          (group_exists cmd.group_id c).1;
  }

  pub handle_leave_group-Answers : (value : js.Value) → Answers (handle_leave_group js value)
  unfolding handle_leave_group
  handle_leave_group-Answers value =
      payload-Answers "" (js.as_leave_group value) _
        λ cmd. reply-Answers _ _ _ (λ a. success-IsWellFormed _)

  pub handle_my_groups-Answers : (value : js.Value) → Answers (handle_my_groups js value)
  unfolding handle_my_groups
  handle_my_groups-Answers value =
      payload-Answers "" (js.as_my_groups value) _
        λ cmd. reply-Answers _ _ _ (λ a. success-IsWellFormed _)

  pub handle_group_members-Answers : (value : js.Value) → Answers (handle_group_members js value)
  unfolding handle_group_members
  handle_group_members-Answers value =
      payload-Answers "" (js.as_group_members value) _
        λ cmd. reply-Answers _ _ _ (λ a. success-IsWellFormed _)

  pub handle_set_status-Answers :
      (now : ℕ) (value : js.Value) → Answers (handle_set_status js now value)
  unfolding handle_set_status
  handle_set_status-Answers now value =
      payload-Answers "" (js.as_set_status value) _
        λ cmd. reply-Answers _ _ _ (λ a. success-IsWellFormed _)

  pub handle_clear_status-Answers : (value : js.Value) → Answers (handle_clear_status js value)
  unfolding handle_clear_status
  handle_clear_status-Answers value =
      payload-Answers "" (js.as_clear_status value) _
        λ cmd. reply-Answers _ _ _ (λ a. success-IsWellFormed _)

  pub handle_get_stories-Answers :
      (now : ℕ) (value : js.Value) → Answers (handle_get_stories js now value)
  unfolding handle_get_stories
  handle_get_stories-Answers now value = reply-Answers _ _ _ (λ a. success-IsWellFormed _)
