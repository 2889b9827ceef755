-- ===== src/Server/Consistency/RoomRequests.antt =====
-- The handlers of tintin-server/src/main.rs for users, messages, groups and stories, against the
-- invariant of the tables.
use tintin.Prelude.{ℕ, false, String, Option, none, some, text_eq, number_eq}
use tintin.Server.Db.{ok_or}
use tintin.Server.Db.Keep.{Preserves, Preserves-query}
use tintin.Server.Users.{get_key_bundle, list_users}
use tintin.Server.Groups.{group_exists, list_my_groups, list_group_members}
use tintin.Server.Statuses.{get_active_statuses}
use tintin.Server.Consistency.{IsConsistent}
use tintin.Server.Consistency.Operations.{
  register_user-IsConsistent, set_presence-IsConsistent, queue_message-IsConsistent,
  fetch_messages-IsConsistent,
}
use tintin.Server.Consistency.Rooms.{
  create_group-IsConsistent, add_group_member-IsConsistent, remove_group_member-IsConsistent,
  set_status-IsConsistent, clear_status-IsConsistent,
}
use tintin.Server.Command.Payload.{Json}
use tintin.Server.Command.Directory.{
  handle_register, handle_fetch_keys, handle_send, handle_receive, handle_list_users,
  handle_set_presence,
}
use tintin.Server.Command.Rooms.{
  handle_create_group, handle_join_group, handle_leave_group, handle_my_groups,
  handle_group_members,
}
use tintin.Server.Command.Stories.{handle_set_status, handle_clear_status, handle_get_stories}
use tintin.Server.Consistency.Keeps.{Keeps, reply-Keeps, refuse-Keeps, payload-Keeps, if-Keeps}

list_users-IsConsistent : (q : Option String) → Preserves IsConsistent (list_users q)
unfolding list_users
list_users-IsConsistent none = Preserves-query _
list_users-IsConsistent (some q) = Preserves-query _

module _ (js : Json) where
  group_exists-IsConsistent : (g : String) → Preserves IsConsistent (group_exists g)
  unfolding group_exists
  group_exists-IsConsistent g = Preserves-query _

  pub handle_register-Keeps : (value : js.Value) → Keeps (handle_register js value)
  unfolding handle_register
  handle_register-Keeps value =
      payload-Keeps "register" (js.as_register value) _
        λ cmd. reply-Keeps _ _ _ (register_user-IsConsistent _ _ _)

  pub handle_fetch_keys-Keeps : (value : js.Value) → Keeps (handle_fetch_keys js value)
  unfolding handle_fetch_keys get_key_bundle
  handle_fetch_keys-Keeps value =
      payload-Keeps "fetch_keys" (js.as_fetch_keys value) _
        λ cmd. reply-Keeps _ _ _ (Preserves-query _)

  pub handle_send-Keeps : (value : js.Value) → Keeps (handle_send js value)
  unfolding handle_send
  handle_send-Keeps value =
      payload-Keeps "send" (js.as_send value) _
        λ cmd. reply-Keeps _ _ _ (queue_message-IsConsistent js.envelopes cmd.envelope)

  pub handle_receive-Keeps :
      (clock : ℕ → ℕ) (value : js.Value) → Keeps (handle_receive js clock value)
  unfolding handle_receive
  handle_receive-Keeps clock value =
      payload-Keeps "receive" (js.as_receive value) _
        λ cmd. reply-Keeps _ _ _ (fetch_messages-IsConsistent js.envelopes clock cmd.user_id)

  pub handle_list_users-Keeps : (value : js.Value) → Keeps (handle_list_users js value)
  unfolding handle_list_users
  handle_list_users-Keeps value =
      payload-Keeps "" (js.as_list_users value) _
        λ cmd. reply-Keeps _ _ _ (list_users-IsConsistent cmd.query)

  pub handle_set_presence-Keeps : (value : js.Value) → Keeps (handle_set_presence js value)
  unfolding handle_set_presence
  handle_set_presence-Keeps value =
      payload-Keeps "" (js.as_set_presence value) _
        λ cmd. reply-Keeps _ _ _ (set_presence-IsConsistent _ _)

  pub handle_create_group-Keeps :
      (millis rnd : ℕ) (value : js.Value) → Keeps (handle_create_group js millis rnd value)
  unfolding handle_create_group
  handle_create_group-Keeps millis rnd value =
      payload-Keeps "" (js.as_create_group value) _
        λ cmd. reply-Keeps _ _ _ (create_group-IsConsistent millis rnd _ _)

  pub handle_join_group-Keeps : (value : js.Value) → Keeps (handle_join_group js value)
  unfolding handle_join_group
  handle_join_group-Keeps value = payload-Keeps "" (js.as_join_group value) _ λ cmd. record {
    at = λ c h.
        (if-Keeps (ok_or false (group_exists cmd.group_id c).0) _ _
            (reply-Keeps _ _ _ (add_group_member-IsConsistent _ _)) (refuse-Keeps _)).at
          (group_exists cmd.group_id c).1 ((group_exists-IsConsistent cmd.group_id).at c h);
  }

  pub handle_leave_group-Keeps : (value : js.Value) → Keeps (handle_leave_group js value)
  unfolding handle_leave_group
  handle_leave_group-Keeps value =
      payload-Keeps "" (js.as_leave_group value) _
        λ cmd. reply-Keeps _ _ _ (remove_group_member-IsConsistent _ _)

  pub handle_my_groups-Keeps : (value : js.Value) → Keeps (handle_my_groups js value)
  unfolding handle_my_groups list_my_groups
  handle_my_groups-Keeps value =
      payload-Keeps "" (js.as_my_groups value) _ λ cmd. reply-Keeps _ _ _ (Preserves-query _)

  pub handle_group_members-Keeps : (value : js.Value) → Keeps (handle_group_members js value)
  unfolding handle_group_members list_group_members
  handle_group_members-Keeps value =
      payload-Keeps "" (js.as_group_members value) _ λ cmd. reply-Keeps _ _ _ (Preserves-query _)

  pub handle_set_status-Keeps :
      (now : ℕ) (value : js.Value) → Keeps (handle_set_status js now value)
  unfolding handle_set_status
  handle_set_status-Keeps now value =
      payload-Keeps "" (js.as_set_status value) _
        λ cmd. reply-Keeps _ _ _ (set_status-IsConsistent now _ _)

  pub handle_clear_status-Keeps : (value : js.Value) → Keeps (handle_clear_status js value)
  unfolding handle_clear_status
  handle_clear_status-Keeps value =
      payload-Keeps "" (js.as_clear_status value) _
        λ cmd. reply-Keeps _ _ _ (clear_status-IsConsistent _)

  pub handle_get_stories-Keeps :
      (now : ℕ) (value : js.Value) → Keeps (handle_get_stories js now value)
  unfolding handle_get_stories get_active_statuses
  handle_get_stories-Keeps now value = reply-Keeps _ _ _ (Preserves-query _)
