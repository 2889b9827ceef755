-- ===== src/Server/Command/Rooms.antt =====
-- The handlers of tintin-server/src/main.rs for groups.
use tintin.Prelude.{ℕ, false, none, some, if◌then◌else◌}
use tintin.Server.Command.Payload.{Json}
use tintin.Server.Command.Response.{
  success, Handled, reply, refuse, payload, group_not_found, database_error, json_group_id,
  json_groups, json_members,
}
use tintin.Server.Db.{ok_or}
use tintin.Server.Groups.{
  create_group, group_exists, add_group_member, remove_group_member, list_my_groups,
  list_group_members,
}

module _ (js : Json) where
  unfoldable pub handle_create_group : ℕ → ℕ → js.Value → Handled js.Value
  handle_create_group millis rnd value = payload "" (js.as_create_group value) λ cmd.
      reply (create_group millis rnd cmd.name cmd.creator)
        (λ group_id. success (some (json_group_id group_id))) database_error

  unfoldable pub handle_join_group : js.Value → Handled js.Value
  handle_join_group value = payload "" (js.as_join_group value) λ cmd c.
      let (found, c') = group_exists cmd.group_id c in
      (if ok_or false found
          then reply (add_group_member cmd.group_id cmd.user_id) (λ _. success none) database_error
          else refuse (group_not_found cmd.group_id))
        c'

  unfoldable pub handle_leave_group : js.Value → Handled js.Value
  handle_leave_group value =
      payload "" (js.as_leave_group value) λ cmd.
        reply (remove_group_member cmd.group_id cmd.user_id) (λ _. success none) database_error

  unfoldable pub handle_my_groups : js.Value → Handled js.Value
  handle_my_groups value = payload "" (js.as_my_groups value) λ cmd.
      reply (list_my_groups cmd.user_id) (λ groups. success (some (json_groups groups)))
        database_error

  unfoldable pub handle_group_members : js.Value → Handled js.Value
  handle_group_members value = payload "" (js.as_group_members value) λ cmd.
      reply (list_group_members cmd.group_id) (λ members. success (some (json_members members)))
        database_error
