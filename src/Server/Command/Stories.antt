-- ===== src/Server/Command/Stories.antt =====
-- The handlers of tintin-server/src/main.rs for stories.
use tintin.Prelude.{ℕ, none, some}
use tintin.Server.Command.Payload.{Json}
use tintin.Server.Command.Response.{
  success, Handled, reply, payload, database_error, json_created_at, json_stories,
}
use tintin.Server.Statuses.{set_status, clear_status, get_active_statuses}

module _ (js : Json) where
  unfoldable pub handle_set_status : ℕ → js.Value → Handled js.Value
  handle_set_status now value = payload "" (js.as_set_status value) λ cmd.
      reply (set_status now cmd.user_id cmd.content) (λ ts. success (some (json_created_at ts)))
        database_error

  unfoldable pub handle_clear_status : js.Value → Handled js.Value
  handle_clear_status value =
      payload "" (js.as_clear_status value)
        λ cmd. reply (clear_status cmd.user_id) (λ _. success none) database_error

  unfoldable pub handle_get_stories : ℕ → js.Value → Handled js.Value
  handle_get_stories now value =
      reply (get_active_statuses now) (λ statuses. success (some (json_stories statuses)))
        database_error
