-- ===== src/Schedules/KillSwitch.antt =====
-- The instance-wide kill switch (hub/app/repositories/hub_state_repo.py,
-- hub/app/services/admin_service.py).
use ampla.Shared.{Bool, true, Option, none, some}
use ampla.Models.{User}
use ampla.Hub.Exec.{Service, ok, pure, audit, ◌>>◌}

abbrev pub enabled_or : Option Bool → Bool
enabled_or none = true
enabled_or (some b) = b

-- HubStateRepository.get creates the row on first use.
unfoldable pub get_kill_switch : Service Bool
get_kill_switch db = (
  ok (enabled_or db.auto_responder_enabled),
  record db { auto_responder_enabled = some (enabled_or db.auto_responder_enabled) },
)

unfoldable pub set_auto_responder_enabled : Bool → Service Unit
set_auto_responder_enabled enabled db = (ok tt, record db { auto_responder_enabled = some enabled })

unfoldable pub set_kill_switch : User → Bool → Service Bool
set_kill_switch actor enabled = do
  set_auto_responder_enabled enabled
  audit "kill_switch_toggled" actor.email
  pure enabled
