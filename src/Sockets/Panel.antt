-- ===== src/Sockets/Panel.antt =====
-- The requests of the panel that reach the connections (hub/app/api/routes/admin.py, agents.py and
-- messages.py, with `require_admin` of hub/app/api/deps.py).
use ampla.Shared.{ℕ, String, Bool, some, List, [], ◌∷◌, if◌then◌else◌}
use ampla.Text.{show_int}
use ampla.Models.{User, Agent, AgentKey, Message, is_admin}
use ampla.Hub.Exec.{Service, Result, ok, err, hung, ◌>>=◌}
use ampla.RateLimit.{allow}
use ampla.Messages.Send.{Draft, Sent, assert_sender_owned, send_as_user, broadcast_as_user}
use ampla.Agents.Settings.{AgentSettingsUpdate}
use ampla.Agents.Service.{revoke_key, update_settings}
use ampla.Agents.Groups.{resolve_recipients}
use ampla.Presets.{apply}
use ampla.Schedules.KillSwitch.{set_kill_switch}
use ampla.Sockets.{ConnectionManager, kick_agent, broadcast_presence, send_to_agent, notify_message}
use ampla.Sockets.Frames.{
  ServerFrame, message_delivery, presence, offline, settings_update, kill_switch,
}
use ampla.Sockets.Server.{Server, Moment, in_session, manage}

-- 429, 403, or what the service answers.
pub data Reply (A : Type 0) : Type 0 where
  too_many forbidden : Reply A
  replied : Result A → Reply A

-- What follows a service call that succeeds.
abbrev pub replying :
    {A B : Type 0} → (A → Server → Reply B × Server) → Result A × Server → Reply B × Server
replying go_on (ok a, s) = go_on a s
replying go_on (err e, s) = (replied (err e), s)
replying go_on (hung, s) = (replied hung, s)

abbrev pub pushing : {A : Type 0} → (A → Server → Server) → A → Server → Reply A × Server
pushing push a s = (replied (ok a), push a s)

module _ (t : Moment) where
  -- ---- agents ----

  abbrev pub dropped : String → ConnectionManager ServerFrame → ConnectionManager ServerFrame
  dropped slug m =
      let kicked = kick_agent slug m in
      if kicked.0 then broadcast_presence t.alive (presence slug offline) kicked.1 else kicked.1

  unfoldable pub handle_revoke_key : User → String → ℕ → Server → Reply AgentKey × Server
  handle_revoke_key user slug key_id s =
      replying (pushing (λ key. manage (dropped slug)))
        (in_session (revoke_key t.env user slug key_id) s)

  -- The settings go to the daemon at once.
  abbrev push_settings : String → Agent → Server → Server
  push_settings slug agent s =
      manage (λ m. (send_to_agent t.alive slug (settings_update agent) m).1) s

  unfoldable pub handle_update_settings :
      User → String → AgentSettingsUpdate → Server → Reply Agent × Server
  handle_update_settings user slug body s =
      replying (pushing (push_settings slug)) (in_session (update_settings user slug body) s)

  unfoldable pub handle_apply_preset : User → String → ℕ → Server → Reply Agent × Server
  handle_apply_preset user slug preset_id s =
      replying (pushing (push_settings slug)) (in_session (apply user slug preset_id) s)

  -- ---- the kill switch ----

  abbrev pub flipped : Bool → Server → Server
  flipped enabled s =
      manage (broadcast_presence t.alive (kill_switch enabled))
        (record s { auto_responder_enabled = enabled })

  unfoldable pub handle_set_kill_switch : User → Bool → Server → Reply Bool × Server
  handle_set_kill_switch user enabled s =
      if is_admin user.role
      then replying (pushing flipped) (in_session (set_kill_switch user enabled) s)
      else (forbidden, s)

  -- ---- messages ----

  abbrev push_message : String → String → Message → Server → Server
  push_message from_agent to_agent m s =
      manage
        (λ n.
          notify_message t.alive (message_delivery m) from_agent to_agent
            (send_to_agent t.alive to_agent (message_delivery m) n).1)
        s

  unfoldable pub handle_send_message : User → Draft → Server → Reply Message × Server
  handle_send_message user d s =
      let granted = allow s.message_limiter t.clock (show_int user.id) in
      let limited = record s { message_limiter = granted.1 } in
      if granted.0
      then replying (pushing (push_message d.from_slug d.to_slug))
          (in_session (send_as_user t.env user d) limited)
      else (too_many, limited)

  abbrev pub push_all : String → List Message → Server → Server
  push_all from_agent [] s = s
  push_all from_agent (m ∷ ms) s = push_all from_agent ms (push_message from_agent m.to_agent m s)

  abbrev pub to_recipients : User → Draft → Service Sent
  to_recipients user d = do
    recipients ← resolve_recipients d.to_slug d.from_slug
    broadcast_as_user t.env user (record d { group = some d.to_slug }) recipients

  -- The sender is authorized before its limiter is touched.
  abbrev pub owned_broadcast : User → Draft → Server → Reply Sent × Server
  owned_broadcast user d s =
      let granted = allow s.broadcast_limiter t.clock d.from_slug in
      let limited = record s { broadcast_limiter = granted.1 } in
      if granted.0
      then replying (pushing (λ (sent : Sent). push_all d.from_slug sent.0))
          (in_session (to_recipients user d) limited)
      else (too_many, limited)

  -- `broadcast`, with the group as the draft's recipient
  unfoldable pub handle_user_broadcast : User → Draft → Server → Reply Sent × Server
  handle_user_broadcast user d s =
      replying (λ _. owned_broadcast user d) (in_session (assert_sender_owned user d.from_slug) s)
