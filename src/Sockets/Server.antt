-- ===== src/Sockets/Server.antt =====
-- The state that the connections share, and how one of them answers (hub/app/api/routes/ws.py).
use ampla.Shared.{ℕ, String, Bool, Option, none, some, [], ◌∷◌, ◌++◌, if◌then◌else◌}
use ampla.Models.{Message}
use ampla.Hub.{Db, Env}
use ampla.Hub.Exec.{
  Service, Result, ok, err, hung, Exception, not_found, conflict, permission_denied, auth_failed,
  account_locked, invalid_input, unexpected,
}
use ampla.RateLimit.{SlidingWindowLimiter}
use ampla.Sockets.{ConnectionManager, send_quietly, send_to_agent, notify_message}
use ampla.Sockets.Frames.{ServerFrame, message_delivery, error_frame}

-- `app.state`, with the database behind the session factory.
pub record Server : Type 0 where
  pub db : Db
  pub manager : ConnectionManager ServerFrame
  pub broadcast_limiter : SlidingWindowLimiter
  pub message_limiter : SlidingWindowLimiter
  pub auto_responder_enabled : Bool

-- What holds while a frame is handled: the settings and the time, the clock of the limits, and which
-- sockets still take a frame.
pub record Moment : Type 0 where
  pub env : Env
  pub clock : ℕ
  pub alive : ℕ → Bool

-- The loop of the connection goes on, or ends with its `finally`; or the handler does not return.
pub data Loop : Type 0 where
  goes_on leaves stuck : Loop

abbrev pub After : Type 0
After = Loop × Server

-- `code` of a DomainError
abbrev pub code_of : Exception → Option String
code_of not_found = some "not_found"
code_of conflict = some "conflict"
code_of permission_denied = some "permission_denied"
code_of auth_failed = some "auth_failed"
code_of account_locked = some "account_locked"
code_of invalid_input = some "invalid_input"
code_of unexpected = none

-- `async with session_factory() as session: …`
abbrev pub in_session : {A : Type 0} → Service A → Server → Result A × Server
in_session call s = let r = call s.db in (r.0, record s { db = r.1 })

abbrev pub manage :
    (ConnectionManager ServerFrame → ConnectionManager ServerFrame) → Server → Server
manage f s = record s { manager = f s.manager }

-- `ws.close(code=…)`
abbrev pub close_socket : ℕ → ℕ → Server → After
close_socket ws code s = (leaves, manage (λ m. record m { closed = m.closed ++ (ws, code) ∷ [] }) s)

module _ (t : Moment) (ws : ℕ) where
  -- `ws.send_json(…)`, which raises on a dead socket
  abbrev pub answer : ServerFrame → Server → After
  answer frame s =
      (if t.alive ws then goes_on else leaves, manage (send_quietly t.alive ws frame) s)

  -- `_send_error`
  abbrev pub send_error : String → Server → After
  send_error code s = answer (error_frame code) s

  abbrev pub told : Option String → Server → After
  told none s = (leaves, s)
  told (some code) s = send_error code s

  -- `try: … except DomainError`
  abbrev pub or_error : {A : Type 0} → (A → Server → After) → Result A × Server → After
  or_error go_on (ok a, s) = go_on a s
  or_error go_on (err e, s) = told (code_of e) s
  or_error go_on (hung, s) = (stuck, s)

-- without a `try`
abbrev pub or_leave : {A : Type 0} → (A → Server → After) → Result A × Server → After
or_leave go_on (ok a, s) = go_on a s
or_leave go_on (err e, s) = (leaves, s)
or_leave go_on (hung, s) = (stuck, s)

abbrev pub carry_on : {A : Type 0} → A → Server → After
carry_on a s = (goes_on, s)

-- `_dispatch`
abbrev pub dispatch : Moment → Message → Server → Bool × Server
dispatch t m s =
    let sent = send_to_agent t.alive m.to_agent (message_delivery m) s.manager in
    (
      sent.0,
      record s {
        manager = notify_message t.alive (message_delivery m) m.from_agent m.to_agent sent.1;
      },
    )
