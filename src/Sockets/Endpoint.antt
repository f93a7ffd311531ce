-- ===== src/Sockets/Endpoint.antt =====
-- The endpoint: the first frame decides whether a daemon or an observer of the panel connects
-- (hub/app/api/routes/ws.py, `ws_endpoint` and `_run_observer_connection`).
use ampla.Shared.{ℕ, String, Option, none, some, List, [], ◌∷◌, map, ltb, if◌then◌else◌}
use ampla.Text.{is_empty}
use ampla.Models.{User, Agent}
use ampla.Hub.Exec.{Service, Result, ok, err, hung, pure, ◌>>=◌}
use ampla.Auth.Security.{Primitives, AuthSettings}
use ampla.Auth.Login.{get_user_by_token}
use ampla.Agents.Service.{list_for_user}
use ampla.Sockets.{ObserverConn, add_observer, remove_observer, online_slugs}
use ampla.Sockets.Frames.{hello_ack}
use ampla.Sockets.Server.{
  Server, Moment, goes_on, leaves, stuck, After, in_session, manage, answer, send_error,
  close_socket,
}
use ampla.Sockets.Route.{SocketSettings, Input, received, beat, gone, Turn, open_connection, serve}

pub record HelloFrame : Type 0 where
  pub agent_id : Option String
  pub key : Option String
  pub jwt : Option String

-- What comes first: the end of the client, nothing within the timeout, or a text of so many bytes with
-- the hello that it is.
pub data Greeting : Type 0 where
  gave_up timed_out : Greeting
  said : ℕ → Option HelloFrame → Greeting

-- a text that is there and not empty
abbrev pub given : Option String → Option String
given none = none
given (some s) = if is_empty s then none else some s

module _ (config : SocketSettings) (p : Primitives) (auth : AuthSettings) (ws : ℕ) where
  -- ---- observers ----

  abbrev with_agents : Option User → Service (Option (User × List Agent))
  with_agents none = pure none
  with_agents (some user) = do agents ← list_for_user user; pure (some (user, agents))

  abbrev pub recognized : String → Service (Option (User × List Agent))
  recognized token = do user ← get_user_by_token p auth token; with_agents user

  abbrev pub observer_of : User → List Agent → ObserverConn
  observer_of user agents = record {
    ws = ws;
    user_id = user.id;
    role = user.role;
    owned_slugs = map (λ (a : Agent). a.slug) agents;
  }

  abbrev pub watching : Moment → Result (Option (User × List Agent)) × Server → After
  watching t (ok none, s) =
      let refused = send_error t ws "auth_failed" s in
      if t.alive ws then close_socket ws 4401 refused.1 else refused
  watching t (ok (some (user, agents)), s) =
      let joined = manage (add_observer (observer_of user agents)) s in
      answer t ws
        (hello_ack none (online_slugs joined.manager) none [] [] joined.auto_responder_enabled)
        joined
  watching t (err e, s) = (leaves, s)
  watching t (hung, s) = (stuck, s)

  -- The frames of an observer are read and left; no heartbeat runs.
  abbrev pub watch : List Input → Server → After
  watch [] s = (goes_on, s)
  watch (received t size frame ∷ is) s = watch is s
  watch (beat t ∷ is) s = watch is s
  watch (gone t ∷ is) s = (leaves, manage (remove_observer ws) s)

  abbrev pub watch_after : List Input → After → After
  watch_after inputs (goes_on, s) = watch inputs s
  watch_after inputs (leaves, s) = (leaves, s)
  watch_after inputs (stuck, s) = (stuck, s)

  unfoldable pub run_observer_connection : Moment → String → List Input → Server → After
  run_observer_connection t token inputs s =
      watch_after inputs (watching t (in_session (recognized token) s))

  -- ---- the endpoint ----

  abbrev pub serve_after : String → List Input → Turn → After
  serve_after slug inputs (goes_on, conn, s) =
      let done = serve config ws slug inputs conn s in (done.0, done.2)
  serve_after slug inputs (leaves, conn, s) = (leaves, s)
  serve_after slug inputs (stuck, conn, s) = (stuck, s)

  unfoldable pub run_agent_connection : Moment → String → String → List Input → Server → After
  run_agent_connection t slug key inputs s =
      serve_after slug inputs (open_connection config ws slug p t key s)

  abbrev pub or_cookie : Option String → Option String → Option String
  or_cookie (some token) cookie = some token
  or_cookie none cookie = cookie

  abbrev pub without_key : Moment → Option String → List Input → Server → After
  without_key t (some token) inputs s = run_observer_connection t token inputs s
  without_key t none inputs s =
      let refused = send_error t ws "bad_hello" s in
      if t.alive ws then close_socket ws 4400 refused.1 else refused

  abbrev pub with_parts :
      Moment → Option String → Option String → Option String → List Input → Server → After
  with_parts t (some slug) (some key) token inputs s = run_agent_connection t slug key inputs s
  with_parts t (some slug) none token inputs s = without_key t token inputs s
  with_parts t none key token inputs s = without_key t token inputs s

  abbrev pub greeted : Moment → Option HelloFrame → Option String → List Input → Server → After
  greeted t none cookie inputs s = close_socket ws 4400 s
  greeted t (some hello) cookie inputs s =
      with_parts t (given hello.agent_id) (given hello.key)
        (or_cookie (given hello.jwt) (given cookie)) inputs s

  unfoldable pub ws_endpoint : Moment → Greeting → Option String → List Input → Server → After
  ws_endpoint t gave_up cookie inputs s = (leaves, s)
  ws_endpoint t timed_out cookie inputs s = close_socket ws 4400 s
  ws_endpoint t (said size hello) cookie inputs s =
      if ltb config.ws_max_frame_bytes size
      then close_socket ws 4429 s
      else greeted t hello cookie inputs s
