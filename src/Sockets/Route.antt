-- ===== src/Sockets/Route.antt =====
-- The connection of a daemon from its hello to its end (hub/app/api/routes/ws.py,
-- `_run_agent_connection`). Each input comes at its own moment.
use ampla.Shared.{
  ℕ, ◌+◌, ◌-◌, ◌*◌, String, Bool, true, false, Option, none, some, List, [], ◌∷◌, ltb, leb,
  if◌then◌else◌,
}
use ampla.Models.{Agent, Group, Message}
use ampla.Hub.{Env}
use ampla.Hub.Exec.{Service, Result, ok, err, hung, pure, ◌>>=◌}
use ampla.Auth.Security.{Primitives}
use ampla.RateLimit.{TokenBucket, new_bucket, bucket_allow}
use ampla.Messages.History.{pending_for}
use ampla.Agents.Service.{authenticate_key}
use ampla.Agents.Groups.{group_name, list_with_members}
use ampla.Sockets.{
  connect_agent, disconnect_agent, online_slugs, broadcast_presence, broadcast_activity,
}
use ampla.Sockets.Frames.{
  hello_ack, presence, online, offline, agent_activity, idle, ping, SendMessageFrame, ClientFrame,
  hello, pong, send_message, ack, activity, autorespond_report, approval_request, delegate,
  kanban_action, scheduled_task_report,
}
use ampla.Sockets.Server.{
  Server, Moment, Loop, goes_on, leaves, stuck, After, in_session, manage, answer, send_error,
  close_socket,
}
use ampla.Sockets.Handlers.{
  handle_send, handle_ack, handle_autorespond_report, handle_scheduled_task_report,
  handle_approval_request, handle_delegate, handle_kanban_action, handle_broadcast,
}

-- The settings of the sockets (hub/app/core/config.py); the time between two heartbeats is 0 where
-- there are none.
pub record SocketSettings : Type 0 where
  pub ws_max_frame_bytes : ℕ
  pub ws_messages_per_minute : ℕ
  pub ws_heartbeat : ℕ

-- MAX_MALFORMED_FRAMES
abbrev pub max_malformed_frames : ℕ
max_malformed_frames = 5

-- The local variables of the loop; `beats` while the heartbeat runs.
pub record Connection : Type 0 where
  pub bucket : TokenBucket
  pub malformed : ℕ
  pub last_seen : ℕ
  pub beats : Bool

-- A text of so many bytes with the frame that it is, the turn of the heartbeat, the end of the client.
pub data Input : Type 0 where
  received : Moment → ℕ → Option ClientFrame → Input
  beat : Moment → Input
  gone : Moment → Input

abbrev pub moment_of : Input → Moment
moment_of (received t size frame) = t
moment_of (beat t) = t
moment_of (gone t) = t

abbrev pub Turn : Type 0
Turn = Loop × Connection × Server

abbrev pub turn : Connection → After → Turn
turn conn (loop, s) = (loop, conn, s)

-- `to.startswith("@")`
abbrev pub to_group : String → Bool
to_group to = elim (group_name to) [ none ↦ false | some name ↦ true ]

module _ (config : SocketSettings) (ws : ℕ) (slug : String) where
  -- The frames that write count against the bucket.
  abbrev pub metered : Moment → Connection → (Server → After) → Server → Turn
  metered t conn handler s =
      let granted = bucket_allow conn.bucket t.clock in
      turn (record conn { bucket = granted.1 })
        (if granted.0 then handler s else send_error t ws "rate_limited" s)

  abbrev pub sending : Moment → SendMessageFrame → Server → After
  sending t f s =
      if to_group f.to then handle_broadcast t ws slug f s else handle_send t ws slug f s

  unfoldable pub on_frame : Moment → ClientFrame → Connection → Server → Turn
  on_frame t hello conn s = turn conn (send_error t ws "bad_frame" s)
  on_frame t pong conn s = (goes_on, conn, s)
  on_frame t (ack message_id) conn s = turn conn (handle_ack t ws slug message_id s)
  on_frame t (activity state) conn s =
      (goes_on, conn, manage (broadcast_activity t.alive (agent_activity slug state)) s)
  on_frame t (autorespond_report r) conn s = turn conn (handle_autorespond_report t ws slug r s)
  on_frame t (approval_request trigger to draft_body) conn s =
      turn conn (handle_approval_request t ws slug trigger to draft_body s)
  on_frame t (delegate to task context) conn s =
      metered t conn (handle_delegate t ws slug to task context) s
  on_frame t (kanban_action board_id action) conn s =
      metered t conn (handle_kanban_action t ws slug board_id action) s
  on_frame t (scheduled_task_report id status) conn s =
      turn conn (handle_scheduled_task_report t ws slug id status s)
  on_frame t (send_message f) conn s = metered t conn (sending t f) s

  abbrev pub on_text : Moment → Option ClientFrame → Connection → Server → Turn
  on_text t (some frame) conn s = on_frame t frame conn s
  on_text t none conn s =
      turn (record conn { malformed = conn.malformed + 1 })
        (if leb max_malformed_frames (conn.malformed + 1)
          then close_socket ws 4429 s
          else send_error t ws "bad_frame" s)

  -- The heartbeat: a connection without a frame for two turns is closed.
  abbrev pub on_beat : Moment → Connection → Server → Turn
  on_beat t conn s =
      if ltb (2 * config.ws_heartbeat) (t.clock - conn.last_seen)
      then turn conn (close_socket ws 4408 s)
      else (goes_on, record conn { beats = t.alive ws }, (answer t ws ping s).1)

  unfoldable pub step : Input → Connection → Server → Turn
  step (received t size frame) conn s =
      let seen = record conn { last_seen = t.clock } in
      if ltb config.ws_max_frame_bytes size
      then turn seen (close_socket ws 4429 s)
      else on_text t frame seen s
  step (beat t) conn s = if conn.beats then on_beat t conn s else (goes_on, conn, s)
  step (gone t) conn s = (leaves, conn, s)

  -- What is told of an agent that was removed.
  abbrev pub departed : Moment → Bool → Server → Server
  departed t false s = s
  departed t true s =
      manage
        (λ m.
          broadcast_activity t.alive (agent_activity slug idle)
            (broadcast_presence t.alive (presence slug offline) m))
        s

  -- The `finally` of the loop
  unfoldable pub finish : Moment → Server → Server
  finish t s =
      let removed = disconnect_agent slug ws s.manager in
      departed t removed.0 (record s { manager = removed.1 })

  abbrev pub concluded : Moment → Turn → Turn → Turn
  concluded t (goes_on, conn, s) rest = rest
  concluded t (leaves, conn, s) rest = (leaves, conn, finish t s)
  concluded t (stuck, conn, s) rest = (stuck, conn, s)

  -- The loop over the inputs.
  unfoldable pub serve : List Input → Connection → Server → Turn
  serve [] conn s = (goes_on, conn, s)
  serve (i ∷ is) conn s =
      let next = step i conn s in
      let rest = serve is next.1 next.2 in concluded (moment_of i) next rest

  -- ---- the opening ----

  abbrev pub Snapshot : Type 0
  Snapshot = Agent × List Message × List (Group × List String)

  abbrev pub authenticated : Env → Option Agent → Service (Option Snapshot)
  authenticated env none = pure none
  authenticated env (some agent) = do
    pending ← pending_for env slug
    groups ← list_with_members
    pure (some (agent, pending, groups))

  abbrev pub opening : Primitives → Env → String → Service (Option Snapshot)
  opening p env key = do agent ← authenticate_key p slug key; authenticated env agent

  abbrev pub fresh : ℕ → Connection
  fresh clock = record {
    bucket = new_bucket config.ws_messages_per_minute none clock;
    malformed = 0;
    last_seen = clock;
    beats = ltb 0 config.ws_heartbeat;
  }

  abbrev pub welcomed : Moment → Snapshot → Server → Turn
  welcomed t (agent, pending, groups) s =
      let joined =
        manage (λ m. broadcast_presence t.alive (presence slug online) (connect_agent slug ws m))
          s in
      turn (fresh t.clock) (
        answer t ws
          (hello_ack (some slug) (online_slugs joined.manager) (some agent) pending groups
            s.auto_responder_enabled)
          joined)

  -- The code that closes a connection without a valid key
  abbrev pub turned_away : Moment → Server → Turn
  turned_away t s =
      let refused = send_error t ws "auth_failed" s in
      turn (fresh t.clock) (if t.alive ws then close_socket ws 4401 refused.1 else refused)

  abbrev pub admitted : Moment → Result (Option Snapshot) × Server → Turn
  admitted t (ok none, s) = turned_away t s
  admitted t (ok (some snapshot), s) = welcomed t snapshot s
  admitted t (err e, s) = (leaves, fresh t.clock, s)
  admitted t (hung, s) = (stuck, fresh t.clock, s)

  -- Up to the loop: what raises here, the answer included, leaves without the `finally`.
  unfoldable pub open_connection : Primitives → Moment → String → Server → Turn
  open_connection p t key s = admitted t (in_session (opening p t.env key) s)
