-- ===== src/Sockets/Steady.antt =====
-- No frame of a daemon changes who is connected (hub/app/api/routes/ws.py).
use ampla.Shared.{
  ℕ, String, Bool, true, false, ◌≡◌, refl, ◌∙◌, Option, none, some, inl, inr, Bool-cases, ltb, leb,
  ◌+◌, ◌-◌, ◌*◌,
}
use ampla.RateLimit.{allow, bucket_allow}
use ampla.Delegations
use ampla.Sockets.Frames.{
  agent_activity, ping, SendMessageFrame, ClientFrame, hello, pong, send_message, ack, activity,
  autorespond_report, approval_request, delegate, kanban_action, scheduled_task_report,
}
use ampla.Sockets.Server.{Server, Moment, After, in_session}
use ampla.Sockets.Handlers.{
  confirmed, task_sender, task_of, assigned, notified, within_limit, handle_send, handle_ack,
  handle_autorespond_report, handle_scheduled_task_report, handle_approval_request, handle_delegate,
  handle_kanban_action, handle_broadcast,
}
use ampla.Sockets.Route.{
  SocketSettings, Connection, Input, received, beat, gone, on_frame, on_text, sending, to_group,
  metered, step, max_malformed_frames,
}
use ampla.Sockets.Kept.{
  Kept, registry-send_quietly, registry-broadcast_activity, registry-notify_board, send_error-Kept,
  or_error-Kept, or_leave-Kept, dispatch-Kept, dispatched-Kept, confirmed-Kept, dispatch_all-Kept,
}

module _ (config : SocketSettings) (ws : ℕ) (slug : String) where
  broadcast-Kept :
      (t : Moment) (f : SendMessageFrame) (s : Server) → Kept s (handle_broadcast t ws slug f s).1
  unfolding handle_broadcast
  broadcast-Kept t f s =
      let granted = allow s.broadcast_limiter t.clock slug in
      within granted.0 f.in_reply_to refl (record s { broadcast_limiter = granted.1 })
    where
      within :
          (ok : Bool) (reply : Option ℕ)
          → f.in_reply_to ≡ reply
          → (s : Server) → Kept s (within_limit t ws slug f ok s).1
      within false reply e s = send_error-Kept t ws "rate_limited" s
      within true (some id) e s = rw e (send_error-Kept t ws "invalid_input" s)
      within true none e s = rw e (
          or_error-Kept t ws _ _ (λ sent after.
            registry-send_quietly t.alive _ ws _ ∙ dispatch_all-Kept t ws slug sent.0 after))

  sending-Kept :
      (t : Moment) (f : SendMessageFrame) (s : Server) → Kept s (sending config ws slug t f s).1
  unfolding handle_send
  sending-Kept t f s = elim (Bool-cases (to_group f.to)) [
    | inl e ↦ rw e (broadcast-Kept t f s)
    | inr e ↦ rw e (or_error-Kept t ws _ _ (λ m after. dispatch-Kept t ws m after))
  ]

  metered-Kept :
      (t : Moment) (conn : Connection) (handler : Server → After) (s : Server)
      → Kept s (handler s).1
      → Kept s (metered config ws slug t conn handler s).2
  metered-Kept t conn handler s h = elim (Bool-cases (bucket_allow conn.bucket t.clock).0) [
    | inl e ↦ rw e h
    | inr e ↦ rw e (send_error-Kept t ws "rate_limited" s)
  ]

  delegate-Kept :
      (t : Moment) (to task context : String) (s : Server)
      → Kept s (handle_delegate t ws slug to task context s).1
  unfolding handle_delegate
  delegate-Kept t to task context s =
      or_error-Kept t ws (assigned t ws slug)
        (in_session (Delegations.delegate (task_sender t.env) t.env slug to task context) s)
        (λ d after. dispatched-Kept t ws slug (task_of d after.db) after)

  on_frame-Kept :
      (t : Moment) (frame : ClientFrame) (conn : Connection) (s : Server)
      → Kept s (on_frame config ws slug t frame conn s).2
  unfolding on_frame handle_ack handle_autorespond_report handle_scheduled_task_report
      handle_approval_request handle_kanban_action
  on_frame-Kept t hello conn s = send_error-Kept t ws "bad_frame" s
  on_frame-Kept t pong conn s = refl
  on_frame-Kept t (ack id) conn s =
      or_leave-Kept t ws (confirmed t ws slug) _ (confirmed-Kept t ws slug)
  on_frame-Kept t (activity state) conn s =
      registry-broadcast_activity t.alive (agent_activity slug state) s.manager
  on_frame-Kept t (autorespond_report r) conn s = or_leave-Kept t ws _ _ (λ a after. refl)
  on_frame-Kept t (approval_request trigger to body) conn s =
      or_leave-Kept t ws _ _ (λ a after. refl)
  on_frame-Kept t (scheduled_task_report id status) conn s =
      or_leave-Kept t ws _ _ (λ a after. refl)
  on_frame-Kept t (delegate to task context) conn s =
      metered-Kept t conn (handle_delegate t ws slug to task context) s
        (delegate-Kept t to task context s)
  on_frame-Kept t (kanban_action board_id action) conn s =
      metered-Kept t conn (handle_kanban_action t ws slug board_id action) s (
        or_error-Kept t ws (notified t ws slug) _
          (λ d after. registry-notify_board t.alive d.0 d.1 d.2 d.3 after.manager))
  on_frame-Kept t (send_message f) conn s =
      metered-Kept t conn (sending config ws slug t f) s (sending-Kept t f s)

  on_text-Kept :
      (t : Moment) (frame : Option ClientFrame) (conn : Connection) (s : Server)
      → Kept s (on_text config ws slug t frame conn s).2
  on_text-Kept t (some frame) conn s = on_frame-Kept t frame conn s
  on_text-Kept t none conn s = elim (Bool-cases (leb max_malformed_frames (conn.malformed + 1))) [
    | inl e ↦ rw e refl
    | inr e ↦ rw e (send_error-Kept t ws "bad_frame" s)
  ]

  pub step-Kept :
      (i : Input) (conn : Connection) (s : Server) → Kept s (step config ws slug i conn s).2
  unfolding step
  step-Kept (received t size frame) conn s =
      elim (Bool-cases (ltb config.ws_max_frame_bytes size)) [
        | inl e ↦ rw e refl
        | inr e ↦ rw e (on_text-Kept t frame (record conn { last_seen = t.clock }) s)
      ]
  step-Kept (beat t) conn s = elim (Bool-cases conn.beats) [
    | inr e ↦ rw e refl
    | inl e ↦ elim (Bool-cases (ltb (2 * config.ws_heartbeat) (t.clock - conn.last_seen))) [
      | inl f ↦ rw (e, f) refl
      | inr f ↦ rw (e, f) (registry-send_quietly t.alive ping ws s.manager)
    ]
  ]
  step-Kept (gone t) conn s = refl
