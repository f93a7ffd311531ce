-- ===== src/Sockets/Ends.antt =====
-- How the connection of a daemon ends (hub/app/api/routes/ws.py, `_run_agent_connection`).
use ampla.Shared.{
  ℕ, ◌+◌, ◌≤◌, ◌<◌, ◌≡◌, refl, ap, ◌∙◌, inl, inr, String, Bool, true, false, eq_nat, eq_string,
  Option, none, some, List, [], ◌∷◌, ◌++◌, arith, Bool-cases, ltb, leb, nat_eq_iff, leb-false, ◌*◌,
  ◌-◌,
}
use ampla.Agents.Names.{eq_refl}
use ampla.Sockets.{dict_get, dict_del, is_current, disconnect_agent, broadcast_presence}
use ampla.Sockets.Registry.{get-del}
use ampla.Sockets.Kept.{Kept, registry-broadcast_presence, registry-broadcast_activity}
use ampla.Sockets.Frames.{
  agent_activity, idle, presence, offline, ClientFrame, hello, pong, send_message, ack, activity,
  autorespond_report, approval_request, delegate, kanban_action, scheduled_task_report,
}
use ampla.Sockets.Server.{Server, Moment, goes_on, leaves, stuck, send_error}
use ampla.Sockets.Route.{
  SocketSettings, Connection, Turn, turn, concluded, Input, received, beat, gone,
  max_malformed_frames, moment_of, on_frame, on_text, step, departed, finish, serve,
}

-- ---- the registry after the end ----

module _ (config : SocketSettings) (ws : ℕ) (slug : String) where
  pub departed-Kept :
      (t : Moment) (removed : Bool) (s : Server) → Kept s (departed config ws slug t removed s)
  departed-Kept t false s = refl
  departed-Kept t true s =
      registry-broadcast_activity t.alive (agent_activity slug idle)
        (broadcast_presence t.alive (presence slug offline) s.manager)
      ∙ registry-broadcast_presence t.alive (presence slug offline) s.manager

  finish-closed :
      (t : Moment) (s : Server)
      → dict_get slug (finish config ws slug t s).manager.agents ≡ some ws
      → ⊥
  unfolding finish disconnect_agent
  finish-closed t s h = elim (Bool-cases (is_current (dict_get slug s.manager.agents) ws)) [
    | inl c ↦
        let kept =
          rw
            (
              c,
              ap (λ r. r.0)
                  (departed-Kept t true (record s {
                    manager = record s.manager { agents = dict_del slug s.manager.agents };
                  })),
              get-del slug slug s.manager.agents,
              eq_refl slug,
            )
            at h in
        ground (arith, kept)
    | inr c ↦
        let kept = rw c at h in
        let now = rw kept at c in let same = (nat_eq_iff ws ws).1 refl in ground (arith, now, same)
  ]

  -- The loop has not ended, or the registry does not hold the connection.
  abbrev Closed : Turn → Type 0
  Closed (loop, conn, s) = loop ≡ leaves → ¬ (dict_get slug s.manager.agents ≡ some ws)

  concluded-Closed :
      (t : Moment) (next rest : Turn) → Closed rest → Closed (concluded config ws slug t next rest)
  concluded-Closed t (goes_on, conn, s) rest h = h
  concluded-Closed t (leaves, conn, s) rest h = λ _. finish-closed t s
  concluded-Closed t (stuck, conn, s) rest h = λ e. let out : ⊥ = ground (arith, e) in elim out [ ]

  -- However the loop ends, whatever came before, the registry does not hold its connection any more.
  pub serve-closed :
      (inputs : List Input) (conn : Connection) (s : Server)
      → (serve config ws slug inputs conn s).0 ≡ leaves
      → ¬ (dict_get slug (serve config ws slug inputs conn s).2.manager.agents ≡ some ws)
  unfolding serve
  serve-closed [] conn s h = let out : ⊥ = ground (arith, h) in elim out [ ]
  serve-closed (i ∷ is) conn s h =
      let next = step config ws slug i conn s in
      concluded-Closed (moment_of i) next (serve config ws slug is next.1 next.2)
        (serve-closed is next.1 next.2) h

  -- ---- malformed frames ----

  abbrev pub malformed_in : Input → ℕ
  malformed_in (received t size none) = 1
  malformed_in _ = 0

  abbrev pub malformed_frames : List Input → ℕ
  malformed_frames [] = 0
  malformed_frames (i ∷ is) = malformed_in i + malformed_frames is

  on_frame-malformed :
      (t : Moment) (frame : ClientFrame) (conn : Connection) (s : Server)
      → (on_frame config ws slug t frame conn s).1.malformed ≡ conn.malformed
  unfolding on_frame
  on_frame-malformed t hello conn s = refl
  on_frame-malformed t pong conn s = refl
  on_frame-malformed t (send_message f) conn s = refl
  on_frame-malformed t (ack id) conn s = refl
  on_frame-malformed t (activity state) conn s = refl
  on_frame-malformed t (autorespond_report r) conn s = refl
  on_frame-malformed t (approval_request trigger to body) conn s = refl
  on_frame-malformed t (delegate to task context) conn s = refl
  on_frame-malformed t (kanban_action id action) conn s = refl
  on_frame-malformed t (scheduled_task_report id status) conn s = refl

  -- Where the loop goes on, it has counted the input, and has not counted too many.
  abbrev Counted : ℕ → ℕ → Turn → Type 0
  Counted before more (goes_on, conn, s) =
      (conn.malformed ≡ before + more) × (conn.malformed < max_malformed_frames)
  Counted before more (leaves, conn, s) = Unit
  Counted before more (stuck, conn, s) = Unit

  Counted-any :
      (before more : ℕ) (x : Turn)
      → x.1.malformed ≡ before + more
      → x.1.malformed < max_malformed_frames
      → Counted before more x
  Counted-any before more (goes_on, conn, s) e h = (e, h)
  Counted-any before more (leaves, conn, s) e h = tt
  Counted-any before more (stuck, conn, s) e h = tt

  on_text-Counted :
      (t : Moment) (size : ℕ) (frame : Option ClientFrame) (conn : Connection) (s : Server)
      → conn.malformed < max_malformed_frames
      → Counted conn.malformed
          (malformed_in (received t size frame))
          (on_text config ws slug t frame conn s)
  on_text-Counted t size (some frame) conn s h =
      let same = on_frame-malformed t frame conn s in
      Counted-any conn.malformed 0 (on_frame config ws slug t frame conn s) (omega (arith, same))
        (omega (arith, same, h))
  on_text-Counted t size none conn s h =
      elim (Bool-cases (leb max_malformed_frames (conn.malformed + 1))) [
        | inl e ↦ rw e tt
        | inr e ↦ rw e (
            Counted-any conn.malformed 1
              (turn (record conn { malformed = conn.malformed + 1 })
                (send_error t ws "bad_frame" s))
              refl (leb-false _ _ e))
      ]

  step-Counted :
      (i : Input) (conn : Connection) (s : Server)
      → conn.malformed < max_malformed_frames
      → Counted conn.malformed (malformed_in i) (step config ws slug i conn s)
  unfolding step
  step-Counted (received t size frame) conn s h =
      elim (Bool-cases (ltb config.ws_max_frame_bytes size)) [
        | inl e ↦ rw e tt
        | inr e ↦ rw e (on_text-Counted t size frame (record conn { last_seen = t.clock }) s h)
      ]
  step-Counted (beat t) conn s h = elim (Bool-cases conn.beats) [
    | inr e ↦ rw e (omega arith, h)
    | inl e ↦ elim (Bool-cases (ltb (2 * config.ws_heartbeat) (t.clock - conn.last_seen))) [
      | inl f ↦ rw (e, f) tt
      | inr f ↦ rw (e, f) (omega arith, h)
    ]
  ]
  step-Counted (gone t) conn s h = tt

  Counted-facts :
      (before more : ℕ) (x : Turn)
      → x.0 ≡ goes_on
      → Counted before more x
      → (x.1.malformed ≡ before + more) × (x.1.malformed < max_malformed_frames)
  Counted-facts before more (goes_on, conn, s) e c = c
  Counted-facts before more (leaves, conn, s) e c = let out : ⊥ = ground (arith, e) in elim out [ ]
  Counted-facts before more (stuck, conn, s) e c = let out : ⊥ = ground (arith, e) in elim out [ ]

  -- The loop is over, and more inputs change nothing.
  abbrev Over : Turn → Turn → Type 0
  Over done more = ¬ (done.0 ≡ goes_on) × (more ≡ done)

  concluded-Over :
      (t : Moment) (next rest more : Turn)
      → (next.0 ≡ goes_on → Over rest more)
      → Over (concluded config ws slug t next rest) (concluded config ws slug t next more)
  concluded-Over t (goes_on, conn, s) rest more h = h refl
  concluded-Over t (leaves, conn, s) rest more h =
      ((λ e. let out : ⊥ = ground (arith, e) in elim out [ ]), refl)
  concluded-Over t (stuck, conn, s) rest more h =
      ((λ e. let out : ⊥ = ground (arith, e) in elim out [ ]), refl)

  -- The fifth malformed frame of a connection ends its loop, if nothing has before, whatever other
  -- frames come between: nothing that the client sends afterwards is handled.
  pub serve-malformed :
      (inputs later : List Input) (conn : Connection) (s : Server)
      → conn.malformed < max_malformed_frames
      → max_malformed_frames ≤ conn.malformed + malformed_frames inputs
      → ¬ ((serve config ws slug inputs conn s).0 ≡ goes_on)
        × (serve config ws slug (inputs ++ later) conn s ≡ serve config ws slug inputs conn s)
  unfolding serve
  serve-malformed [] later conn s h k = let out : ⊥ = omega (arith, h, k) in elim out [ ]
  serve-malformed (i ∷ is) later conn s h k =
      let next = step config ws slug i conn s in
      concluded-Over (moment_of i) next (serve config ws slug is next.1 next.2)
        (serve config ws slug (is ++ later) next.1 next.2)
        (λ e.
          let c = Counted-facts conn.malformed (malformed_in i) next e (step-Counted i conn s h) in
          serve-malformed is later next.1 next.2 c.1 (omega (arith, k, c.0)))
