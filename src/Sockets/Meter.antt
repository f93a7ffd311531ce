-- ===== src/Sockets/Meter.antt =====
-- How much a daemon writes through its connection (hub/app/api/routes/ws.py with the TokenBucket of
-- hub/app/core/ratelimit.py).
use ampla.Shared.{
  ℕ, suc, ◌+◌, ◌-◌, ◌*◌, ◌≤◌, ◌≡◌, refl, ap, inl, inr, String, Bool, true, false, not, ◌&&◌, none,
  some, List, [], ◌∷◌, arith, Bool-cases, ltb, if◌then◌else◌,
}
use ampla.Auth.Rows.{bit}
use ampla.RateLimit.{TokenBucket, burst_or, bucket_allow, token}
use ampla.RateLimit.Bucket.{Between, bucket_grants, new_bucket-bound}
use ampla.Sockets.Frames.{
  ClientFrame, hello, pong, send_message, ack, activity, autorespond_report, approval_request,
  delegate, kanban_action, scheduled_task_report,
}
use ampla.Sockets.Server.{Server, Moment, Loop, goes_on, leaves, stuck}
use ampla.Sockets.Route.{
  SocketSettings, Connection, Input, received, beat, gone, Turn, on_frame, step, fresh,
}

-- The frames that write messages or boards.
abbrev pub is_metered : ClientFrame → Bool
is_metered (send_message f) = true
is_metered (delegate to task context) = true
is_metered (kanban_action board_id action) = true
is_metered _ = false

-- When they come
abbrev pub metered_times : List Input → List ℕ
metered_times [] = []
metered_times (received t size (some frame) ∷ is) =
    if is_metered frame then t.clock ∷ metered_times is else metered_times is
metered_times (i ∷ is) = metered_times is

abbrev continuing : Loop → ℕ → ℕ
continuing goes_on n = n
continuing leaves n = 0
continuing stuck n = 0

continuing-le : (l : Loop) (n : ℕ) → continuing l n ≤ n
continuing-le goes_on n = omega arith
continuing-le leaves n = omega arith
continuing-le stuck n = omega arith

module _ (config : SocketSettings) (ws : ℕ) (slug : String) where
  -- The input is such a frame, of a size that is accepted, and the bucket has a token for it.
  abbrev pub is_granted : Input → Connection → Bool
  is_granted (received t size (some frame)) conn =
      not (ltb config.ws_max_frame_bytes size)
      && (is_metered frame && (bucket_allow conn.bucket t.clock).0)
  is_granted i conn = false

  -- How many of the inputs are handled as such frames.
  abbrev pub handled : List Input → Connection → Server → ℕ
  handled [] conn s = 0
  handled (i ∷ is) conn s =
      let next = step config ws slug i conn s in
      let rest = handled is next.1 next.2 in bit (is_granted i conn) + continuing next.0 rest

  on_frame-bucket :
      (t : Moment) (frame : ClientFrame) (conn : Connection) (s : Server)
      → (on_frame config ws slug t frame conn s).1.bucket
        ≡ (if is_metered frame then (bucket_allow conn.bucket t.clock).1 else conn.bucket)
  unfolding on_frame
  on_frame-bucket t (send_message f) conn s = refl
  on_frame-bucket t (delegate to task context) conn s = refl
  on_frame-bucket t (kanban_action id action) conn s = refl
  on_frame-bucket t hello conn s = refl
  on_frame-bucket t pong conn s = refl
  on_frame-bucket t (ack id) conn s = refl
  on_frame-bucket t (activity state) conn s = refl
  on_frame-bucket t (autorespond_report r) conn s = refl
  on_frame-bucket t (approval_request trigger to body) conn s = refl
  on_frame-bucket t (scheduled_task_report id status) conn s = refl

  one_more : (b : Bool) (n m : ℕ) → n ≤ m → bit b + n ≤ (if b then suc m else m)
  one_more true n m h = omega (arith, h)
  one_more false n m h = omega (arith, h)

  -- What follows a step, where the loop goes on.
  follows :
      (next : Turn) (is : List Input)
      → handled is next.1 next.2 ≤ bucket_grants next.1.bucket (metered_times is)
      → (b : TokenBucket) → next.1.bucket ≡ b
      → continuing next.0 (handled is next.1 next.2) ≤ bucket_grants b (metered_times is)
  follows next is h b e = omega (
    arith,
    h,
    continuing-le next.0 (handled is next.1 next.2),
    ap (λ c. bucket_grants c (metered_times is)) e,
  )

  malformed-bucket :
      (t : Moment) (size : ℕ) (conn : Connection) (s : Server)
      → (step config ws slug (received t size none) conn s).1.bucket ≡ conn.bucket
  unfolding step
  malformed-bucket t size conn s = elim (Bool-cases (ltb config.ws_max_frame_bytes size)) [
    | inl e ↦ rw e refl
    | inr e ↦ rw e refl
  ]

  beat-bucket :
      (t : Moment) (conn : Connection) (s : Server)
      → (step config ws slug (beat t) conn s).1.bucket ≡ conn.bucket
  unfolding step
  beat-bucket t conn s = elim (Bool-cases conn.beats) [
    | inr e ↦ rw e refl
    | inl e ↦ elim (Bool-cases (ltb (2 * config.ws_heartbeat) (t.clock - conn.last_seen))) [
      | inl f ↦ rw (e, f) refl
      | inr f ↦ rw (e, f) refl
    ]
  ]

  handled-grants :
      (is : List Input) (conn : Connection) (s : Server)
      → handled is conn s ≤ bucket_grants conn.bucket (metered_times is)
  unfolding step
  handled-grants [] conn s = omega arith
  handled-grants (received t size (some frame) ∷ is) conn s =
      elim (Bool-cases (ltb config.ws_max_frame_bytes size)) [
        | inl e ↦ rw e (omega arith)
        | inr e ↦
            let next = on_frame config ws slug t frame (record conn { last_seen = t.clock }) s in
            let rest = follows next is (handled-grants is next.1 next.2) in
            let same = on_frame-bucket t frame (record conn { last_seen = t.clock }) s in
            elim (Bool-cases (is_metered frame)) [
              | inl m ↦
                  rw (e, m)
                    (one_more (bucket_allow conn.bucket t.clock).0 _ _
                      (rest (bucket_allow conn.bucket t.clock).1 (rw m at same)))
              | inr m ↦ rw (e, m) (one_more false _ _ (rest conn.bucket (rw m at same)))
            ]
      ]
  handled-grants (received t size none ∷ is) conn s =
      let next = step config ws slug (received t size none) conn s in
      one_more false _ _ (
        follows next is (handled-grants is next.1 next.2) conn.bucket
          (malformed-bucket t size conn s))
  handled-grants (beat t ∷ is) conn s =
      let next = step config ws slug (beat t) conn s in
      one_more false _ _
        (follows next is (handled-grants is next.1 next.2) conn.bucket (beat-bucket t conn s))
  handled-grants (gone t ∷ is) conn s = omega arith

  -- Such a frame that is not granted writes nothing.
  abbrev pub RefusedWrite : Type 0
  RefusedWrite =
      (t : Moment) (size : ℕ) (frame : ClientFrame) (conn : Connection) (s : Server)
      → is_metered frame ≡ true
      → is_granted (received t size (some frame)) conn ≡ false
      → (step config ws slug (received t size (some frame)) conn s).2.db ≡ s.db

  refused-db :
      (t : Moment) (frame : ClientFrame) (conn : Connection) (s : Server)
      → is_metered frame ≡ true
      → (bucket_allow conn.bucket t.clock).0 ≡ false
      → (on_frame config ws slug t frame conn s).2.db ≡ s.db
  unfolding on_frame
  refused-db t (send_message f) conn s m e = rw e refl
  refused-db t (delegate to task context) conn s m e = rw e refl
  refused-db t (kanban_action id action) conn s m e = rw e refl
  refused-db t hello conn s m e = refl
  refused-db t pong conn s m e = refl
  refused-db t (ack id) conn s m e = let out : ⊥ = ground (arith, m) in elim out [ ]
  refused-db t (activity state) conn s m e = refl
  refused-db t (autorespond_report r) conn s m e = let out : ⊥ = ground (arith, m) in elim out [ ]
  refused-db t (approval_request trigger to body) conn s m e =
      let out : ⊥ = ground (arith, m) in elim out [ ]
  refused-db t (scheduled_task_report id status) conn s m e =
      let out : ⊥ = ground (arith, m) in elim out [ ]

  refused_write : RefusedWrite
  unfolding step
  refused_write t size frame conn s m g = elim (Bool-cases (ltb config.ws_max_frame_bytes size)) [
    | inl e ↦ rw e refl
    | inr e ↦ rw e (refused-db t frame (record conn { last_seen = t.clock }) s m (rw (e, m) at g))
  ]

  -- On a clock that does not go back, no more messages, tasks and board actions of a daemon are
  -- handled from the opening of its connection up to a time than the burst of its bucket and what the
  -- rate brought since; the others write nothing.
  pub handled-bound :
      (inputs : List Input) (begin end : ℕ) (s : Server)
      → Between begin end (metered_times inputs)
      → (handled inputs (fresh config ws slug begin) s * token
          ≤ burst_or config.ws_messages_per_minute none * token
            + (end - begin) * config.ws_messages_per_minute)
        × RefusedWrite
  handled-bound inputs begin end s h = (
    within (handled-grants inputs (fresh config ws slug begin) s)
        (new_bucket-bound config.ws_messages_per_minute none begin end (metered_times inputs) h),
    refused_write,
  )
    where
      within : {n m k : ℕ} → n ≤ m → m * token ≤ k → n * token ≤ k
      within h k = omega (arith, h, k)
