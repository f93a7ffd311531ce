-- ===== src/Sockets/Acks.antt =====
-- The acknowledgement of a delivery (hub/app/api/routes/ws.py, `_handle_ack`, with `ack_delivery` of
-- hub/app/services/message_service.py).
use ampla.Shared.{
  ℕ, ◌≡◌, refl, sym, ap, ◌∙◌, inl, inr, String, Bool, ◌==◌, eq_nat, eq_string, Option, none, some,
  List, [], ◌∷◌, ◌++◌, map, select, Bool-cases, Option-cases, if◌then◌else◌, nat_eq_iff,
  find_row-passes, find_row-update_rows,
}
use ampla.Models.{Message}
use ampla.Hub.{Env}
use ampla.Messages.Repo.{get_message, save_message}
use ampla.Messages.History.{acked, ack_delivery}
use ampla.Sockets.{
  ObserverConn, ConnectionManager, dict_get, sees_message, send_on, send_to_agent, notify_message,
}
use ampla.Sockets.Delivery.{append_nil, arrived-send_all}
use ampla.Sockets.Frames.{ServerFrame, message_delivery, delivered}
use ampla.Sockets.Server.{Server, Moment, After, goes_on, in_session, or_leave}
use ampla.Sockets.Handlers.{confirmed, handle_ack}

abbrev socket_of : Option ℕ → List ℕ
socket_of none = []
socket_of (some ws) = ws ∷ []

abbrev pub stamped : Env → Message → Option ℕ → Message
stamped env m none = record m { delivered_at = some env.now }
stamped env m (some at) = m

-- The message as it is once it was acknowledged.
abbrev pub as_delivered : Env → Message → Message
as_delivered env m = stamped env m m.delivered_at

-- The frames that go out: `delivered` on the sender's live socket, and the message on those of the
-- observers that see it.
abbrev pub notices : Moment → Message → ConnectionManager ServerFrame → List (ℕ × ServerFrame)
notices t m n =
    map (λ ws. (ws, delivered m.id m.to_agent))
      (select t.alive (socket_of (dict_get m.from_agent n.agents)))
    ++ map (λ ws. (ws, message_delivery m))
        (select t.alive (
          map (λ (o : ObserverConn). o.ws)
            (select (λ o. sees_message o m.from_agent m.to_agent) n.observers)))

pub append_assoc : {A : Type 0} (xs ys zs : List A) → (xs ++ ys) ++ zs ≡ xs ++ (ys ++ zs)
append_assoc [] ys zs = refl
append_assoc (x ∷ xs) ys zs = ap (λ l. x ∷ l) (append_assoc xs ys zs)

module _ {Payload : Type 0} (alive : ℕ → Bool) (payload : Payload) where
  arrived-send_on :
      (found : Option ℕ) (m : ConnectionManager Payload)
      → ((send_on alive found payload m).1.arrived
          ≡ m.arrived ++ map (λ ws. (ws, payload)) (select alive (socket_of found)))
        × ((send_on alive found payload m).1.observers ≡ m.observers)
  arrived-send_on none m = (sym (append_nil m.arrived), refl)
  arrived-send_on (some ws) m = elim (Bool-cases (alive ws)) [
    | inl e ↦ rw e (refl, refl)
    | inr e ↦ rw e (sym (append_nil m.arrived), refl)
  ]

-- A message that was delivered before is not written again.
abbrev Unwritten : Option ℕ → Server → Server → Type 0
Unwritten none s after = Unit
Unwritten (some at) s after = after.db ≡ s.db

-- The row is as acknowledged, and nothing is written where it was before; the notices go out.
abbrev Confirmed : Moment → Message → Server → After → Type 0
Confirmed t m s (loop, after) =
    (loop ≡ goes_on)
    × (get_message m.id after.db ≡ some (as_delivered t.env m))
    × Unwritten m.delivered_at s after
    × (after.manager.arrived ≡ s.manager.arrived ++ notices t (as_delivered t.env m) s.manager)

-- A message that was not sent to the agent is not touched; the daemon learns nothing of it.
abbrev pub Acked : Moment → String → Server → Option Message → After → Type 0
Acked t slug s none x = x ≡ (goes_on, s)
Acked t slug s (some m) x = if m.to_agent == slug then Confirmed t m s x else x ≡ (goes_on, s)

arrived-confirmed :
    (t : Moment) (ws : ℕ) (slug : String) (m : Message) (s : Server)
    → (confirmed t ws slug (some m) s).1.manager.arrived
      ≡ s.manager.arrived ++ notices t m s.manager
unfolding send_to_agent notify_message
arrived-confirmed t ws slug m s =
    let sent =
      arrived-send_on t.alive (delivered m.id m.to_agent) (dict_get m.from_agent s.manager.agents)
        s.manager in
    let told = (send_to_agent t.alive m.from_agent (delivered m.id m.to_agent) s.manager).1 in
    arrived-send_all t.alive
      (map (λ (o : ObserverConn). o.ws)
        (select (λ o. sees_message o m.from_agent m.to_agent) told.observers))
      (message_delivery m) told
    ∙ rw (sent.0, sent.1) (append_assoc s.manager.arrived _ _)

by_time :
    (t : Moment) (ws : ℕ) (slug : String) (m : Message) (s : Server)
    → get_message m.id s.db ≡ some m
    → (at : Option ℕ) → m.delivered_at ≡ at
    → Confirmed t m s (or_leave (confirmed t ws slug) (in_session (acked t.env (some m)) s))
unfolding save_message
by_time t ws slug m s g none e = rw e (
  refl,
  find_row-update_rows (λ (n : Message). n.id == m.id) (λ (n : Message). n.id == m.id) m _
      s.db.messages g ((nat_eq_iff m.id m.id).1 refl) ((nat_eq_iff m.id m.id).1 refl),
  tt,
  arrived-confirmed t ws slug (record m { delivered_at = some t.env.now })
      (record s { db = (save_message (record m { delivered_at = some t.env.now }) s.db).1 }),
)
by_time t ws slug m s g (some at) e = simp e (refl, g, refl, arrived-confirmed t ws slug m s)

-- An acknowledgement of a message that was sent to another agent, or to none, changes nothing; one of
-- an own message keeps the time of the first, writes nothing where there was one, and tells the sender
-- and the observers that see the message, the first time and every time again.
pub handle_ack-Acked :
    (t : Moment) (ws : ℕ) (slug : String) (message_id : ℕ) (s : Server)
    → Acked t slug s (get_message message_id s.db) (handle_ack t ws slug message_id s)
unfolding handle_ack ack_delivery
handle_ack-Acked t ws slug message_id s = elim (Option-cases (get_message message_id s.db)) [
  | inl e ↦ rw e refl
  | inr (m, e) ↦ elim (Bool-cases (m.to_agent == slug)) [
    | inr f ↦ rw (e, f) refl
    | inl f ↦
        let same =
          (nat_eq_iff m.id message_id).0
            (find_row-passes (λ (n : Message). n.id == message_id) m s.db.messages e) in
        rw (e, f)
          (by_time t ws slug m s (ap (λ i. get_message i s.db) same ∙ e) m.delivered_at refl)
  ]
]
