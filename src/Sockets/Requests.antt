-- ===== src/Sockets/Requests.antt =====
-- Broadcasts of the panel and the limits of the agents (hub/app/api/routes/messages.py).
use ampla.Shared.{
  ℕ, ◌≡◌, refl, ap, ◌∙◌, inl, inr, String, Bool, false, ◌==◌, eq_string, ◌||◌, eq_int, leb, length,
  Option, none, some, List, [], ◌∷◌, Bool-cases, Option-cases, if◌then◌else◌,
}
use ampla.Models.{User, Agent, Message, is_admin}
use ampla.Hub.Exec.{Result, ok, err, hung}
use ampla.RateLimit.{allow, decide_on, popped}
use ampla.Kanban.Access.{get_agent}
use ampla.Messages.Send.{Draft, Sent, assert_sender_owned}
use ampla.Sockets.Server.{Server, Moment, in_session}
use ampla.Sockets.Panel.{
  replying, pushing, to_recipients, push_all, owned_broadcast, handle_user_broadcast,
}

-- The user owns the agent, or is an admin.
abbrev pub may_speak_for : User → Option Agent → Bool
may_speak_for user none = false
may_speak_for user (some a) = a.user_id == user.id || is_admin user.role

limiter-push_all :
    (t : Moment) (from_agent : String) (ms : List Message) (s : Server)
    → (push_all t from_agent ms s).broadcast_limiter ≡ s.broadcast_limiter
limiter-push_all t from_agent [] s = refl
limiter-push_all t from_agent (m ∷ ms) s = limiter-push_all t from_agent ms _

limiter-replying :
    (t : Moment) (from_agent : String) (r : Result Sent × Server)
    → (replying (pushing (λ (sent : Sent). push_all t from_agent sent.0)) r).1.broadcast_limiter
      ≡ r.1.broadcast_limiter
limiter-replying t from_agent (ok sent, s) = limiter-push_all t from_agent sent.0 s
limiter-replying t from_agent (err e, s) = refl
limiter-replying t from_agent (hung, s) = refl

events-owned_broadcast :
    (t : Moment) (user : User) (d : Draft) (s : Server) (other : String)
    → (other == d.from_slug) ≡ false
    → (owned_broadcast t user d s).1.broadcast_limiter.events other
      ≡ s.broadcast_limiter.events other
unfolding allow
events-owned_broadcast t user d s other e =
    let granted = allow s.broadcast_limiter t.clock d.from_slug in
    let limited = record s { broadcast_limiter = granted.1 } in
    elim (Bool-cases granted.0) [
      | inl g ↦ rw g (
          ap (λ l. l.events other)
            (limiter-replying t d.from_slug (in_session (to_recipients t user d) limited))
          ∙ events-decide_on
              (popped s.broadcast_limiter.window t.clock (s.broadcast_limiter.events d.from_slug)))
      | inr g ↦ rw g (
          events-decide_on
            (popped s.broadcast_limiter.window t.clock (s.broadcast_limiter.events d.from_slug)))
    ]
  where
    events-decide_on :
        (es : List ℕ)
        → (decide_on s.broadcast_limiter t.clock d.from_slug es).1.events other
          ≡ s.broadcast_limiter.events other
    events-decide_on es = elim (Bool-cases (leb s.broadcast_limiter.max_events (length es))) [
      | inl f ↦ rw (f, e) refl
      | inr f ↦ rw (f, e) refl
    ]

-- A broadcast in the name of an agent that the user does not own, or of none, changes nothing, the
-- limits included; one that is allowed touches the limit of no other agent.
pub handle_user_broadcast-unspoofed :
    (t : Moment) (user : User) (d : Draft) (s : Server) (other : String)
    → (other == d.from_slug) ≡ false
    → if may_speak_for user (get_agent d.from_slug s.db)
      then ((handle_user_broadcast t user d s).1.broadcast_limiter.events other
          ≡ s.broadcast_limiter.events other)
      else ((handle_user_broadcast t user d s).1 ≡ s)
unfolding handle_user_broadcast assert_sender_owned
handle_user_broadcast-unspoofed t user d s other e =
    elim (Option-cases (get_agent d.from_slug s.db)) [
      | inl f ↦ rw f refl
      | inr (a, f) ↦ elim (Bool-cases (a.user_id == user.id)) [
        | inl o ↦ rw (f, o) (events-owned_broadcast t user d s other e)
        | inr o ↦ elim (Bool-cases (is_admin user.role)) [
          | inl i ↦ rw (f, o, i) (events-owned_broadcast t user d s other e)
          | inr i ↦ rw (f, o, i) refl
        ]
      ]
    ]
