-- ===== src/Sockets/Kept.antt =====
-- Sending and the frames of a daemon keep the registry (hub/app/ws/connection_manager.py,
-- hub/app/api/routes/ws.py).
use ampla.Shared.{
  ℕ, String, Bool, ◌≡◌, refl, ◌∙◌, inl, inr, Option, none, some, List, [], ◌∷◌, map, select, eq_int,
  Bool-cases,
}
use ampla.Models.{UserId, Message}
use ampla.Hub.Exec.{Result, ok, err, hung}
use ampla.Sockets.{
  ObserverConn, ConnectionManager, dict_get, everyone, sees_message, is_authorized, send_quietly,
  send_all, send_on, send_to_agent, broadcast_presence, broadcast_activity, notify_message,
  notify_board,
}
use ampla.Sockets.Frames.{delivered, message_delivery, error_frame}
use ampla.Sockets.Server.{Server, Moment, After, dispatch, send_error, told, or_error, or_leave}
use ampla.Sockets.Handlers.{confirmed, dispatched, dispatch_all}

-- Who is connected
abbrev pub registry :
    {Payload : Type 0} → ConnectionManager Payload → List (String × ℕ) × List ObserverConn
registry m = (m.agents, m.observers)

module _ {Payload : Type 0} (alive : ℕ → Bool) (payload : Payload) where
  pub registry-send_quietly :
      (ws : ℕ) (m : ConnectionManager Payload)
      → registry (send_quietly alive ws payload m) ≡ registry m
  registry-send_quietly ws m = elim (Bool-cases (alive ws)) [
    | inl e ↦ rw e refl
    | inr e ↦ rw e refl
  ]

  pub registry-send_all :
      (sockets : List ℕ) (m : ConnectionManager Payload)
      → registry (send_all alive sockets payload m) ≡ registry m
  registry-send_all [] m = refl
  registry-send_all (ws ∷ rest) m =
      registry-send_all rest (send_quietly alive ws payload m) ∙ registry-send_quietly ws m

  pub registry-broadcast_activity :
      (m : ConnectionManager Payload) → registry (broadcast_activity alive payload m) ≡ registry m
  unfolding broadcast_activity
  registry-broadcast_activity m =
      registry-send_all (map (λ (o : ObserverConn). o.ws) (select everyone m.observers)) m

  pub registry-broadcast_presence :
      (m : ConnectionManager Payload) → registry (broadcast_presence alive payload m) ≡ registry m
  unfolding broadcast_presence
  registry-broadcast_presence m =
      let told = send_all alive (map (λ (e : String × ℕ). e.1) m.agents) payload m in
      registry-send_all (map (λ (o : ObserverConn). o.ws) (select everyone told.observers)) told
      ∙ registry-send_all (map (λ (e : String × ℕ). e.1) m.agents) m

  registry-notify_message :
      (from_slug to_slug : String) (m : ConnectionManager Payload)
      → registry (notify_message alive payload from_slug to_slug m) ≡ registry m
  unfolding notify_message
  registry-notify_message from_slug to_slug m =
      registry-send_all
        (map (λ (o : ObserverConn). o.ws)
          (select (λ o. sees_message o from_slug to_slug) m.observers))
        m

  pub registry-notify_board :
      (owner_id : UserId) (is_team : Bool) (members : List UserId) (m : ConnectionManager Payload)
      → registry (notify_board alive payload owner_id is_team members m) ≡ registry m
  unfolding notify_board
  registry-notify_board owner_id is_team members m =
      registry-send_all
        (map (λ (o : ObserverConn). o.ws)
          (select (is_authorized owner_id is_team members) m.observers))
        m

  registry-send_to_agent :
      (slug : String) (m : ConnectionManager Payload)
      → registry (send_to_agent alive slug payload m).1 ≡ registry m
  unfolding send_to_agent
  registry-send_to_agent slug m = by_entry (dict_get slug m.agents)
    where
      by_entry : (found : Option ℕ) → registry (send_on alive found payload m).1 ≡ registry m
      by_entry none = refl
      by_entry (some ws) = registry-send_quietly ws m

-- The registry is as it was in the first state.
abbrev pub Kept : Server → Server → Type 0
Kept s after = registry after.manager ≡ registry s.manager

module _ (t : Moment) (ws : ℕ) where
  pub send_error-Kept : (code : String) (s : Server) → Kept s (send_error t ws code s).1
  send_error-Kept code s = registry-send_quietly t.alive (error_frame code) ws s.manager

  told-Kept : (code : Option String) (s : Server) → Kept s (told t ws code s).1
  told-Kept none s = refl
  told-Kept (some code) s = send_error-Kept code s

  pub or_error-Kept :
      {A : Type 0} (go_on : A → Server → After) (r : Result A × Server)
      → ((a : A) (s : Server) → Kept s (go_on a s).1)
      → Kept r.1 (or_error t ws go_on r).1
  or_error-Kept go_on (ok a, s) h = h a s
  or_error-Kept go_on (err e, s) h = told-Kept _ s
  or_error-Kept go_on (hung, s) h = refl

  pub or_leave-Kept :
      {A : Type 0} (go_on : A → Server → After) (r : Result A × Server)
      → ((a : A) (s : Server) → Kept s (go_on a s).1)
      → Kept r.1 (or_leave go_on r).1
  or_leave-Kept go_on (ok a, s) h = h a s
  or_leave-Kept go_on (err e, s) h = refl
  or_leave-Kept go_on (hung, s) h = refl

  pub dispatch-Kept : (m : Message) (s : Server) → Kept s (dispatch t m s).1
  dispatch-Kept m s =
      registry-notify_message t.alive (message_delivery m) m.from_agent m.to_agent _
      ∙ registry-send_to_agent t.alive (message_delivery m) m.to_agent s.manager

  pub dispatched-Kept :
      (slug : String) (o : Option Message) (s : Server) → Kept s (dispatched t ws slug o s).1
  dispatched-Kept slug none s = refl
  dispatched-Kept slug (some m) s = dispatch-Kept m s

  pub confirmed-Kept :
      (slug : String) (o : Option Message) (s : Server) → Kept s (confirmed t ws slug o s).1
  confirmed-Kept slug none s = refl
  confirmed-Kept slug (some m) s =
      registry-notify_message t.alive (message_delivery m) m.from_agent m.to_agent _
      ∙ registry-send_to_agent t.alive (delivered m.id m.to_agent) m.from_agent s.manager

  pub dispatch_all-Kept :
      (slug : String) (ms : List Message) (s : Server) → Kept s (dispatch_all t ws slug ms s).1
  dispatch_all-Kept slug [] s = refl
  dispatch_all-Kept slug (m ∷ ms) s =
      dispatch_all-Kept slug ms (dispatch t m s).1 ∙ dispatch-Kept m s
