-- ===== src/Sockets.antt =====
-- The registry of connections (hub/app/ws/connection_manager.py). A connection is known by its
-- identity, a number; whether a frame sent on it arrives is the argument `alive`, since `send_json`
-- raises on a dead one. Each operation on the registry runs under its lock, and is one step here.
pub mod Delivery
pub mod Registry
pub mod Frames
pub mod Server
pub mod Handlers
pub mod Route
pub mod Kept
pub mod Steady
pub mod Ends
pub mod Meter
pub mod Opening
pub mod Panel
pub mod Requests
pub mod Endpoint
pub mod Holders
pub mod Leaving
pub mod Acks
use ampla.Shared.{
  ℕ, ◌+◌, String, Bool, true, false, not, ◌&&◌, ◌||◌, ◌==◌, eq_nat, eq_string, eq_int, Option, none,
  some, List, [], ◌∷◌, ◌++◌, map, select, any, order_by, if◌then◌else◌,
}
use ampla.Models.{Role, UserId, is_admin}
use ampla.Agents.Slugs.{string_leb}

pub record ObserverConn : Type 0 where
  pub ws : ℕ
  pub user_id : UserId
  pub role : Role
  pub owned_slugs : List String

abbrev pub owns_slug : ObserverConn → String → Bool
owns_slug o slug = any (λ s. s == slug) o.owned_slugs

-- ObserverConn.can_see
abbrev pub sees_message : ObserverConn → String → String → Bool
sees_message o from_slug to_slug = is_admin o.role || (owns_slug o from_slug || owns_slug o to_slug)

-- `_agents` as the list of its entries, `_observers`, the frames that arrived and the connections
-- that were closed, with their codes.
pub record ConnectionManager (Payload : Type 0) : Type 0 where
  pub agents : List (String × ℕ)
  pub observers : List ObserverConn
  pub arrived : List (ℕ × Payload)
  pub closed : List (ℕ × ℕ)

-- ---- a dict ----

abbrev pub dict_get : String → List (String × ℕ) → Option ℕ
dict_get key [] = none
dict_get key ((k, v) ∷ d) = if k == key then some v else dict_get key d

abbrev pub dict_set : String → ℕ → List (String × ℕ) → List (String × ℕ)
dict_set key value [] = (key, value) ∷ []
dict_set key value ((k, v) ∷ d) = if k == key then (k, value) ∷ d else (k, v) ∷ dict_set key value d

abbrev pub dict_del : String → List (String × ℕ) → List (String × ℕ)
dict_del key d = select (λ (e : String × ℕ). not (e.0 == key)) d

abbrev pub is_current : Option ℕ → ℕ → Bool
is_current none ws = false
is_current (some w) ws = w == ws

abbrev pub everyone : ObserverConn → Bool
everyone o = true

abbrev pub is_authorized : UserId → Bool → List UserId → ObserverConn → Bool
is_authorized owner_id is_team member_ids o =
    is_team || (o.user_id == owner_id || (is_admin o.role || any (λ i. i == o.user_id) member_ids))

module _ {Payload : Type 0} where
  -- `_close_quietly` of a connection that may be missing
  abbrev pub close_quietly : Option ℕ → ℕ → ConnectionManager Payload → ConnectionManager Payload
  close_quietly none code m = m
  close_quietly (some ws) code m = record m { closed = m.closed ++ (ws, code) ∷ [] }

  -- ---- agents ----

  unfoldable pub connect_agent : String → ℕ → ConnectionManager Payload → ConnectionManager Payload
  connect_agent slug ws m =
      close_quietly (dict_get slug m.agents) 4000 (record m { agents = dict_set slug ws m.agents })

  unfoldable pub disconnect_agent :
      String → ℕ → ConnectionManager Payload → Bool × ConnectionManager Payload
  disconnect_agent slug ws m =
      if is_current (dict_get slug m.agents) ws
      then (true, record m { agents = dict_del slug m.agents })
      else (false, m)

  abbrev pub is_online : String → ConnectionManager Payload → Bool
  is_online slug m = elim (dict_get slug m.agents) [ none ↦ false | some ws ↦ true ]

  unfoldable pub kick_agent : String → ConnectionManager Payload → Bool × ConnectionManager Payload
  kick_agent slug m = (
    is_online slug m,
    close_quietly (dict_get slug m.agents) 4001 (record m { agents = dict_del slug m.agents }),
  )

  unfoldable pub online_slugs : ConnectionManager Payload → List String
  online_slugs m = order_by string_leb (map (λ (e : String × ℕ). e.0) m.agents)

  -- ---- observers ----

  unfoldable pub add_observer : ObserverConn → ConnectionManager Payload → ConnectionManager Payload
  add_observer o m = record m { observers = m.observers ++ o ∷ [] }

  unfoldable pub remove_observer : ℕ → ConnectionManager Payload → ConnectionManager Payload
  remove_observer ws m = record m {
    observers = select (λ (o : ObserverConn). not (o.ws == ws)) m.observers;
  }

-- ---- sending ----

module _ {Payload : Type 0} (alive : ℕ → Bool) where
  -- `_send_quietly`
  abbrev pub send_quietly : ℕ → Payload → ConnectionManager Payload → ConnectionManager Payload
  send_quietly ws payload m =
      if alive ws then record m { arrived = m.arrived ++ (ws, payload) ∷ [] } else m

  abbrev pub send_all : List ℕ → Payload → ConnectionManager Payload → ConnectionManager Payload
  send_all [] payload m = m
  send_all (ws ∷ rest) payload m = send_all rest payload (send_quietly ws payload m)

  abbrev pub send_on :
      Option ℕ → Payload → ConnectionManager Payload → Bool × ConnectionManager Payload
  send_on none payload m = (false, m)
  send_on (some ws) payload m = (alive ws, send_quietly ws payload m)

  -- `send_settings_update` is the same call.
  unfoldable pub send_to_agent :
      String → Payload → ConnectionManager Payload → Bool × ConnectionManager Payload
  send_to_agent slug payload m = send_on (dict_get slug m.agents) payload m

  -- ---- broadcasts ----

  abbrev pub send_to_observers :
      (ObserverConn → Bool) → Payload → ConnectionManager Payload → ConnectionManager Payload
  send_to_observers wanted payload m =
      send_all (map (λ (o : ObserverConn). o.ws) (select wanted m.observers)) payload m

  -- `broadcast_kill_switch` is the same call.
  unfoldable pub broadcast_presence :
      Payload → ConnectionManager Payload → ConnectionManager Payload
  broadcast_presence payload m =
      send_to_observers everyone payload
        (send_all (map (λ (e : String × ℕ). e.1) m.agents) payload m)

  unfoldable pub notify_message :
      Payload → String → String → ConnectionManager Payload → ConnectionManager Payload
  notify_message payload from_slug to_slug m =
      send_to_observers (λ o. sees_message o from_slug to_slug) payload m

  unfoldable pub broadcast_activity :
      Payload → ConnectionManager Payload → ConnectionManager Payload
  broadcast_activity payload m = send_to_observers everyone payload m

  unfoldable pub notify_user :
      UserId → Payload → ConnectionManager Payload → ConnectionManager Payload
  notify_user user_id payload m =
      send_to_observers (λ (o : ObserverConn). o.user_id == user_id) payload m

  unfoldable pub notify_board :
      Payload → UserId → Bool → List UserId → ConnectionManager Payload → ConnectionManager Payload
  notify_board payload owner_id is_team member_ids m =
      send_to_observers (is_authorized owner_id is_team member_ids) payload m
