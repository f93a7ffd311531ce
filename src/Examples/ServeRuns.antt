-- ===== src/Examples/ServeRuns.antt =====
-- The theorems on the socket route and on the requests that reach connections.
use ampla.Shared.{
  ℕ, ◌+◌, ◌*◌, ◌-◌, ◌≤◌, ◌≡◌, refl, pos, String, true, not, ◌==◌, eq_nat, eq_string, none, some,
  List, [], ◌∷◌, ◌++◌, arith, inl, inr, Bool-cases, if◌then◌else◌,
}
use ampla.Models.{Agent, Message, MessageType}
use ampla.Hub.{second}
use ampla.Hub.Exec.{ok}
use ampla.RateLimit.{new_limiter, burst_or, token, bucket_allow}
use ampla.Kanban.Access.{get_agent}
use ampla.Messages.Repo.{get_message, pending_of, save_message}
use ampla.Messages.History.{pending_for, ack_delivery}
use ampla.Messages.Send.{Draft}
use ampla.Agents.Repo.{list_all_groups}
use ampla.Agents.Service.{authenticate_key}
use ampla.Agents.Groups.{list_with_members}
use ampla.Sockets.{dict_get, send_to_agent, notify_message}
use ampla.Sockets.Frames.{delivered, ack, kanban_action, create_card}
use ampla.Sockets.Server.{Server, Moment, goes_on, leaves}
use ampla.Sockets.Handlers.{handle_ack, handle_kanban_action, apply_action}
use ampla.Sockets.Route.{
  SocketSettings, Input, received, gone, fresh, opening, open_connection, serve, step, on_frame,
}
use ampla.Sockets.Endpoint.{Greeting, said, run_agent_connection, ws_endpoint}
use ampla.Sockets.Panel.{handle_revoke_key, handle_user_broadcast}
use ampla.Sockets.Ends.{serve-malformed}
use ampla.Sockets.Meter.{RefusedWrite, handled, handled-bound}
use ampla.Sockets.Opening.{Expelled, open_connection-abandoned, handle_revoke_key-Expelled}
use ampla.Sockets.Holders.{Unheld}
use ampla.Sockets.Kept.{registry}
use ampla.Sockets.Leaving.{ws_endpoint-Unheld}
use ampla.Sockets.Acks.{Acked, handle_ack-Acked}
use ampla.Sockets.Requests.{may_speak_for, handle_user_broadcast-unspoofed}
use ampla.Examples.{env, rui, bot}
use ampla.Examples.AuthRuns.{plain_libraries, settings}
use ampla.Examples.AgentRuns.{key, keyed}

-- From "web" to "bot", not delivered yet.
abbrev letter : Message
letter = record {
  id = 30;
  from_agent = "web";
  to_agent = "bot";
  type = MessageType.request;
  body = "Oi";
  thread_id = some 30;
  in_reply_to = none;
  group_slug = none;
  priority = "normal";
  created_at = 20;
  delivered_at = none;
  expires_at = none;
}

abbrev web : Agent
web = record bot { slug = "web"; user_id = pos 1 }

abbrev config : SocketSettings
config = record {
  ws_max_frame_bytes = 65_536;
  ws_messages_per_minute = 2;
  ws_heartbeat = 30 * second;
}

-- The connection 1 is of "web".
abbrev server : Server
server = record {
  db = record keyed { agents = bot ∷ web ∷ []; messages = letter ∷ [] };
  manager = record { agents = ("web", 1) ∷ []; observers = []; arrived = []; closed = [] };
  broadcast_limiter = new_limiter 2 10;
  message_limiter = new_limiter 2 10;
  auto_responder_enabled = true;
}

abbrev at : ℕ → Moment
at clock = record { env = env; clock = clock; alive = λ ws. not (ws == 9) }

abbrev greeting : Greeting
greeting = said 40 (some (record { agent_id = some "bot"; key = some "amp_11"; jwt = none }))

-- A board action whose payload does not fit: it counts against the bucket, and fails.
abbrev action : ℕ → Input
action clock = received (at clock) 40 (some (kanban_action 1 (create_card none)))

abbrev noise : ℕ → Input
noise clock = received (at clock) 40 none

abbrev inputs : List Input
inputs = received (at 2) 40 (some (ack 30)) ∷ action 3 ∷ action 4 ∷ action 5 ∷ gone (at 6) ∷ []

server-Unheld : Unheld 2 (registry server.manager)
server-Unheld = (λ name. absent name, refl)
  where
    absent : (name : String) → ¬ (dict_get name server.manager.agents ≡ some 2)
    absent name h = elim (Bool-cases ("web" == name)) [
      | inl e ↦ let held = rw e at h in ground (arith, held)
      | inr e ↦ let held = rw e at h in ground (arith, held)
    ]

-- The daemon is welcomed, acknowledges, acts and ends.
ends : (ws_endpoint config plain_libraries settings 2 (at 1) greeting none inputs server).0 ≡ leaves
unfolding ws_endpoint run_agent_connection open_connection authenticate_key pending_for pending_of
    list_with_members list_all_groups serve step on_frame handle_kanban_action apply_action
    bucket_allow handle_ack ack_delivery save_message
ends = refl

ws_endpoint-Unheld_example : Unheld 2 (
    registry
      (ws_endpoint config plain_libraries settings 2 (at 1) greeting none inputs server).1.manager)
ws_endpoint-Unheld_example =
    ws_endpoint-Unheld 2 config plain_libraries settings (at 1) greeting none inputs server
      server-Unheld refl ends

serve-malformed_example :
    ¬ (
      (serve config 2 "bot"
        (noise 1 ∷ action 2 ∷ noise 3 ∷ noise 4 ∷ noise 5 ∷ noise 6 ∷ [])
        (fresh config 2 "bot" 0)
        server).0
      ≡ goes_on)
    × (serve config 2 "bot"
          ((noise 1 ∷ action 2 ∷ noise 3 ∷ noise 4 ∷ noise 5 ∷ noise 6 ∷ []) ++ action 7 ∷ [])
          (fresh config 2 "bot" 0)
          server
        ≡ serve config 2 "bot"
            (noise 1 ∷ action 2 ∷ noise 3 ∷ noise 4 ∷ noise 5 ∷ noise 6 ∷ [])
            (fresh config 2 "bot" 0)
            server)
serve-malformed_example =
    serve-malformed config 2 "bot" (noise 1 ∷ action 2 ∷ noise 3 ∷ noise 4 ∷ noise 5 ∷ noise 6 ∷ [])
      (action 7 ∷ []) (fresh config 2 "bot" 0) server (omega arith) (omega arith)

handled-bound_example :
    (handled config 2 "bot" inputs (fresh config 2 "bot" 1) server * token
      ≤ burst_or config.ws_messages_per_minute none * token
        + (6 - 1) * config.ws_messages_per_minute)
    × RefusedWrite config 2 "bot"
handled-bound_example =
    handled-bound config 2 "bot" inputs 1 6 server
      (omega arith, (omega arith, (omega arith, omega arith)))

-- The burst lets all three actions through.
all_handled : handled config 2 "bot" inputs (fresh config 2 "bot" 1) server ≡ 3
unfolding step on_frame bucket_allow handle_ack ack_delivery save_message handle_kanban_action
    apply_action
all_handled = refl

handle_ack-Acked_example :
    Acked (at 2) "bot" server (get_message 30 server.db) (handle_ack (at 2) 2 "bot" 30 server)
handle_ack-Acked_example = handle_ack-Acked (at 2) 2 "bot" 30 server

-- The sender, connected at 1, hears of it.
sender_told : (handle_ack (at 2) 2 "bot" 30 server).1.manager.arrived ≡ (1, delivered 30 "bot") ∷ []
unfolding handle_ack ack_delivery save_message send_to_agent notify_message
sender_told = refl

handle_revoke_key-Expelled_example :
    Expelled plain_libraries "bot" "amp_11" server (handle_revoke_key (at 2) rui "bot" 4 server)
handle_revoke_key-Expelled_example =
    handle_revoke_key-Expelled plain_libraries (at 2) rui "bot" "amp_11" key server refl refl

-- The connection 9 is dead.
opened :
    opening config 9 "bot" plain_libraries env "amp_11" server.db
    ≡ (ok (some (bot, letter ∷ [], [])), server.db)
unfolding authenticate_key pending_for pending_of list_with_members list_all_groups
opened = refl

open_connection-abandoned_example :
    ((open_connection config 9 "bot" plain_libraries (at 1) "amp_11" server).0 ≡ leaves)
    × (dict_get "bot"
          (open_connection config 9 "bot" plain_libraries (at 1) "amp_11" server).2.manager.agents
        ≡ some 9)
open_connection-abandoned_example =
    open_connection-abandoned config 9 "bot" plain_libraries (at 1) "amp_11" server
      (bot, letter ∷ [], []) server.db opened refl

-- In the name of "web", which is Ana's
abbrev draft : Draft
draft = record {
  from_slug = "web";
  to_slug = "@all";
  body = "Oi";
  type = MessageType.request;
  priority = "normal";
  in_reply_to = none;
  group = none;
}

handle_user_broadcast-unspoofed_example :
    if may_speak_for rui (get_agent "web" server.db)
    then ((handle_user_broadcast (at 2) rui draft server).1.broadcast_limiter.events "bot"
        ≡ server.broadcast_limiter.events "bot")
    else ((handle_user_broadcast (at 2) rui draft server).1 ≡ server)
handle_user_broadcast-unspoofed_example =
    handle_user_broadcast-unspoofed (at 2) rui draft server "bot" refl
