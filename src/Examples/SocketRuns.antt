-- ===== src/Examples/SocketRuns.antt =====
-- The theorems on connections: an agent that reconnects, and a private board with two observers.
use ampla.Shared.{
  ℕ, ◌≡◌, refl, pos, String, Bool, not, ◌==◌, eq_nat, some, List, [], ◌∷◌, map, select,
}
use ampla.Models.{Role, User, UserId, is_team}
use ampla.Kanban.Access.{can_see}
use ampla.Sockets.{
  ObserverConn, ConnectionManager, connect_agent, disconnect_agent, dict_get, notify_board,
}
use ampla.Sockets.Delivery.{members_for, notify_board-can_see}
use ampla.Sockets.Registry.{Happening, connected, disconnected, after_all, Holds, after_all-Holds}
use ampla.Examples.{hub, ana, board}

abbrev watcher : ℕ → UserId → ObserverConn
watcher ws user_id = record { ws = ws; user_id = user_id; role = Role.member; owned_slugs = [] }

abbrev idle : ConnectionManager String
idle = record {
  agents = [];
  observers = watcher 7 (pos 1) ∷ watcher 8 (pos 2) ∷ watcher 9 (pos 1) ∷ [];
  arrived = [];
  closed = [];
}

-- The second connection replaces the first, whose end comes last.
abbrev happenings : List Happening
happenings = disconnected "bot" 1 ∷ connected "bot" 2 ∷ connected "bot" 1 ∷ []

after_all-Holds_example : Holds happenings (after_all happenings idle)
after_all-Holds_example = after_all-Holds happenings idle refl

successor_stays : dict_get "bot" (after_all happenings idle).agents ≡ some 2
unfolding connect_agent disconnect_agent
successor_stays = refl

-- The connection 9 is dead.
abbrev alive : ℕ → Bool
alive ws = not (ws == 9)

abbrev account : ObserverConn → User
account o = record ana { id = o.user_id; role = o.role }

notify_board-can_see_example :
    (notify_board alive "delta" board.owner_id
      (is_team board.visibility)
      (members_for board hub)
      idle).arrived
    ≡ map
        (λ ws. (ws, "delta"))
        (select alive (
          map
            (λ (o : ObserverConn). o.ws)
            (select (λ o. can_see (account o) board hub) idle.observers)))
notify_board-can_see_example =
    notify_board-can_see alive account "delta" board hub idle (λ o. (refl, refl))
