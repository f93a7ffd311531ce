-- ===== src/Examples/KanbanRuns.antt =====
-- The theorems on boards at the small hub.
use ampla.Shared.{
  ℕ, ◌≡◌, refl, inl, inr, ◌↔◌, Bool, true, none, some, [], ◌∷◌, pos, In, arith, eq_nat,
}
use ampla.Models.{KanbanCard, no_role, viewer, editor}
use ampla.Hub.{Db}
use ampla.Hub.Exec.{err, not_found, unexpected}
use ampla.Kanban.Cards.{commit_move, deps_for_board}
use ampla.Kanban.Inputs.{BoardUpdate, ColumnCreate, ColumnUpdate, CardCreate}
use ampla.Kanban.Access.{can_see, human_can_see, agent_role, default_role_applies}
use ampla.Kanban.Boards.{
  list_boards, get_board, get_board_full, update_board, delete_board, create_column, update_column,
  delete_column,
}
use ampla.Kanban.CardOps.{append_card, create_card, delete_card}
use ampla.Kanban.Move.{move}
use ampla.Kanban.Deps.{Edges, closes_cycle, add_dependency}
use ampla.Kanban.Sharing.{
  list_members, add_member, remove_member, list_grants, set_grant, remove_grant,
}
use ampla.Kanban.Graph.{HasEdge, Reach, here, step}
use ampla.Kanban.Cycles.{closes_cycle_lem}
use ampla.Kanban.Acyclic.{Acyclic, add_dependency-Acyclic}
use ampla.Kanban.Ranked.{Ranked}
use ampla.Kanban.Moved.{Moved, move-Moved}
use ampla.Kanban.Appends.{Appended, append_card-Appended}
use ampla.Kanban.Limits.{WithinLimit, commit_move-WithinLimit}
use ampla.Kanban.Visibility.{listed_boards, list_boards-can_see, hidden_board}
use ampla.Kanban.Deletion.{deletion-unexpected}
use ampla.Examples.{env, hub, ana, rui, board, card, dep}

pub hub-Ranked : Ranked hub
hub-Ranked = (omega arith, (omega arith, (omega arith, tt)))

abbrev moving : KanbanCard
moving = card 101 10 46

move-Moved_example : Moved moving 11 1 hub (move env moving 11 none none 1 "user:1" hub)
move-Moved_example = move-Moved env moving 11 none none 1 "user:1" hub hub-Ranked refl

abbrev body : CardCreate
body = record {
  title = " Novo ";
  body = "";
  column_id = none;
  assignee = none;
  priority = "normal";
  origin = none;
}

append_card-Appended_example : Appended hub (append_card env 1 body "user:1" none hub)
append_card-Appended_example = append_card-Appended env 1 body "user:1" none hub hub-Ranked

commit_move-WithinLimit_example :
    WithinLimit moving 11 (46 ∷ []) 2 hub (commit_move env moving 11 (46 ∷ []) (some 2) hub)
commit_move-WithinLimit_example =
    commit_move-WithinLimit env moving 11 (46 ∷ []) 2 hub
      ((refl, (refl, tt)), ((refl, tt), (tt, tt))) refl refl

abbrev chain : Edges
chain = (1, 2) ∷ (2, 3) ∷ []

closes_cycle_lem_example :
    (b : Bool) × (closes_cycle chain 3 1 ≡ some b) × ((b ≡ true) ↔ Reach chain 1 3)
closes_cycle_lem_example = closes_cycle_lem chain 3 1

abbrev only : Edges
only = (100, 101) ∷ []

only-Acyclic : (a b : ℕ) → HasEdge a b only → ¬ (Reach only b a)
only-Acyclic a b (inr h) r = h
only-Acyclic a _ (inl e) here = omega arith
only-Acyclic a b (inl e) (step (inl f) r) = omega arith
only-Acyclic a b (inl e) (step (inr f) r) = f

hub-Acyclic : Acyclic (deps_for_board 1 hub)
unfolding deps_for_board
hub-Acyclic = only-Acyclic

add_dependency-Acyclic_example : Acyclic (deps_for_board 1 (add_dependency env ana 101 102 hub).1)
add_dependency-Acyclic_example = add_dependency-Acyclic env ana 101 102 hub moving refl hub-Acyclic

list_boards-can_see_example :
    In board (listed_boards (list_boards rui hub))
    ↔ (In board hub.boards × (can_see rui board hub ≡ true))
list_boards-can_see_example = list_boards-can_see rui hub board

bot-no_role : agent_role board "bot" hub ≡ no_role
unfolding agent_role default_role_applies can_see human_can_see
bot-no_role = refl

abbrev granted_hub : Db
granted_hub = record hub {
  grants = record { id = 3; board_id = 1; agent_slug = "bot"; role = viewer } ∷ [];
}

bot-viewer : agent_role board "bot" granted_hub ≡ viewer
unfolding agent_role default_role_applies can_see human_can_see
bot-viewer = refl

abbrev patch : BoardUpdate
patch = record {
  name = some "Novo";
  visibility = none;
  default_agent_role = none;
  auto_card_on_delegation = none;
  auto_card_on_escalation = none;
}

abbrev new_column : ColumnCreate
new_column = record { name = "Fila"; wip_limit = none }

abbrev landing : ColumnUpdate
landing = record { name = none; wip_limit = none; is_landing = some true; is_done = none }

hidden_board_example :
    (get_board rui 1 hub ≡ (err not_found, hub))
    × (get_board_full rui 1 hub ≡ (err not_found, hub))
    × (update_board rui 1 patch hub ≡ (err not_found, hub))
    × (delete_board rui 1 hub ≡ (err not_found, hub))
    × (create_column env rui 1 new_column hub ≡ (err not_found, hub))
    × (update_column rui 1 10 landing hub ≡ (err not_found, hub))
    × (delete_column rui 1 10 hub ≡ (err not_found, hub))
    × (create_card env rui 1 body hub ≡ (err not_found, hub))
    × (list_members rui 1 hub ≡ (err not_found, hub))
    × (add_member env rui 1 (pos 2) hub ≡ (err not_found, hub))
    × (remove_member rui 1 (pos 2) hub ≡ (err not_found, hub))
    × (list_grants rui 1 hub ≡ (err not_found, hub))
    × (set_grant env rui 1 "bot" editor hub ≡ (err not_found, hub))
    × (remove_grant rui 1 "bot" hub ≡ (err not_found, hub))
unfolding can_see human_can_see
hidden_board_example =
    hidden_board env rui 1 hub patch new_column landing body 10 (pos 2) "bot" editor refl

abbrev shared_hub : Db
shared_hub = record hub {
  members = record { id = 4; board_id = 1; user_id = pos 2; created_at = 15 } ∷ [];
}

deletion-unexpected_example :
    (delete_card ana 100 hub ≡ (err unexpected, hub))
    × (delete_board ana 1 hub ≡ (err unexpected, hub))
unfolding can_see human_can_see
deletion-unexpected_example =
    deletion-unexpected ana (card 100 10 31) board dep hub refl refl refl refl refl (inl refl)
      (inl refl)
