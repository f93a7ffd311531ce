-- ===== src/Kanban/Deps.antt =====
-- Dependencies between cards (hub/app/services/kanban_service.py).
use ampla.Shared.{
  ℕ, zero, suc, ◌+◌, Bool, true, false, not, ◌==◌, eq_nat, Option, none, some, List, [], ◌∷◌, any,
  length, if◌then◌else◌,
}
use ampla.Models.{User, KanbanCard, KanbanCardDep}
use ampla.Hub.{Db, Env}
use ampla.Hub.Exec.{
  Service, pure, gets, raise_if, or_hang, audit, ◌>>=◌, ◌>>◌, conflict, invalid_input,
}
use ampla.Kanban.Cards.{
  get_card_row, get_dep, new_dep_id, add_dep, remove_dep, dep_ids_for_card, deps_for_board,
}
use ampla.Kanban.CardOps.{get_card}

abbrev pub Edges : Type 0
Edges = List (ℕ × ℕ)

-- `graph.get(node, [])`
abbrev pub successors : ℕ → Edges → List ℕ
successors node [] = []
successors node ((a, b) ∷ edges) =
    if a == node then b ∷ successors node edges else successors node edges

-- `stack.extend(…)`; the head of the list is the top of the stack.
abbrev pub extend : List ℕ → List ℕ → List ℕ
extend [] stack = stack
extend (x ∷ xs) stack = extend xs (x ∷ stack)

abbrev pub elem : ℕ → List ℕ → Bool
elem node nodes = any (λ n. n == node) nodes

-- The `while` loop; None when the fuel runs out.
unfoldable pub search_cycle : ℕ → Edges → ℕ → List ℕ → List ℕ → Option Bool
search_cycle zero edges card_id seen stack = none
search_cycle (suc fuel) edges card_id seen [] = some false
search_cycle (suc fuel) edges card_id seen (node ∷ stack) =
    if node == card_id
    then some true
    else search_cycle fuel edges card_id (if elem node seen then seen else node ∷ seen)
        (if elem node seen then stack else extend (successors node edges) stack)

unfoldable pub closes_cycle : Edges → ℕ → ℕ → Option Bool
closes_cycle edges card_id depends_on_id =
    search_cycle (length edges + 2) edges card_id [] (depends_on_id ∷ [])

-- `_would_create_cycle`
unfoldable pub would_create_cycle : ℕ → ℕ → ℕ → Service Bool
would_create_cycle board_id card_id depends_on_id = do
  edges ← gets (deps_for_board board_id)
  or_hang (closes_cycle edges card_id depends_on_id)

abbrev pub on_board_of : KanbanCard → Option KanbanCard → Bool
on_board_of c none = false
on_board_of c (some d) = d.board_id == c.board_id

unfoldable pub insert_dependency : Env → User → ℕ → ℕ → ℕ → Service Unit
insert_dependency env user board_id card_id depends_on_id = do
  cyclic ← would_create_cycle board_id card_id depends_on_id
  raise_if cyclic conflict
  id ← gets (new_dep_id env)
  add_dep (record { id = id; card_id = card_id; depends_on_id = depends_on_id })
  audit "kanban_dep_added" user.email

-- An existing dependency is left as it is.
abbrev pub unless_dep : Option KanbanCardDep → Service Unit → Service Unit
unless_dep none m = m
unless_dep (some d) m = pure tt

unfoldable pub add_dependency : Env → User → ℕ → ℕ → Service Unit
add_dependency env user card_id depends_on_id = do
  c ← get_card user card_id
  raise_if (depends_on_id == card_id) invalid_input
  dep_card ← gets (get_card_row depends_on_id)
  raise_if (not (on_board_of c dep_card)) invalid_input
  existing ← gets (get_dep card_id depends_on_id)
  unless_dep existing (insert_dependency env user c.board_id card_id depends_on_id)

abbrev drop_dependency : User → Option KanbanCardDep → Service Unit
drop_dependency user none = pure tt
drop_dependency user (some d) = do remove_dep d; audit "kanban_dep_removed" user.email

unfoldable pub remove_dependency : User → ℕ → ℕ → Service Unit
remove_dependency user card_id depends_on_id = do
  get_card user card_id
  existing ← gets (get_dep card_id depends_on_id)
  drop_dependency user existing

-- The cards of the ids that exist, each with its own dependencies.
abbrev with_deps : Db → Option KanbanCard → List KanbanCard → List KanbanCard
with_deps db none rest = rest
with_deps db (some d) rest = record d { depends_on = dep_ids_for_card d.id db } ∷ rest

abbrev dep_cards : Db → List ℕ → List KanbanCard
dep_cards db [] = []
dep_cards db (id ∷ ids) = with_deps db (get_card_row id db) (dep_cards db ids)

unfoldable pub list_dependencies : User → ℕ → Service (List KanbanCard)
list_dependencies user card_id = do
  get_card user card_id
  gets (λ db. dep_cards db (dep_ids_for_card card_id db))
