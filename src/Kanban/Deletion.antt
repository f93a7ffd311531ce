-- ===== src/Kanban/Deletion.antt =====
-- Deleting a card or a board that takes part in a dependency (hub/app/services/kanban_service.py,
-- hub/app/repositories/kanban_repo.py), and making the landing column the landing column.
use ampla.Shared.{
  ℕ, ◌≡◌, refl, sym, ap, ◌⊎◌, inl, inr, Bool, true, false, ◌&&◌, ◌==◌, eq_nat, none, some, List, [],
  ◌∷◌, arith, Bool-cases, select, any-In, All, first, order_by, nat_eq_iff, update_rows, In,
}
use ampla.Models.{User, KanbanBoard, KanbanColumn, KanbanCard, KanbanCardDep}
use ampla.Hub.{Db}
use ampla.Hub.Exec.{err, unexpected, audit}
use ampla.Kanban.Tables.{
  get_board as get_board_row, get_column, by_rank, landing_column, clear_landing, save_column,
  written_column, dep_on_board, on_board, delete_board as delete_board_rows,
}
use ampla.Kanban.Cards.{dep_names, get_card_row, delete_card_row}
use ampla.Kanban.Inputs.{ColumnUpdate}
use ampla.Kanban.Access.{can_see, seen_by, visible_board, owned_board, governs, column_of_board}
use ampla.Kanban.Boards.{delete_board, update_column, updated_column}
use ampla.Kanban.Acyclic.{found-on_board}
use ampla.Kanban.CardOps.{get_card, delete_card}

-- The dependency has the card at one of its ends.
abbrev pub Ends : ℕ → KanbanCardDep → Type 0
Ends card_id d = (d.card_id ≡ card_id) ⊎ (d.depends_on_id ≡ card_id)

Ends-dep_names : (card_id : ℕ) (d : KanbanCardDep) → Ends card_id d → dep_names card_id d ≡ true
Ends-dep_names card_id d (inl e) = ground (arith, (nat_eq_iff d.card_id card_id).1 e)
Ends-dep_names card_id d (inr e) = ground (arith, (nat_eq_iff d.depends_on_id card_id).1 e)

Ends-dep_on_board :
    (card_id board_id : ℕ) (d : KanbanCardDep) (db : Db)
    → on_board board_id db card_id ≡ true
    → Ends card_id d
    → dep_on_board board_id db d ≡ true
Ends-dep_on_board card_id board_id d db h (inl e) = or_left (rw (sym e) at h)
  where
    or_left : on_board board_id db d.card_id ≡ true → dep_on_board board_id db d ≡ true
    or_left k = rw k refl
Ends-dep_on_board card_id board_id d db h (inr e) = or_right (rw (sym e) at h)
  where
    or_right : on_board board_id db d.depends_on_id ≡ true → dep_on_board board_id db d ≡ true
    or_right k = elim (Bool-cases (on_board board_id db d.card_id)) [
      | inl f ↦ rw f refl
      | inr f ↦ rw (f, k) refl
    ]

-- A card at either end of a dependency cannot be deleted, and neither can its board: for a user who
-- sees the board and governs it, both operations end in an exception that is none of the service's
-- own, and nothing changes.
pub deletion-unexpected :
    (user : User) (c : KanbanCard) (b : KanbanBoard) (d : KanbanCardDep) (db : Db)
    → get_card_row c.id db ≡ some c
    → get_board_row c.board_id db ≡ some b
    → can_see user b db ≡ true
    → governs user b ≡ true
    → b.id ≡ c.board_id
    → In d db.deps
    → Ends c.id d
    → (delete_card user c.id db ≡ (err unexpected, db))
      × (delete_board user c.board_id db ≡ (err unexpected, db))
unfolding delete_card get_card visible_board delete_card_row delete_board owned_board
    delete_board_rows
deletion-unexpected user c b d db found board sees governed id i e = (
  rw (found, board, sees, any-In (dep_names c.id) d db.deps i (Ends-dep_names c.id d e)),
  rw (
    board,
    sees,
    governed,
    any-In (dep_on_board b.id db) d db.deps i
        (Ends-dep_on_board c.id b.id d db (rw id (found-on_board c.id c db.cards found)) e),
  ),
)

-- ---- the landing column ----

abbrev lands_on : ℕ → KanbanColumn → Bool
lands_on board_id c = c.board_id == board_id && c.is_landing

abbrev cleared : ℕ → List KanbanColumn → List KanbanColumn
cleared board_id rows =
    update_rows (λ (c : KanbanColumn). c.board_id == board_id)
      (λ c. record c { is_landing = false }) rows

abbrev stored : KanbanColumn → KanbanColumn → List KanbanColumn → List KanbanColumn
stored loaded c rows =
    update_rows (λ (r : KanbanColumn). r.id == c.id) (written_column loaded c) rows

-- The rows of that id are the board's.
abbrev pub OnBoard : ℕ → ℕ → List KanbanColumn → Type 0
OnBoard column_id board_id rows =
    All (λ (r : KanbanColumn). ((r.id == column_id) ≡ false) ⊎ ((r.board_id == board_id) ≡ true))
      rows

lands_nowhere :
    (board_id : ℕ) (loaded c : KanbanColumn) (rows : List KanbanColumn)
    → loaded.is_landing ≡ true
    → c.is_landing ≡ true
    → OnBoard c.id board_id rows
    → select (lands_on board_id) (stored loaded c (cleared board_id rows)) ≡ []
lands_nowhere board_id loaded c [] l m u = refl
lands_nowhere board_id loaded c (r ∷ rs) l m u = elim (Bool-cases (r.board_id == board_id)) [
  | inl e ↦ elim (Bool-cases (r.id == c.id)) [
    | inl f ↦ elim (Bool-cases (c.board_id == board_id)) [
      | inl g ↦ rw (e, f, l, m, g) (lands_nowhere board_id loaded c rs l m u.1)
      | inr g ↦ rw (e, f, l, m, g) (lands_nowhere board_id loaded c rs l m u.1)
    ]
    | inr f ↦ rw (e, f, e) (lands_nowhere board_id loaded c rs l m u.1)
  ]
  | inr e ↦ elim u.0 [
    | inl f ↦ rw (e, f, e) (lands_nowhere board_id loaded c rs l m u.1)
    | inr f ↦ let out : ⊥ = ground (arith, e, f) in elim out [ ]
  ]
]

-- Setting `is_landing` on the column that is the landing column already leaves the board without a
-- landing column: the bulk clear is not undone, since the loaded column shows no change to write.
update_column-landing_again :
    (user : User) (board_id : ℕ) (c : KanbanColumn) (b : KanbanBoard) (body : ColumnUpdate)
    (db : Db)
    → seen_by user db (get_board_row board_id db) ≡ some b
    → get_column c.id db ≡ some c
    → (c.board_id == board_id) ≡ true
    → OnBoard c.id board_id db.columns
    → c.is_landing ≡ true
    → body.is_landing ≡ some true
    → landing_column board_id (update_column user board_id c.id body db).1 ≡ none
unfolding update_column visible_board column_of_board clear_landing save_column audit landing_column
update_column-landing_again user board_id c b body db seen found board unique landing again =
    rw (seen, found, board, again)
      (ap (λ rows. first (order_by by_rank rows))
        (lands_nowhere board_id c (record (updated_column body c) { is_landing = true }) db.columns
          landing refl unique))
