-- ===== src/Kanban/Reads.antt =====
-- What the authorized reads of hub/app/services/kanban_service.py return, case by case.
use ampla.Shared.{ℕ, ◌≡◌, refl, ◌⊎◌, inl, inr, true, eq_nat, some, Bool-cases, Option-cases}
use ampla.Models.{User, KanbanBoard, KanbanCard}
use ampla.Hub.{Db}
use ampla.Hub.Exec.{ok, err, not_found}
use ampla.Kanban.Tables.{get_board as get_board_row}
use ampla.Kanban.Cards.{get_card_row, dep_ids_for_card}
use ampla.Kanban.Access.{can_see, visible_board}
use ampla.Kanban.CardOps.{get_card}

module _ (user : User) (board_id : ℕ) (db : Db) where
  -- A board that the user may see.
  abbrev pub Sees : KanbanBoard → Type 0
  Sees b = (get_board_row board_id db ≡ some b) × (can_see user b db ≡ true)

  pub visible_board-cases :
      (visible_board user board_id db ≡ (err not_found, db))
      ⊎ ((b : KanbanBoard) × Sees b × (visible_board user board_id db ≡ (ok b, db)))
  unfolding visible_board
  visible_board-cases = elim (Option-cases (get_board_row board_id db)) [
    | inl e ↦ inl (rw e refl)
    | inr (b, e) ↦ elim (Bool-cases (can_see user b db)) [
      | inl f ↦ inr (b, (e, f), rw (e, f) refl)
      | inr f ↦ inl (rw (e, f) refl)
    ]
  ]

module _ (user : User) (card_id : ℕ) (db : Db) where
  -- The card as `get_card` hands it out.
  abbrev pub with_dependencies : KanbanCard → KanbanCard
  with_dependencies c = record c { depends_on = dep_ids_for_card c.id db }

  pub get_card-cases :
      (get_card user card_id db ≡ (err not_found, db))
      ⊎ ((c : KanbanCard) × (get_card_row card_id db ≡ some c)
          × (get_card user card_id db ≡ (ok (with_dependencies c), db)))
  unfolding get_card
  get_card-cases = elim (Option-cases (get_card_row card_id db)) [
    | inl e ↦ inl (rw e refl)
    | inr (c, e) ↦ elim (visible_board-cases user c.board_id db) [
      | inl f ↦ inl (rw (e, f) refl)
      | inr (b, s, f) ↦ inr (c, e, rw (e, f) refl)
    ]
  ]
