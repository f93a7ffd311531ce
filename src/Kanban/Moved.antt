-- ===== src/Kanban/Moved.antt =====
-- The race-safe move as a whole (hub/app/services/kanban_service.py, `_move`).
use ampla.Shared.{
  ℕ, ◌≡◌, refl, subst, ◌⊎◌, inl, inr, String, false, ◌&&◌, ◌==◌, eq_nat, Option, some, List, [],
  ◌∷◌, arith, Bool-cases, Option-cases, find_row, nat_eq_iff,
}
use ampla.Models.{KanbanColumn, KanbanCard}
use ampla.Hub.{Db, Env}
use ampla.Hub.Exec.{Result, ok, err, hung, Service, ◌>>=◌, not_found}
use ampla.Kanban.Tables.{get_column}
use ampla.Kanban.Access.{column_of_board}
use ampla.Kanban.Move.{is_blocked, Intent, intent, attempts, choose_place, move, move_retries}
use ampla.Kanban.Ranked.{Ranked, Safe, Safe-resume}
use ampla.Kanban.Moves.{Placed, choose_place-Safe}
use ampla.Kanban.Cards.{get_card_row}
use ampla.Kanban.Present.{Present, Present-found, Safe-Present, choose_place-Present}
use ampla.Kanban.Attempts.{Landing, attempts-Safe}

find_column-id :
    (column_id : ℕ) (c : KanbanColumn) (rows : List KanbanColumn)
    → find_row (λ (d : KanbanColumn). d.id == column_id) rows ≡ some c
    → c.id ≡ column_id
find_column-id column_id c [] e = let out : ⊥ = ground (arith, e) in elim out [ ]
find_column-id column_id c (d ∷ ds) e = elim (Bool-cases (d.id == column_id)) [
  | inl f ↦ rw (← same (rw f at e)) ((nat_eq_iff d.id column_id).0 f)
  | inr f ↦ find_column-id column_id c ds (rw f at e)
]
  where
    same : some d ≡ some c → d ≡ c
    same k = cc

pub column_of_board-cases :
    (board_id column_id : ℕ) (db : Db)
    → (column_of_board board_id column_id db ≡ (err not_found, db))
      ⊎ ((dest : KanbanColumn) × (get_column column_id db ≡ some dest)
          × (dest.board_id ≡ board_id)
          × (dest.id ≡ column_id)
          × (column_of_board board_id column_id db ≡ (ok dest, db)))
unfolding column_of_board
column_of_board-cases board_id column_id db = elim (Option-cases (get_column column_id db)) [
  | inl e ↦ inl (rw e refl)
  | inr (dest, e) ↦ elim (Bool-cases (dest.board_id == board_id)) [
    | inl f ↦ inr (
      dest,
      e,
      (nat_eq_iff dest.board_id board_id).0 f,
      find_column-id column_id dest db.columns e,
      rw (e, f) refl,
    )
    | inr f ↦ inl (rw (e, f) refl)
  ]
]

-- The move was allowed: the version was current, the column is on the card's board, and no
-- dependency outside a done column keeps the card out of a done column.
abbrev pub Allowed : KanbanCard → ℕ → ℕ → Db → Type 0
Allowed c to_column_id expected_version db =
    (c.version ≡ expected_version)
    × ((dest : KanbanColumn) × (get_column to_column_id db ≡ some dest)
        × (dest.board_id ≡ c.board_id)
        × ((dest.is_done && is_blocked c db) ≡ false))

abbrev pub Moved : KanbanCard → ℕ → ℕ → Db → Result KanbanCard × Db → Type 0
Moved c to_column_id expected_version db (ok d, db') =
    Ranked db' × Allowed c to_column_id expected_version db × Landing c.id to_column_id d db'
Moved c to_column_id expected_version db (err e, db') = Ranked db'
Moved c to_column_id expected_version db (hung, db') = ⊥

-- From the safety of the attempts, with what was checked before them.
Allowed-Moved :
    (c : KanbanCard) (to_column_id expected_version : ℕ) (db : Db) (r : Result KanbanCard × Db)
    → Allowed c to_column_id expected_version db
    → Safe (Landing c.id to_column_id) r
    → Moved c to_column_id expected_version db r
Allowed-Moved c to_column_id expected_version db (ok d, db') a s = (s.0, a, s.1)
Allowed-Moved c to_column_id expected_version db (err e, db') a s = s
Allowed-Moved c to_column_id expected_version db (hung, db') a s = s

-- The move behind its checks.
abbrev run : Env → KanbanCard → Intent → Service KanbanCard
run env c i = do p ← choose_place i c; attempts env i p.card move_retries p.lo p.rank

run-Safe :
    (env : Env) (c : KanbanCard) (i : Intent) (db : Db)
    → Ranked db
    → Present c.id db
    → Safe (Landing c.id i.dest.id) (run env c i db)
run-Safe env c i db h there =
    Safe-resume (λ p now. Placed c p now × Present c.id now) (Landing c.id i.dest.id)
      (choose_place i c db) _
      (Safe-Present (Placed c) c.id (choose_place i c db) (choose_place-Safe i c db h)
        (choose_place-Present c.id i c db there))
      (λ p db1 h1 q.
        attempts-Safe env i p.card move_retries p.lo p.rank c.id db1 h1 q.0.0 q.0.1 q.0.2 q.0.3 q.1)

-- In a database whose cards have well-formed ranks, a move of a card that is in the table always
-- returns, through its retries and rebalances, and leaves every card with a well-formed rank. When it
-- succeeds, the version that the client expected was the card's, the column is one of the card's
-- board, a done column was not closed by an unfinished dependency, the card returned is the same card,
-- in that column, and its row in the table has the column, the rank and the version returned.
pub move-Moved :
    (env : Env) (c : KanbanCard) (to_column_id : ℕ) (before_id after_id : Option ℕ)
    → (expected_version : ℕ) (actor : String) (db : Db) → Ranked db
    → get_card_row c.id db ≡ some c
    → Moved c to_column_id expected_version db
        (move env c to_column_id before_id after_id expected_version actor db)
unfolding move
move-Moved env c to_column_id before_id after_id expected_version actor db h there =
    elim (Bool-cases (c.version == expected_version)) [
      | inr e ↦ rw e h
      | inl e ↦ elim (column_of_board-cases c.board_id to_column_id db) [
        | inl f ↦ rw (e, f) h
        | inr (dest, found, board, id, f) ↦ elim (Bool-cases (dest.is_done && is_blocked c db)) [
          | inl g ↦ rw (e, f, g) h
          | inr g ↦
              rw (e, f, g)
                (Allowed-Moved c to_column_id expected_version db
                  (run env c (intent dest before_id after_id actor) db)
                  ((nat_eq_iff c.version expected_version).0 e, (dest, found, board, g))
                  (subst
                    (λ n.
                      Safe (Landing c.id n) (run env c (intent dest before_id after_id actor) db))
                    id
                    (run-Safe env c (intent dest before_id after_id actor) db h
                      (Present-found c.id c db.cards there))))
        ]
      ]
    ]
