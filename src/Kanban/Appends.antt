-- ===== src/Kanban/Appends.antt =====
-- New cards go behind the cards of their column (hub/app/services/kanban_service.py, `_insert_card`
-- and `create_event_card`).
use ampla.Shared.{
  All-snoc, ℕ, ◌≡◌, ◌≢◌, refl, ◌⊎◌, inl, inr, String, true, false, not, ◌&&◌, ◌==◌, eq_nat, Option,
  none, some, List, [], ◌∷◌, ◌++◌, arith, Bool-cases, Option-cases, if◌then◌else◌, select, any,
  nat_eq, nat_eq_iff,
}
use ampla.Rank.{Rank, rank_between}
use ampla.Rank.Order.{IsRank, RankLt, RankLt-irrefl}
use ampla.Rank.Between.{rank_between_lem, Between, Ordered}
use ampla.Models.{KanbanColumn, KanbanCard, Origin}
use ampla.Hub.{Db, Env}
use ampla.Hub.Exec.{
  Result, ok, err, hung, Exception, unexpected, not_found, conflict, or_hang, gets, ◌>>=◌,
}
use ampla.Kanban.Tables.{landing_column, list_columns}
use ampla.Kanban.Cards.{in_column, taken, rank_eq, add_card, last_rank_in_column, new_card_id}
use ampla.Kanban.Inputs.{CardCreate}
use ampla.Kanban.Access.{resolve_landing, landing_or_first}
use ampla.Kanban.CardOps.{append_card, new_card}
use ampla.Kanban.Ranked.{HasRank, Ranked, last_rank_in_column-IsBound}
use ampla.Kanban.Placement.{Behind, last_rank_in_column-Behind}
use ampla.Kanban.Moved.{column_of_board-cases}

pub resolve_landing-cases :
    (board_id : ℕ) (column_id : Option ℕ) (db : Db)
    → ((e : Exception) × (e ≢ unexpected) × (resolve_landing board_id column_id db ≡ (err e, db)))
      ⊎ ((column : KanbanColumn) × (resolve_landing board_id column_id db ≡ (ok column, db)))
unfolding resolve_landing
resolve_landing-cases board_id none db =
    elim (Option-cases (landing_or_first (landing_column board_id db) (list_columns board_id db))) [
      | inl e ↦ inl (conflict, (λ p. cc), rw e refl)
      | inr (column, e) ↦ inr (column, rw e refl)
    ]
resolve_landing-cases board_id (some column_id) db =
    elim (column_of_board-cases board_id column_id db) [
      | inl e ↦ inl (not_found, (λ p. cc), e)
      | inr (dest, found, board, id, e) ↦ inr (dest, e)
    ]

pub rank_eq→≡ : (r s : Rank) → rank_eq r s ≡ true → r ≡ s
rank_eq→≡ [] [] h = refl
rank_eq→≡ [] (y ∷ ys) h = let out : ⊥ = ground (arith, h) in elim out [ ]
rank_eq→≡ (x ∷ xs) [] h = let out : ⊥ = ground (arith, h) in elim out [ ]
rank_eq→≡ (x ∷ xs) (y ∷ ys) h = elim (Bool-cases (nat_eq x y)) [
  | inl e ↦ cc ((nat_eq_iff x y).0 e, rank_eq→≡ xs ys (rw e at h))
  | inr e ↦ let out : ⊥ = true_is_false (rw e at h) in elim out [ ]
]
  where
    true_is_false : false ≡ true → ⊥
    true_is_false p = ground (arith, p)

-- A rank behind the column is free in it.
Behind-free :
    (card_id column_id : ℕ) (r : Rank) (rows : List KanbanCard)
    → Behind r (select (in_column column_id) rows)
    → any (taken card_id column_id r) rows ≡ false
Behind-free card_id column_id r [] h = refl
Behind-free card_id column_id r (d ∷ ds) h = elim (Bool-cases (d.column_id == column_id)) [
  | inl e ↦ rw (e, other (rw e at h).0) (drop (Behind-free card_id column_id r ds (rw e at h).1))
  | inr e ↦ rw e (drop (Behind-free card_id column_id r ds (rw e at h)))
]
  where
    other : RankLt d.rank r → rank_eq d.rank r ≡ false
    other less = elim (Bool-cases (rank_eq d.rank r)) [
      | inl e ↦ elim (RankLt-irrefl r (rw (rank_eq→≡ d.rank r e) at less)) [ ]
      | inr e ↦ e
    ]

    drop :
        any (taken card_id column_id r) ds ≡ false
        → (if not (d.id == card_id) && false then true else any (taken card_id column_id r) ds)
          ≡ false
    drop k = elim (Bool-cases (d.id == card_id)) [ inl e ↦ rw e k | inr e ↦ rw e k ]

-- The card is the newest of the table, its rank is behind every card of its column, and every card
-- keeps a well-formed rank; or nothing changed, for another reason than the index on the ranks.
abbrev pub Appended : Db → Result KanbanCard × Db → Type 0
Appended db (ok c, db') =
    Ranked db'
    × (db'.cards ≡ db.cards ++ c ∷ [])
    × Behind c.rank (select (in_column c.column_id) db.cards)
Appended db (err e, db') = (db' ≡ db) × (e ≢ unexpected)
Appended db (hung, db') = ⊥

add_card-Appended :
    (c : KanbanCard) (db : Db)
    → Ranked db
    → IsRank c.rank
    → Behind c.rank (select (in_column c.column_id) db.cards)
    → Appended db (add_card c db)
unfolding add_card
add_card-Appended c db h k b =
    rw (Behind-free c.id c.column_id c.rank db.cards b) (All-snoc HasRank db.cards c h k, refl, b)

Ranked-Appended :
    (env : Env) (board_id : ℕ) (body : CardCreate) (created_by : String) (origin : Option Origin)
    → (column : KanbanColumn) (r : Option Rank) (db : Db) → Ranked db
    → Between (last_rank_in_column column.id db) none r
    → Appended db (
        (do
          rank ← or_hang r
          id ← gets (new_card_id env)
          add_card (new_card env board_id column body created_by origin rank id))
          db)
Ranked-Appended env board_id body created_by origin column none db h b = elim b [ ]
Ranked-Appended env board_id body created_by origin column (some r) db h b =
    add_card-Appended (new_card env board_id column body created_by origin r (new_card_id env db))
      db h b.0 (last_rank_in_column-Behind column.id db r b.1)

-- In a database whose cards have well-formed ranks, adding a card always returns; the new card comes
-- last in its column, its rank above that of every card there, so that it never meets the unique
-- index on the ranks of a column; and every card again has a well-formed rank.
pub append_card-Appended :
    (env : Env) (board_id : ℕ) (body : CardCreate) (created_by : String) (origin : Option Origin)
    (db : Db)
    → Ranked db
    → Appended db (append_card env board_id body created_by origin db)
unfolding append_card
append_card-Appended env board_id body created_by origin db h =
    elim (resolve_landing-cases board_id body.column_id db) [
      | inl (e, other, f) ↦ rw f (refl, other)
      | inr (column, f) ↦ rw f (
          Ranked-Appended env board_id body created_by origin column
            (rank_between (last_rank_in_column column.id db) none) db h
            (rank_between_lem (last_rank_in_column column.id db) none
              (last_rank_in_column-IsBound column.id db h) tt
              (open_end (last_rank_in_column column.id db))))
    ]
  where
    open_end : (lo : Option Rank) → Ordered lo none
    open_end none = tt
    open_end (some r) = tt
