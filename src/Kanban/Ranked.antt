-- ===== src/Kanban/Ranked.antt =====
-- Every card keeps a well-formed rank: the invariant, and how it passes through the reads and the
-- writes of hub/app/repositories/kanban_repo.py.
use ampla.Shared.{
  ℕ, suc, ◌+◌, ◌≡◌, refl, sym, ap, ◌∙◌, inl, inr, Bool, ◌==◌, eq_nat, Option, none, some, List, [],
  ◌∷◌, map, arith, Bool-cases, select, order_by, insert_sorted, first, last, length, All,
  All-select, All-order_by, All-update_rows,
}
use ampla.Rank.{Rank, rebalance_ranks}
use ampla.Rank.Order.{IsRank, IsBound}
use ampla.Rank.Rebalance.{Ascending, Spread, rebalance_ranks_lem}
use ampla.Models.{KanbanCard}
use ampla.Hub.{Db}
use ampla.Hub.Exec.{Result, ok, err, hung, Service, resume, or_hang, ◌>>=◌}
use ampla.Kanban.Cards.{
  in_column, rank_of, rank_le, last_rank_in_column, list_cards_in_column, count_cards_in_column,
  respread, rebalance_column,
}
use ampla.Kanban.Move.{end_rank, rebalance}

abbrev pub HasRank : KanbanCard → Type 0
HasRank c = IsRank c.rank

abbrev pub Ranked : Db → Type 0
Ranked db = All HasRank db.cards

-- A call that returns, keeps the ranks whatever its outcome, and has the property if it succeeds.
abbrev pub Safe : {A : Type 0} → (A → Db → Type 0) → Result A × Db → Type 0
Safe Q (ok a, db) = Ranked db × Q a db
Safe Q (err e, db) = Ranked db
Safe Q (hung, db) = ⊥

pub Safe-resume :
    {A B : Type 0} (Q : A → Db → Type 0) (R : B → Db → Type 0) (r : Result A × Db)
    (f : A → Service B)
    → Safe Q r
    → ((a : A) (db : Db) → Ranked db → Q a db → Safe R (f a db))
    → Safe R (resume r f)
Safe-resume Q R (ok a, db) f h k = k a db h.0 h.1
Safe-resume Q R (err e, db) f h k = h
Safe-resume Q R (hung, db) f h k = elim h [ ]

-- ---- reads ----

first-IsBound : (rows : List KanbanCard) → All HasRank rows → IsBound (rank_of (first rows))
first-IsBound [] h = tt
first-IsBound (c ∷ cs) h = h.0

pub last_rank_in_column-IsBound :
    (column_id : ℕ) (db : Db) → Ranked db → IsBound (last_rank_in_column column_id db)
unfolding last_rank_in_column
last_rank_in_column-IsBound column_id db h =
    first-IsBound _ (All-order_by HasRank _ _ (All-select HasRank (in_column column_id) db.cards h))

last-IsBound :
    (rows : List KanbanCard)
    → All HasRank rows
    → IsBound (last (map (λ (d : KanbanCard). d.rank) rows))
last-IsBound [] h = tt
last-IsBound (c ∷ []) h = h.0
last-IsBound (c ∷ d ∷ ds) h = last-IsBound (d ∷ ds) h.1

pub end_rank-IsBound :
    (dest_id : ℕ) (c : KanbanCard) (db : Db) → Ranked db → IsBound (end_rank dest_id c db)
unfolding end_rank list_cards_in_column
end_rank-IsBound dest_id c db h = last-IsBound _ (
    All-select HasRank _ _
      (All-order_by HasRank rank_le _ (All-select HasRank (in_column dest_id) db.cards h)))

-- ---- the rebalance ----

length-insert_sorted :
    (le : KanbanCard → KanbanCard → Bool) (x : KanbanCard) (rows : List KanbanCard)
    → length (insert_sorted le x rows) ≡ suc (length rows)
length-insert_sorted le x [] = refl
length-insert_sorted le x (y ∷ ys) = elim (Bool-cases (le x y)) [
  | inl e ↦ rw e refl
  | inr e ↦ rw e (ap suc (length-insert_sorted le x ys))
]

length-order_by :
    (le : KanbanCard → KanbanCard → Bool) (rows : List KanbanCard)
    → length (order_by le rows) ≡ length rows
length-order_by le [] = refl
length-order_by le (x ∷ xs) =
    length-insert_sorted le x (order_by le xs) ∙ ap suc (length-order_by le xs)

-- Every card of the column has a new rank, and none keeps a temporary one.
respread-HasRank :
    (i : ℕ) (cs : List KanbanCard) (prev : Option Rank) (rs : List Rank) (rows : List KanbanCard)
    → length rs ≡ length cs
    → Ascending prev rs
    → All HasRank rows
    → All HasRank (respread i cs rs rows)
unfolding respread
respread-HasRank i [] prev rs rows e a h = h
respread-HasRank i (c ∷ cs) prev [] rows e a h = let out : ⊥ = omega arith in elim out [ ]
respread-HasRank i (c ∷ cs) prev (r ∷ rs) rows e a h =
    respread-HasRank (i + 1) cs (some r) rs _ (omega arith) a.2 (
      All-update_rows HasRank (λ (d : KanbanCard). d.id == c.id)
        (λ d. record d { rank = r; version = d.version + 1 }) rows (λ x. a.0) h)

Spread-Ranked :
    (column_id count : ℕ) (new_ranks : Option (List Rank)) (db : Db)
    → Ranked db
    → count ≡ length (list_cards_in_column column_id db)
    → Spread count none new_ranks
    → Safe (λ _ _. Unit) ((do ranks ← or_hang new_ranks; rebalance_column column_id ranks) db)
unfolding rebalance_column
Spread-Ranked column_id count none db h e s = elim s [ ]
Spread-Ranked column_id count (some rs) db h e s =
    (respread-HasRank 0 (list_cards_in_column column_id db) none rs db.cards (s.0 ∙ e) s.1 h, tt)

counted :
    (column_id : ℕ) (db : Db)
    → count_cards_in_column column_id db ≡ length (list_cards_in_column column_id db)
unfolding count_cards_in_column list_cards_in_column
counted column_id db = sym (length-order_by rank_le (select (in_column column_id) db.cards))

pub rebalance-Safe :
    (column_id : ℕ) (db : Db) → Ranked db → Safe (λ _ _. Unit) (rebalance column_id db)
unfolding rebalance
rebalance-Safe column_id db h =
    Spread-Ranked column_id (count_cards_in_column column_id db)
      (rebalance_ranks (count_cards_in_column column_id db)) db h (counted column_id db)
      (rebalance_ranks_lem (count_cards_in_column column_id db))
