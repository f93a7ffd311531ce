-- ===== src/Kanban/Present.antt =====
-- A card stays in the table through the reads and the rebalances of a move
-- (hub/app/services/kanban_service.py, `_move_bounds` and `_rebalance`).
use ampla.Shared.{
  ℕ, zero, suc, ◌+◌, ◌≡◌, refl, ◌∙◌, inl, inr, Bool, true, ◌==◌, eq_nat, Option, none, some, List,
  [], ◌∷◌, arith, Bool-cases, any, find_row, update_rows, ltb, length,
}
use ampla.Rank.{Rank, rank_between, rebalance_ranks, rank_len_max}
use ampla.Rank.Order.{rank_lt}
use ampla.Models.{KanbanCard}
use ampla.Hub.{Db}
use ampla.Hub.Exec.{Result, ok, err, hung, Service, resume, or_hang}
use ampla.Kanban.Cards.{
  get_card_row, respread, rebalance_column, list_cards_in_column, count_cards_in_column,
}
use ampla.Kanban.Ranked.{Safe}
use ampla.Kanban.Move.{
  Intent, anchor_of, anchor_rank, optional_anchor, settle, move_bounds, rebalance, place,
  choose_place, or_card, end_rank,
}

abbrev pub Present : ℕ → Db → Type 0
Present card_id db = any (λ (c : KanbanCard). c.id == card_id) db.cards ≡ true

pub Present-found :
    (card_id : ℕ) (c : KanbanCard) (rows : List KanbanCard)
    → find_row (λ (d : KanbanCard). d.id == card_id) rows ≡ some c
    → any (λ (d : KanbanCard). d.id == card_id) rows ≡ true
Present-found card_id c [] h = let out : ⊥ = ground (arith, h) in elim out [ ]
Present-found card_id c (d ∷ ds) h = elim (Bool-cases (d.id == card_id)) [
  | inl e ↦ rw e refl
  | inr e ↦ rw e (Present-found card_id c ds (rw e at h))
]

-- The row that is overwritten is found.
pub find_row-overwritten :
    (card_id : ℕ) (new : KanbanCard) (rows : List KanbanCard)
    → any (λ (d : KanbanCard). d.id == card_id) rows ≡ true
    → (new.id == card_id) ≡ true
    → find_row
        (λ (d : KanbanCard). d.id == card_id)
        (update_rows (λ (d : KanbanCard). d.id == card_id) (λ _. new) rows)
      ≡ some new
find_row-overwritten card_id new [] h k = let out : ⊥ = ground (arith, h) in elim out [ ]
find_row-overwritten card_id new (d ∷ ds) h k = elim (Bool-cases (d.id == card_id)) [
  | inl e ↦ rw (e, k) refl
  | inr e ↦ rw (e, e) (find_row-overwritten card_id new ds (rw e at h) k)
]

any-update_rows :
    (card_id : ℕ) (p : KanbanCard → Bool) (f : KanbanCard → KanbanCard) (rows : List KanbanCard)
    → ((c : KanbanCard) → (f c).id ≡ c.id)
    → any (λ (d : KanbanCard). d.id == card_id) (update_rows p f rows)
      ≡ any (λ (d : KanbanCard). d.id == card_id) rows
any-update_rows card_id p f [] h = refl
any-update_rows card_id p f (c ∷ cs) h = elim (Bool-cases (p c)) [
  | inl e ↦ rw (e, h c, any-update_rows card_id p f cs h) refl
  | inr e ↦ rw (e, any-update_rows card_id p f cs h) refl
]

any-respread :
    (card_id i : ℕ) (cs : List KanbanCard) (rs : List Rank) (rows : List KanbanCard)
    → any (λ (d : KanbanCard). d.id == card_id) rows ≡ true
    → any (λ (d : KanbanCard). d.id == card_id) (respread i cs rs rows) ≡ true
unfolding respread
any-respread card_id i [] rs rows h = h
any-respread card_id i (c ∷ cs) [] rows h =
    any-respread card_id (i + 1) cs [] _
      (any-update_rows card_id (λ (d : KanbanCard). d.id == c.id) _ rows (λ d. refl) ∙ h)
any-respread card_id i (c ∷ cs) (r ∷ rs) rows h =
    any-respread card_id (i + 1) cs rs _
      (any-update_rows card_id (λ (d : KanbanCard). d.id == c.id) _ rows (λ d. refl) ∙ h)

-- ---- calls ----

resume-Present :
    {A B : Type 0} (card_id : ℕ) (r : Result A × Db) (f : A → Service B)
    → Present card_id r.1
    → ((a : A) (db : Db) → Present card_id db → Present card_id (f a db).1)
    → Present card_id (resume r f).1
resume-Present card_id (ok a, db) f h k = k a db h
resume-Present card_id (err e, db) f h k = h
resume-Present card_id (hung, db) f h k = h

pub or_hang-Present :
    {A : Type 0} (card_id : ℕ) (o : Option A) (db : Db)
    → Present card_id db
    → Present card_id (or_hang o db).1
or_hang-Present card_id none db h = h
or_hang-Present card_id (some a) db h = h

pub rebalance-Present :
    (card_id column_id : ℕ) (db : Db)
    → Present card_id db
    → Present card_id (rebalance column_id db).1
unfolding rebalance rebalance_column
rebalance-Present card_id column_id db h =
    resume-Present card_id (or_hang (rebalance_ranks (count_cards_in_column column_id db)) db) _
      (or_hang-Present card_id (rebalance_ranks (count_cards_in_column column_id db)) db h)
      (λ ranks now k. any-respread card_id 0 (list_cards_in_column column_id now) ranks now.cards k)

optional_anchor-Present :
    (card_id dest_id : ℕ) (anchor : Option ℕ) (c : KanbanCard) (db : Db)
    → Present card_id db
    → Present card_id (optional_anchor dest_id anchor c db).1
unfolding optional_anchor anchor_rank
optional_anchor-Present card_id dest_id none c db h = h
optional_anchor-Present card_id dest_id (some zero) c db h = h
optional_anchor-Present card_id dest_id (some (suc n)) c db h = elim (Bool-cases (suc n == c.id)) [
  | inl e ↦ rw e h
  | inr e ↦ rw e (
      resume-Present card_id (anchor_of dest_id (get_card_row (suc n) db) db) _
        (found (get_card_row (suc n) db)) (λ r now k. k))
]
  where
    found : (a : Option KanbanCard) → Present card_id (anchor_of dest_id a db).1
    found none = h
    found (some a) = elim (Bool-cases (a.column_id == dest_id)) [ inl e ↦ rw e h | inr e ↦ rw e h ]

settle-Present :
    (card_id : ℕ) (end lo hi : Option Rank) (db : Db)
    → Present card_id db
    → Present card_id (settle end lo hi db).1
settle-Present card_id end none none db h = h
settle-Present card_id end none (some hi) db h = h
settle-Present card_id end (some lo) none db h = h
settle-Present card_id end (some lo) (some hi) db h = elim (Bool-cases (rank_lt lo hi)) [
  | inl e ↦ rw e h
  | inr e ↦ rw e h
]

pub move_bounds-Present :
    (card_id dest_id : ℕ) (c : KanbanCard) (before_id after_id : Option ℕ) (db : Db)
    → Present card_id db
    → Present card_id (move_bounds dest_id c before_id after_id db).1
unfolding move_bounds
move_bounds-Present card_id dest_id c before_id after_id db h =
    resume-Present card_id (optional_anchor dest_id before_id c db) _
      (optional_anchor-Present card_id dest_id before_id c db h)
      (λ lo now k.
        resume-Present card_id (optional_anchor dest_id after_id c now) _
          (optional_anchor-Present card_id dest_id after_id c now k)
          (λ hi now2 k2. settle-Present card_id (end_rank dest_id c now2) lo hi now2 k2))

place-Present :
    (card_id : ℕ) (i : Intent) (c : KanbanCard) (db : Db)
    → Present card_id db
    → Present card_id (place i c db).1
unfolding place
place-Present card_id i c db h =
    resume-Present card_id (move_bounds i.dest.id c i.before_id i.after_id db) _
      (move_bounds-Present card_id i.dest.id c i.before_id i.after_id db h)
      (λ b now k.
        resume-Present card_id (or_hang (rank_between b.0 b.1) now) _
          (or_hang-Present card_id (rank_between b.0 b.1) now k) (λ r now2 k2. k2))

pub choose_place-Present :
    (card_id : ℕ) (i : Intent) (c : KanbanCard) (db : Db)
    → Present card_id db
    → Present card_id (choose_place i c db).1
unfolding choose_place
choose_place-Present card_id i c db h =
    resume-Present card_id (place i c db) _ (place-Present card_id i c db h) (λ p now k.
      elim (Bool-cases (ltb rank_len_max (length p.rank))) [
        | inr e ↦ rw e k
        | inl e ↦ rw e (
            resume-Present card_id (rebalance i.dest.id now) _
              (rebalance-Present card_id i.dest.id now k)
              (λ u now2 k2. place-Present card_id i (or_card c (get_card_row c.id now2)) now2 k2))
      ])

-- A safe call that keeps the card.
pub Safe-Present :
    {A : Type 0} (Q : A → Db → Type 0) (card_id : ℕ) (r : Result A × Db)
    → Safe Q r
    → Present card_id r.1
    → Safe (λ a db. Q a db × Present card_id db) r
Safe-Present Q card_id (ok a, db) h p = (h.0, (h.1, p))
Safe-Present Q card_id (err e, db) h p = h
Safe-Present Q card_id (hung, db) h p = h
