-- ===== src/Kanban/Moves.antt =====
-- The race-safe move (hub/app/services/kanban_service.py, `_move`): it always returns, and where it
-- puts the card.
use ampla.Shared.{
  All-find_row, ℕ, zero, suc, ◌≡◌, refl, inl, inr, ◌==◌, eq_nat, Option, none, some, Bool-cases,
  nat_eq_iff, ltb, length,
}
use ampla.Rank.{Rank, rank_between, rank_len_max}
use ampla.Rank.Order.{IsRank, IsBound, Above, Below, rank_lt, rank_lt→RankLt}
use ampla.Rank.Between.{rank_between_lem, Between, Ordered}
use ampla.Models.{KanbanCard}
use ampla.Hub.{Db}
use ampla.Hub.Exec.{or_hang}
use ampla.Kanban.Cards.{get_card_row}
use ampla.Kanban.Move.{
  anchor_of, anchor_rank, optional_anchor, end_rank, Bounds, settle, move_bounds, rebalance,
  or_card, Intent, Place, place, choose_place,
}
use ampla.Kanban.Ranked.{HasRank, Ranked, Safe, Safe-resume, end_rank-IsBound, rebalance-Safe}

-- ---- the bounds ----

abbrev Bound : Option Rank → Db → Type 0
Bound r db = IsBound r

abbrev pub FitBounds : Bounds → Db → Type 0
FitBounds b db = IsBound b.0 × IsBound b.1 × Ordered b.0 b.1

anchor_of-Safe :
    (dest_id : ℕ) (found : Option KanbanCard) (db : Db)
    → Ranked db
    → ((a : KanbanCard) → found ≡ some a → IsRank a.rank)
    → Safe (λ r _. IsRank r) (anchor_of dest_id found db)
anchor_of-Safe dest_id none db h k = h
anchor_of-Safe dest_id (some a) db h k = elim (Bool-cases (a.column_id == dest_id)) [
  | inl e ↦ rw e (h, k a refl)
  | inr e ↦ rw e h
]

anchor_rank-Safe :
    (dest_id anchor_id : ℕ) (c : KanbanCard) (db : Db)
    → Ranked db
    → Safe (λ r _. IsRank r) (anchor_rank dest_id anchor_id c db)
unfolding anchor_rank
anchor_rank-Safe dest_id anchor_id c db h = elim (Bool-cases (anchor_id == c.id)) [
  | inl e ↦ rw e h
  | inr e ↦ rw e (
      anchor_of-Safe dest_id (get_card_row anchor_id db) db h
        (λ a found. (All-find_row HasRank _ db.cards a h found).0))
]

optional_anchor-Safe :
    (dest_id : ℕ) (anchor : Option ℕ) (c : KanbanCard) (db : Db)
    → Ranked db
    → Safe Bound (optional_anchor dest_id anchor c db)
unfolding optional_anchor
optional_anchor-Safe dest_id none c db h = (h, tt)
optional_anchor-Safe dest_id (some zero) c db h = (h, tt)
optional_anchor-Safe dest_id (some (suc n)) c db h =
    Safe-resume (λ r _. IsRank r) Bound (anchor_rank dest_id (suc n) c db) _
      (anchor_rank-Safe dest_id (suc n) c db h) (λ r db' h' k. (h', k))

settle-Safe :
    (end lo hi : Option Rank) (db : Db)
    → Ranked db
    → IsBound end
    → IsBound lo
    → IsBound hi
    → Safe FitBounds (settle end lo hi db)
settle-Safe none none none db h e l u = (h, (e, tt, tt))
settle-Safe (some r) none none db h e l u = (h, (e, tt, tt))
settle-Safe end none (some hi) db h e l u = (h, (tt, u, tt))
settle-Safe end (some lo) none db h e l u = (h, (l, tt, tt))
settle-Safe end (some lo) (some hi) db h e l u = elim (Bool-cases (rank_lt lo hi)) [
  | inl f ↦ rw f (h, (l, u, rank_lt→RankLt lo hi f))
  | inr f ↦ rw f h
]

pub move_bounds-Safe :
    (dest_id : ℕ) (c : KanbanCard) (before_id after_id : Option ℕ) (db : Db)
    → Ranked db
    → Safe FitBounds (move_bounds dest_id c before_id after_id db)
unfolding move_bounds
move_bounds-Safe dest_id c before_id after_id db h =
    Safe-resume Bound FitBounds (optional_anchor dest_id before_id c db) _
      (optional_anchor-Safe dest_id before_id c db h)
      (λ lo db1 h1 l.
        Safe-resume Bound FitBounds (optional_anchor dest_id after_id c db1) _
          (optional_anchor-Safe dest_id after_id c db1 h1)
          (λ hi db2 h2 u.
            settle-Safe (end_rank dest_id c db2) lo hi db2 h2 (end_rank-IsBound dest_id c db2 h2) l
              u))

-- ---- the rank ----

abbrev pub Fit : Option Rank → Option Rank → Rank → Db → Type 0
Fit lo hi r db = IsRank r × Above lo r × Below r hi

or_hang-Safe :
    (lo hi : Option Rank) (r : Option Rank) (db : Db)
    → Ranked db
    → Between lo hi r
    → Safe (Fit lo hi) (or_hang r db)
or_hang-Safe lo hi none db h b = elim b [ ]
or_hang-Safe lo hi (some r) db h b = (h, b)

pub rank_between-Safe :
    (lo hi : Option Rank) (db : Db)
    → Ranked db
    → IsBound lo
    → IsBound hi
    → Ordered lo hi
    → Safe (Fit lo hi) (or_hang (rank_between lo hi) db)
rank_between-Safe lo hi db h l u o =
    or_hang-Safe lo hi (rank_between lo hi) db h (rank_between_lem lo hi l u o)

-- A place for the card: its id, and a rank above the lower bound.
abbrev pub Placed : KanbanCard → Place → Db → Type 0
Placed c p db = (p.card.id ≡ c.id) × IsBound p.lo × IsRank p.rank × Above p.lo p.rank

place-Safe :
    (i : Intent) (c d : KanbanCard) (db : Db)
    → Ranked db
    → c.id ≡ d.id
    → Safe (Placed d) (place i c db)
unfolding place
place-Safe i c d db h e =
    Safe-resume FitBounds (Placed d) (move_bounds i.dest.id c i.before_id i.after_id db) _
      (move_bounds-Safe i.dest.id c i.before_id i.after_id db h)
      (λ b db1 h1 f.
        Safe-resume (Fit b.0 b.1) (Placed d) (or_hang (rank_between b.0 b.1) db1) _
          (rank_between-Safe b.0 b.1 db1 h1 f.0 f.1 f.2) (λ r db2 h2 g. (h2, (e, f.0, g.0, g.1))))

pub or_card-id :
    (c : KanbanCard) (db : Db) (found : Option KanbanCard)
    → Ranked db
    → get_card_row c.id db ≡ found
    → (or_card c found).id ≡ c.id
or_card-id c db none h e = refl
or_card-id c db (some d) h e =
    (nat_eq_iff d.id c.id).0
      (All-find_row HasRank (λ (x : KanbanCard). x.id == c.id) db.cards d h e).1

pub choose_place-Safe :
    (i : Intent) (c : KanbanCard) (db : Db) → Ranked db → Safe (Placed c) (choose_place i c db)
unfolding choose_place
choose_place-Safe i c db h =
    Safe-resume (Placed c) (Placed c) (place i c db) _ (place-Safe i c c db h refl) (λ p db1 h1 q.
      elim (Bool-cases (ltb rank_len_max (length p.rank))) [
        | inr e ↦ rw e (h1, q)
        | inl e ↦ rw e (
            Safe-resume (λ _ _. Unit) (Placed c) (rebalance i.dest.id db1) _
              (rebalance-Safe i.dest.id db1 h1)
              (λ u db2 h2 v.
                place-Safe i (or_card c (get_card_row c.id db2)) c db2 h2
                  (or_card-id c db2 (get_card_row c.id db2) h2 refl)))
      ])
