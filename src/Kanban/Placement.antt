-- ===== src/Kanban/Placement.antt =====
-- Where new cards are put, and what the writes of cards keep (hub/app/services/kanban_service.py,
-- hub/app/repositories/kanban_repo.py).
use ampla.Shared.{
  ℕ, ◌<◌, ◌≡◌, refl, sym, ◌⊎◌, inl, inr, Bool, false, eq_nat, Option, none, some, List, [], ◌∷◌,
  arith, Bool-cases, select, order_by, insert_sorted, first, All,
}
use ampla.Rank.{Rank}
use ampla.Rank.Order.{
  rank_lt, RankLt, rank_lt→RankLt, RankLt→rank_lt, RankLt-trans, RankLt-irrefl, Above,
}
use ampla.Models.{KanbanCard}
use ampla.Hub.{Db}
use ampla.Kanban.Cards.{in_column, rank_of, rank_le, last_rank_in_column}

RankLt-total : (r s : Rank) → RankLt r s ⊎ ((r ≡ s) ⊎ RankLt s r)
RankLt-total [] [] = inr (inl refl)
RankLt-total [] (y ∷ ys) = inl tt
RankLt-total (x ∷ xs) [] = inr (inr tt)
RankLt-total (x ∷ xs) (y ∷ ys) = elim (order x y) [
  | inl less ↦ inl (inl less)
  | inr (inl more) ↦ inr (inr (inl more))
  | inr (inr e) ↦ elim (RankLt-total xs ys) [
    | inl h ↦ inl (inr (e, h))
    | inr (inl h) ↦ inr (inl (cc))
    | inr (inr h) ↦ inr (inr (inr (sym e, h)))
  ]
]
  where
    order : (a b : ℕ) → (a < b) ⊎ ((b < a) ⊎ (a ≡ b))
    order a b = ground arith

RankLt-asym : (r s : Rank) → RankLt r s → ¬ (RankLt s r)
RankLt-asym r s h k = RankLt-irrefl r (RankLt-trans r s r h k)

-- No card of the list is above the card.
abbrev Tops : KanbanCard → List KanbanCard → Type 0
Tops m rows = All (λ (d : KanbanCard). ¬ (RankLt m.rank d.rank)) rows

abbrev descending : KanbanCard → KanbanCard → Bool
descending a b = rank_le b a

raise_top :
    (x y : KanbanCard) (rows : List KanbanCard)
    → ¬ (RankLt x.rank y.rank)
    → Tops y rows
    → Tops x rows
raise_top x y [] h t = tt
raise_top x y (d ∷ ds) h t = (
  λ k. elim (RankLt-total y.rank d.rank) [
    | inl below ↦ t.0 below
    | inr (inl same) ↦ h (rw (sym same) at k)
    | inr (inr above) ↦ h (RankLt-trans x.rank d.rank y.rank k above)
  ],
  raise_top x y ds h t.1,
)

abbrev TopOf : List KanbanCard → Option KanbanCard → Type 0
TopOf rows none = rows ≡ []
TopOf rows (some m) = Tops m rows

first-insert_sorted :
    (x : KanbanCard) (sorted rows : List KanbanCard)
    → TopOf rows (first sorted)
    → TopOf (x ∷ rows) (first (insert_sorted descending x sorted))
first-insert_sorted x [] rows h = (RankLt-irrefl x.rank, rw h tt)
first-insert_sorted x (y ∷ ys) rows h = elim (Bool-cases (rank_lt x.rank y.rank)) [
  | inl e ↦ rw e (RankLt-asym x.rank y.rank (rank_lt→RankLt x.rank y.rank e), h)
  | inr e ↦ rw e (RankLt-irrefl x.rank, raise_top x y rows (not_below e) h)
]
  where
    not_below : rank_lt x.rank y.rank ≡ false → ¬ (RankLt x.rank y.rank)
    not_below e k = ground (arith, RankLt→rank_lt x.rank y.rank k)

-- The first card in descending order is above all the others.
first-TopOf : (rows : List KanbanCard) → TopOf rows (first (order_by descending rows))
first-TopOf [] = refl
first-TopOf (x ∷ xs) = first-insert_sorted x (order_by descending xs) xs (first-TopOf xs)

-- The cards of a column, and a rank behind them all.
abbrev pub Behind : Rank → List KanbanCard → Type 0
Behind r rows = All (λ (d : KanbanCard). RankLt d.rank r) rows

Behind-top :
    (m : KanbanCard) (r : Rank) (rows : List KanbanCard)
    → Tops m rows
    → RankLt m.rank r
    → Behind r rows
Behind-top m r [] t h = tt
Behind-top m r (d ∷ ds) t h = (
  elim (RankLt-total m.rank d.rank) [
    | inl below ↦ elim (t.0 below) [ ]
    | inr (inl same) ↦ rw (sym same) h
    | inr (inr above) ↦ RankLt-trans d.rank m.rank r above h
  ],
  Behind-top m r ds t.1 h,
)

pub Behind-last :
    (rows : List KanbanCard) (top : Option KanbanCard) (r : Rank)
    → TopOf rows top
    → Above (rank_of top) r
    → Behind r rows
Behind-last rows none r t h = rw t tt
Behind-last rows (some m) r t h = Behind-top m r rows t h

-- The bound that `last_rank_in_column` gives leaves no card of the column above it.
pub last_rank_in_column-Behind :
    (column_id : ℕ) (db : Db) (r : Rank)
    → Above (last_rank_in_column column_id db) r
    → Behind r (select (in_column column_id) db.cards)
unfolding last_rank_in_column
last_rank_in_column-Behind column_id db r h =
    Behind-last (select (in_column column_id) db.cards) _ r
      (first-TopOf (select (in_column column_id) db.cards)) h
