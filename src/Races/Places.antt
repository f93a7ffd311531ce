-- ===== src/Races/Places.antt =====
-- The places of the cards of a board while any number of moves overlap: the unique index on
-- (column_id, rank) (hub/app/models/kanban.py, hub/app/repositories/kanban_repo.py, `commit_move`).
use ampla.Shared.{
  ℕ, ◌≡◌, refl, ◌∙◌, inl, inr, Bool, false, not, ◌&&◌, ◌==◌, eq_nat, Option, List, [], ◌∷◌, All,
  map, arith, Bool-cases, any, any-update_rows, nat_eq_iff, update_rows,
}
use ampla.Rank.{Rank}
use ampla.Models.{KanbanCard}
use ampla.Hub.{Db, Env}
use ampla.Kanban.Cards.{taken, MoveOutcome, relocated, rank_eq, at_limit, count_cards_in_column}
use ampla.Races.Slots.{stored, commit_phases}
use ampla.Races.Steps.{Call, waiting, Run, Run-Kept, Keeps}

-- No other card of the table holds the card's place.
abbrev Alone : List KanbanCard → KanbanCard → Type 0
Alone rows c = any (taken c.id c.column_id c.rank) rows ≡ false

abbrev pub OnePlaceEach : Db → Type 0
OnePlaceEach db = All (Alone db.cards) db.cards

nat_eq-sym : (a b : ℕ) → (a == b) ≡ (b == a)
nat_eq-sym a b = ground arith

rank_eq-sym : (r s : Rank) → rank_eq r s ≡ rank_eq s r
rank_eq-sym [] [] = refl
rank_eq-sym [] (y ∷ ys) = refl
rank_eq-sym (x ∷ xs) [] = refl
rank_eq-sym (x ∷ xs) (y ∷ ys) = rw (rank_eq-sym xs ys, nat_eq-sym x y) refl

taken-sym : (c d : KanbanCard) → taken c.id c.column_id c.rank d ≡ taken d.id d.column_id d.rank c
taken-sym c d =
    rw (nat_eq-sym d.id c.id, nat_eq-sym d.column_id c.column_id, rank_eq-sym d.rank c.rank) refl

abbrev own : KanbanCard → KanbanCard → Bool
own c = taken c.id c.column_id c.rank

own-itself : (c : KanbanCard) → own c c ≡ false
own-itself c = rw ((nat_eq_iff c.id c.id).1 refl) refl

any-head :
    (p : KanbanCard → Bool) (c : KanbanCard) (cs : List KanbanCard)
    → any p (c ∷ cs) ≡ false
    → p c ≡ false
any-head p c cs h = elim (Bool-cases (p c)) [
  | inl e ↦ let out : ⊥ = ground (arith, rw e at h) in elim out [ ]
  | inr e ↦ e
]

any-tail :
    (p : KanbanCard → Bool) (c : KanbanCard) (cs : List KanbanCard)
    → any p (c ∷ cs) ≡ false
    → any p cs ≡ false
any-tail p c cs h = rw (any-head p c cs h) at h

module _ (new : KanbanCard) (rows : List KanbanCard) (free : any (own new) rows ≡ false) where
  abbrev put : List KanbanCard → List KanbanCard
  put rest = update_rows (λ (d : KanbanCard). d.id == new.id) (λ _. new) rest

  Alone-put :
      (rest : List KanbanCard)
      → any (own new) rest ≡ false
      → All (Alone rows) rest
      → All (Alone (put rows)) (put rest)
  Alone-put [] f h = tt
  Alone-put (c ∷ cs) f h =
      let later = Alone-put cs (any-tail (own new) c cs f) h.1 in
      elim (Bool-cases (c.id == new.id)) [
        | inl e ↦ rw e (
          any-update_rows (own new) (λ (d : KanbanCard). d.id == new.id) new rows (own-itself new)
              free,
          later,
        )
        | inr e ↦ rw e (
          any-update_rows (own c) (λ (d : KanbanCard). d.id == new.id) new rows
              (taken-sym c new ∙ any-head (own new) c cs f) h.0,
          later,
        )
      ]

stored-OnePlaceEach :
    (env : Env) (c : KanbanCard) (column_id : ℕ) (r : Rank) (db : Db)
    → OnePlaceEach db
    → OnePlaceEach (stored env c column_id r db).1
stored-OnePlaceEach env c column_id r db h =
    elim (Bool-cases (any (taken c.id column_id r) db.cards)) [
      | inl e ↦ rw e h
      | inr e ↦ rw e (Alone-put (relocated env c column_id r) db.cards e db.cards e h)
    ]

-- A call of `commit_move`.
pub record Relocation : Type 0 where
  pub env : Env
  pub card : KanbanCard
  pub to_column_id : ℕ
  pub new_rank : Rank
  pub wip_limit : Option ℕ

abbrev pub called : Relocation → Call MoveOutcome
called m = waiting (commit_phases m.env m.card m.to_column_id m.new_rank m.wip_limit)

called-Keeps : (m : Relocation) → Keeps OnePlaceEach (called m)
unfolding commit_phases
called-Keeps m db h =
    elim (Bool-cases (
      not (m.to_column_id == m.card.column_id)
      && at_limit m.wip_limit (count_cards_in_column m.to_column_id db))) [
        | inl e ↦ rw e (h, λ now k. k)
        | inr e ↦ rw e (h, stored-OnePlaceEach m.env m.card m.to_column_id m.new_rank)
      ]

called_moves-Keeps : (moves : List Relocation) → All (Keeps OnePlaceEach) (map called moves)
called_moves-Keeps [] = tt
called_moves-Keeps (m ∷ ms) = (called-Keeps m, called_moves-Keeps ms)

-- However any number of calls of `commit_move` overlap, each reading in one phase and writing in
-- another, no two cards come to hold one place, if none did: a column and a rank are held by one
-- card.
pub overlap-OnePlaceEach :
    (moves : List Relocation) (db after : Db) (calls : List (Call MoveOutcome))
    → OnePlaceEach db
    → Run (map called moves, db) (calls, after)
    → OnePlaceEach after
overlap-OnePlaceEach moves db after calls h r = Run-Kept OnePlaceEach (called_moves-Keeps moves) h r
