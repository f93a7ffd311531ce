-- ===== src/Races/Slots.antt =====
-- Two cards that are moved at once into a column with one free slot
-- (hub/app/repositories/kanban_repo.py, `commit_move`).
use ampla.Shared.{
  ℕ, ◌+◌, ◌≤◌, ◌<◌, ◌≡◌, refl, ap, inl, inr, Bool, true, false, not, ◌&&◌, ◌==◌, eq_nat, some,
  Option, List, [], ◌∷◌, arith, Bool-cases, if◌then◌else◌, select, any, any-update_rows, find_row,
  find_row-away, leb, length, nat_eq_iff, update_rows,
}
use ampla.Rank.{Rank}
use ampla.Models.{KanbanCard}
use ampla.Hub.{Db, Env}
use ampla.Hub.Exec.{ok, Service, pure}
use ampla.Kanban.Cards.{
  in_column, taken, MoveOutcome, moved, wip_full, collision, commit_move, relocated, at_limit,
  rank_eq, get_card_row, count_cards_in_column,
}
use ampla.Auth.Rows.{bit}
use ampla.Races.{Phases, in_turn, race, race-passes}

-- The write of `commit_move`, as the whole row that was read; the UPDATE has the columns that changed,
-- which are all that a place and its index look at.
abbrev pub stored : Env → KanbanCard → ℕ → Rank → Service MoveOutcome
stored env c to_column_id new_rank db =
    if any (taken c.id to_column_id new_rank) db.cards then (ok collision, db) else (
      ok (moved (relocated env c to_column_id new_rank)),
      record db {
        cards =
            update_rows (λ (d : KanbanCard). d.id == c.id)
              (λ _. relocated env c to_column_id new_rank) db.cards;
      },
    )

-- The count of `commit_move`, and its write.
unfoldable pub commit_phases : Env → KanbanCard → ℕ → Rank → Option ℕ → Phases MoveOutcome
commit_phases env c to_column_id new_rank wip_limit db =
    if not (to_column_id == c.column_id)
      && at_limit wip_limit (count_cards_in_column to_column_id db)
    then (ok (pure wip_full), db)
    else (ok (stored env c to_column_id new_rank), db)

-- One after the other, the phases are the call.
commit_move-in_turn :
    (env : Env) (c : KanbanCard) (to_column_id : ℕ) (new_rank : Rank) (wip_limit : Option ℕ)
    (db : Db)
    → in_turn (commit_phases env c to_column_id new_rank wip_limit) db
      ≡ commit_move env c to_column_id new_rank wip_limit db
unfolding commit_phases commit_move
commit_move-in_turn env c to_column_id new_rank wip_limit db =
    elim (Bool-cases (
      not (to_column_id == c.column_id)
      && at_limit wip_limit (count_cards_in_column to_column_id db))) [
        | inl e ↦ rw e refl
        | inr e ↦ rw e refl
      ]

abbrev counted : ℕ → List KanbanCard → ℕ
counted column_id rows = length (select (in_column column_id) rows)

abbrev put : ℕ → KanbanCard → List KanbanCard → List KanbanCard
put card_id new rows = update_rows (λ (d : KanbanCard). d.id == card_id) (λ _. new) rows

counted-head :
    (column_id : ℕ) (c : KanbanCard) (rows : List KanbanCard)
    → counted column_id (c ∷ rows) ≡ bit (in_column column_id c) + counted column_id rows
counted-head column_id c rows = elim (Bool-cases (in_column column_id c)) [
  | inl e ↦ rw e (omega arith)
  | inr e ↦ rw e (omega arith)
]

bit-bound : (b : Bool) → bit b ≤ 1
bit-bound true = omega arith
bit-bound false = omega arith

module _ (card_id column_id : ℕ) (new : KanbanCard) (inside : in_column column_id new ≡ true) where
  counted-put-more :
      (rows : List KanbanCard) → counted column_id rows ≤ counted column_id (put card_id new rows)
  counted-put-more [] = omega arith
  counted-put-more (c ∷ cs) =
      let more = counted-put-more cs in
      let before = counted-head column_id c cs in
      elim (Bool-cases (c.id == card_id)) [
        | inl e ↦ rw e (
            omega (
              arith,
              more,
              before,
              bit-bound (in_column column_id c),
              counted-head column_id new (put card_id new cs),
              ap bit inside,
            ))
        | inr e ↦ rw e (omega (arith, more, before, counted-head column_id c (put card_id new cs)))
      ]

  -- A card from elsewhere that is put into the column is one more there.
  counted-put :
      (old : KanbanCard) (rows : List KanbanCard)
      → find_row (λ (d : KanbanCard). d.id == card_id) rows ≡ some old
      → in_column column_id old ≡ false
      → counted column_id rows < counted column_id (put card_id new rows)
  counted-put old [] h away = let out : ⊥ = ground (arith, h) in elim out [ ]
  counted-put old (c ∷ cs) h away =
      let before = counted-head column_id c cs in
      elim (Bool-cases (c.id == card_id)) [
        | inl e ↦
            let same : c ≡ old = found (rw e at h) in
            rw e (
              omega (
                arith,
                counted-put-more cs,
                before,
                ap (λ d. bit (in_column column_id d)) same,
                ap bit away,
                counted-head column_id new (put card_id new cs),
                ap bit inside,
              ))
        | inr e ↦ rw e (
            omega (
              arith,
              counted-put old cs (rw e at h) away,
              before,
              counted-head column_id c (put card_id new cs),
            ))
      ]
    where
      found : some c ≡ some old → c ≡ old
      found k = cc

below : (limit n : ℕ) → n < limit → leb limit n ≡ false
below limit n h = ground arith

same : (n : ℕ) → (n == n) ≡ true
same n = (nat_eq_iff n n).1 refl

apart_key :
    (i j : ℕ) → (i == j) ≡ false → (x : KanbanCard) → (x.id == i) ≡ true → (x.id == j) ≡ false
apart_key i j e x f = rw ((nat_eq_iff x.id i).0 f) e

-- A card that waits to move into the column: it is in another one, and nothing has its new place.
abbrev pub Waits : KanbanCard → ℕ → Rank → Db → Type 0
Waits c column_id r db =
    (get_card_row c.id db ≡ some c)
    × (in_column column_id c ≡ false)
    × (any (taken c.id column_id r) db.cards ≡ false)

module _ (env : Env) (c : KanbanCard) (column_id : ℕ) (r : Rank) where
  abbrev with_card : Db → Db
  with_card db = record db { cards = put c.id (relocated env c column_id r) db.cards }

  reads :
      (limit : ℕ) (db : Db)
      → count_cards_in_column column_id db < limit
      → commit_phases env c column_id r (some limit) db ≡ (ok (stored env c column_id r), db)
  unfolding commit_phases
  reads limit db h = elim (Bool-cases (column_id == c.column_id)) [
    | inl e ↦ rw e refl
    | inr e ↦ rw (e, below limit (count_cards_in_column column_id db) h) refl
  ]

  stores :
      (db : Db)
      → any (taken c.id column_id r) db.cards ≡ false
      → stored env c column_id r db ≡ (ok (moved (relocated env c column_id r)), with_card db)
  stores db h = rw h refl

abbrev pub InTurn : Type 0
InTurn =
    (env : Env) (c : KanbanCard) (to_column_id : ℕ) (new_rank : Rank) (wip_limit : Option ℕ)
    (db : Db)
    → in_turn (commit_phases env c to_column_id new_rank wip_limit) db
      ≡ commit_move env c to_column_id new_rank wip_limit db

abbrev pub OverLimit : Env → Env → KanbanCard → KanbanCard → ℕ → Rank → Rank → ℕ → Db → Type 0
OverLimit env env' c d column_id r r' limit db =
    (after : Db) × (race (commit_phases env c column_id r (some limit))
        (commit_phases env' d column_id r' (some limit)) db
      ≡ (
        ok (moved (relocated env c column_id r)),
        ok (moved (relocated env' d column_id r')),
        after,
      ))
    × (limit < count_cards_in_column column_id after)

-- Two cards that are moved at once into a column with one free slot, to ranks that differ and are
-- free, are both placed, and the column is over its WIP limit: the count is read before either
-- write. (Phases that run one after the other are the call itself.)
race-commit_move :
    (env env' : Env) (c d : KanbanCard) (column_id : ℕ) (r r' : Rank) (limit : ℕ) (db : Db)
    → (c.id == d.id) ≡ false
    → rank_eq r r' ≡ false
    → Waits c column_id r db
    → Waits d column_id r' db
    → count_cards_in_column column_id db + 1 ≡ limit
    → InTurn × OverLimit env env' c d column_id r r' limit db
unfolding count_cards_in_column
race-commit_move env env' c d column_id r r' limit db apart ranks w w' count =
    let once = with_card env c column_id r db in
    let still =
      find_row-away (λ (x : KanbanCard). x.id == d.id) (λ (x : KanbanCard). x.id == c.id) d
        (relocated env c column_id r) db.cards (apart_key c.id d.id apart) apart w'.0 in
    (
      commit_move-in_turn,
      (
        with_card env' d column_id r' once,
        race-passes (commit_phases env c column_id r (some limit))
            (commit_phases env' d column_id r' (some limit)) _ _ _ _ db once _
            (reads env c column_id r limit db (omega (arith, count)))
            (reads env' d column_id r' limit db (omega (arith, count)))
            (stores env c column_id r db w.2)
            (stores env' d column_id r' once (
              any-update_rows (taken d.id column_id r') (λ (x : KanbanCard). x.id == c.id)
                (relocated env c column_id r) db.cards (rw (apart, same column_id, ranks) refl)
                w'.2)),
        omega (
          arith,
          count,
          counted-put c.id column_id (relocated env c column_id r) (same column_id) c db.cards w.0
              w.1,
          counted-put d.id column_id (relocated env' d column_id r') (same column_id) d once.cards
              still w'.1,
        ),
      ),
    )
