-- ===== src/Kanban/Limits.antt =====
-- The WIP limit of a column under moves (hub/app/repositories/kanban_repo.py, `commit_move`).
use ampla.Shared.{
  ℕ, suc, ◌≤◌, ◌<◌, ◌≡◌, refl, subst, inl, inr, Bool, true, false, ◌==◌, eq_nat, some, List, [],
  ◌∷◌, arith, Bool-cases, if◌then◌else◌, select, any, All, leb, length, nat_eq_iff, update_rows, In,
  any-In, both, find_row-update_rows,
}
use ampla.Rank.{Rank}
use ampla.Models.{KanbanCard}
use ampla.Hub.{Db, Env}
use ampla.Hub.Exec.{Result, ok, err, hung}
use ampla.Kanban.Cards.{
  in_column, taken, MoveOutcome, moved, wip_full, collision, commit_move, relocated,
  count_cards_in_column, get_card_row, rank_eq,
}
use ampla.Kanban.Appends.{rank_eq→≡}

-- No two rows have one id.
abbrev pub DistinctIds : List KanbanCard → Type 0
DistinctIds [] = Unit
DistinctIds (c ∷ cs) = All (λ (d : KanbanCard). (d.id == c.id) ≡ false) cs × DistinctIds cs

abbrev replaced : ℕ → KanbanCard → List KanbanCard → List KanbanCard
replaced card_id new rows = update_rows (λ (d : KanbanCard). d.id == card_id) (λ _. new) rows

replaced-none :
    (card_id : ℕ) (new : KanbanCard) (rows : List KanbanCard)
    → All (λ (d : KanbanCard). (d.id == card_id) ≡ false) rows
    → replaced card_id new rows ≡ rows
replaced-none card_id new [] h = refl
replaced-none card_id new (c ∷ cs) h = rw (h.0, replaced-none card_id new cs h.1) refl

abbrev counted : ℕ → List KanbanCard → ℕ
counted column_id rows = length (select (in_column column_id) rows)

-- Replacing one row adds one card to a column at most.
counted-replaced :
    (card_id column_id : ℕ) (new : KanbanCard) (rows : List KanbanCard)
    → DistinctIds rows
    → counted column_id (replaced card_id new rows) ≤ suc (counted column_id rows)
counted-replaced card_id column_id new [] d = omega arith
counted-replaced card_id column_id new (c ∷ cs) d = elim (Bool-cases (c.id == card_id)) [
  | inl e ↦
      rw
        (
          e,
          replaced-none card_id new cs (
              subst (λ n. All (λ (x : KanbanCard). (x.id == n) ≡ false) cs)
                ((nat_eq_iff c.id card_id).0 e) d.0),
        )
        (one_more (new.column_id == column_id) (c.column_id == column_id)
          (select (in_column column_id) cs))
  | inr e ↦ rw e (
      same_row (select (in_column column_id) (replaced card_id new cs))
        (select (in_column column_id) cs) (c.column_id == column_id)
        (counted-replaced card_id column_id new cs d.1))
]
  where
    one_more :
        (p q : Bool) (rest : List KanbanCard)
        → length (if p then new ∷ rest else rest) ≤ suc (length (if q then c ∷ rest else rest))
    one_more true true rest = omega arith
    one_more true false rest = omega arith
    one_more false true rest = omega arith
    one_more false false rest = omega arith

    same_row :
        (xs ys : List KanbanCard) (q : Bool)
        → length xs ≤ suc (length ys)
        → length (if q then c ∷ xs else xs) ≤ suc (length (if q then c ∷ ys else ys))
    same_row xs ys true h = omega arith
    same_row xs ys false h = h

-- Another card holds the place.
abbrev pub Held : ℕ → ℕ → Rank → KanbanCard → Type 0
Held card_id column_id r x = (x.column_id ≡ column_id) × (x.rank ≡ r) × ¬ (x.id ≡ card_id)

abbrev pub Occupied : ℕ → ℕ → Rank → List KanbanCard → Type 0
Occupied card_id column_id r rows = (x : KanbanCard) × In x rows × Held card_id column_id r x

-- The row of the card is in the column, with the rank and the next version.
abbrev pub PutAt : KanbanCard → ℕ → Rank → KanbanCard → Type 0
PutAt c column_id r x =
    (x.id ≡ c.id) × (x.column_id ≡ column_id) × (x.rank ≡ r) × (x.version ≡ suc c.version)

abbrev pub WithinLimit : KanbanCard → ℕ → Rank → ℕ → Db → Result MoveOutcome × Db → Type 0
WithinLimit c column_id r limit before (ok (moved d), db) =
    (count_cards_in_column column_id db ≤ limit)
    × ¬ (Occupied c.id column_id r before.cards)
    × PutAt c column_id r d
    × (get_card_row c.id db ≡ some d)
WithinLimit c column_id r limit before (ok wip_full, db) =
    (limit ≤ count_cards_in_column column_id before) × (db ≡ before)
WithinLimit c column_id r limit before (ok collision, db) =
    (count_cards_in_column column_id before < limit)
    × Occupied c.id column_id r before.cards
    × (db ≡ before)
WithinLimit c column_id r limit before (err e, db) = ⊥
WithinLimit c column_id r limit before (hung, db) = ⊥

any→In :
    {A : Type 0} (p : A → Bool) (rows : List A)
    → any p rows ≡ true
    → (x : A) × In x rows × (p x ≡ true)
any→In p [] h = let out : ⊥ = ground (arith, h) in elim out [ ]
any→In p (x ∷ xs) h = elim (Bool-cases (p x)) [
  | inl e ↦ (x, inl refl, e)
  | inr e ↦ let (y, i, k) = any→In p xs (rw e at h) in (y, inr i, k)
]

rank_eq_refl : (r : Rank) → rank_eq r r ≡ true
rank_eq_refl [] = refl
rank_eq_refl (x ∷ xs) = rw ((nat_eq_iff x x).1 refl) (rank_eq_refl xs)

taken-Held :
    (card_id column_id : ℕ) (r : Rank) (x : KanbanCard)
    → taken card_id column_id r x ≡ true
    → Held card_id column_id r x
taken-Held card_id column_id r x h = elim (Bool-cases (x.id == card_id)) [
  | inl e ↦ let out : ⊥ = ground (arith, rw e at h) in elim out [ ]
  | inr e ↦
      let both_hold = both (x.column_id == column_id) (rank_eq x.rank r) (rw e at h) in
      (
        (nat_eq_iff x.column_id column_id).0 both_hold.0,
        rank_eq→≡ x.rank r both_hold.1,
        λ same. let k = (nat_eq_iff x.id card_id).1 same in ground (arith, k, e),
      )
]

Held-taken :
    (card_id column_id : ℕ) (r : Rank) (x : KanbanCard)
    → Held card_id column_id r x
    → taken card_id column_id r x ≡ true
Held-taken card_id column_id r x (c, k, other) = elim (Bool-cases (x.id == card_id)) [
  | inl e ↦ elim (other ((nat_eq_iff x.id card_id).0 e)) [ ]
  | inr e ↦ rw (e, (nat_eq_iff x.column_id column_id).1 c, k) (rank_eq_refl r)
]

Occupied-taken :
    (card_id column_id : ℕ) (r : Rank) (rows : List KanbanCard)
    → any (taken card_id column_id r) rows ≡ true
    → Occupied card_id column_id r rows
Occupied-taken card_id column_id r rows h =
    let (x, i, k) = any→In (taken card_id column_id r) rows h in
    (x, i, taken-Held card_id column_id r x k)

free :
    (card_id column_id : ℕ) (r : Rank) (rows : List KanbanCard)
    → any (taken card_id column_id r) rows ≡ false
    → ¬ (Occupied card_id column_id r rows)
free card_id column_id r rows h (x, i, k) =
    let found = any-In (taken card_id column_id r) x rows i (Held-taken card_id column_id r x k) in
    ground (arith, found, h)

-- A card of the table that moves into another column with a WIP limit leaves the column within its
-- limit, and its row is in the column, with the rank asked for and the next version; no other card was
-- at that place. The move is refused as over the limit only when the column is full, and as a
-- collision only when it is not and another card holds the place; a refusal changes nothing.
pub commit_move-WithinLimit :
    (env : Env) (c : KanbanCard) (column_id : ℕ) (r : Rank) (limit : ℕ) (db : Db)
    → DistinctIds db.cards
    → get_card_row c.id db ≡ some c
    → (column_id == c.column_id) ≡ false
    → WithinLimit c column_id r limit db (commit_move env c column_id r (some limit) db)
unfolding commit_move count_cards_in_column
commit_move-WithinLimit env c column_id r limit db d here away =
    elim (Bool-cases (leb limit (counted column_id db.cards))) [
      | inl e ↦ rw (away, e) (full limit (counted column_id db.cards) e, refl)
      | inr e ↦ elim (Bool-cases (any (taken c.id column_id r) db.cards)) [
        | inl f ↦
            rw (away, e, f)
              (
                room limit (counted column_id db.cards) e,
                Occupied-taken c.id column_id r db.cards f,
                refl,
              )
        | inr f ↦
            let after = counted-replaced c.id column_id (relocated env c column_id r) db.cards d in
            let less = room limit (counted column_id db.cards) e in
            rw (away, e, f)
              (
                omega (arith, less, after),
                free c.id column_id r db.cards f,
                (refl, refl, refl, omega arith),
                find_row-update_rows (λ (x : KanbanCard). x.id == c.id)
                    (λ (x : KanbanCard). x.id == c.id) c (relocated env c column_id r) db.cards here
                    ((nat_eq_iff c.id c.id).1 refl) ((nat_eq_iff c.id c.id).1 refl),
              )
      ]
    ]
  where
    full : (a b : ℕ) → leb a b ≡ true → a ≤ b
    full a b e = ground (arith, e)

    room : (a b : ℕ) → leb a b ≡ false → b < a
    room a b e = ground (arith, e)
