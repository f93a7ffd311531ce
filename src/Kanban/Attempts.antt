-- ===== src/Kanban/Attempts.antt =====
-- The attempts of the race-safe move (hub/app/services/kanban_service.py, `_move`): each returns, and
-- keeps the ranks well-formed.
use ampla.Shared.{
  All-update_rows, ℕ, zero, suc, ◌≡◌, refl, sym, subst, ◌∙◌, inl, inr, String, not, ◌&&◌, ◌==◌,
  eq_nat, Option, none, some, Bool, Bool-cases, any, find_row, update_rows, nat_eq_iff, true, false,
}
use ampla.Rank.{Rank, rank_between}
use ampla.Rank.Order.{IsRank, IsBound, Above}
use ampla.Rank.Between.{Ordered}
use ampla.Models.{KanbanColumn, KanbanCard}
use ampla.Hub.{Db, Env}
use ampla.Hub.Exec.{Service, or_hang, raise, raise_if, audit, ◌>>=◌, ◌>>◌, conflict, unexpected}
use ampla.Kanban.Cards.{
  MoveOutcome, moved, wip_full, collision, commit_move, relocated, at_limit, count_cards_in_column,
  taken, get_card_row,
}
use ampla.Kanban.Move.{
  move_bounds, rebalance, or_card, resolves, record_move, Intent, finish_last, last_attempt,
  attempts,
}
use ampla.Kanban.Ranked.{HasRank, Ranked, Safe, Safe-resume, rebalance-Safe}
use ampla.Kanban.Present.{
  Present, find_row-overwritten, Safe-Present, rebalance-Present, move_bounds-Present,
  or_hang-Present,
}
use ampla.Kanban.Moves.{FitBounds, Fit, move_bounds-Safe, rank_between-Safe, or_card-id}

-- The card as the move returns it: the same card, in the column, with a well-formed rank.
abbrev pub Landed : ℕ → ℕ → KanbanCard → Type 0
Landed card_id column_id d = (d.id ≡ card_id) × (d.column_id ≡ column_id) × IsRank d.rank

-- The row of the card is where the card was put.
abbrev pub Stored : ℕ → KanbanCard → Db → Type 0
Stored card_id d db =
    (row : KanbanCard) × (get_card_row card_id db ≡ some row)
    × (row.column_id ≡ d.column_id)
    × (row.rank ≡ d.rank)
    × (row.version ≡ d.version)

abbrev pub Landing : ℕ → ℕ → KanbanCard → Db → Type 0
Landing card_id column_id d db = Landed card_id column_id d × Stored card_id d db

abbrev Committed : ℕ → ℕ → MoveOutcome → Db → Type 0
Committed card_id column_id (moved d) db = Landing card_id column_id d db
Committed card_id column_id wip_full db = Unit
Committed card_id column_id collision db = Present card_id db

commit_move-Safe :
    (env : Env) (c : KanbanCard) (column_id : ℕ) (r : Rank) (limit : Option ℕ) (card_id : ℕ)
    (db : Db)
    → Ranked db
    → IsRank r
    → c.id ≡ card_id
    → Present card_id db
    → Safe (Committed card_id column_id) (commit_move env c column_id r limit db)
unfolding commit_move
commit_move-Safe env c column_id r limit card_id db h k e p =
    elim (Bool-cases
      (not (column_id == c.column_id) && at_limit limit (count_cards_in_column column_id db))) [
        | inl f ↦ rw f (h, tt)
        | inr f ↦ elim (Bool-cases (any (taken c.id column_id r) db.cards)) [
          | inl g ↦ rw (f, g) (h, p)
          | inr g ↦
              rw (f, g)
                (
                  All-update_rows HasRank (λ (d : KanbanCard). d.id == c.id)
                      (λ _. relocated env c column_id r) db.cards (λ x. k) h,
                  ((e, refl, k), (relocated env c column_id r, stored, refl, refl, refl)),
                )
        ]
      ]
  where
    stored :
        find_row
          (λ (d : KanbanCard). d.id == card_id)
          (update_rows
            (λ (d : KanbanCard). d.id == c.id)
            (λ _. relocated env c column_id r)
            db.cards)
        ≡ some (relocated env c column_id r)
    stored =
        subst
          (λ n.
            find_row (λ (d : KanbanCard). d.id == n)
              (update_rows (λ (d : KanbanCard). d.id == c.id) (λ _. relocated env c column_id r)
                db.cards)
            ≡ some (relocated env c column_id r))
          e
          (find_row-overwritten c.id (relocated env c column_id r) db.cards
            (subst (λ n. Present n db) (sym e) p) ((nat_eq_iff c.id c.id).1 refl))

record_move-Safe :
    (d : KanbanCard) (dest : KanbanColumn) (actor : String) (card_id column_id : ℕ) (db : Db)
    → Ranked db
    → Landing card_id column_id d db
    → Safe (Landing card_id column_id) (record_move d dest actor db)
unfolding record_move audit
record_move-Safe d dest actor card_id column_id db h l =
    elim (Bool-cases (resolves dest d.origin)) [ inl e ↦ rw e (h, l) | inr e ↦ rw e (h, l) ]

finish_last-Safe :
    (i : Intent) (outcome : MoveOutcome) (card_id : ℕ) (db : Db)
    → Ranked db
    → Committed card_id i.dest.id outcome db
    → Safe (Landing card_id i.dest.id) (finish_last i outcome db)
finish_last-Safe i (moved d) card_id db h l =
    record_move-Safe d i.dest i.audit_actor card_id i.dest.id db h l
finish_last-Safe i wip_full card_id db h l = h
finish_last-Safe i collision card_id db h l = h

last_attempt-Safe :
    (env : Env) (i : Intent) (c : KanbanCard) (card_id : ℕ) (db : Db)
    → Ranked db
    → c.id ≡ card_id
    → Present card_id db
    → Safe (Landing card_id i.dest.id) (last_attempt env i c db)
unfolding last_attempt
last_attempt-Safe env i c card_id db h e p =
    Safe-resume (λ _ now. Unit × Present card_id now) (Landing card_id i.dest.id)
      (rebalance i.dest.id db) _
      (Safe-Present (λ _ _. Unit) card_id (rebalance i.dest.id db) (rebalance-Safe i.dest.id db h)
        (rebalance-Present card_id i.dest.id db p))
      (λ u db1 h1 v.
        let d = or_card c (get_card_row c.id db1) in
        Safe-resume (λ b now. FitBounds b now × Present card_id now) (Landing card_id i.dest.id)
          (move_bounds i.dest.id d i.before_id i.after_id db1) _
          (Safe-Present FitBounds card_id (move_bounds i.dest.id d i.before_id i.after_id db1)
            (move_bounds-Safe i.dest.id d i.before_id i.after_id db1 h1)
            (move_bounds-Present card_id i.dest.id d i.before_id i.after_id db1 v.1))
          (λ b db2 h2 f.
            Safe-resume (λ r now. Fit b.0 b.1 r now × Present card_id now)
              (Landing card_id i.dest.id) (or_hang (rank_between b.0 b.1) db2) _
              (Safe-Present (Fit b.0 b.1) card_id (or_hang (rank_between b.0 b.1) db2)
                (rank_between-Safe b.0 b.1 db2 h2 f.0.0 f.0.1 f.0.2)
                (or_hang-Present card_id (rank_between b.0 b.1) db2 f.1))
              (λ r db3 h3 g.
                Safe-resume (Committed card_id i.dest.id) (Landing card_id i.dest.id)
                  (commit_move env d i.dest.id r i.dest.wip_limit db3) _
                  (commit_move-Safe env d i.dest.id r i.dest.wip_limit card_id db3 h3 g.0.0
                    (or_card-id c db1 (get_card_row c.id db1) h1 refl ∙ e) g.1)
                  (λ o db4 h4 q. finish_last-Safe i o card_id db4 h4 q))))

-- A retry that a rollback may have made impossible.
guarded-Safe :
    (expired : Bool) (Q : KanbanCard → Db → Type 0) (retry : Service KanbanCard) (db : Db)
    → Ranked db
    → Safe Q (retry db)
    → Safe Q ((do raise_if (not expired) unexpected; retry) db)
guarded-Safe true Q retry db h k = k
guarded-Safe false Q retry db h k = h

-- What follows an attempt, for a card whose later attempts are safe.
next-Safe :
    (env : Env) (i : Intent) (c : KanbanCard) (n : ℕ) (lo : Option Rank) (r : Rank) (card_id : ℕ)
    → (o : MoveOutcome) (db : Db) → Ranked db
    → IsBound lo
    → IsRank r
    → Above lo r
    → Committed card_id i.dest.id o db
    → ((r2 : Rank) (db2 : Db)
        → Ranked db2
        → IsRank r2
        → Above lo r2
        → Present card_id db2
        → Safe (Landing card_id i.dest.id) (attempts env i c n lo r2 db2))
    → Safe (Landing card_id i.dest.id) (
        (elim o as (λ _. Service KanbanCard) [
          | moved d ↦ record_move d i.dest i.audit_actor
          | wip_full ↦ raise conflict
          | collision ↦ do
            squeezed ← or_hang (rank_between lo (some r))
            raise_if (not env.reads_expired) unexpected
            attempts env i c n lo squeezed
        ])
          db)
next-Safe env i c n lo r card_id (moved d) db h l k a q again =
    record_move-Safe d i.dest i.audit_actor card_id i.dest.id db h q
next-Safe env i c n lo r card_id wip_full db h l k a q again = h
next-Safe env i c n lo r card_id collision db h l k a q again =
    Safe-resume (λ r2 now. Fit lo (some r) r2 now × Present card_id now) (Landing card_id i.dest.id)
      (or_hang (rank_between lo (some r)) db) _
      (Safe-Present (Fit lo (some r)) card_id (or_hang (rank_between lo (some r)) db)
        (rank_between-Safe lo (some r) db h l k (ordered lo a))
        (or_hang-Present card_id (rank_between lo (some r)) db q))
      (λ r2 db2 h2 f.
        guarded-Safe env.reads_expired (Landing card_id i.dest.id) (attempts env i c n lo r2) db2 h2
          (again r2 db2 h2 f.0.0 f.0.1 f.1))
  where
    ordered : (lo : Option Rank) → Above lo r → Ordered lo (some r)
    ordered none a = tt
    ordered (some x) a = a

pub attempts-Safe :
    (env : Env) (i : Intent) (c : KanbanCard) (n : ℕ) (lo : Option Rank) (r : Rank) (card_id : ℕ)
    (db : Db)
    → Ranked db
    → c.id ≡ card_id
    → IsBound lo
    → IsRank r
    → Above lo r
    → Present card_id db
    → Safe (Landing card_id i.dest.id) (attempts env i c n lo r db)
unfolding attempts
attempts-Safe env i c zero lo r card_id db h e l k a p = last_attempt-Safe env i c card_id db h e p
attempts-Safe env i c (suc n) lo r card_id db h e l k a p =
    Safe-resume (Committed card_id i.dest.id) (Landing card_id i.dest.id)
      (commit_move env c i.dest.id r i.dest.wip_limit db) _
      (commit_move-Safe env c i.dest.id r i.dest.wip_limit card_id db h k e p)
      (λ o db1 h1 q.
        next-Safe env i c n lo r card_id o db1 h1 l k a q
          (λ r2 db2 h2 k2 a2 p2. attempts-Safe env i c n lo r2 card_id db2 h2 e l k2 a2 p2))
