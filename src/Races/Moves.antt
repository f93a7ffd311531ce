-- ===== src/Races/Moves.antt =====
-- Two moves of one card that overlap (hub/app/services/kanban_service.py, `_move`).
use ampla.Shared.{
  ℕ, ◌+◌, ◌≡◌, refl, ap, ◌∙◌, inl, inr, false, not, ◌&&◌, ◌==◌, eq_nat, Option, none, String, List,
  [], ◌∷◌, any, update_rows, any-update_rows, Bool-cases, nat_eq_iff,
}
use ampla.Models.{KanbanColumn, KanbanCard}
use ampla.Hub.{Db, Env}
use ampla.Hub.Exec.{Result, ok, Service, pure, audit, gets, raise_if, resume, ◌>>=◌, ◌>>◌, conflict}
use ampla.Rank.{Rank}
use ampla.Kanban.Access.{column_of_board}
use ampla.Kanban.Cards.{commit_move, relocated, taken, rank_eq, dep_ids_for_card}
use ampla.Kanban.Move.{
  Intent, Place, intent, is_blocked, choose_place, attempts, move_retries, move, record_move,
  resolves,
}
use ampla.Races.{Phases, in_turn, race, race-passes, resume_assoc, resume_cong}

module _ (env : Env) where
  abbrev written : Intent → Place → Service KanbanCard
  written i p = attempts env i p.card move_retries p.lo p.rank

  -- `_move` up to its first write.
  unfoldable pub move_phases : KanbanCard → ℕ → Option ℕ → Option ℕ → ℕ → String → Phases KanbanCard
  move_phases c to_column_id before_id after_id expected_version audit_actor = do
    raise_if (not (c.version == expected_version)) conflict
    dest ← column_of_board c.board_id to_column_id
    blocked ← gets (is_blocked c)
    raise_if (dest.is_done && blocked) conflict
    p ← choose_place (intent dest before_id after_id audit_actor) c
    pure (written (intent dest before_id after_id audit_actor) p)

  abbrev prepared : KanbanCard → Intent → Phases KanbanCard
  prepared c i = do p ← choose_place i c; pure (written i p)

  prepared-in_turn :
      (c : KanbanCard) (i : Intent) (db : Db)
      → in_turn (prepared c i) db ≡ resume (choose_place i c db) (written i)
  prepared-in_turn c i db = resume_assoc (choose_place i c db) (λ p. pure (written i p)) (λ k. k)

  abbrev gated : KanbanCard → Intent → Phases KanbanCard
  gated c i = do
    blocked ← gets (is_blocked c)
    raise_if (i.dest.is_done && blocked) conflict
    prepared c i

  abbrev ungated : KanbanCard → Intent → Service KanbanCard
  ungated c i = do
    blocked ← gets (is_blocked c)
    raise_if (i.dest.is_done && blocked) conflict
    p ← choose_place i c
    written i p

  gated-in_turn : (c : KanbanCard) (i : Intent) (db : Db) → in_turn (gated c i) db ≡ ungated c i db
  gated-in_turn c i db = elim (Bool-cases (i.dest.is_done && is_blocked c db)) [
    | inl e ↦ rw e refl
    | inr e ↦ rw e (prepared-in_turn c i db)
  ]

  -- One after the other, the phases are the call.
  move-in_turn :
      (c : KanbanCard) (to_column_id : ℕ) (before_id after_id : Option ℕ) (expected_version : ℕ)
      (audit_actor : String) (db : Db)
      → in_turn (move_phases c to_column_id before_id after_id expected_version audit_actor) db
        ≡ move env c to_column_id before_id after_id expected_version audit_actor db
  unfolding move_phases move
  move-in_turn c to_column_id before_id after_id expected_version audit_actor db =
      elim (Bool-cases (c.version == expected_version)) [
        | inr e ↦ rw e refl
        | inl e ↦
            let dest = column_of_board c.board_id to_column_id db in
            let i = (λ (d : KanbanColumn). intent d before_id after_id audit_actor) in
            rw e (
              resume_assoc dest (λ d. gated c (i d)) (λ k. k)
              ∙ resume_cong dest (λ d db. resume (gated c (i d) db) (λ k. k)) (λ d. ungated c (i d))
                  (λ d. gated-in_turn c (i d)))
      ]

abbrev at : KanbanCard → Option Rank → Rank → Place
at c lo r = record { card = c; lo = lo; rank = r }

-- The card is placed, without a rebalance, at a free rank of another column that has no WIP limit,
-- and the dependency gate lets it through.
abbrev pub Passes : KanbanCard → Intent → Option Rank → Rank → Db → Type 0
Passes c i lo r db =
    (column_of_board c.board_id i.dest.id db ≡ (ok i.dest, db))
    × ((i.dest.is_done && is_blocked c db) ≡ false)
    × (choose_place i c db ≡ (ok (at c lo r), db))
    × (i.dest.wip_limit ≡ none)
    × ((i.dest.id == c.column_id) ≡ false)
    × (rank_eq c.rank r ≡ false)
    × (any (taken c.id i.dest.id r) db.cards ≡ false)

-- The arguments of `_move` for an intent, with the version the card was read at.
abbrev pub asked : Env → KanbanCard → Intent → Phases KanbanCard
asked env c i = move_phases env c i.dest.id i.before_id i.after_id c.version i.audit_actor

module _ (c : KanbanCard) where
  abbrev put : KanbanCard → List KanbanCard → List KanbanCard
  put new rows = update_rows (λ (d : KanbanCard). d.id == c.id) (λ _. new) rows

  put-put :
      (x y : KanbanCard) (rows : List KanbanCard) → x.id ≡ c.id → put y (put x rows) ≡ put y rows
  put-put x y [] h = refl
  put-put x y (d ∷ ds) h = elim (Bool-cases (d.id == c.id)) [
    | inl e ↦ rw (e, (nat_eq_iff x.id c.id).1 h) (ap (λ l. y ∷ l) (put-put x y ds h))
    | inr e ↦ rw (e, e) (ap (λ l. d ∷ l) (put-put x y ds h))
  ]

  module _ (env : Env) (i : Intent) (lo : Option Rank) (r : Rank) where
    abbrev stored : Db → Db
    stored db = record db { cards = put (relocated env c i.dest.id r) db.cards }

    abbrev recorded : Db → Result KanbanCard × Db
    recorded db = record_move (relocated env c i.dest.id r) i.dest i.audit_actor (stored db)

    recorded-ok :
        (db : Db)
        → (recorded db ≡ (
          ok (record (relocated env c i.dest.id r) {
            depends_on = dep_ids_for_card c.id (stored db);
          }),
          (recorded db).1,
        ))
          × ((recorded db).1.cards ≡ put (relocated env c i.dest.id r) db.cards)
    unfolding record_move audit
    recorded-ok db = elim (Bool-cases (resolves i.dest c.origin)) [
      | inl e ↦ rw e (refl, refl)
      | inr e ↦ rw e (refl, refl)
    ]

    written-recorded :
        (db : Db)
        → i.dest.wip_limit ≡ none
        → (i.dest.id == c.column_id) ≡ false
        → any (taken c.id i.dest.id r) db.cards ≡ false
        → written env i (at c lo r) db ≡ recorded db
    unfolding attempts commit_move record_move
    written-recorded db w a f = rw (w, a, f) refl

    reads : (db : Db) → Passes c i lo r db → asked env c i db ≡ (ok (written env i (at c lo r)), db)
    unfolding move_phases
    reads db (d, g, h, _, _, _, _) =
        rw ((nat_eq_iff c.version c.version).1 refl, d) (rw (g, h) refl)

abbrev pub InTurn : Type 0
InTurn =
    (env : Env) (c : KanbanCard) (to_column_id : ℕ) (before_id after_id : Option ℕ)
    → (expected_version : ℕ) (audit_actor : String) (db : Db)
    → in_turn (move_phases env c to_column_id before_id after_id expected_version audit_actor) db
      ≡ move env c to_column_id before_id after_id expected_version audit_actor db

-- Both moves succeed at one version, and only the second is in the table.
abbrev pub Overwritten : Env → Env → KanbanCard → Intent → Intent → Rank → Db → Type 0
Overwritten env env' c i j r' db =
    (x y : KanbanCard) × (after : Db) × (race (asked env c i) (asked env' c j) db
      ≡ (ok x, ok y, after))
    × (x.version ≡ c.version + 1)
    × (y.version ≡ c.version + 1)
    × (after.cards
        ≡ update_rows (λ (d : KanbanCard). d.id == c.id) (λ _. relocated env' c j.dest.id r')
            db.cards)

-- Two moves of one card that were asked for the same version, into other columns without a WIP
-- limit and at free ranks, and that overlap, both succeed and both count the version up to the
-- same number; the row is left as the second wrote it, and nothing of the first move stays: the
-- version is compared in the first phase only. (Phases that run one after the other are the call
-- itself.)
pub race-move :
    (env env' : Env) (c : KanbanCard) (i j : Intent) (lo lo' : Option Rank) (r r' : Rank) (db : Db)
    → Passes c i lo r db
    → Passes c j lo' r' db
    → InTurn × Overwritten env env' c i j r' db
race-move env env' c i j lo lo' r r' db f g =
    let once = recorded-ok c env i lo r db in
    let first = (recorded c env i lo r db).1 in
    let still_free =
      ap (any (taken c.id j.dest.id r')) once.1
      ∙ any-update_rows (taken c.id j.dest.id r') (λ (d : KanbanCard). d.id == c.id)
          (relocated env c i.dest.id r) db.cards (rw ((nat_eq_iff c.id c.id).1 refl) refl) g.6 in
    let twice = recorded-ok c env' j lo' r' first in
    (
      move-in_turn,
      (
        record (relocated env c i.dest.id r) {
          depends_on = dep_ids_for_card c.id (stored c env i lo r db);
        },
        record (relocated env' c j.dest.id r') {
          depends_on = dep_ids_for_card c.id (stored c env' j lo' r' first);
        },
        (recorded c env' j lo' r' first).1,
        race-passes (asked env c i) (asked env' c j) _ _ _ _ db first _ (reads c env i lo r db f)
            (reads c env' j lo' r' db g) (written-recorded c env i lo r db f.3 f.4 f.6 ∙ once.0)
            (written-recorded c env' j lo' r' first g.3 g.4 still_free ∙ twice.0),
        refl,
        refl,
        twice.1
            ∙ ap (put c (relocated env' c j.dest.id r')) once.1
            ∙ put-put c (relocated env c i.dest.id r) (relocated env' c j.dest.id r') db.cards refl,
      ),
    )
