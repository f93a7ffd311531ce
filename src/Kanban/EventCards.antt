-- ===== src/Kanban/EventCards.antt =====
-- An event card leaves the delegations and the runs as they were (hub/app/services/kanban_service.py,
-- `create_card_for_event`), and its call returns.
use ampla.Shared.{
  ℕ, ◌≡◌, refl, ◌∙◌, inl, inr, String, eq_string, Option, none, some, List, Bool-cases,
  Option-cases, any,
}
use ampla.Rank.{rank_between}
use ampla.Models.{KanbanCard, Origin, UserId, Delegation, AutorespondRun}
use ampla.Hub.{Db, Env}
use ampla.Hub.Exec.{Result, Service, ok, err, hung, resume, handled, audit, or_hang}
use ampla.Kanban.Tables.{Flag, first_board_with_flag, get_board}
use ampla.Kanban.Cards.{add_card, taken, last_rank_in_column}
use ampla.Kanban.Inputs.{CardCreate}
use ampla.Kanban.CardOps.{append_card}
use ampla.Kanban.Events.{create_event_card, create_card_for_event, flagged_card, parse_flag}
use ampla.Kanban.Ranked.{Ranked}
use ampla.Kanban.Appends.{resolve_landing-cases, Appended, append_card-Appended}

-- The tables of the services that ask for an event card.
abbrev pub aside : Db → List Delegation × List AutorespondRun
aside db = (db.delegations, db.runs)

-- The call leaves those tables as they were.
abbrev pub Kept : {A : Type 0} → Db → Result A × Db → Type 0
Kept db r = aside r.1 ≡ aside db

pub resume-Kept :
    {A B : Type 0} (db : Db) (r : Result A × Db) (f : A → Service B)
    → Kept db r
    → ((a : A) (now : Db) → Kept now (f a now))
    → Kept db (resume r f)
resume-Kept db (ok a, now) f h k = k a now ∙ h
resume-Kept db (err e, now) f h k = h
resume-Kept db (hung, now) f h k = h

pub handled-Kept : {A : Type 0} (db : Db) (r : Result A × Db) → Kept db r → Kept db (handled r)
handled-Kept db (ok a, now) h = h
handled-Kept db (err e, now) h = h
handled-Kept db (hung, now) h = h

add_card-Kept : (c : KanbanCard) (db : Db) → Kept db (add_card c db)
unfolding add_card
add_card-Kept c db = elim (Bool-cases (any (taken c.id c.column_id c.rank) db.cards)) [
  | inl f ↦ rw f refl
  | inr f ↦ rw f refl
]

or_hang-Kept : {A : Type 0} (a : Option A) (db : Db) → Kept db (or_hang a db)
or_hang-Kept none db = refl
or_hang-Kept (some a) db = refl

append_card-Kept :
    (env : Env) (board_id : ℕ) (body : CardCreate) (created_by : String) (origin : Option Origin)
    (db : Db)
    → Kept db (append_card env board_id body created_by origin db)
unfolding append_card
append_card-Kept env board_id body created_by origin db =
    elim (resolve_landing-cases board_id body.column_id db) [
      | inl (e, other, f) ↦ rw f refl
      | inr (column, f) ↦ rw f (
          resume-Kept db (or_hang (rank_between (last_rank_in_column column.id db) none) db) _
            (or_hang-Kept (rank_between (last_rank_in_column column.id db) none) db)
            (λ r now. add_card-Kept _ now))
    ]

create_event_card-Kept :
    (env : Env) (board_id : ℕ) (body : CardCreate) (origin : Origin) (actor : String) (db : Db)
    → Kept db (create_event_card env board_id body origin actor db)
unfolding create_event_card audit
create_event_card-Kept env board_id body origin actor db =
    elim (Option-cases (get_board board_id db)) [
      | inl f ↦ rw f refl
      | inr (b, f) ↦ rw f (
          resume-Kept db (append_card env board_id body actor (some origin) db) _
            (append_card-Kept env board_id body actor (some origin) db) (λ c now. refl))
    ]

flagged_card-Kept :
    (env : Env) (owner_id : UserId) (body : CardCreate) (origin : Origin) (flag : Option Flag)
    (db : Db)
    → Kept db (flagged_card env owner_id body origin flag db)
flagged_card-Kept env owner_id body origin none db = refl
flagged_card-Kept env owner_id body origin (some flag) db =
    elim (Option-cases (first_board_with_flag owner_id flag db)) [
      | inl f ↦ rw f refl
      | inr (b, f) ↦ rw f (create_event_card-Kept env b.id body origin "system" db)
    ]

pub create_card_for_event-Kept :
    (env : Env) (owner_id : UserId) (flag title body : String) (assignee : Option String)
    (origin : Origin) (priority : String) (db : Db)
    → Kept db (create_card_for_event env owner_id flag title body assignee origin priority db)
unfolding create_card_for_event
create_card_for_event-Kept env owner_id flag title body assignee origin priority db =
    flagged_card-Kept env owner_id _ origin (parse_flag flag) db

-- ---- the call returns ----

abbrev pub Returned : {A : Type 0} → Result A × Db → Type 0
Returned (ok a, db) = Unit
Returned (err e, db) = Unit
Returned (hung, db) = ⊥

resume-Returned :
    {A B : Type 0} (r : Result A × Db) (f : A → Service B)
    → Returned r
    → ((a : A) (now : Db) → Returned (f a now))
    → Returned (resume r f)
resume-Returned (ok a, now) f h k = k a now
resume-Returned (err e, now) f h k = tt
resume-Returned (hung, now) f h k = elim h [ ]

Appended-Returned : (db : Db) (r : Result KanbanCard × Db) → Appended db r → Returned r
Appended-Returned db (ok c, now) h = tt
Appended-Returned db (err e, now) h = tt
Appended-Returned db (hung, now) h = elim h [ ]

flagged_card-Returned :
    (env : Env) (owner_id : UserId) (body : CardCreate) (origin : Origin) (flag : Option Flag)
    (db : Db)
    → Ranked db
    → Returned (flagged_card env owner_id body origin flag db)
unfolding create_event_card audit
flagged_card-Returned env owner_id body origin none db h = tt
flagged_card-Returned env owner_id body origin (some flag) db h =
    elim (Option-cases (first_board_with_flag owner_id flag db)) [
      | inl f ↦ rw f tt
      | inr (b, f) ↦ elim (Option-cases (get_board b.id db)) [
        | inl g ↦ rw (f, g) tt
        | inr (c, g) ↦
            rw (f, g)
              (resume-Returned (append_card env b.id body "system" (some origin) db) _
                (Appended-Returned db (append_card env b.id body "system" (some origin) db)
                  (append_card-Appended env b.id body "system" (some origin) db h))
                (λ d now. tt))
      ]
    ]

-- Where the cards have well-formed ranks.
pub create_card_for_event-Returned :
    (env : Env) (owner_id : UserId) (flag title body : String) (assignee : Option String)
    (origin : Origin) (priority : String) (db : Db)
    → Ranked db
    → Returned (create_card_for_event env owner_id flag title body assignee origin priority db)
unfolding create_card_for_event
create_card_for_event-Returned env owner_id flag title body assignee origin priority db h =
    flagged_card-Returned env owner_id _ origin (parse_flag flag) db h
