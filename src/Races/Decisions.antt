-- ===== src/Races/Decisions.antt =====
-- Two decisions of one approval that overlap (hub/app/services/approval_service.py, `decide`).
use ampla.Shared.{
  ℕ, ◌≡◌, refl, sym, ◌∙◌, inl, inr, String, true, not, ◌==◌, eq_nat, Option, none, some, Bool-cases,
  Option-cases, find_row-update_rows, nat_eq_iff,
}
use ampla.Models.{User, Agent, Message, Approval, rejected}
use ampla.Hub.{Db, Env}
use ampla.Hub.Exec.{
  Service, ok, pure, gets, raise_if, or_raise, audit, ◌>>=◌, ◌>>◌, not_found, invalid_input,
}
use ampla.Kanban.Access.{get_agent}
use ampla.Approvals.{
  is_pending, get_approval, save_approval, Sender, manages, owned_agent, Decision, approve, reject,
  final_body, decided, reply, decide,
}
use ampla.Races.{Phases, in_turn, race, race-passes, resume_assoc, resume_cong}

abbrev settled :
    Sender → Env → User → Decision → Option String → Approval → Service (Approval × Option Message)
settled sender env actor decision body a = do
  m ← reply sender a decision body
  save_approval (decided env actor decision body a)
  audit "approval_decided" actor.email
  pure (decided env actor decision body a, m)

abbrev unless_decided :
    Approval → Service (Approval × Option Message) → Phases (Approval × Option Message)
unless_decided a writes = do raise_if (not (is_pending a.status)) invalid_input; pure writes

-- The reads and checks of `decide`, and what it sends and writes.
unfoldable pub decide_phases :
    Sender → Env → User → ℕ → Decision → Option String → Phases (Approval × Option Message)
decide_phases sender env actor approval_id decision body = do
  found ← gets (get_approval approval_id)
  a ← or_raise found not_found
  owned_agent actor a.agent_slug
  unless_decided a (settled sender env actor decision body a)

unless_decided-in_turn :
    (a : Approval) (writes : Service (Approval × Option Message)) (db : Db)
    → in_turn (unless_decided a writes) db
      ≡ (raise_if (not (is_pending a.status)) invalid_input >> writes) db
unless_decided-in_turn a writes db = elim (Bool-cases (is_pending a.status)) [
  | inl e ↦ rw e refl
  | inr e ↦ rw e refl
]

-- One after the other, the phases are the call.
decide-in_turn :
    (sender : Sender) (env : Env) (actor : User) (approval_id : ℕ) (decision : Decision)
    → (body : Option String) (db : Db)
    → in_turn (decide_phases sender env actor approval_id decision body) db
      ≡ decide sender env actor approval_id decision body db
unfolding decide_phases decide
decide-in_turn sender env actor approval_id decision body db =
    elim (Option-cases (get_approval approval_id db)) [
      | inl h ↦ rw h refl
      | inr (a, h) ↦ rw h (
          resume_assoc (owned_agent actor a.agent_slug db)
            (λ _. unless_decided a (settled sender env actor decision body a)) (λ k. k)
          ∙ resume_cong (owned_agent actor a.agent_slug db)
              (λ _ now. in_turn (unless_decided a (settled sender env actor decision body a)) now)
              (λ _.
                raise_if (not (is_pending a.status)) invalid_input
                >> settled sender env actor decision body a)
              (λ _. unless_decided-in_turn a (settled sender env actor decision body a)))
    ]

-- A user who manages the agent of a pending approval.
abbrev pub Manages : User → Approval → Db → Type 0
Manages actor a db =
    (agent : Agent) × (get_agent a.agent_slug db ≡ some agent) × (manages actor agent ≡ true)

reads :
    (sender : Sender) (env : Env) (actor : User) (a : Approval) (decision : Decision)
    → (body : Option String) (db : Db) → get_approval a.id db ≡ some a
    → is_pending a.status ≡ true
    → Manages actor a db
    → decide_phases sender env actor a.id decision body db
      ≡ (ok (settled sender env actor decision body a), db)
unfolding decide_phases owned_agent
reads sender env actor a decision body db h p (agent, g, m) = rw (h, g, m) (rw p refl)

abbrev saved : Approval → User → Db → Db
saved new actor db = (audit "approval_decided" actor.email (save_approval new db).1).1

get_approval-saved :
    (a new : Approval) (actor : User) (db : Db)
    → get_approval a.id db ≡ some a
    → new.id ≡ a.id
    → get_approval a.id (saved new actor db) ≡ some new
unfolding save_approval audit
get_approval-saved a new actor db h e =
    find_row-update_rows (λ (b : Approval). b.id == a.id) (λ (b : Approval). b.id == new.id) a new
      db.approvals h ((nat_eq_iff a.id new.id).1 (sym e)) ((nat_eq_iff new.id a.id).1 e)

settled-sent :
    (sender : Sender) (env : Env) (actor : User) (body : Option String) (a : Approval) (m : Message)
    (db sent : Db)
    → sender a.agent_slug a.to_agent (final_body body a) a.trigger_message_id db ≡ (ok m, sent)
    → settled sender env actor approve body a db ≡ (
      ok (decided env actor approve body a, some m),
      saved (decided env actor approve body a) actor sent,
    )
unfolding save_approval audit
settled-sent sender env actor body a m db sent h = rw h refl

settled-refused :
    (sender : Sender) (env : Env) (actor : User) (body : Option String) (a : Approval) (db : Db)
    → settled sender env actor reject body a db ≡ (
      ok (decided env actor reject body a, none),
      saved (decided env actor reject body a) actor db,
    )
unfolding save_approval audit
settled-refused sender env actor body a db = refl

abbrev pub InTurn : Type 0
InTurn =
    (sender : Sender) (env : Env) (actor : User) (approval_id : ℕ) (decision : Decision)
    → (body : Option String) (db : Db)
    → in_turn (decide_phases sender env actor approval_id decision body) db
      ≡ decide sender env actor approval_id decision body db

abbrev pub SentAndRejected :
    Sender → Env → Env → User → User → Approval → Option String → Message → Db → Type 0
SentAndRejected sender env env' actor actor' a body m db =
    (x y : Approval) × (after : Db) × (race (decide_phases sender env actor a.id approve body)
        (decide_phases sender env' actor' a.id reject none) db
      ≡ (ok (x, some m), ok (y, none), after))
    × (get_approval a.id after ≡ some y)
    × (y.status ≡ rejected)

-- One user approves and another rejects one pending approval in calls that overlap, where both
-- manage its agent and the sender sends the reply and leaves the approvals alone: both succeed, the
-- reply was sent, and the approval is stored as rejected. (Phases that run one after the other are
-- the call itself.)
pub race-decide :
    (sender : Sender) (env env' : Env) (actor actor' : User) (a : Approval) (body : Option String)
    → (m : Message) (db sent : Db) → get_approval a.id db ≡ some a
    → is_pending a.status ≡ true
    → Manages actor a db
    → Manages actor' a db
    → sender a.agent_slug a.to_agent (final_body body a) a.trigger_message_id db ≡ (ok m, sent)
    → sent.approvals ≡ db.approvals
    → InTurn × SentAndRejected sender env env' actor actor' a body m db
race-decide sender env env' actor actor' a body m db sent h p g g' send kept =
    let yes = decided env actor approve body a in
    let no = decided env' actor' reject none a in
    let once = saved yes actor sent in
    let found = get_approval-saved a yes actor sent (rw kept h) refl in
    (
      decide-in_turn,
      (
        yes,
        no,
        saved no actor' once,
        race-passes (decide_phases sender env actor a.id approve body)
            (decide_phases sender env' actor' a.id reject none) _ _ _ _ db once _
            (reads sender env actor a approve body db h p g)
            (reads sender env' actor' a reject none db h p g')
            (settled-sent sender env actor body a m db sent send)
            (settled-refused sender env' actor' none a once),
        get_approval-saved yes no actor' once found refl,
        refl,
      ),
    )
