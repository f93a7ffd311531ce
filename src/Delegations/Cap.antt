-- ===== src/Delegations/Cap.antt =====
-- The cap on open delegations (hub/app/services/delegation_service.py, `delegate`).
use ampla.Shared.{
  suc, ◌+◌, ◌≤◌, ◌≡◌, refl, ap, ◌∙◌, inl, inr, String, Bool, ◌==◌, eq_string, Option, none, some,
  List, [], ◌∷◌, ◌++◌, arith, Bool-cases, select, length, leb, leb-false,
}
use ampla.Models.{Agent, Message, Delegation, open_, declined}
use ampla.Hub.{Db, Env}
use ampla.Hub.Exec.{
  Result, ok, err, hung, not_found, conflict, permission_denied, auth_failed, account_locked,
  invalid_input, unexpected, pure, audit, ◌>>◌,
}
use ampla.Kanban.Access.{get_agent}
use ampla.Delegations.{
  add_delegation, is_open_from, count_open_from, TaskSender, max_open, maybe_event_card, opened,
  refused, record_task, hand_over, delegate, new_delegation,
}
use ampla.Kanban.EventCards.{resume-Kept}
use ampla.Delegations.Kept.{maybe_event_card-Kept}

-- The sender does not open a delegation of the agent.
abbrev pub OpensNone : TaskSender → String → Type 0
OpensNone sender from_slug =
    (to body : String) (db : Db)
    → count_open_from from_slug (sender from_slug to body db).1 ≤ count_open_from from_slug db

length-select_append :
    {A : Type 0} (p : A → Bool) (xs : List A) (y : A)
    → length (select p (xs ++ y ∷ [])) ≡ length (select p xs) + length (select p (y ∷ []))
length-select_append p [] y = omega arith
length-select_append p (x ∷ xs) y = elim (Bool-cases (p x)) [
  | inl f ↦ rw f (omega (arith, length-select_append p xs y))
  | inr f ↦ rw f (length-select_append p xs y)
]

length-select_one : {A : Type 0} (p : A → Bool) (y : A) → length (select p (y ∷ [])) ≤ 1
length-select_one p y = elim (Bool-cases (p y)) [
  | inl f ↦ rw f (omega arith)
  | inr f ↦ rw f (omega arith)
]

-- The open delegations of the agent after one more row.
count_open_from-add :
    (from_slug : String) (ds : List Delegation) (d : Delegation)
    → length (select (is_open_from from_slug) (ds ++ d ∷ []))
      ≤ suc (length (select (is_open_from from_slug) ds))
count_open_from-add from_slug ds d = omega (
  arith,
  length-select_append (is_open_from from_slug) ds d,
  length-select_one (is_open_from from_slug) d,
)

-- What is left of `delegate` once the row is written.
carded_same :
    (env : Env) (from_slug to headline body : String) (d : Delegation) (now : Db)
    → ((maybe_event_card env from_slug to headline body d.id >> pure (some d)) now).1.delegations
      ≡ now.delegations
carded_same env from_slug to headline body d now =
    ap (λ r. r.0)
      (resume-Kept now (maybe_event_card env from_slug to headline body d.id now)
        (λ u. pure (some d)) (maybe_event_card-Kept env from_slug to headline body d.id now)
        (λ u later. refl))

opened-adds :
    (env : Env) (from_slug to headline body : String) (m : Message) (db : Db)
    → (opened env from_slug to headline body m db).1.delegations
      ≡ db.delegations ++ new_delegation env from_slug to headline (some m.id) open_ db ∷ []
unfolding add_delegation audit
opened-adds env from_slug to headline body m db =
    carded_same env from_slug to headline body
      (new_delegation env from_slug to headline (some m.id) open_ db) _

opened-count :
    (env : Env) (from_slug to headline body : String) (m : Message) (db : Db)
    → count_open_from from_slug (opened env from_slug to headline body m db).1
      ≤ suc (count_open_from from_slug db)
unfolding count_open_from
opened-count env from_slug to headline body m db =
    rw (opened-adds env from_slug to headline body m db) (
      count_open_from-add from_slug db.delegations
        (new_delegation env from_slug to headline (some m.id) open_ db))

declined-none :
    (from_slug : String) (d : Delegation)
    → d.status ≡ declined
    → select (is_open_from from_slug) (d ∷ []) ≡ []
declined-none from_slug d h = elim (Bool-cases (d.from_agent == from_slug)) [
  | inl f ↦ rw (f, h) refl
  | inr f ↦ rw f refl
]

refused-count :
    (env : Env) (from_slug to headline : String) (db : Db)
    → count_open_from from_slug (refused env from_slug to headline db).1
      ≡ count_open_from from_slug db
unfolding count_open_from add_delegation audit
refused-count env from_slug to headline db =
    length-select_append (is_open_from from_slug) db.delegations row
    ∙ omega (arith, ap length (declined-none from_slug row refl))
  where
    row : Delegation
    row = new_delegation env from_slug to headline none declined db

-- Whatever the sender answers, at most one delegation is opened.
record_task-count :
    (env : Env) (from_slug to headline body : String) (r : Result Message × Db)
    → count_open_from from_slug (record_task env from_slug to headline body r).1
      ≤ suc (count_open_from from_slug r.1)
record_task-count env from_slug to headline body (ok m, db) =
    opened-count env from_slug to headline body m db
record_task-count env from_slug to headline body (err permission_denied, db) =
    omega (arith, refused-count env from_slug to headline db)
record_task-count env from_slug to headline body (err not_found, db) = omega arith
record_task-count env from_slug to headline body (err conflict, db) = omega arith
record_task-count env from_slug to headline body (err auth_failed, db) = omega arith
record_task-count env from_slug to headline body (err account_locked, db) = omega arith
record_task-count env from_slug to headline body (err invalid_input, db) = omega arith
record_task-count env from_slug to headline body (err unexpected, db) = omega arith
record_task-count env from_slug to headline body (hung, db) = omega arith

hand_over-capped :
    (sender : TaskSender) (env : Env) (from_slug to headline body : String) (agent : Option Agent)
    (db : Db)
    → OpensNone sender from_slug
    → count_open_from from_slug db ≤ max_open
    → count_open_from from_slug (hand_over sender env from_slug to headline body agent db).1
      ≤ max_open
hand_over-capped sender env from_slug to headline body none db o h = h
hand_over-capped sender env from_slug to headline body (some agent) db o h =
    elim (Bool-cases (from_slug == to)) [
      | inl f ↦ rw f h
      | inr f ↦ elim (Bool-cases (leb max_open (count_open_from from_slug db))) [
        | inl g ↦ rw (f, g) h
        | inr g ↦
            rw (f, g)
              (omega (
                arith,
                record_task-count env from_slug to headline body (sender from_slug to body db),
                o to body db,
                leb-false _ _ g,
              ))
      ]
    ]

-- With a sender that opens no delegation of the agent, an agent with at most DEFAULT_MAX_OPEN
-- open delegations has at most as many after `delegate`, whatever the call returns or raises.
pub delegate-capped :
    (sender : TaskSender) (env : Env) (from_slug to task context : String) (db : Db)
    → OpensNone sender from_slug
    → count_open_from from_slug db ≤ max_open
    → count_open_from from_slug (delegate sender env from_slug to task context db).1 ≤ max_open
unfolding delegate
delegate-capped sender env from_slug to task context db o h =
    hand_over-capped sender env from_slug to _ _ (get_agent from_slug db) db o h
