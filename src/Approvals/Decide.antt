-- ===== src/Approvals/Decide.antt =====
-- An approval is decided once, by someone who manages its agent (hub/app/services/approval_service.py,
-- `decide`).
use ampla.Shared.{
  ℕ, ◌≡◌, refl, sym, ◌∙◌, inl, inr, String, true, false, ◌==◌, eq_nat, Option, none, some, List,
  Bool-cases, Option-cases, find_row, find_row-passes, find_row-update_rows, update_rows,
  nat_eq_iff,
}
use ampla.Models.{User, Agent, Message, Approval}
use ampla.Hub.{Db, Env}
use ampla.Hub.Exec.{Result, ok, err, hung, pure, resume, audit, ◌>>◌}
use ampla.Text.{is_empty}
use ampla.Kanban.Access.{get_agent}
use ampla.Approvals.{
  is_pending, get_approval, save_approval, Sender, manages, owned_agent, Decision, approve, reject,
  final_body, status_after, decided, reply, decide,
}

-- The call returns, and leaves the approvals as they were.
abbrev pub Kept : {A : Type 0} → Db → Result A × Db → Type 0
Kept db (ok a, db') = db'.approvals ≡ db.approvals
Kept db (err e, db') = db'.approvals ≡ db.approvals
Kept db (hung, db') = ⊥

abbrev pub KeepsApprovals : Sender → Type 0
KeepsApprovals sender =
    (from_slug to_slug body : String) (in_reply_to : Option ℕ) (db : Db)
    → Kept db (sender from_slug to_slug body in_reply_to db)

-- A pending approval of an agent that the user manages.
abbrev pub Decidable : User → ℕ → Db → Type 0
Decidable actor approval_id db =
    (a : Approval) × (get_approval approval_id db ≡ some a)
    × (is_pending a.status ≡ true)
    × ((agent : Agent) × (get_agent a.agent_slug db ≡ some agent) × (manages actor agent ≡ true))

-- The outcome of a decision: the approval was decidable and is now stored as decided; or no approval
-- changed.
abbrev pub Decided : User → ℕ → Db → Result (Approval × Option Message) × Db → Type 0
Decided actor approval_id db (ok (a, m), db') =
    Decidable actor approval_id db
    × (get_approval approval_id db' ≡ some a)
    × (is_pending a.status ≡ false)
Decided actor approval_id db (err e, db') = db'.approvals ≡ db.approvals
Decided actor approval_id db (hung, db') = ⊥

find_row-saved :
    (approval_id : ℕ) (a new : Approval) (rows : List Approval)
    → find_row (λ (b : Approval). b.id == approval_id) rows ≡ some a
    → new.id ≡ a.id
    → find_row
        (λ (b : Approval). b.id == approval_id)
        (update_rows (λ (b : Approval). b.id == new.id) (λ _. new) rows)
      ≡ some new
find_row-saved approval_id a new rows h e =
    let key =
      (nat_eq_iff a.id approval_id).0
        (find_row-passes (λ (b : Approval). b.id == approval_id) a rows h) in
    find_row-update_rows (λ (b : Approval). b.id == approval_id) (λ (b : Approval). b.id == new.id)
      a new rows h ((nat_eq_iff a.id new.id).1 (sym e))
      ((nat_eq_iff new.id approval_id).1 (e ∙ key))

reply-Kept :
    (sender : Sender) (a : Approval) (decision : Decision) (body : Option String) (db : Db)
    → KeepsApprovals sender
    → Kept db (reply sender a decision body db)
reply-Kept sender a reject body db keeps = refl
reply-Kept sender a approve body db keeps =
    after (sender a.agent_slug a.to_agent (final_body body a) a.trigger_message_id db)
      (keeps a.agent_slug a.to_agent (final_body body a) a.trigger_message_id db)
  where
    after : (r : Result Message × Db) → Kept db r → Kept db (resume r (λ m. pure (some m)))
    after (ok m, db') k = k
    after (err e, db') k = k
    after (hung, db') k = k

not_pending :
    (decision : Decision) (body : Option String) → is_pending (status_after decision body) ≡ false
not_pending reject body = refl
not_pending approve none = refl
not_pending approve (some body) = elim (Bool-cases (is_empty body)) [
  | inl e ↦ rw e refl
  | inr e ↦ rw e refl
]

replied :
    (env : Env) (actor : User) (approval_id : ℕ) (decision : Decision) (body : Option String)
    (db : Db)
    → (a : Approval) (r : Result (Option Message) × Db) → Decidable actor approval_id db
    → get_approval approval_id db ≡ some a
    → Kept db r
    → Decided actor approval_id db (
        resume r (λ m. do
          save_approval (decided env actor decision body a)
          audit "approval_decided" actor.email
          pure (decided env actor decision body a, m)))
unfolding save_approval audit
replied env actor approval_id decision body db a (ok m, db') d found k = (
  d,
  find_row-saved approval_id a (decided env actor decision body a) db'.approvals (rw k found) refl,
  not_pending decision body,
)
replied env actor approval_id decision body db a (err e, db') d found k = k
replied env actor approval_id decision body db a (hung, db') d found k = k

-- With a sender that returns and does not touch the approvals, a decision succeeds only on an approval
-- that is pending, by a user who manages its agent, and stores it as decided, so that it is decided
-- once; otherwise no approval changes.
pub decide-Decided :
    (sender : Sender) (env : Env) (actor : User) (approval_id : ℕ) (decision : Decision)
    → (body : Option String) (db : Db) → KeepsApprovals sender
    → Decided actor approval_id db (decide sender env actor approval_id decision body db)
unfolding decide owned_agent
decide-Decided sender env actor approval_id decision body db keeps =
    elim (Option-cases (get_approval approval_id db)) [
      | inl e ↦ rw e refl
      | inr (a, e) ↦ elim (Option-cases (get_agent a.agent_slug db)) [
        | inl f ↦ rw (e, f) refl
        | inr (agent, f) ↦ elim (Bool-cases (manages actor agent)) [
          | inr g ↦ rw (e, f, g) refl
          | inl g ↦ elim (Bool-cases (is_pending a.status)) [
            | inr h ↦ rw (e, f, g, h) refl
            | inl h ↦
                rw (e, f, g, h)
                  (replied env actor approval_id decision body db a
                    (reply sender a decision body db) (a, e, h, (agent, f, g)) e
                    (reply-Kept sender a decision body db keeps))
          ]
        ]
      ]
    ]
