-- ===== src/Messages/Drafts.antt =====
-- Which drafts may be sent (hub/app/services/message_service.py, `send`).
use text.Mathlib.TextEquality.{eq_iff as str_eq_iff}
use ampla.Shared.{
  both, In, String, ◌&&◌, ◌||◌, List, Bool, ◌⊎◌, ℕ, ◌≤◌, ◌≡◌, sym, ◌∙◌, refl, inl, inr, true, false,
  ◌==◌, eq_string, eq_nat, Option, none, some, [], ◌∷◌, arith, Bool-cases, Option-cases, ltb,
}
use ampla.Text.{strip, is_empty}
use ampla.Models.{Agent, Message}
use ampla.Hub.{Db, Env}
use ampla.Hub.Exec.{Result, ok, err, hung, audit}
use ampla.Kanban.Access.{get_agent}
use ampla.Messages.Repo.{get_message}
use ampla.Messages.Send.{Draft, allows, same_conversation, thread_or_id, encoded_length, check_send}

-- The recipient accepts the sender: it has no list of senders, or one with the sender on it.
abbrev pub Accepts : Option (List String) → String → Type 0
Accepts none from_slug = Unit
Accepts (some senders) from_slug = In from_slug senders

-- The message is between the two agents of the draft, in either direction.
abbrev pub SamePair : Draft → Message → Type 0
SamePair d parent =
    ((parent.from_agent ≡ d.from_slug) × (parent.to_agent ≡ d.to_slug))
    ⊎ ((parent.from_agent ≡ d.to_slug) × (parent.to_agent ≡ d.from_slug))

allows-Accepts :
    (senders : Option (List String)) (slug : String)
    → allows senders slug ≡ true
    → Accepts senders slug
allows-Accepts none slug h = tt
allows-Accepts (some []) slug h = let out : ⊥ = ground (arith, h) in elim out [ ]
allows-Accepts (some (s ∷ ss)) slug h = elim (Bool-cases (s == slug)) [
  | inl e ↦ inl ((str_eq_iff s slug).0 e)
  | inr e ↦ inr (allows-Accepts (some ss) slug (rw e at h))
]

either : (p q : Bool) → (p || q) ≡ true → (p ≡ true) ⊎ (q ≡ true)
either true q h = inl refl
either false q h = inr h

pub same_conversation-SamePair :
    (d : Draft) (parent : Message) → same_conversation d parent ≡ true → SamePair d parent
same_conversation-SamePair d parent h =
    elim (either (parent.from_agent == d.from_slug && parent.to_agent == d.to_slug)
      (parent.from_agent == d.to_slug && parent.to_agent == d.from_slug) h) [
        | inl e ↦
            let p = both (parent.from_agent == d.from_slug) (parent.to_agent == d.to_slug) e in
            inl (
              (str_eq_iff parent.from_agent d.from_slug).0 p.0,
              (str_eq_iff parent.to_agent d.to_slug).0 p.1,
            )
        | inr e ↦
            let p = both (parent.from_agent == d.to_slug) (parent.to_agent == d.from_slug) e in
            inr (
              (str_eq_iff parent.from_agent d.to_slug).0 p.0,
              (str_eq_iff parent.to_agent d.from_slug).0 p.1,
            )
      ]

-- The draft may be sent to the recipient.
abbrev pub Sendable : Env → Draft → Db → Agent → Type 0
Sendable env d db recipient =
    (is_empty (strip d.body) ≡ false)
    × (encoded_length d.body ≤ env.message_max_body_bytes)
    × ((d.from_slug == d.to_slug) ≡ false)
    × (get_agent d.to_slug db ≡ some recipient)
    × Accepts recipient.allowed_senders d.from_slug

-- A message that it replies to exists, and is between the same two agents.
abbrev pub Answers : Draft → Option ℕ → Db → Type 0
Answers d none db = Unit
Answers d (some parent_id) db =
    (parent : Message) × (get_message parent_id db ≡ some parent) × SamePair d parent

-- All that `send` asks of a draft.
abbrev pub Proper : Env → Draft → Db → Type 0
Proper env d db = ((recipient : Agent) × Sendable env d db recipient) × Answers d d.in_reply_to db

-- The thread of a message: its own, or that of the message it replies to, between the same two agents.
abbrev pub InThread : Draft → Message → Option ℕ → Db → Type 0
InThread d m none db = m.thread_id ≡ some m.id
InThread d m (some parent_id) db =
    (parent : Message) × (get_message parent_id db ≡ some parent)
    × SamePair d parent
    × (m.thread_id ≡ some (thread_or_id parent.thread_id parent.id))

abbrev pub Checked : Env → Draft → Db → Result Agent × Db → Type 0
Checked env d db (ok recipient, db') = (db' ≡ db) × Sendable env d db recipient
Checked env d db (err e, db') =
    (db'.messages ≡ db.messages) × ((recipient : Agent) → ¬ (Sendable env d db recipient))
Checked env d db (hung, db') = ⊥

Accepts-allows :
    (senders : Option (List String)) (slug : String)
    → Accepts senders slug
    → allows senders slug ≡ true
Accepts-allows none slug h = refl
Accepts-allows (some []) slug h = elim h [ ]
Accepts-allows (some (s ∷ ss)) slug (inl e) = rw ((str_eq_iff s slug).1 e) refl
Accepts-allows (some (s ∷ ss)) slug (inr i) = elim (Bool-cases (s == slug)) [
  | inl e ↦ rw e refl
  | inr e ↦ rw e (Accepts-allows (some ss) slug i)
]

pub SamePair-same_conversation :
    (d : Draft) (parent : Message) → SamePair d parent → same_conversation d parent ≡ true
SamePair-same_conversation d parent (inl (f, t)) =
    rw ((str_eq_iff parent.from_agent d.from_slug).1 f, (str_eq_iff parent.to_agent d.to_slug).1 t)
      refl
SamePair-same_conversation d parent (inr (f, t)) =
    let p = (str_eq_iff parent.from_agent d.to_slug).1 f in
    let q = (str_eq_iff parent.to_agent d.from_slug).1 t in
    elim (Bool-cases (parent.from_agent == d.from_slug && parent.to_agent == d.to_slug)) [
      | inl e ↦ rw e refl
      | inr e ↦ rw (e, p, q) refl
    ]

pub check_send-Checked : (env : Env) (d : Draft) (db : Db) → Checked env d db (check_send env d db)
unfolding check_send audit
check_send-Checked env d db = elim (Bool-cases (is_empty (strip d.body))) [
  | inl e ↦ rw e (refl, λ r s. contrary e s.0)
  | inr e ↦ elim (Bool-cases (ltb env.message_max_body_bytes (encoded_length d.body))) [
    | inl f ↦
        rw (e, f) (refl, λ r s. too_long (encoded_length d.body) env.message_max_body_bytes f s.1)
    | inr f ↦ elim (Bool-cases (d.from_slug == d.to_slug)) [
      | inl g ↦ rw (e, f, g) (refl, λ r s. contrary g s.2)
      | inr g ↦ elim (Option-cases (get_agent d.to_slug db)) [
        | inl h ↦ rw (e, f, g, h) (refl, λ r s. missing r (sym h ∙ s.3))
        | inr (recipient, h) ↦ elim (Bool-cases (allows recipient.allowed_senders d.from_slug)) [
          | inl k ↦
              rw (e, f, g, h, k)
                (
                  refl,
                  (
                    e,
                    at_most (encoded_length d.body) env.message_max_body_bytes f,
                    g,
                    h,
                    allows-Accepts recipient.allowed_senders d.from_slug k,
                  ),
                )
          | inr k ↦ rw (e, f, g, h, k) (refl, λ r s. blocked recipient r (sym h ∙ s.3) k s.4)
        ]
      ]
    ]
  ]
]
  where
    at_most : (a b : ℕ) → ltb b a ≡ false → a ≤ b
    at_most a b f = ground (arith, f)

    contrary : {b : Bool} → b ≡ true → b ≡ false → ⊥
    contrary h k = ground (arith, h, k)

    too_long : (a b : ℕ) → ltb b a ≡ true → a ≤ b → ⊥
    too_long a b f h = ground (arith, f, h)

    missing : (r : Agent) → none ≡ some r → ⊥
    missing r h = cc

    blocked :
        (recipient r : Agent)
        → some recipient ≡ some r
        → allows recipient.allowed_senders d.from_slug ≡ false
        → Accepts r.allowed_senders d.from_slug
        → ⊥
    blocked recipient r h k a =
        let same : recipient ≡ r = cc in
        let fine = rw (← same) at (Accepts-allows r.allowed_senders d.from_slug a) in
        contrary fine k
