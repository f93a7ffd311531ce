-- ===== src/Messages/Origins.antt =====
-- Where a card came from (hub/app/services/message_service.py, `resolve_origin`). The answer's kind,
-- which repeats the origin's, is left out; `other` is a kind that the hub does not know.
use Prim.Native.String.{◌++◌ as append}
use ampla.Shared.{
  ℕ, ◌≡◌, refl, inl, inr, String, Bool, true, false, ◌||◌, ◌==◌, eq_nat, Option, none, some, List,
  [], ◌∷◌, arith, Bool-cases, find_row, if◌then◌else◌,
}
use ampla.Text.{show, is_empty}
use ampla.Models.{User, Origin, Message, Delegation, is_admin}
use ampla.Hub.{Db}
use ampla.Hub.Exec.{Result, Service, ok, err, hung, pure, gets, permission_denied, ◌>>=◌}
use ampla.Messages.Repo.{get_message}
use ampla.Messages.History.{authorize_view, takes_part}

pub record OriginOut : Type 0 where
  pub label : String
  pub deep_link : Option String
  pub available : Bool

abbrev unavailable : String → OriginOut
unavailable label = record { label = label; deep_link = none; available = false }

abbrev linked : String → String → OriginOut
linked label link = record { label = label; deep_link = some link; available = true }

-- DelegationRepository.get
abbrev delegation_row : ℕ → Db → Option Delegation
delegation_row id db = find_row (λ (d : Delegation). d.id == id) db.delegations

abbrev view_link : String → String → String
view_link a b = append "/?perspective=" (append a (append "&partner=" b))

abbrev message_part : Option ℕ → String
message_part none = ""
message_part (some id) = append "&msg=" (show id)

-- A refusal is answered like a source that is gone; another exception goes on.
abbrev shown : OriginOut → Result Unit × Db → Result OriginOut × Db
shown out (ok u, db) = (ok out, db)
shown out (err permission_denied, db) = (ok (unavailable "Origem indisponível"), db)
shown out (err e, db) = (err e, db)
shown out (hung, db) = (hung, db)

abbrev if_viewable : User → List String → OriginOut → Service OriginOut
if_viewable actor slugs out db = shown out (authorize_view actor slugs db)

abbrev of_delegation : User → Option Delegation → Service OriginOut
of_delegation actor none = pure (unavailable "Delegação indisponível")
of_delegation actor (some d) = if_viewable actor (d.from_agent ∷ d.to_agent ∷ []) (
    linked (append "Delegação para " d.to_agent)
      (append (view_link d.from_agent d.to_agent) (message_part d.root_message_id)))

abbrev of_message : User → Option Message → Service OriginOut
of_message actor none = pure (unavailable "Conversa indisponível")
of_message actor (some m) =
    if_viewable actor (m.from_agent ∷ m.to_agent ∷ [])
      (linked "Conversa" (append (view_link m.to_agent m.from_agent) (message_part (some m.id))))

abbrev nameless : String → String → Bool
nameless agent sender = is_empty agent || is_empty sender

abbrev of_kind : User → Origin → Service OriginOut
of_kind actor (Origin.delegation id) = gets (delegation_row id) >>= of_delegation actor
of_kind actor (Origin.escalation sender agent) =
    if nameless agent sender
    then pure (unavailable "Escalação")
    else if_viewable actor (agent ∷ sender ∷ [])
        (linked (append "Escalação de " sender) (view_link agent sender))
of_kind actor (Origin.message id) = gets (get_message id) >>= of_message actor
of_kind actor (Origin.thread id) = gets (get_message id) >>= of_message actor
of_kind actor Origin.other = pure (unavailable "Origem desconhecida")

unfoldable pub resolve_origin : User → Option Origin → Service OriginOut
resolve_origin actor none = pure (unavailable "Sem origem")
resolve_origin actor (some o) = of_kind actor o

-- ---- what the viewer learns ----

abbrev delegation_parties : Option Delegation → Option (List String)
delegation_parties none = none
delegation_parties (some d) = some (d.from_agent ∷ d.to_agent ∷ [])

abbrev message_parties : Option Message → Option (List String)
message_parties none = none
message_parties (some m) = some (m.from_agent ∷ m.to_agent ∷ [])

-- The two sides of the conversation that the card came from, if it is there.
abbrev pub parties : Option Origin → Db → Option (List String)
parties none db = none
parties (some (Origin.delegation id)) db = delegation_parties (delegation_row id db)
parties (some (Origin.escalation sender agent)) db =
    if nameless agent sender then none else some (agent ∷ sender ∷ [])
parties (some (Origin.message id)) db = message_parties (get_message id db)
parties (some (Origin.thread id)) db = message_parties (get_message id db)
parties (some Origin.other) db = none

-- An administrator, or the owner of an agent on one side.
abbrev pub may_open : User → Option (List String) → Db → Bool
may_open actor none db = false
may_open actor (some slugs) db = is_admin actor.role || takes_part actor slugs db

abbrev pub Resolves : User → Option (List String) → Db → Result OriginOut × Db → Type 0
Resolves actor sides db (ok out, after) =
    (after ≡ db)
    × (out.available ≡ may_open actor sides db)
    × (out.available ≡ false → out.deep_link ≡ none)
Resolves actor sides db (err e, after) = ⊥
Resolves actor sides db (hung, after) = ⊥

if_viewable-Resolves :
    (actor : User) (slugs : List String) (label link : String) (db : Db)
    → Resolves actor (some slugs) db (if_viewable actor slugs (linked label link) db)
unfolding authorize_view
if_viewable-Resolves actor slugs label link db = elim (Bool-cases (is_admin actor.role)) [
  | inl a ↦ rw a (refl, rw a refl, λ e. absurd_link e)
  | inr a ↦ elim (Bool-cases (takes_part actor slugs db)) [
    | inl t ↦ rw (a, t) (refl, rw (a, t) refl, λ e. absurd_link e)
    | inr t ↦ rw (a, t) (refl, rw (a, t) refl, λ e. refl)
  ]
]
  where
    absurd_link : true ≡ false → some link ≡ none
    absurd_link e = let out : ⊥ = ground (arith, e) in elim out [ ]

of_message-Resolves :
    (actor : User) (m : Option Message) (db : Db)
    → Resolves actor (message_parties m) db (of_message actor m db)
of_message-Resolves actor none db = (refl, refl, λ e. refl)
of_message-Resolves actor (some m) db = if_viewable-Resolves actor _ _ _ db

of_delegation-Resolves :
    (actor : User) (d : Option Delegation) (db : Db)
    → Resolves actor (delegation_parties d) db (of_delegation actor d db)
of_delegation-Resolves actor none db = (refl, refl, λ e. refl)
of_delegation-Resolves actor (some d) db = if_viewable-Resolves actor _ _ _ db

-- Resolving the origin of a card never fails and changes nothing. The source is available exactly
-- where it is there and the viewer is an administrator or owns an agent on one of its sides; where it
-- is not available, the answer has no link to it.
resolve_origin-Resolves :
    (actor : User) (o : Option Origin) (db : Db)
    → Resolves actor (parties o db) db (resolve_origin actor o db)
unfolding resolve_origin
resolve_origin-Resolves actor none db = (refl, refl, λ e. refl)
resolve_origin-Resolves actor (some (Origin.delegation id)) db =
    of_delegation-Resolves actor (delegation_row id db) db
resolve_origin-Resolves actor (some (Origin.escalation sender agent)) db =
    elim (Bool-cases (nameless agent sender)) [
      | inl n ↦ rw n (refl, refl, λ e. refl)
      | inr n ↦ rw n (if_viewable-Resolves actor _ _ _ db)
    ]
resolve_origin-Resolves actor (some (Origin.message id)) db =
    of_message-Resolves actor (get_message id db) db
resolve_origin-Resolves actor (some (Origin.thread id)) db =
    of_message-Resolves actor (get_message id db) db
resolve_origin-Resolves actor (some Origin.other) db = (refl, refl, λ e. refl)
