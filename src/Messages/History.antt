-- ===== src/Messages/History.antt =====
-- Delivery and history (hub/app/services/message_service.py).
use ampla.Shared.{
  ℕ, String, Bool, not, ◌&&◌, ◌==◌, eq_string, Option, none, some, List, [], ◌∷◌, any, min,
  if◌then◌else◌,
}
use ampla.Models.{User, Agent, Message, is_admin}
use ampla.Hub.{Db, Env}
use ampla.Hub.Exec.{Service, pure, gets, raise_if, ◌>>=◌, ◌>>◌, permission_denied}
use ampla.Messages.Repo.{
  get_message, save_message, conversation_of, pending_of, mark_rows_delivered, involving, agents_of,
}

unfoldable pub pending_for : Env → String → Service (List Message)
pending_for env slug = gets (pending_of env slug)

unfoldable pub mark_delivered : Env → List ℕ → Service Unit
mark_delivered env message_ids = mark_rows_delivered env message_ids

abbrev pub addressed_to : String → Option Message → Option Message
addressed_to slug none = none
addressed_to slug (some m) = if m.to_agent == slug then some m else none

abbrev pub delivered_now : Env → Message → Option ℕ → Service Message
delivered_now env m (some t) = pure m
delivered_now env m none = do
  save_message (record m { delivered_at = some env.now })
  pure (record m { delivered_at = some env.now })

abbrev pub acked : Env → Option Message → Service (Option Message)
acked env none = pure none
acked env (some m) = do n ← delivered_now env m m.delivered_at; pure (some n)

unfoldable pub ack_delivery : Env → String → ℕ → Service (Option Message)
ack_delivery env recipient_slug message_id = do
  found ← gets (get_message message_id)
  acked env (addressed_to recipient_slug found)

-- `_authorize_view`
abbrev pub takes_part : User → List String → Db → Bool
takes_part actor slugs db =
    any (λ (a : Agent). any (λ s. s == a.slug) slugs) (agents_of actor.id db)

unfoldable pub authorize_view : User → List String → Service Unit
authorize_view actor slugs = do
  part ← gets (takes_part actor slugs)
  raise_if (not (is_admin actor.role) && not part) permission_denied

unfoldable pub conversation : User → String → String → ℕ → Service (List Message)
conversation actor agent_a agent_b limit = do
  authorize_view actor (agent_a ∷ agent_b ∷ [])
  gets (conversation_of agent_a agent_b (min limit 200))

abbrev other_side : String → Message → String
other_side slug m = if m.from_agent == slug then m.to_agent else m.from_agent

-- `partners.setdefault(other, msg)`
abbrev keep_first : String → Message → List (String × Message) → List (String × Message)
keep_first other m [] = (other, m) ∷ []
keep_first other m ((o, n) ∷ rest) =
    if o == other then (o, n) ∷ rest else (o, n) ∷ keep_first other m rest

abbrev collect : String → List Message → List (String × Message) → List (String × Message)
collect slug [] found = found
collect slug (m ∷ ms) found = collect slug ms (keep_first (other_side slug m) m found)

unfoldable pub partners : User → String → Service (List (String × Message))
partners actor slug = do
  authorize_view actor (slug ∷ [])
  recent ← gets (involving slug 200)
  pure (collect slug recent [])
