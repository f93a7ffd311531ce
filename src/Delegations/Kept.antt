-- ===== src/Delegations/Kept.antt =====
-- An event card leaves the delegations as they were (hub/app/services/delegation_service.py,
-- `_maybe_event_card`).
use ampla.Shared.{ℕ, refl, inl, inr, String, some, Option-cases}
use ampla.Hub.{Db, Env}
use ampla.Kanban.Access.{get_agent}
use ampla.Kanban.EventCards.{Kept, handled-Kept, create_card_for_event-Kept}
use ampla.Delegations.{maybe_event_card}

pub maybe_event_card-Kept :
    (env : Env) (from_slug to headline body : String) (id : ℕ) (db : Db)
    → Kept db (maybe_event_card env from_slug to headline body id db)
unfolding maybe_event_card
maybe_event_card-Kept env from_slug to headline body id db = elim (Option-cases (get_agent to db)) [
  | inl f ↦ rw f refl
  | inr (a, f) ↦
      rw f (
        handled-Kept db _ (create_card_for_event-Kept _ a.user_id _ _ body (some to) _ "normal" db))
]
