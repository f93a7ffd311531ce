-- ===== src/Kanban/Move.antt =====
-- The race-safe move (hub/app/services/kanban_service.py).
use ampla.Shared.{
  ℕ, zero, suc, String, Bool, true, false, not, ◌&&◌, ◌==◌, eq_nat, Option, none, some, List, [],
  ◌∷◌, map, select, last, length, ltb, if◌then◌else◌,
}
use ampla.Rank.{Rank, rank_between, rebalance_ranks, rank_len_max}
use ampla.Rank.Order.{rank_lt}
use ampla.Models.{User, KanbanColumn, KanbanCard, Origin, state_change}
use ampla.Hub.{Db, Env}
use ampla.Hub.Exec.{
  Service, pure, gets, raise, raise_if, or_hang, when, audit, ◌>>=◌, ◌>>◌, conflict, invalid_input,
  unexpected,
}
use ampla.Kanban.Tables.{get_column}
use ampla.Kanban.Cards.{
  get_card_row, list_cards_in_column, count_cards_in_column, commit_move, rebalance_column,
  dep_ids_for_card, MoveOutcome, moved, wip_full, collision,
}
use ampla.Kanban.Access.{column_of_board}
use ampla.Kanban.CardOps.{get_card}
use ampla.Kanban.Notices.{user_ref, notify_assignee}

-- _MOVE_RETRIES
abbrev pub move_retries : ℕ
move_retries = 4

abbrev pub is_done_column : Option KanbanColumn → Bool
is_done_column none = false
is_done_column (some c) = c.is_done

-- A dependency that is a card outside a done column.
abbrev pub blocks : Db → Option KanbanCard → Bool
blocks db none = false
blocks db (some dep) = not (is_done_column (get_column dep.column_id db))

abbrev pub blocked_by : Db → List ℕ → Bool
blocked_by db [] = false
blocked_by db (dep_id ∷ ids) =
    if blocks db (get_card_row dep_id db) then true else blocked_by db ids

-- `_is_blocked`
unfoldable pub is_blocked : KanbanCard → Db → Bool
is_blocked c db = blocked_by db (dep_ids_for_card c.id db)

-- `_anchor_rank`
abbrev pub anchor_of : ℕ → Option KanbanCard → Service Rank
anchor_of dest_id none = raise conflict
anchor_of dest_id (some anchor) =
    if anchor.column_id == dest_id then pure anchor.rank else raise conflict

unfoldable pub anchor_rank : ℕ → ℕ → KanbanCard → Service Rank
anchor_rank dest_id anchor_id c = do
  raise_if (anchor_id == c.id) invalid_input
  found ← gets (get_card_row anchor_id)
  anchor_of dest_id found

-- `… if anchor_id else None`
unfoldable pub optional_anchor : ℕ → Option ℕ → KanbanCard → Service (Option Rank)
optional_anchor dest_id none c = pure none
optional_anchor dest_id (some zero) c = pure none
optional_anchor dest_id (some (suc n)) c = do r ← anchor_rank dest_id (suc n) c; pure (some r)

-- The last rank of the destination, the card itself excluded.
unfoldable pub end_rank : ℕ → KanbanCard → Db → Option Rank
end_rank dest_id c db = last (
    map (λ (d : KanbanCard). d.rank)
      (select (λ (d : KanbanCard). not (d.id == c.id)) (list_cards_in_column dest_id db)))

abbrev pub Bounds : Type 0
Bounds = Option Rank × Option Rank

-- With no anchors, the end of the destination; anchors in the wrong order are stale.
abbrev pub settle : Option Rank → Option Rank → Option Rank → Service Bounds
settle end none none = pure (end, none)
settle end none (some hi) = pure (none, some hi)
settle end (some lo) none = pure (some lo, none)
settle end (some lo) (some hi) = if rank_lt lo hi then pure (some lo, some hi) else raise conflict

-- `_move_bounds`
unfoldable pub move_bounds : ℕ → KanbanCard → Option ℕ → Option ℕ → Service Bounds
move_bounds dest_id c before_id after_id = do
  before_rank ← optional_anchor dest_id before_id c
  after_rank ← optional_anchor dest_id after_id c
  end ← gets (end_rank dest_id c)
  settle end before_rank after_rank

-- `_rebalance`
unfoldable pub rebalance : ℕ → Service Unit
rebalance column_id = do
  count ← gets (count_cards_in_column column_id)
  ranks ← or_hang (rebalance_ranks count)
  rebalance_column column_id ranks

abbrev pub or_card : KanbanCard → Option KanbanCard → KanbanCard
or_card c none = c
or_card c (some d) = d

-- A card that was moved into a done column, where it resolves an escalation.
abbrev pub resolves : KanbanColumn → Option Origin → Bool
resolves dest (some (Origin.escalation from agent)) = dest.is_done
resolves dest _ = false

-- `_record_move`
unfoldable pub record_move : KanbanCard → KanbanColumn → String → Service KanbanCard
record_move c dest audit_actor = do
  deps ← gets (dep_ids_for_card c.id)
  audit "kanban_card_moved" audit_actor
  when (resolves dest c.origin) (audit "escalation_resolved" audit_actor)
  pure (record c { depends_on = deps })

-- What a move is about, from the arguments of `_move` and the destination read for it.
pub record Intent : Type 0 where
  pub dest : KanbanColumn
  pub before_id : Option ℕ
  pub after_id : Option ℕ
  pub audit_actor : String

-- The last attempt, after a rebalance.
abbrev pub finish_last : Intent → MoveOutcome → Service KanbanCard
finish_last i (moved c) = record_move c i.dest i.audit_actor
finish_last i wip_full = raise conflict
finish_last i collision = raise conflict

unfoldable pub last_attempt : Env → Intent → KanbanCard → Service KanbanCard
last_attempt env i c = do
  rebalance i.dest.id
  found ← gets (get_card_row c.id)
  bounds ← move_bounds i.dest.id (or_card c found) i.before_id i.after_id
  rank ← or_hang (rank_between bounds.0 bounds.1)
  outcome ← commit_move env (or_card c found) i.dest.id rank i.dest.wip_limit
  finish_last i outcome

-- The `for` loop: on a collision the next rank is squeezed below the one that was taken. The collision
-- has rolled back, which expires the destination, and the next attempt reads it.
unfoldable pub attempts : Env → Intent → KanbanCard → ℕ → Option Rank → Rank → Service KanbanCard
attempts env i c zero lo new_rank = last_attempt env i c
attempts env i c (suc n) lo new_rank = do
  outcome ← commit_move env c i.dest.id new_rank i.dest.wip_limit
  elim outcome [
    | moved d ↦ record_move d i.dest i.audit_actor
    | wip_full ↦ raise conflict
    | collision ↦ do
      squeezed ← or_hang (rank_between lo (some new_rank))
      raise_if (not env.reads_expired) unexpected
      attempts env i c n lo squeezed
  ]

-- The placement: the rank between the bounds, after a rebalance if it is too long.
pub record Place : Type 0 where
  pub card : KanbanCard
  pub lo : Option Rank
  pub rank : Rank

unfoldable pub place : Intent → KanbanCard → Service Place
place i c = do
  bounds ← move_bounds i.dest.id c i.before_id i.after_id
  rank ← or_hang (rank_between bounds.0 bounds.1)
  pure (record { card = c; lo = bounds.0; rank = rank })

unfoldable pub choose_place : Intent → KanbanCard → Service Place
choose_place i c = do
  p ← place i c
  if ltb rank_len_max (length p.rank)
      then (do rebalance i.dest.id; found ← gets (get_card_row c.id); place i (or_card c found))
      else pure p

abbrev pub intent : KanbanColumn → Option ℕ → Option ℕ → String → Intent
intent dest before_id after_id audit_actor = record {
  dest = dest;
  before_id = before_id;
  after_id = after_id;
  audit_actor = audit_actor;
}

-- `_move`
unfoldable pub move : Env → KanbanCard → ℕ → Option ℕ → Option ℕ → ℕ → String → Service KanbanCard
move env c to_column_id before_id after_id expected_version audit_actor = do
  raise_if (not (c.version == expected_version)) conflict
  dest ← column_of_board c.board_id to_column_id
  blocked ← gets (is_blocked c)
  raise_if (dest.is_done && blocked) conflict
  p ← choose_place (intent dest before_id after_id audit_actor) c
  attempts env (intent dest before_id after_id audit_actor) p.card move_retries p.lo p.rank

unfoldable pub move_card : Env → User → ℕ → ℕ → Option ℕ → Option ℕ → ℕ → Service KanbanCard
move_card env user card_id to_column_id before_id after_id expected_version = do
  c ← get_card user card_id
  done ← move env c to_column_id before_id after_id expected_version user.email
  notify_assignee env done state_change (user_ref user.id)
  pure done
