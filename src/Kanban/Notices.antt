-- ===== src/Kanban/Notices.antt =====
-- The Inbox integration of the boards (hub/app/services/kanban_service.py).
use Prim.Native.String.{◌++◌ as append}
use text.Mathlib.Text.{starts_with}
use ampla.Shared.{
  ℕ, zero, suc, String, Bool, true, false, ◌||◌, not, ◌==◌, eq_int, Option, none, some, List, [],
  ◌∷◌, any, if◌then◌else◌, option_beq,
}
use ampla.Text.{is_empty, show, show_int, parse_int}
use ampla.Mentions.{parse_mentions}
use ampla.Models.{
  UserId, Agent, KanbanBoard, KanbanCard, Reason, mention, participating, task_assigned,
}
use ampla.Hub.{Db, Env}
use ampla.Hub.Exec.{Service, pure, gets, when, for_each, ◌>>=◌, ◌>>◌}
use ampla.Inbox.Notify.{Event, notify}
use ampla.Kanban.Tables.{get_board}
use ampla.Kanban.Access.{get_agent}

-- f"user:{user.id}"
unfoldable pub user_ref : UserId → String
unfolding show_int
user_ref id = append "user:" (show_int id)

-- `identity[5:]`
abbrev pub drop_chars : ℕ → String → String
drop_chars zero s = s
drop_chars (suc n) String.[] = String.[]
drop_chars (suc n) (String.◌∷◌ c s) = drop_chars n s

abbrev owner_of : Option Agent → Option UserId
owner_of none = none
owner_of (some a) = some a.user_id

abbrev pub resolve_identity : String → Db → Option UserId
resolve_identity identity db =
    if is_empty identity
    then none
    else if starts_with identity "user:"
    then parse_int (drop_chars 5 identity)
    else owner_of (get_agent identity db)

unfoldable pub resolve_user_id : Option String → Db → Option UserId
resolve_user_id none db = none
resolve_user_id (some identity) db = resolve_identity identity db

card_link : KanbanCard → String
unfolding show
card_link c = append "/?board=" (append (show c.board_id) (append "&card=" (show c.id)))

card_key : KanbanCard → String
unfolding show
card_key c = append "kanban:card:" (show c.id)

unfoldable pub card_event : KanbanCard → Reason → String → String → Event
unfolding card_link card_key
card_event c reason title actor = record {
  subject_type = "kanban_card";
  subject_key = card_key c;
  reason = reason;
  title = title;
  link = card_link c;
  actor = actor;
  agent_slug = none;
}

assigned_title : KanbanCard → Reason → String
assigned_title c task_assigned = append "Você foi atribuído ao card “" (append c.title "”")
assigned_title c _ = append "O card “" (append c.title "” foi movido")

abbrev pub has_assignee : Option String → Bool
has_assignee none = false
has_assignee (some a) = not (is_empty a)

-- The user to tell, unless nobody or the actor.
abbrev pub target_of : Option UserId → Option UserId → Option UserId
target_of none actor = none
target_of (some uid) actor = if option_beq (some uid) actor then none else some uid

abbrev pub tell : Env → Option UserId → Event → Service Unit
tell env none e = pure tt
tell env (some uid) e = do notify env uid e; pure tt

unfoldable pub notify_assignee : Env → KanbanCard → Reason → String → Service Unit
unfolding assigned_title
notify_assignee env c reason actor = when env.kanban_notifies (
    when (has_assignee c.assignee) (do
      target ←
          gets (λ db. target_of (resolve_user_id c.assignee db) (resolve_user_id (some actor) db))
      tell env target (card_event c reason (assigned_title c reason) actor)))

-- ---- comments ----

abbrev pub Targets : Type 0
Targets = List (UserId × Reason)

-- `targets[uid] = reason`
abbrev pub put : UserId → Reason → Targets → Targets
put uid reason [] = (uid, reason) ∷ []
put uid reason ((v, r) ∷ ts) = if v == uid then (v, reason) ∷ ts else (v, r) ∷ put uid reason ts

abbrev pub is_mention : Reason → Bool
is_mention mention = true
is_mention _ = false

-- `_add`: the first reason of a user stays, but a mention replaces it.
unfoldable pub add_target : Option UserId → Option UserId → Reason → Targets → Targets
add_target actor none reason targets = targets
add_target actor (some uid) reason targets =
    if option_beq (some uid) actor
    then targets
    else if not (any (λ t. t.0 == uid) targets) || is_mention reason
    then put uid reason targets
    else targets

abbrev pub board_owner : Option KanbanBoard → Option UserId
board_owner none = none
board_owner (some b) = some b.owner_id

abbrev pub add_mentions : Db → Option UserId → List String → Targets → Targets
add_mentions db actor [] targets = targets
add_mentions db actor (slug ∷ slugs) targets =
    add_mentions db actor slugs (add_target actor (resolve_user_id (some slug) db) mention targets)

unfoldable pub comment_targets : KanbanCard → String → String → Db → Targets
unfolding add_target
comment_targets c body actor db =
    let actor_uid = resolve_user_id (some actor) db in
    add_mentions db actor_uid (parse_mentions body) (
      add_target actor_uid (board_owner (get_board c.board_id db)) participating
        (add_target actor_uid (resolve_user_id c.assignee db) participating []))

unfoldable pub notify_comment : Env → KanbanCard → String → String → Service Unit
notify_comment env c body actor = when env.kanban_notifies (do
  targets ← gets (comment_targets c body actor)
  for_each
      (λ t.
        tell env (some t.0)
          (card_event c t.1 (append "Novo comentário no card “" (append c.title "”")) actor))
      targets)
