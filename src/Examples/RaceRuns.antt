-- ===== src/Examples/RaceRuns.antt =====
-- The theorems on calls that overlap at the small hub.
use ampla.Shared.{refl, false, none, some, [], ◌∷◌}
use ampla.Models.{User, KanbanColumn, KanbanCard, Message, admin, response}
use ampla.Hub.{Db}
use ampla.Hub.Exec.{pure}
use ampla.Rank.{rank_between, rank_loop}
use ampla.Kanban.Access.{column_of_board}
use ampla.Kanban.Cards.{list_cards_in_column, MoveOutcome}
use ampla.Kanban.Move.{
  Intent, intent, place, move_bounds, optional_anchor, end_rank, is_blocked, choose_place,
}
use ampla.Approvals.{Sender}
use ampla.Races.{Phases, race}
use ampla.Races.Admins
use ampla.Races.Decisions
use ampla.Races.Moves
use ampla.Races.Places.{Relocation, OnePlaceEach, overlap-OnePlaceEach}
use ampla.Races.Slots.{commit_phases}
use ampla.Races.Steps.{race-Run}
use ampla.Examples.{env, hub, ana, rui, bot, doing, finished, card}
use ampla.Examples.ApprovalRuns.{draft, waiting_hub}

abbrev first_admin : User
first_admin = record ana { role = admin }

abbrev second_admin : User
second_admin = record rui { role = admin }

abbrev two_admins : Db
two_admins = record hub { users = first_admin ∷ second_admin ∷ [] }

race-set_role_example : Admins.InTurn × Admins.NoneLeft first_admin second_admin two_admins
race-set_role_example =
    Admins.race-set_role first_admin second_admin two_admins ((refl, tt), (tt, tt)) refl refl refl
      refl refl refl

abbrev review : KanbanColumn
review = record doing { id = 12; is_landing = false }

abbrev testing : KanbanColumn
testing = record doing { id = 13; is_landing = false }

abbrev wide_board : Db
wide_board = record hub { columns = doing ∷ finished ∷ review ∷ testing ∷ [] }

abbrev to_review : Intent
to_review = intent review none none "user:1"

abbrev to_testing : Intent
to_testing = intent testing none none "user:2"

abbrev wandering : KanbanCard
wandering = card 101 10 46

review-Passes : Moves.Passes wandering to_review none (31 ∷ []) wide_board
unfolding column_of_board choose_place place move_bounds optional_anchor end_rank rank_between
    rank_loop list_cards_in_column is_blocked
review-Passes = (refl, refl, refl, refl, refl, refl, refl)

testing-Passes : Moves.Passes wandering to_testing none (31 ∷ []) wide_board
unfolding column_of_board choose_place place move_bounds optional_anchor end_rank rank_between
    rank_loop list_cards_in_column is_blocked
testing-Passes = (refl, refl, refl, refl, refl, refl, refl)

race-move_example :
    Moves.InTurn × Moves.Overwritten env env wandering to_review to_testing (31 ∷ []) wide_board
race-move_example =
    Moves.race-move env env wandering to_review to_testing none none (31 ∷ []) (31 ∷ []) wide_board
      review-Passes testing-Passes

-- Both cards go for the same place.
abbrev relocation : KanbanCard → Relocation
relocation c = record {
  env = env;
  card = c;
  to_column_id = 11;
  new_rank = 46 ∷ [];
  wip_limit = some 2;
}

abbrev to_column : KanbanCard → Phases MoveOutcome
to_column c = commit_phases env c 11 (46 ∷ []) (some 2)

overlap-OnePlaceEach_example :
    OnePlaceEach (race (to_column (card 100 10 31)) (to_column (card 101 10 46)) hub).2
overlap-OnePlaceEach_example =
    overlap-OnePlaceEach (relocation (card 100 10 31) ∷ relocation (card 101 10 46) ∷ []) hub
      (race (to_column (card 100 10 31)) (to_column (card 101 10 46)) hub).2 _
      (refl, (refl, (refl, tt)))
      (race-Run (to_column (card 100 10 31)) (to_column (card 101 10 46)) hub)

abbrev answer : Message
answer = record {
  id = 1;
  from_agent = "bot";
  to_agent = "ana-agent";
  body = "feito";
  type = response;
  priority = "normal";
  group_slug = none;
  thread_id = some 1;
  in_reply_to = none;
  created_at = 50;
  delivered_at = none;
  expires_at = none;
}

abbrev posts : Sender
posts from_slug to_slug body in_reply_to db =
    pure answer (record db { messages = answer ∷ db.messages })

race-decide_example :
    Decisions.InTurn
    × Decisions.SentAndRejected posts env env rui second_admin draft none answer waiting_hub
race-decide_example =
    Decisions.race-decide posts env env rui second_admin draft none answer waiting_hub
      (record waiting_hub { messages = answer ∷ [] }) refl refl (bot, refl, refl) (bot, refl, refl)
      refl refl
