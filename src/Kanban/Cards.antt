-- ===== src/Kanban/Cards.antt =====
-- hub/app/repositories/kanban_repo.py: cards, comments and dependencies.
use ampla.Shared.{
  ℕ, ◌+◌, ◌/◌, ◌%◌, Bool, true, false, ◌&&◌, ◌||◌, not, ◌==◌, eq_nat, Option, none, some, List, [],
  ◌∷◌, ◌++◌, map, select, find_row, update_rows, order_by, first, any, length, ltb, leb, nat_eq,
  if◌then◌else◌,
}
use ampla.Models.{KanbanCard, KanbanCardComment, KanbanCardDep, Origin}
use ampla.Rank.{Rank}
use ampla.Rank.Order.{rank_lt}
use ampla.Hub.{Db, Env}
use ampla.Hub.Exec.{Service, ok, err, unexpected}

-- ---- cards ----

abbrev pub rank_eq : Rank → Rank → Bool
rank_eq [] [] = true
rank_eq (x ∷ xs) (y ∷ ys) = nat_eq x y && rank_eq xs ys
rank_eq _ _ = false

abbrev pub new_card_id : Env → Db → ℕ
new_card_id env db = env.new_id (map (λ (c : KanbanCard). c.id) db.cards)

-- The unique index on (column_id, rank): another card holds the place.
abbrev pub taken : ℕ → ℕ → Rank → KanbanCard → Bool
taken card_id column_id rank c =
    not (c.id == card_id) && (c.column_id == column_id && rank_eq c.rank rank)

unfoldable pub add_card : KanbanCard → Service KanbanCard
add_card c db =
    if any (taken c.id c.column_id c.rank) db.cards
    then (err unexpected, db)
    else (ok c, record db { cards = db.cards ++ c ∷ [] })

abbrev pub get_card_row : ℕ → Db → Option KanbanCard
get_card_row card_id db = find_row (λ (c : KanbanCard). c.id == card_id) db.cards

-- The kind and the id of an origin, as `json_extract` finds them.
abbrev same_origin : Origin → Option Origin → Bool
same_origin (Origin.message m) (some (Origin.message n)) = nat_eq m n
same_origin (Origin.thread m) (some (Origin.thread n)) = nat_eq m n
same_origin (Origin.delegation m) (some (Origin.delegation n)) = nat_eq m n
same_origin _ _ = false

abbrev later_id : KanbanCard → KanbanCard → Bool
later_id a b = leb b.id a.id

unfoldable pub card_by_origin : Origin → Db → Option KanbanCard
card_by_origin origin db =
    first (order_by later_id (select (λ (c : KanbanCard). same_origin origin c.origin) db.cards))

abbrev pub rank_le : KanbanCard → KanbanCard → Bool
rank_le a b = not (rank_lt b.rank a.rank)

abbrev by_column : KanbanCard → KanbanCard → Bool
by_column a b = if nat_eq a.column_id b.column_id then rank_le a b else ltb a.column_id b.column_id

unfoldable pub list_cards : ℕ → Db → List KanbanCard
list_cards board_id db =
    order_by by_column (select (λ (c : KanbanCard). c.board_id == board_id) db.cards)

abbrev pub in_column : ℕ → KanbanCard → Bool
in_column column_id c = c.column_id == column_id

unfoldable pub list_cards_in_column : ℕ → Db → List KanbanCard
list_cards_in_column column_id db = order_by rank_le (select (in_column column_id) db.cards)

unfoldable pub count_cards_in_column : ℕ → Db → ℕ
count_cards_in_column column_id db = length (select (in_column column_id) db.cards)

abbrev pub rank_of : Option KanbanCard → Option Rank
rank_of none = none
rank_of (some c) = some c.rank

-- ORDER BY rank DESC LIMIT 1
unfoldable pub last_rank_in_column : ℕ → Db → Option Rank
last_rank_in_column column_id db =
    rank_of (first (order_by (λ a b. rank_le b a) (select (in_column column_id) db.cards)))

unfoldable pub save_card : KanbanCard → Service Unit
save_card c db =
    (ok tt, record db { cards = update_rows (λ (d : KanbanCard). d.id == c.id) (λ _. c) db.cards })

pub data MoveOutcome : Type 0 where
  moved : KanbanCard → MoveOutcome
  wip_full collision : MoveOutcome

abbrev pub at_limit : Option ℕ → ℕ → Bool
at_limit none count = false
at_limit (some limit) count = leb limit count

abbrev pub relocated : Env → KanbanCard → ℕ → Rank → KanbanCard
relocated env c to_column_id new_rank = record c {
  column_id = to_column_id;
  rank = new_rank;
  version = c.version + 1;
  updated_at = env.now;
}

unfoldable pub commit_move : Env → KanbanCard → ℕ → Rank → Option ℕ → Service MoveOutcome
commit_move env c to_column_id new_rank wip_limit db =
    if not (to_column_id == c.column_id)
      && at_limit wip_limit (count_cards_in_column to_column_id db)
    then (ok wip_full, db)
    else if any (taken c.id to_column_id new_rank) db.cards
    then (ok collision, db)
    else (
      ok (moved (relocated env c to_column_id new_rank)),
      record db {
        cards =
            update_rows (λ (d : KanbanCard). d.id == c.id)
              (λ _. relocated env c to_column_id new_rank) db.cards;
      },
    )

-- f"~{i:06d}" for i below a million
abbrev temp_rank : ℕ → Rank
temp_rank i =
    62
    ∷ i / 100_000 % 10
    ∷ i / 10_000 % 10
    ∷ i / 1_000 % 10
    ∷ i / 100 % 10
    ∷ i / 10 % 10
    ∷ i % 10
    ∷ []

abbrev pub set_rank : ℕ → (KanbanCard → KanbanCard) → List KanbanCard → List KanbanCard
set_rank card_id f rows = update_rows (λ (d : KanbanCard). d.id == card_id) f rows

-- The cards of the column in order, the first `length ranks` of which get the new ranks; the others
-- would keep the temporary one.
unfoldable pub respread : ℕ → List KanbanCard → List Rank → List KanbanCard → List KanbanCard
respread i [] ranks rows = rows
respread i (c ∷ cs) [] rows =
    respread (i + 1) cs [] (set_rank c.id (λ d. record d { rank = temp_rank i }) rows)
respread i (c ∷ cs) (r ∷ rs) rows =
    respread (i + 1) cs rs
      (set_rank c.id (λ d. record d { rank = r; version = d.version + 1 }) rows)

unfoldable pub rebalance_column : ℕ → List Rank → Service Unit
rebalance_column column_id new_ranks db =
    (ok tt, record db { cards = respread 0 (list_cards_in_column column_id db) new_ranks db.cards })

-- A dependency row names the card.
abbrev pub dep_names : ℕ → KanbanCardDep → Bool
dep_names card_id d = d.card_id == card_id || d.depends_on_id == card_id

-- As in `delete_board`, a dependency row that names the card makes the commit fail.
unfoldable pub delete_card_row : KanbanCard → Service Unit
delete_card_row c db = if any (dep_names c.id) db.deps then (err unexpected, db) else (
  ok tt,
  record db {
    comments = select (λ (k : KanbanCardComment). not (k.card_id == c.id)) db.comments;
    cards = select (λ (d : KanbanCard). not (d.id == c.id)) db.cards;
  },
)

-- ---- comments ----

abbrev pub new_comment_id : Env → Db → ℕ
new_comment_id env db = env.new_id (map (λ (k : KanbanCardComment). k.id) db.comments)

unfoldable pub add_comment_row : KanbanCardComment → Service KanbanCardComment
add_comment_row k db = (ok k, record db { comments = db.comments ++ k ∷ [] })

abbrev earlier : KanbanCardComment → KanbanCardComment → Bool
earlier a b =
    if nat_eq a.created_at b.created_at then leb a.id b.id else ltb a.created_at b.created_at

unfoldable pub list_comments_of : ℕ → Db → List KanbanCardComment
list_comments_of card_id db =
    order_by earlier (select (λ (k : KanbanCardComment). k.card_id == card_id) db.comments)

-- ---- dependencies ----

abbrev pub get_dep : ℕ → ℕ → Db → Option KanbanCardDep
get_dep card_id depends_on_id db =
    find_row (λ (d : KanbanCardDep). d.card_id == card_id && d.depends_on_id == depends_on_id)
      db.deps

abbrev pub new_dep_id : Env → Db → ℕ
new_dep_id env db = env.new_id (map (λ (d : KanbanCardDep). d.id) db.deps)

unfoldable pub add_dep : KanbanCardDep → Service Unit
add_dep d db = (ok tt, record db { deps = db.deps ++ d ∷ [] })

unfoldable pub remove_dep : KanbanCardDep → Service Unit
remove_dep d db =
    (ok tt, record db { deps = select (λ (e : KanbanCardDep). not (e.id == d.id)) db.deps })

unfoldable pub dep_ids_for_card : ℕ → Db → List ℕ
dep_ids_for_card card_id db =
    map (λ (d : KanbanCardDep). d.depends_on_id)
      (select (λ (d : KanbanCardDep). d.card_id == card_id) db.deps)

-- The edges from the cards of the board.
abbrev pub edge_of : KanbanCardDep → ℕ × ℕ
edge_of d = (d.card_id, d.depends_on_id)

unfoldable pub deps_for_board : ℕ → Db → List (ℕ × ℕ)
deps_for_board board_id db = map edge_of (
    select
      (λ (d : KanbanCardDep).
        any (λ (c : KanbanCard). c.id == d.card_id && c.board_id == board_id) db.cards)
      db.deps)
