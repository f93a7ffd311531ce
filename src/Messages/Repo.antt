-- ===== src/Messages/Repo.antt =====
-- hub/app/repositories/message_repo.py, and what the messages need of delegation_repo.py and
-- agent_repo.py.
use ampla.Shared.{
  ℕ, String, Bool, true, false, ◌&&◌, ◌||◌, not, ◌==◌, eq_nat, eq_string, eq_int, Option, none,
  some, List, [], ◌∷◌, ◌++◌, map, select, find_row, update_rows, order_by, any, take, nat_eq, ltb,
  leb, if◌then◌else◌,
}
use ampla.Models.{UserId, Agent, Message, Delegation, DelegationStatus, open_}
use ampla.Hub.{Db, Env}
use ampla.Hub.Exec.{Service, ok}

abbrev pub new_message_id : Env → Db → ℕ
new_message_id env db = env.new_id (map (λ (m : Message). m.id) db.messages)

-- A root message starts its own thread.
abbrev pub root_thread : ℕ → Option ℕ → Option ℕ
root_thread id none = some id
root_thread id (some thread_id) = some thread_id

abbrev pub threaded : Message → Message
threaded m = record m { thread_id = root_thread m.id m.thread_id }

unfoldable pub add_message : Message → Service Message
add_message m db = (ok (threaded m), record db { messages = db.messages ++ threaded m ∷ [] })

abbrev pub get_message : ℕ → Db → Option Message
get_message message_id db = find_row (λ (m : Message). m.id == message_id) db.messages

unfoldable pub save_message : Message → Service Unit
save_message m db = (
  ok tt,
  record db { messages = update_rows (λ (n : Message). n.id == m.id) (λ _. m) db.messages },
)

-- ORDER BY created_at DESC, id DESC
abbrev pub newest : Message → Message → Bool
newest a b =
    if nat_eq a.created_at b.created_at then leb b.id a.id else ltb b.created_at a.created_at

abbrev pub oldest : Message → Message → Bool
oldest a b = newest b a

abbrev pub between_agents : String → String → Message → Bool
between_agents a b m = m.from_agent == a && m.to_agent == b || m.from_agent == b && m.to_agent == a

unfoldable pub conversation_of : String → String → ℕ → Db → List Message
conversation_of a b limit db =
    take limit (order_by newest (select (between_agents a b) db.messages))

abbrev expired : Env → Option ℕ → Bool
expired env none = false
expired env (some t) = not (ltb env.now t)

abbrev undelivered : Option ℕ → Bool
undelivered none = true
undelivered (some t) = false

abbrev pub is_pending : Env → String → Message → Bool
is_pending env slug m =
    m.to_agent == slug && (undelivered m.delivered_at && not (expired env m.expires_at))

unfoldable pub pending_of : Env → String → Db → List Message
pending_of env slug db = order_by oldest (select (is_pending env slug) db.messages)

-- With no ids nothing is run, which an UPDATE of no rows comes to.
unfoldable pub mark_rows_delivered : Env → List ℕ → Service Unit
mark_rows_delivered env ids db = (
  ok tt,
  record db {
    messages =
        update_rows (λ (m : Message). any (λ i. i == m.id) ids)
          (λ m. record m { delivered_at = some env.now }) db.messages;
  },
)

unfoldable pub involving : String → ℕ → Db → List Message
involving slug limit db = take limit (
    order_by newest
      (select (λ (m : Message). m.from_agent == slug || m.to_agent == slug) db.messages))

-- ---- delegations and agents ----

abbrev pub is_open : DelegationStatus → Bool
is_open open_ = true
is_open _ = false

abbrev is_root : ℕ → Option ℕ → Bool
is_root id none = false
is_root id (some root) = root == id

unfoldable pub find_open_for_reply : String → String → ℕ → Db → Option Delegation
find_open_for_reply delegator delegate root_message_id db =
    find_row
      (λ (d : Delegation).
        d.from_agent == delegator
        && (d.to_agent == delegate
            && (is_root root_message_id d.root_message_id && is_open d.status)))
      db.delegations

unfoldable pub save_delegation : Delegation → Service Unit
save_delegation d db = (
  ok tt,
  record db {
    delegations = update_rows (λ (e : Delegation). e.id == d.id) (λ _. d) db.delegations;
  },
)

-- AgentRepository.list_by_user
abbrev pub agents_of : UserId → Db → List Agent
agents_of user_id db = select (λ (a : Agent). a.user_id == user_id) db.agents
