-- ===== src/Examples.antt =====
-- A small hub for the runs: a member with a private board, another member with an agent, cards with a
-- dependency, and a notification.
pub mod RankRuns
pub mod KanbanRuns
pub mod InboxRuns
pub mod MessageRuns
pub mod ApprovalRuns
pub mod DelegationRuns
pub mod AuthRuns
pub mod QueryRuns
pub mod RateLimitRuns
pub mod ScheduleRuns
pub mod AgentRuns
pub mod SocketRuns
pub mod ServeRuns
pub mod RaceRuns
use ampla.Shared.{
  ℕ, suc, ◌+◌, ◌<◌, ◌≢◌, pos, String, Bool, true, false, Option, none, some, List, [], ◌∷◌, arith,
  All,
}
use ampla.Models.{
  User, Agent, inbox_only, KanbanBoard, KanbanColumn, KanbanCard, KanbanCardDep, Notification, Role,
  NotifyLevel, private, editor, mention, done, participating, Status,
}
use ampla.Hub.{Db, Env}

abbrev sum : List ℕ → ℕ
sum [] = 0
sum (x ∷ xs) = x + sum xs

-- A key above all the keys in use.
abbrev pub env : Env
env = record {
  now = 1_000_000_000_000_000;
  new_id = λ used. suc (sum used);
  notification_max_new_per_hour = 2;
  message_max_body_bytes = 65_536;
  pending_ttl_days = 7;
  has_publisher = true;
  kanban_notifies = true;
  reads_expired = false;
}

above-All : (used : List ℕ) (n : ℕ) → sum used < n → All (λ i. i ≢ n) used
above-All [] n h = tt
above-All (x ∷ xs) n h = (omega arith, above-All xs n (omega arith))

pub env-FreshIds : (used : List ℕ) → All (λ i. i ≢ env.new_id used) used
env-FreshIds used = above-All used (suc (sum used)) (omega arith)

abbrev pub ana : User
ana = record {
  id = pos 1;
  email = "ana@example.org";
  name = "Ana";
  password_hash = "";
  role = Role.member;
  notify_level = NotifyLevel.mute;
  failed_logins = 0;
  locked_until = none;
}

abbrev pub rui : User
rui = record {
  id = pos 2;
  email = "rui@example.org";
  name = "Rui";
  password_hash = "";
  role = Role.member;
  notify_level = NotifyLevel.all;
  failed_logins = 0;
  locked_until = none;
}

abbrev pub bot : Agent
bot = record {
  slug = "bot";
  user_id = pos 2;
  display_name = "Bot";
  created_at = 10;
  mode = inbox_only;
  allowed_senders = none;
  max_auto_per_hour = 10;
  auto_timeout_secs = 120;
  instructions = "";
  allow_write = false;
  block_hidden_files = true;
  block_sensitive_paths = true;
  confine_to_dir = true;
  denied_paths = [];
  trusted_senders = [];
  auto_paused = false;
  max_auto_tokens_per_day = none;
  max_auto_cost_usd_per_day = none;
  require_approval = false;
  auto_schedule = none;
  escalate_on = [];
}

abbrev pub board : KanbanBoard
board = record {
  id = 1;
  owner_id = pos 1;
  name = "Plano";
  visibility = private;
  default_agent_role = editor;
  auto_card_on_delegation = false;
  auto_card_on_escalation = false;
  created_at = 10;
}

abbrev pub doing : KanbanColumn
doing = record {
  id = 10;
  board_id = 1;
  name = "Fazendo";
  rank = 31 ∷ [];
  wip_limit = none;
  is_landing = true;
  is_done = false;
}

abbrev pub finished : KanbanColumn
finished = record {
  id = 11;
  board_id = 1;
  name = "Concluído";
  rank = 46 ∷ [];
  wip_limit = some 2;
  is_landing = false;
  is_done = true;
}

abbrev pub card : ℕ → ℕ → ℕ → KanbanCard
card id column_id digit = record {
  id = id;
  board_id = 1;
  column_id = column_id;
  rank = digit ∷ [];
  title = "Card";
  body = "";
  created_by = "user:1";
  assignee = some "bot";
  priority = "normal";
  origin = none;
  version = 1;
  depends_on = [];
  created_at = 20;
  updated_at = 20;
}

abbrev pub dep : KanbanCardDep
dep = record { id = 5; card_id = 100; depends_on_id = 101 }

abbrev pub notice : Notification
notice = record {
  id = 7;
  user_id = pos 1;
  subject_type = "kanban_card";
  subject_key = "kanban:card:100";
  agent_slug = none;
  reason = participating;
  title = "";
  link = "";
  actor = "user:2";
  unread = false;
  status = Status.done;
  created_at = 20;
  updated_at = 20;
  last_read_at = none;
}

abbrev pub hub : Db
hub = record {
  users = ana ∷ rui ∷ [];
  agents = bot ∷ [];
  boards = board ∷ [];
  columns = doing ∷ finished ∷ [];
  cards = card 100 10 31 ∷ card 101 10 46 ∷ card 102 11 31 ∷ [];
  comments = [];
  grants = [];
  members = [];
  deps = dep ∷ [];
  notifications = notice ∷ [];
  subscriptions = [];
  messages = [];
  delegations = [];
  approvals = [];
  invites = [];
  resets = [];
  avatars = [];
  keys = [];
  groups = [];
  group_members = [];
  presets = [];
  runs = [];
  schedules = [];
  auto_responder_enabled = some true;
  audit = [];
  published = [];
}
