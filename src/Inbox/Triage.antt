-- ===== src/Inbox/Triage.antt =====
-- Reading and triage of one user's inbox (hub/app/services/notification_service.py,
-- repositories/notification_repo.py).
use ampla.Shared.{
  ℕ, ◌-◌, ◌*◌, String, Bool, true, false, ◌&&◌, not, ◌==◌, eq_nat, eq_string, eq_int, Option, none,
  some, List, select, order_by, take, leb, nat_eq, ltb, min, max, if◌then◌else◌, option_beq,
  update_rows,
}
use ampla.Models.{
  User, UserId, NotifyLevel, Notification, SubscriptionState, Reason, Status, status_eq,
}
use ampla.Hub.{Db, Env, second}
use ampla.Hub.Exec.{
  Service, pure, gets, modify, raise, or_raise, ◌>>=◌, ◌>>◌, not_found, invalid_input,
}
use ampla.Inbox.Repo.{get, save, prune_done_before, upsert_subscription}
use ampla.Inbox.Gate.{reason_eq}

-- MAX_LIMIT
abbrev pub max_limit : ℕ
max_limit = 100

-- The filters of `list`; None leaves a field open.
pub record Filter : Type 0 where
  pub status : Option Status
  pub unread : Option Bool
  pub reason : Option Reason
  pub agent_slug : Option String
  pub actor : Option String
  pub subject_type : Option String

abbrev pub accepts {ℓ} : {A : Type ℓ} → (A → Bool) → Option A → Bool
accepts test none = true
accepts test (some a) = test a

abbrev bool_eq : Bool → Bool → Bool
bool_eq true b = b
bool_eq false b = not b

abbrev pub matches : Filter → Notification → Bool
matches f n =
    accepts (status_eq n.status) f.status
    && (accepts (bool_eq n.unread) f.unread
        && (accepts (reason_eq n.reason) f.reason
            && (accepts (λ s. option_beq n.agent_slug (some s)) f.agent_slug
                && (accepts (λ a. n.actor == a) f.actor
                    && accepts (λ t. n.subject_type == t) f.subject_type))))

-- ORDER BY updated_at DESC, id DESC
abbrev pub newer : Notification → Notification → Bool
newer m n =
    if nat_eq m.updated_at n.updated_at then leb n.id m.id else ltb n.updated_at m.updated_at

unfoldable pub list_for_user : UserId → Filter → ℕ → Db → List Notification
list_for_user user_id f limit db = take limit (
    order_by newer
      (select (λ (n : Notification). n.user_id == user_id && matches f n) db.notifications))

-- NotificationService.list
unfoldable pub list : User → Filter → ℕ → Service (List Notification)
list user f limit = gets (list_for_user user.id f (min (max limit 1) max_limit))

-- NotificationService.set_prefs: `users.save` writes the row of that user.
unfoldable pub set_prefs : User → NotifyLevel → Service NotifyLevel
set_prefs user NotifyLevel.unknown = raise invalid_input
set_prefs user level = do
  modify (λ db. record db {
    users =
        update_rows (λ (u : User). u.id == user.id) (λ _. record user { notify_level = level })
          db.users;
  })
  pure level

unfoldable pub set_subscription : Env → User → String → SubscriptionState → Service Unit
set_subscription env user key SubscriptionState.unknown = raise invalid_input
set_subscription env user key state = upsert_subscription env user.id key state none

-- timedelta(days=1), in microseconds
abbrev pub day : ℕ
day = 24 * 3600 * second

-- A limit of 0 days or less keeps everything.
unfoldable pub prune_done : Env → ℕ → Service ℕ
prune_done env ttl_days =
    if nat_eq ttl_days 0 then pure 0 else prune_done_before (env.now - ttl_days * day)

-- `_owned`: the id of another user's notification is not found.
abbrev pub owned_by : User → Option Notification → Option Notification
owned_by user none = none
owned_by user (some n) = if n.user_id == user.id then some n else none

unfoldable pub owned : User → ℕ → Service Notification
owned user notification_id = do
  found ← gets (get notification_id)
  or_raise (owned_by user found) not_found

abbrev pub with_unread : Env → Option Bool → Notification → Notification
with_unread env none n = n
with_unread env (some true) n = record n { unread = true }
with_unread env (some false) n = record n { unread = false; last_read_at = some env.now }

abbrev pub with_status : Option Status → Notification → Notification
with_status none n = n
with_status (some s) n = record n { status = s }

unfoldable pub triage : Env → User → ℕ → Option Bool → Option Status → Service Notification
triage env user notification_id unread status = do
  n ← owned user notification_id
  let n' = with_status status (with_unread env unread n)
  save n'
  pure n'
