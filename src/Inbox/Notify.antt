-- ===== src/Inbox/Notify.antt =====
-- NotificationService.notify (hub/app/services/notification_service.py).
use ampla.Shared.{
  ◌-◌, ◌*◌, String, Bool, true, false, ◌&&◌, not, Option, none, some, [], ◌∷◌, ◌++◌, map, leb,
  nat_eq, if◌then◌else◌,
}
use ampla.Models.{
  User, UserId, NotifyLevel, Notification, NotificationSubscription, SubscriptionState, Reason,
  Status, inbox, done, status_eq,
}
use ampla.Hub.{Db, Env, second}
use ampla.Hub.Exec.{Service, pure, gets, modify, ◌>>=◌, ◌>>◌}
use ampla.Inbox.Gate.{priority, high_signal, always_deliver, should_deliver}
use ampla.Inbox.Repo.{
  get_user, get_by_subject, add, save, count_created_since, get_subscription, upsert_subscription,
}

-- The arguments of `notify` behind the user.
pub record Event : Type 0 where
  pub subject_type : String
  pub subject_key : String
  pub reason : Reason
  pub title : String
  pub link : String
  pub actor : String
  pub agent_slug : Option String

-- A missing user falls back to the default policy.
abbrev pub level_of : Option User → NotifyLevel
level_of none = NotifyLevel.mentions_and_direct
level_of (some u) = u.notify_level

-- `_rate_capped`: 0 is unlimited.
unfoldable pub rate_capped : Env → UserId → Db → Bool
rate_capped env user_id db =
    if nat_eq env.notification_max_new_per_hour 0
    then false
    else leb env.notification_max_new_per_hour
        (count_created_since user_id (env.now - 3600 * second) db)

-- `_publish`
unfoldable pub publish : Env → Notification → Service Unit
publish env n =
    if env.has_publisher
    then modify (λ db. record db { published = db.published ++ n ∷ [] })
    else pure tt

abbrev pub created : Env → UserId → Event → Db → Notification
created env user_id e db = record {
  id = env.new_id (map (λ (n : Notification). n.id) db.notifications);
  user_id = user_id;
  subject_type = e.subject_type;
  subject_key = e.subject_key;
  agent_slug = e.agent_slug;
  reason = e.reason;
  title = e.title;
  link = e.link;
  actor = e.actor;
  unread = true;
  status = inbox;
  created_at = env.now;
  updated_at = env.now;
  last_read_at = none;
}

abbrev slug_or : Option String → Option String → Option String
slug_or none old = old
slug_or (some s) old = some s

abbrev pub reopened : Status → Status
reopened done = inbox
reopened s = s

-- The existing thread after one more event.
abbrev pub collapsed : Env → Event → Notification → Notification
collapsed env e n = record n {
  title = e.title;
  actor = e.actor;
  link = e.link;
  agent_slug = slug_or e.agent_slug n.agent_slug;
  reason = if leb (priority n.reason) (priority e.reason) then e.reason else n.reason;
  unread = true;
  status = reopened n.status;
  updated_at = env.now;
}

-- The fine gate: `true` when the event goes on. An always-deliver reason re-subscribes the thread.
abbrev pub past_state : Env → UserId → Event → SubscriptionState → Service Bool
past_state env user_id e SubscriptionState.ignored =
    if always_deliver e.reason
    then (do
      upsert_subscription env user_id e.subject_key SubscriptionState.following (some e.reason)
      pure true)
    else pure false
past_state env user_id e _ = pure true

abbrev pub past_subscription : Env → UserId → Event → Option NotificationSubscription → Service Bool
past_subscription env user_id e none = pure true
past_subscription env user_id e (some sub) = past_state env user_id e sub.state

unfoldable pub pass_subscription : Env → UserId → Event → Service Bool
pass_subscription env user_id e = do
  subscription ← gets (get_subscription user_id e.subject_key)
  past_subscription env user_id e subscription

-- The coarse gate.
abbrev pub delivers : UserId → Event → Db → Bool
delivers user_id e db = should_deliver (level_of (get_user user_id db)) e.reason

abbrev pub is_capped : Env → UserId → Event → Db → Bool
is_capped env user_id e db = not (always_deliver e.reason) && rate_capped env user_id db

-- A new thread, within the rate cap.
unfoldable pub open_thread : Env → UserId → Event → Service (Option Notification)
open_thread env user_id e = do
  capped ← gets (is_capped env user_id e)
  if capped
      then pure none
      else do row ← gets (created env user_id e); n ← add row; publish env n; pure (some n)

-- One more event on a thread; low-signal activity does not resurface a done one.
unfoldable pub collapse : Env → Event → Notification → Service (Option Notification)
collapse env e n = if status_eq n.status done && not (high_signal e.reason) then pure none else do
  save (collapsed env e n)
  publish env (collapsed env e n)
  pure (some (collapsed env e n))

abbrev pub deliver : Env → UserId → Event → Option Notification → Service (Option Notification)
deliver env user_id e none = open_thread env user_id e
deliver env user_id e (some n) = collapse env e n

unfoldable pub notify : Env → UserId → Event → Service (Option Notification)
notify env user_id e = do
  wanted ← gets (delivers user_id e)
  if wanted
      then (do
        goes_on ← pass_subscription env user_id e
        if goes_on
            then (do
              existing ← get_by_subject user_id e.subject_key
              deliver env user_id e existing)
            else pure none)
      else pure none
