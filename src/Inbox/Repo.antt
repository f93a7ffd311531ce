-- ===== src/Inbox/Repo.antt =====
-- hub/app/repositories/notification_repo.py, and the user look-ups of user_repo.py.
use ampla.Shared.{
  ℕ, String, Bool, false, ◌&&◌, not, ◌==◌, eq_nat, eq_string, eq_int, Option, none, some, List, [],
  ◌∷◌, ◌++◌, map, select, find_row, update_rows, length, ltb, leb,
}
use ampla.Models.{
  User, UserId, Time, Notification, NotificationSubscription, SubscriptionState, Reason, inbox,
  done, status_eq,
}
use ampla.Hub.{Db, Env}
use ampla.Hub.Exec.{Service, ok, unexpected, pure, raise, gets, ◌>>=◌}

-- UserRepository.get_by_id
abbrev pub get_user : UserId → Db → Option User
get_user user_id db = find_row (λ (u : User). u.id == user_id) db.users

-- The thread of a user and a subject.
abbrev pub of_subject : UserId → String → Notification → Bool
of_subject user_id key n = n.user_id == user_id && n.subject_key == key

-- `scalar_one_or_none` raises when there are two rows.
abbrev pub one_or_none : List Notification → Service (Option Notification)
one_or_none [] = pure none
one_or_none (n ∷ []) = pure (some n)
one_or_none (n ∷ m ∷ ns) = raise unexpected

unfoldable pub get_by_subject : UserId → String → Service (Option Notification)
get_by_subject user_id key = do
  rows ← gets (λ db. select (of_subject user_id key) db.notifications)
  one_or_none rows

unfoldable pub add : Notification → Service Notification
add n db = (ok n, record db { notifications = db.notifications ++ n ∷ [] })

-- Writes the row of that key.
unfoldable pub save : Notification → Service Unit
save n db = (
  ok tt,
  record db {
    notifications = update_rows (λ (m : Notification). m.id == n.id) (λ _. n) db.notifications;
  },
)

abbrev pub get : ℕ → Db → Option Notification
get notification_id db = find_row (λ (n : Notification). n.id == notification_id) db.notifications

unfoldable pub count_created_since : UserId → Time → Db → ℕ
count_created_since user_id since db =
    length (
      select (λ (n : Notification). n.user_id == user_id && leb since n.created_at)
        db.notifications)

-- The badge: unread and still in the inbox.
unfoldable pub unread_count : UserId → Db → ℕ
unread_count user_id db = length (
    select (λ (n : Notification). n.user_id == user_id && (n.unread && status_eq n.status inbox))
      db.notifications)

abbrev pub is_stale : Time → Notification → Bool
is_stale cutoff n = status_eq n.status done && ltb n.updated_at cutoff

unfoldable pub prune_done_before : Time → Service ℕ
prune_done_before cutoff db = (
  ok (length (select (is_stale cutoff) db.notifications)),
  record db { notifications = select (λ n. not (is_stale cutoff n)) db.notifications },
)

unfoldable pub mark_all_read : Env → UserId → Service Unit
mark_all_read env user_id db = (
  ok tt,
  record db {
    notifications =
        update_rows (λ (n : Notification). n.user_id == user_id && n.unread)
          (λ n. record n { unread = false; last_read_at = some env.now }) db.notifications;
  },
)

abbrev pub sub_of_subject : UserId → String → NotificationSubscription → Bool
sub_of_subject user_id key s = s.user_id == user_id && s.subject_key == key

-- The pair (user_id, subject_key) is a unique index.
abbrev pub get_subscription : UserId → String → Db → Option NotificationSubscription
get_subscription user_id key db = find_row (sub_of_subject user_id key) db.subscriptions

abbrev reason_or : Option Reason → Option Reason → Option Reason
reason_or none old = old
reason_or (some r) old = some r

unfoldable pub upsert_subscription :
    Env → UserId → String → SubscriptionState → Option Reason → Service Unit
upsert_subscription env user_id key state reason db = elim (get_subscription user_id key db) [
  | none ↦ (
    ok tt,
    record db {
      subscriptions =
          db.subscriptions
          ++ record {
            id = env.new_id (map (λ (s : NotificationSubscription). s.id) db.subscriptions);
            user_id = user_id;
            subject_key = key;
            state = state;
            reason = reason;
            created_at = env.now;
          }
            ∷ [];
    },
  )
  | some sub ↦ (
    ok tt,
    record db {
      subscriptions =
          update_rows (sub_of_subject user_id key)
            (λ s. record s { state = state; reason = reason_or reason s.reason }) db.subscriptions;
    },
  )
]
