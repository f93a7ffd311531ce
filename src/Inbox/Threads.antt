-- ===== src/Inbox/Threads.antt =====
-- Activity collapses onto one thread for a user and a subject, through every call of `notify`
-- (hub/app/services/notification_service.py).
use mathlib.Core.List.{map-append}
use text.Mathlib.TextEquality.{eq_iff as str_eq_iff}
use ampla.Shared.{
  ◌≤◌, ◌≡◌, refl, ap, inl, inr, String, Bool, true, false, ◌&&◌, none, List, [], ◌∷◌, ◌++◌, map,
  arith, length, select, update_rows, int_eq_iff, All, Bool-cases, if◌then◌else◌, nat_eq, not,
}
use ampla.Models.{UserId, Notification, done, status_eq}
use ampla.Hub.{Db, Env}
use ampla.Hub.Exec.{Result, ok, err, hung, pure, resume, ◌>>=◌}
use ampla.Inbox.Gate.{high_signal}
use ampla.Inbox.Repo.{of_subject, one_or_none, get_by_subject, add, save, upsert_subscription}
use ampla.Inbox.Notify.{
  Event, publish, collapsed, created, pass_subscription, delivers, is_capped, open_thread, collapse,
  deliver, notify,
}
use ampla.Inbox.Subjects.{OneThread}
use ampla.Inbox.Keys.{
  key, Apart, Distinct, IsThreaded, FreshIds, Distinct-snoc, created-Apart, select-In,
  In-Determined, keys-update, ThreadKey,
}

open_thread-IsThreaded :
    (env : Env) (user_id : UserId) (e : Event) (db : Db)
    → FreshIds env
    → select (of_subject user_id e.subject_key) db.notifications ≡ []
    → IsThreaded db
    → IsThreaded (open_thread env user_id e db).1
unfolding open_thread publish add
open_thread-IsThreaded env user_id e db fresh absent d =
    elim (Bool-cases (is_capped env user_id e db)) [
      | inl capped ↦ rw capped d
      | inr room ↦ elim (Bool-cases env.has_publisher) [
        | inl pushes ↦ rw (room, pushes) grown
        | inr silent ↦ rw (room, silent) grown
      ]
    ]
  where
    grown : Distinct (map key (db.notifications ++ created env user_id e db ∷ []))
    grown = rw map-append (
        Distinct-snoc (key (created env user_id e db)) (map key db.notifications) d
          (created-Apart (created env user_id e db) db.notifications (fresh _) absent))

collapse-IsThreaded :
    (env : Env) (user_id : UserId) (e : Event) (n : Notification) (db : Db)
    → select (of_subject user_id e.subject_key) db.notifications ≡ n ∷ []
    → IsThreaded db
    → IsThreaded (collapse env e n db).1
unfolding collapse publish save
collapse-IsThreaded env user_id e n db found d =
    elim (Bool-cases (status_eq n.status done && not (high_signal e.reason))) [
      | inl rests ↦ rw rests d
      | inr awake ↦ elim (Bool-cases env.has_publisher) [
        | inl pushes ↦ rw (awake, pushes) written
        | inr silent ↦ rw (awake, silent) written
      ]
    ]
  where
    written : Distinct (
        map key (
          update_rows
            (λ (m : Notification). nat_eq m.id n.id)
            (λ _. collapsed env e n)
            db.notifications))
    written =
        rw
          (keys-update n (collapsed env e n) db.notifications refl (
            In-Determined n db.notifications
              (select-In (of_subject user_id e.subject_key) n [] db.notifications found) d))
          d

looked_up-IsThreaded :
    (env : Env) (user_id : UserId) (e : Event) (rows : List Notification) (db : Db)
    → FreshIds env
    → select (of_subject user_id e.subject_key) db.notifications ≡ rows
    → IsThreaded db
    → IsThreaded (resume (one_or_none rows db) (deliver env user_id e)).1
looked_up-IsThreaded env user_id e [] db fresh found d =
    open_thread-IsThreaded env user_id e db fresh found d
looked_up-IsThreaded env user_id e (n ∷ []) db fresh found d =
    collapse-IsThreaded env user_id e n db found d
looked_up-IsThreaded env user_id e (n ∷ m ∷ ns) db fresh found d = d

passed-IsThreaded :
    (env : Env) (user_id : UserId) (e : Event) (r : Result Bool × Db)
    → FreshIds env
    → IsThreaded r.1
    → IsThreaded
        (resume r (λ goes_on.
          if goes_on
          then (do existing ← get_by_subject user_id e.subject_key; deliver env user_id e existing)
          else pure none)).1
unfolding get_by_subject
passed-IsThreaded env user_id e (ok true, db) fresh d =
    looked_up-IsThreaded env user_id e _ db fresh refl d
passed-IsThreaded env user_id e (ok false, db) fresh d = d
passed-IsThreaded env user_id e (err x, db) fresh d = d
passed-IsThreaded env user_id e (hung, db) fresh d = d

pub pass_subscription-notifications :
    (env : Env) (user_id : UserId) (e : Event) (db : Db)
    → (pass_subscription env user_id e db).1.notifications ≡ db.notifications
unfolding pass_subscription upsert_subscription
pass_subscription-notifications env user_id e db = ground arith

-- With a database that gives fresh keys, every call of `notify`, whatever its outcome, keeps one row
-- for an id and one thread at most for a user and a subject.
pub notify-IsThreaded :
    (env : Env) (user_id : UserId) (e : Event) (db : Db)
    → FreshIds env
    → IsThreaded db
    → IsThreaded (notify env user_id e db).1
unfolding notify
notify-IsThreaded env user_id e db fresh d = elim (Bool-cases (delivers user_id e db)) [
  | inl wanted ↦ rw wanted (
      passed-IsThreaded env user_id e (pass_subscription env user_id e db) fresh
        (rw (pass_subscription-notifications env user_id e db) d))
  | inr filtered ↦ rw filtered d
]

-- The hypothesis of the delivery theorem follows from the invariant.
none_after :
    (k : ThreadKey) (rows : List Notification)
    → All (Apart k) (map key rows)
    → select (of_subject k.user_id k.subject_key) rows ≡ []
none_after k [] a = refl
none_after k (m ∷ rows) a = rw a.0.1 (none_after k rows a.1)

pub IsThreaded-OneThread :
    (user_id : UserId) (subject : String) (db : Db) → IsThreaded db → OneThread user_id subject db
IsThreaded-OneThread user_id subject db d = at_most_one db.notifications d
  where
    at_most_one :
        (rows : List Notification)
        → Distinct (map key rows)
        → length (select (of_subject user_id subject) rows) ≤ 1
    at_most_one [] d = omega arith
    at_most_one (m ∷ rows) d = elim (Bool-cases (of_subject user_id subject m)) [
      | inl here ↦ rw here (omega (arith, ap length (same here (none_after (key m) rows d.0))))
      | inr other ↦ rw other (at_most_one rows d.1)
    ]
      where
        same :
            of_subject user_id subject m ≡ true
            → select (of_subject m.user_id m.subject_key) rows ≡ []
            → select (of_subject user_id subject) rows ≡ []
        same here e = ground (arith, int_eq_iff m.user_id user_id, str_eq_iff m.subject_key subject)
