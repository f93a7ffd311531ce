-- ===== src/Inbox/Subjects.antt =====
-- The thread of a user on a subject (hub/app/repositories/notification_repo.py, `get_by_subject`).
use ampla.Shared.{
  ◌≤◌, ◌≡◌, refl, inl, String, true, Option, none, some, List, [], ◌∷◌, eq_nat, In, In-select,
  arith, length, select, All,
}
use ampla.Models.{UserId, Notification}
use ampla.Hub.{Db}
use ampla.Hub.Exec.{ok}
use ampla.Inbox.Repo.{of_subject, one_or_none, get_by_subject}

-- The user has one thread at most on the subject.
abbrev pub OneThread : UserId → String → Db → Type 0
OneThread user_id key db = length (select (of_subject user_id key) db.notifications) ≤ 1

-- What the query answers: a stored thread of the user on the subject, if there is one.
abbrev pub OnSubject : UserId → String → Db → Option Notification → Type 0
OnSubject user_id key db none = Unit
OnSubject user_id key db (some n) = (of_subject user_id key n ≡ true) × In n db.notifications

abbrev Rows : UserId → String → List Notification → Type 0
Rows user_id key rows = All (λ n. of_subject user_id key n ≡ true) rows

select-Rows :
    (user_id : UserId) (key : String) (rows : List Notification)
    → Rows user_id key (select (of_subject user_id key) rows)
select-Rows user_id key [] = tt
select-Rows user_id key (n ∷ rows) = ground (arith, select-Rows user_id key rows)

one_or_none-OnSubject :
    (user_id : UserId) (key : String) (rows : List Notification) (db : Db)
    → length rows ≤ 1
    → Rows user_id key rows
    → ((n : Notification) → In n rows → In n db.notifications)
    → (o : Option Notification) × (one_or_none rows db ≡ (ok o, db)) × OnSubject user_id key db o
one_or_none-OnSubject user_id key [] db h r i = (none, refl, tt)
one_or_none-OnSubject user_id key (n ∷ []) db h r i = (some n, refl, (r.0, i n (inl refl)))
one_or_none-OnSubject user_id key (n ∷ m ∷ ns) db h r i = absurd (omega arith)

pub get_by_subject-OnSubject :
    (user_id : UserId) (key : String) (db : Db)
    → OneThread user_id key db
    → (o : Option Notification) × (get_by_subject user_id key db ≡ (ok o, db))
      × OnSubject user_id key db o
unfolding get_by_subject
get_by_subject-OnSubject user_id key db one =
    one_or_none-OnSubject user_id key (select (of_subject user_id key) db.notifications) db one
      (select-Rows user_id key db.notifications)
      (λ n h. ((In-select (of_subject user_id key) n db.notifications).0 h).0)
