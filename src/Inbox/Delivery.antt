-- ===== src/Inbox/Delivery.antt =====
-- What `notify` delivers and what it holds back (hub/app/services/notification_service.py).
use native.Mathlib.Nat.{le_refl}
use text.Mathlib.Text.{◌==◌ as str_eq}
use text.Mathlib.TextEquality.{eq_iff as str_eq_iff}
use ampla.Shared.{
  not, ℕ, ◌≤◌, ◌≡◌, refl, inl, inr, String, Bool, true, false, ◌&&◌, Option, none, some, List, [],
  ◌∷◌, ◌++◌, ◌==◌, eq_nat, nat_eq_iff, ap, ◌∙◌, In, update_rows, arith, int_eq_iff, int_eq,
  Bool-cases, if◌then◌else◌, leb,
}
use ampla.Models.{UserId, NotifyLevel, Notification, Reason, Status, done, status_eq, inbox, saved}
use ampla.Hub.{Db, Env}
use ampla.Hub.Exec.{Result, ok, err, hung, pure, resume, ◌>>=◌}
use ampla.Inbox.Gate.{priority, high_signal, always_deliver, should_deliver}
use ampla.Inbox.Repo.{get_user, of_subject, get_by_subject, add, save, upsert_subscription}
use ampla.Inbox.Notify.{
  Event, level_of, reopened, publish, collapsed, created, pass_subscription, is_capped, open_thread,
  collapse, deliver, notify,
}
use ampla.Inbox.Subjects.{OneThread, OnSubject, get_by_subject-OnSubject}

-- The event reached the user: the call returned a thread of that user on that subject, unread and
-- not done, whose reason is at least as relevant as the event's and whose text and actor are the
-- event's; the thread is stored as such, and pushed where there is a publisher.
abbrev pub Delivered : Env → UserId → Event → Db → Result (Option Notification) × Db → Type 0
Delivered env user_id e before (ok (some n), db) =
    (of_subject user_id e.subject_key n ≡ true)
    × (n.unread ≡ true)
    × (status_eq n.status done ≡ false)
    × (priority e.reason ≤ priority n.reason)
    × ((n.title ≡ e.title) × (n.link ≡ e.link) × (n.actor ≡ e.actor))
    × In n db.notifications
    × (db.published ≡ (if env.has_publisher then before.published ++ n ∷ [] else before.published))
Delivered env user_id e before _ = ⊥

In-last : {A : Type 0} (x : A) (xs : List A) → In x (xs ++ x ∷ [])
In-last x [] = inl refl
In-last x (y ∷ ys) = inr (In-last x ys)

-- The row that is overwritten was there.
In-update_rows :
    {A : Type 0} (p : A → Bool) (x new : A) (xs : List A)
    → In x xs
    → p x ≡ true
    → In new (update_rows p (λ _. new) xs)
In-update_rows p x new [] i h = elim i [ ]
In-update_rows p x new (y ∷ ys) (inl same) h = rw (same, h) (inl refl)
In-update_rows p x new (y ∷ ys) (inr i) h = inr (In-update_rows p x new ys i h)

passes :
    (level : NotifyLevel) (r : Reason) → always_deliver r ≡ true → should_deliver level r ≡ true
unfolding should_deliver
passes level r h = ground arith

resurfaces : (r : Reason) → always_deliver r ≡ true → high_signal r ≡ true
resurfaces r h = ground arith

of_subject-created :
    (user_id : UserId) (key : String) → (int_eq user_id user_id && str_eq key key) ≡ true
of_subject-created user_id key =
    ground (arith, (int_eq_iff user_id user_id).1 refl, (str_eq_iff key key).1 refl)

reason-rises :
    (r s : Reason) → priority r ≤ priority (if leb (priority s) (priority r) then r else s)
reason-rises r s = elim (Bool-cases (leb (priority s) (priority r))) [
  | inl up ↦ rw up (le_refl (priority r))
  | inr down ↦ rw down (lower (priority s) (priority r) down)
]
  where
    lower : (a b : ℕ) → leb a b ≡ false → b ≤ a
    lower a b h = ground arith

reopened-awake : (s : Status) → status_eq (reopened s) done ≡ false
reopened-awake inbox = refl
reopened-awake saved = refl
reopened-awake done = refl

collapse-Delivered :
    (env : Env) (user_id : UserId) (e : Event) (n : Notification) (db : Db)
    → of_subject user_id e.subject_key n ≡ true
    → In n db.notifications
    → (status_eq n.status done && not (high_signal e.reason)) ≡ false
    → Delivered env user_id e db (collapse env e n db)
unfolding collapse publish save
collapse-Delivered env user_id e n db on there awake =
    let stored =
      In-update_rows (λ (m : Notification). m.id == n.id) n (collapsed env e n) db.notifications
        there ((nat_eq_iff n.id n.id).1 refl) in
    elim (Bool-cases env.has_publisher) [
      | inl pushes ↦
          rw (awake, pushes)
            (
              on,
              refl,
              reopened-awake n.status,
              reason-rises e.reason n.reason,
              (refl, refl, refl),
              stored,
              refl,
            )
      | inr silent ↦
          rw (awake, silent)
            (
              on,
              refl,
              reopened-awake n.status,
              reason-rises e.reason n.reason,
              (refl, refl, refl),
              stored,
              refl,
            )
    ]

open_thread-Delivered :
    (env : Env) (user_id : UserId) (e : Event) (db : Db)
    → is_capped env user_id e db ≡ false
    → Delivered env user_id e db (open_thread env user_id e db)
unfolding open_thread publish add
open_thread-Delivered env user_id e db room =
    let on = of_subject-created user_id e.subject_key in
    let stored = In-last (created env user_id e db) db.notifications in
    elim (Bool-cases env.has_publisher) [
      | inl pushes ↦
          rw (room, pushes)
            (on, refl, refl, le_refl (priority e.reason), (refl, refl, refl), stored, refl)
      | inr silent ↦
          rw (room, silent)
            (on, refl, refl, le_refl (priority e.reason), (refl, refl, refl), stored, refl)
    ]

-- The fine gate lets the event through, and touches no notification and no push.
abbrev Passed : Db → Result Bool × Db → Type 0
Passed db (ok true, db') = (db'.notifications ≡ db.notifications) × (db'.published ≡ db.published)
Passed db _ = ⊥

pass_subscription-Passed :
    (env : Env) (user_id : UserId) (e : Event) (db : Db)
    → always_deliver e.reason ≡ true
    → Passed db (pass_subscription env user_id e db)
unfolding pass_subscription upsert_subscription
pass_subscription-Passed env user_id e db always = ground arith

deliver-Delivered :
    (env : Env) (user_id : UserId) (e : Event) (o : Option Notification) (db : Db)
    → always_deliver e.reason ≡ true
    → OnSubject user_id e.subject_key db o
    → Delivered env user_id e db (deliver env user_id e o db)
deliver-Delivered env user_id e none db always on =
    open_thread-Delivered env user_id e db (rw always)
deliver-Delivered env user_id e (some n) db always on =
    collapse-Delivered env user_id e n db on.0 on.1 (ground (arith, resurfaces e.reason always))

Delivered-from :
    (env : Env) (user_id : UserId) (e : Event) (db db' : Db) (r : Result (Option Notification) × Db)
    → db'.published ≡ db.published
    → Delivered env user_id e db' r
    → Delivered env user_id e db r
Delivered-from env user_id e db db' (ok (some n), after) h (a, b, c, p, t, i, q) =
    (a, b, c, p, t, i, q ∙ ap (λ l. if env.has_publisher then l ++ n ∷ [] else l) h)
Delivered-from env user_id e db db' (ok none, after) h d = d
Delivered-from env user_id e db db' (err x, after) h d = d
Delivered-from env user_id e db db' (hung, after) h d = d

after_gates :
    (env : Env) (user_id : UserId) (e : Event) (db db' : Db)
    → always_deliver e.reason ≡ true
    → OneThread user_id e.subject_key db
    → db'.notifications ≡ db.notifications
    → db'.published ≡ db.published
    → Delivered env user_id e db
        ((do existing ← get_by_subject user_id e.subject_key; deliver env user_id e existing) db')
after_gates env user_id e db db' always one same pushed =
    let (o, found, on) = get_by_subject-OnSubject user_id e.subject_key db' (rw same one) in
    rw found (
      Delivered-from env user_id e db db' (deliver env user_id e o db') pushed
        (deliver-Delivered env user_id e o db' always on))

gates :
    (env : Env) (user_id : UserId) (e : Event) (db : Db) (r : Result Bool × Db)
    → always_deliver e.reason ≡ true
    → OneThread user_id e.subject_key db
    → Passed db r
    → Delivered env user_id e db (
        resume r (λ goes_on.
          if goes_on
          then (do existing ← get_by_subject user_id e.subject_key; deliver env user_id e existing)
          else pure none))
gates env user_id e db (ok true, db') always one p =
    after_gates env user_id e db db' always one p.0 p.1
gates env user_id e db (ok false, db') always one p = elim p [ ]
gates env user_id e db (err x, db') always one p = elim p [ ]
gates env user_id e db (hung, db') always one p = elim p [ ]

-- A mention, an approval request and a security alert reach the user whatever the user's level, a
-- muted thread, the rate cap or a thread already done: with one thread at most on the subject, the
-- call returns an unread thread of that user and subject that is not done, with the event's title,
-- link and actor, and a reason at least as relevant as the event's; the thread is stored as it was
-- returned and, where there is a publisher, pushed once and last.
pub notify-Delivered :
    (env : Env) (user_id : UserId) (e : Event) (db : Db)
    → always_deliver e.reason ≡ true
    → OneThread user_id e.subject_key db
    → Delivered env user_id e db (notify env user_id e db)
unfolding notify
notify-Delivered env user_id e db always one =
    rw (passes (level_of (get_user user_id db)) e.reason always) (
      gates env user_id e db (pass_subscription env user_id e db) always one
        (pass_subscription-Passed env user_id e db always))
