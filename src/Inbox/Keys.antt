-- ===== src/Inbox/Keys.antt =====
-- The keys of notification rows, and what the writes of hub/app/services/notification_service.py keep
-- of them.
use text.Mathlib.Text.{◌==◌ as str_eq}
use text.Mathlib.TextEquality.{eq_iff as str_eq_iff}
use ampla.Shared.{
  ℕ, ◌≡◌, ◌≢◌, refl, sym, ap, ◌⊎◌, inl, inr, String, Bool, true, false, ◌&&◌, List, [], ◌∷◌, ◌++◌,
  map, arith, select, update_rows, int_eq, int_eq_iff, All, Bool-cases, nat_eq, nat_eq_iff,
}
use ampla.Models.{UserId, Notification}
use ampla.Hub.{Db, Env}
use ampla.Inbox.Repo.{of_subject}

-- What identifies a row.
pub record ThreadKey : Type 0 where
  pub id : ℕ
  pub user_id : UserId
  pub subject_key : String

abbrev pub key : Notification → ThreadKey
key n = record { id = n.id; user_id = n.user_id; subject_key = n.subject_key }

abbrev about : ThreadKey → ThreadKey → Bool
about k l = int_eq l.user_id k.user_id && str_eq l.subject_key k.subject_key

-- Neither the same row nor the same thread.
abbrev pub Apart : ThreadKey → ThreadKey → Type 0
Apart k l = (k.id ≢ l.id) × (about k l ≡ false)

abbrev pub Distinct : List ThreadKey → Type 0
Distinct [] = Unit
Distinct (k ∷ ks) = All (Apart k) ks × Distinct ks

-- No two notifications have one id, and no two of one user have one subject.
abbrev pub IsThreaded : Db → Type 0
IsThreaded db = Distinct (map key db.notifications)

-- The database gives a new row a key that no row of the table has.
abbrev pub FreshIds : Env → Type 0
FreshIds env = (used : List ℕ) → All (λ i. i ≢ env.new_id used) used

about_symm : (k l : ThreadKey) → about k l ≡ false → about l k ≡ false
about_symm k l h = ground (
  arith,
  int_eq_iff l.user_id k.user_id,
  int_eq_iff k.user_id l.user_id,
  str_eq_iff l.subject_key k.subject_key,
  str_eq_iff k.subject_key l.subject_key,
)

Apart-snoc :
    (k l : ThreadKey) (ks : List ThreadKey)
    → All (Apart k) ks
    → Apart k l
    → All (Apart k) (ks ++ l ∷ [])
Apart-snoc k l [] h a = (a, tt)
Apart-snoc k l (m ∷ ks) h a = (h.0, Apart-snoc k l ks h.1 a)

pub Distinct-snoc :
    (l : ThreadKey) (ks : List ThreadKey)
    → Distinct ks
    → All (λ k. Apart k l) ks
    → Distinct (ks ++ l ∷ [])
Distinct-snoc l [] d a = (tt, tt)
Distinct-snoc l (k ∷ ks) d a = (Apart-snoc k l ks d.0 a.0, Distinct-snoc l ks d.1 a.1)

-- A new thread is apart from every row when the look-up of its subject found none.
pub created-Apart :
    (n : Notification) (rows : List Notification)
    → All (λ i. i ≢ n.id) (map (λ (m : Notification). m.id) rows)
    → select (of_subject n.user_id n.subject_key) rows ≡ []
    → All (λ k. Apart k (key n)) (map key rows)
created-Apart n [] fresh none_found = tt
created-Apart n (m ∷ rows) fresh none_found =
    elim (Bool-cases (of_subject n.user_id n.subject_key m)) [
      | inl found ↦ absurd (cons_ne found none_found)
      | inr other ↦ (
        (fresh.0, about_symm (key n) (key m) other),
        created-Apart n rows fresh.1 (rw other at none_found),
      )
    ]
  where
    cons_ne :
        of_subject n.user_id n.subject_key m ≡ true
        → select (of_subject n.user_id n.subject_key) (m ∷ rows) ≡ []
        → ⊥
    cons_ne found e = ground arith

-- The row is in the table.
abbrev In : Notification → List Notification → Type 0
In n [] = ⊥
In n (m ∷ rows) = (n ≡ m) ⊎ In n rows

pub select-In :
    (p : Notification → Bool) (n : Notification) (ns rows : List Notification)
    → select p rows ≡ n ∷ ns
    → In n rows
select-In p n ns [] e = cc
select-In p n ns (m ∷ rows) e = elim (Bool-cases (p m)) [
  | inl passes ↦ inl (head-eq (rw passes at e))
  | inr fails ↦ inr (select-In p n ns rows (rw fails at e))
]
  where
    head-eq : m ∷ select p rows ≡ n ∷ ns → n ≡ m
    head-eq e = cc

-- Rows of one id have one key.
abbrev Determined : Notification → Notification → Type 0
Determined n m = nat_eq m.id n.id ≡ true → key n ≡ key m

Determined-Apart :
    (n : Notification) (rows : List Notification)
    → All (Apart (key n)) (map key rows)
    → All (Determined n) rows
Determined-Apart n [] a = tt
Determined-Apart n (m ∷ rows) a =
    (λ same. absurd (a.0.0 (sym ((nat_eq_iff m.id n.id).0 same))), Determined-Apart n rows a.1)

In-Apart :
    (n m : Notification) (rows : List Notification)
    → In n rows
    → All (Apart (key m)) (map key rows)
    → m.id ≢ n.id
In-Apart n m [] i a = elim i [ ]
In-Apart n m (r ∷ rows) (inl e) a = λ same. a.0.0 (cc)
In-Apart n m (r ∷ rows) (inr i) a = In-Apart n m rows i a.1

pub In-Determined :
    (n : Notification) (rows : List Notification)
    → In n rows
    → Distinct (map key rows)
    → All (Determined n) rows
In-Determined n [] i d = tt
In-Determined n (m ∷ rows) (inl e) d = (λ _. ap key e, Determined-Apart n rows (rw (← e) at d.0))
In-Determined n (m ∷ rows) (inr i) d = (
  λ same. absurd (In-Apart n m rows i d.0 ((nat_eq_iff m.id n.id).0 same)),
  In-Determined n rows i d.1,
)

-- Writing a row under its id keeps the keys of the table.
pub keys-update :
    (n n' : Notification) (rows : List Notification)
    → key n' ≡ key n
    → All (Determined n) rows
    → map key (update_rows (λ (m : Notification). nat_eq m.id n.id) (λ _. n') rows) ≡ map key rows
keys-update n n' [] e d = refl
keys-update n n' (m ∷ rows) e d = elim (Bool-cases (nat_eq m.id n.id)) [
  | inl same ↦ rw same (cc (e, d.0 same, keys-update n n' rows e d.1))
  | inr other ↦ rw other (cc (keys-update n n' rows e d.1))
]
