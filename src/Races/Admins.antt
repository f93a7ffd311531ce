-- ===== src/Races/Admins.antt =====
-- Two changes of roles that overlap (hub/app/services/auth_service.py, `set_role`).
use ampla.Shared.{
  ◌≡◌, refl, ap, inl, inr, true, false, not, ◌==◌, eq_int, some, arith, Bool-cases, Option-cases,
  if◌then◌else◌, find_row, int_eq_iff, update_rows, find_row-away, List,
}
use ampla.Models.{User, UserId, Role, admin, member, is_admin}
use ampla.Hub.{Db}
use ampla.Hub.Exec.{
  Service, ok, pure, gets, raise_if, or_raise, audit, ◌>>=◌, ◌>>◌, not_found, conflict,
  permission_denied,
}
use ampla.Auth.Repo.{with_id, count_admins, get_by_id, save_user}
use ampla.Auth.Users.{role_eq, orphans, set_role}
use ampla.Auth.Rows.{
  DistinctUsers, bit, admins, admins-update_rows, other_key, DistinctUsers-update_rows,
}
use ampla.Races.{Phases, in_turn, race}

abbrev assigned : User → User → Role → Service User
assigned actor target role = do
  save_user (record target { role = role })
  audit "role_changed" actor.email
  pure (record target { role = role })

abbrev guarded : User → User → Role → Phases User
guarded actor target role = do
  last ← gets (orphans role target)
  raise_if last conflict
  pure (assigned actor target role)

-- The reads and checks of `set_role`, and its writes.
unfoldable pub set_role_phases : User → UserId → Role → Phases User
set_role_phases actor target_id role = do
  raise_if (not (is_admin actor.role)) permission_denied
  found ← gets (get_by_id target_id)
  target ← or_raise found not_found
  if role_eq target.role role then pure (pure target) else guarded actor target role

-- One after the other, the phases are the call.
set_role-in_turn :
    (actor : User) (target_id : UserId) (role : Role) (db : Db)
    → in_turn (set_role_phases actor target_id role) db ≡ set_role actor target_id role db
unfolding set_role_phases set_role
set_role-in_turn actor target_id role db = elim (Bool-cases (is_admin actor.role)) [
  | inr a ↦ rw a refl
  | inl a ↦ elim (Option-cases (get_by_id target_id db)) [
    | inl h ↦ rw (a, h) refl
    | inr (u, h) ↦ elim (Bool-cases (role_eq u.role role)) [
      | inl e ↦ rw (a, h, e) refl
      | inr e ↦ elim (Bool-cases (orphans role u db)) [
        | inl o ↦ rw (a, h, e, o) refl
        | inr o ↦ rw (a, h, e, o) refl
      ]
    ]
  ]
]

-- Where the check of the last administrator passes, the first phase only reads.
reads :
    (actor target : User) (db : Db)
    → is_admin actor.role ≡ true
    → get_by_id target.id db ≡ some target
    → target.role ≡ admin
    → count_admins db ≡ 2
    → set_role_phases actor target.id member db ≡ (ok (assigned actor target member), db)
unfolding set_role_phases
reads actor target db a h r two = rw (a, h) (rw (r, two) refl)

abbrev demoted : User → User
demoted u = record u { role = member }

apart_key :
    (i j : UserId) → (i == j) ≡ false → (u : User) → with_id j u ≡ true → with_id i u ≡ false
apart_key i j d u e = rw ((int_eq_iff u.id j).0 e) (other_key i j d)

-- What `race` leaves of the users where both pass.
none_left :
    (a b : User) (users : List User)
    → DistinctUsers users
    → (a.id == b.id) ≡ false
    → find_row (with_id a.id) users ≡ some a
    → find_row (with_id b.id) users ≡ some b
    → a.role ≡ admin
    → b.role ≡ admin
    → admins users ≡ 2
    → admins (
        update_rows
          (with_id a.id)
          (λ _. demoted a)
          (update_rows (with_id b.id) (λ _. demoted b) users))
      ≡ 0
none_left a b users d apart ha hb ra rb two =
    let first = admins-update_rows b.id b (demoted b) users d hb in
    let still =
      find_row-away (with_id a.id) (with_id b.id) a (demoted b) users (apart_key a.id b.id apart)
        (other_key a.id b.id apart) ha in
    let second =
      admins-update_rows a.id a (demoted a) (update_rows (with_id b.id) (λ _. demoted b) users)
        (DistinctUsers-update_rows (demoted b) users d) still in
    omega (arith, first, second, two, ap (λ r. bit (is_admin r)) ra, ap (λ r. bit (is_admin r)) rb)

abbrev pub InTurn : Type 0
InTurn =
    (actor : User) (target_id : UserId) (role : Role) (db : Db)
    → in_turn (set_role_phases actor target_id role) db ≡ set_role actor target_id role db

abbrev pub NoneLeft : User → User → Db → Type 0
NoneLeft a b db =
    (after : Db) × (race (set_role_phases a b.id member) (set_role_phases b a.id member) db
      ≡ (ok (demoted b), ok (demoted a), after))
    × (count_admins after ≡ 0)

-- Two administrators who are the only ones, and who demote each other in calls that overlap, both
-- succeed, and no administrator is left: the check for the last administrator counts both in the
-- first phases. (Phases that run one after the other are the call itself.)
pub race-set_role :
    (a b : User) (db : Db)
    → DistinctUsers db.users
    → (a.id == b.id) ≡ false
    → get_by_id a.id db ≡ some a
    → get_by_id b.id db ≡ some b
    → a.role ≡ admin
    → b.role ≡ admin
    → count_admins db ≡ 2
    → InTurn × NoneLeft a b db
unfolding save_user audit
race-set_role a b db d apart ha hb ra rb two = (
  set_role-in_turn,
  (
    (assigned b a member (assigned a b member db).1).1,
    rw (reads a b db (rw ra refl) hb rb two, reads b a db (rw rb refl) ha ra two) refl,
    none_left a b db.users d apart ha hb ra rb two,
  ),
)
