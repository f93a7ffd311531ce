-- ===== src/Auth/Steps.antt =====
-- Each call of the account service leaves an administrator (hub/app/services/auth_service.py).
use ampla.Shared.{
  ◌+◌, ◌<◌, ◌≡◌, inl, inr, refl, String, false, Option, none, some, arith, Bool-cases, Option-cases,
  leb-false,
}
use ampla.Models.{User, Invite, PasswordReset, UserId, Role, admin, member, is_admin}
use ampla.Hub.{Db, Env}
use ampla.Hub.Exec.{audit}
use ampla.Inbox.Keys.{FreshIds}
use ampla.Auth.Security.{Primitives, AuthSettings, verify_password}
use ampla.Auth.Repo.{
  with_id, with_email, admin_row, count_admins, get_by_id, get_by_email, save_user, add_user,
  save_reset, invalidate_resets_for, save_invite, add_invite, add_reset,
}
use ampla.Auth.Accounts.{setup_admin, needs_setup, join, new_user, is_taken, create_invite}
use ampla.Auth.Login.{login, is_locked, refused, unlocked}
use ampla.Auth.Users.{
  set_role, orphans, role_eq, issue_password_reset, complete_reset, with_password, update_profile,
  change_password,
}
use ampla.Auth.Rows.{Governed, bit}
use ampla.Auth.Governed.{found_by_key, save_user-Governed, assign-Governed, add_user-Governed}
use ampla.Auth.Calls.{rename, change}

module _ (p : Primitives) (s : AuthSettings) where
  pub login-Governed :
      (env : Env) (email password : String) (db : Db)
      → Governed db
      → Governed (login p s env email password db).1
  unfolding login audit save_user
  login-Governed env email password db g =
      elim (Option-cases (get_by_email (p.to_lower email) db)) [
        | inl h ↦ rw h g
        | inr (u, h) ↦
            let here = found_by_key (with_email (p.to_lower email)) u db.users g.0 h in
            elim (Bool-cases (is_locked env u.locked_until)) [
              | inl l ↦ rw (h, l) g
              | inr l ↦ elim (Bool-cases (verify_password p password u.password_hash)) [
                | inl v ↦ rw (h, l, v) (save_user-Governed u (unlocked u) db g here refl)
                | inr v ↦ rw (h, l, v) (save_user-Governed u (refused s env u) db g here refl)
              ]
            ]
      ]

  pub setup_admin-Governed :
      (env : Env) (email name password : String) (db : Db)
      → FreshIds env
      → Governed db
      → Governed (setup_admin p s env email name password db).1
  unfolding setup_admin audit add_user
  setup_admin-Governed env email name password db fresh g = elim (Bool-cases (needs_setup db)) [
    | inr n ↦ rw n g
    | inl n ↦
        rw n (add_user-Governed env (new_user p env email name password admin db) db fresh g refl)
  ]

  pub join-Governed :
      (env : Env) (email name password : String) (i : Option Invite) (db : Db)
      → FreshIds env
      → Governed db
      → Governed (join p s env email name password i db).1
  unfolding audit add_user save_invite
  join-Governed env email name password none db fresh g = g
  join-Governed env email name password (some i) db fresh g =
      elim (Bool-cases (is_taken (get_by_email (p.to_lower email) db))) [
        | inl t ↦ rw t g
        | inr t ↦
            rw t
              (add_user-Governed env (new_user p env email name password member db) db fresh g refl)
      ]

  pub create_invite-Governed :
      (env : Env) (actor : User) (db : Db)
      → Governed db
      → Governed (create_invite p s env actor db).1
  unfolding create_invite audit add_invite
  create_invite-Governed env actor db g = elim (Bool-cases (is_admin actor.role)) [
    | inl a ↦ rw a g
    | inr a ↦ rw a g
  ]

  pub issue_password_reset-Governed :
      (env : Env) (actor : User) (target_id : UserId) (db : Db)
      → Governed db
      → Governed (issue_password_reset p s env actor target_id db).1
  unfolding issue_password_reset audit add_reset invalidate_resets_for
  issue_password_reset-Governed env actor target_id db g = elim (Bool-cases (is_admin actor.role)) [
    | inr a ↦ rw a g
    | inl a ↦ elim (Option-cases (get_by_id target_id db)) [
      | inl h ↦ rw (a, h) g
      | inr (u, h) ↦ rw (a, h) g
    ]
  ]

  pub complete_reset-Governed :
      (env : Env) (new : String) (r : Option PasswordReset) (db : Db)
      → Governed db
      → Governed (complete_reset p env new r db).1
  unfolding audit save_user save_reset invalidate_resets_for
  complete_reset-Governed env new none db g = g
  complete_reset-Governed env new (some r) db g = elim (Option-cases (get_by_id r.user_id db)) [
    | inl h ↦ rw h g
    | inr (u, h) ↦ rw h (
        save_user-Governed u (with_password p new u) db g
          (found_by_key (with_id r.user_id) u db.users g.0 h) refl)
  ]

  pub rename-Governed :
      (user_id : UserId) (name : String) (db : Db)
      → Governed db
      → Governed (rename (get_by_id user_id db) name db)
  unfolding update_profile audit save_user
  rename-Governed user_id name db g = elim (Option-cases (get_by_id user_id db)) [
    | inl h ↦ rw h g
    | inr (u, h) ↦ rw h (
        save_user-Governed u (record u { name = name }) db g
          (found_by_key (with_id user_id) u db.users g.0 h) refl)
  ]

  pub change_password-Governed :
      (u : User) (current new : String) (db : Db)
      → Governed db
      → get_by_id u.id db ≡ some u
      → Governed (change_password p u current new db).1
  unfolding change_password audit save_user
  change_password-Governed u current new db g h =
      elim (Bool-cases (verify_password p current u.password_hash)) [
        | inr v ↦ rw v g
        | inl v ↦ rw v (save_user-Governed u (with_password p new u) db g h refl)
      ]

  pub change-Governed :
      (user_id : UserId) (current new : String) (db : Db)
      → Governed db
      → Governed (change p (get_by_id user_id db) current new db)
  change-Governed user_id current new db g = elim (Option-cases (get_by_id user_id db)) [
    | inl h ↦ rw h g
    | inr (u, h) ↦ rw h (
        change_password-Governed u current new db g
          (found_by_key (with_id user_id) u db.users g.0 h))
  ]

-- A change of role that is not refused leaves an administrator.
kept_one :
    (role : Role) (target : User) (db : Db)
    → Governed db
    → orphans role target db ≡ false
    → bit (admin_row target) < count_admins db + bit (is_admin role)
kept_one role target db g o = elim (Bool-cases (is_admin target.role)) [
  | inr t ↦ rw t (omega (arith, g.1))
  | inl t ↦ elim (Bool-cases (is_admin role)) [
    | inl r ↦ rw (r, t) (omega (arith, g.1))
    | inr r ↦ rw (r, t) (omega (arith, leb-false (count_admins db) 1 (rw (r, t) at o)))
  ]
]

pub set_role-Governed :
    (actor : User) (target_id : UserId) (role : Role) (db : Db)
    → Governed db
    → Governed (set_role actor target_id role db).1
unfolding set_role audit save_user
set_role-Governed actor target_id role db g = elim (Bool-cases (is_admin actor.role)) [
  | inr a ↦ rw a g
  | inl a ↦ elim (Option-cases (get_by_id target_id db)) [
    | inl h ↦ rw (a, h) g
    | inr (u, h) ↦ elim (Bool-cases (role_eq u.role role)) [
      | inl e ↦ rw (a, h, e) g
      | inr e ↦ elim (Bool-cases (orphans role u db)) [
        | inl o ↦ rw (a, h, e, o) g
        | inr o ↦
            rw (a, h, e, o)
              (assign-Governed u (record u { role = role }) db g
                (found_by_key (with_id target_id) u db.users g.0 h) (kept_one role u db g o))
      ]
    ]
  ]
]
