-- ===== src/Auth/Lockout.antt =====
-- The login against an independent account of it, and its lockout
-- (hub/app/services/auth_service.py, `login`).
use ampla.Shared.{
  int_eq_refl, suc, ◌+◌, ◌-◌, ◌*◌, ◌^◌, min, arith, Option, leb, leb→le, leb-false, ltb→lt, ◌≤◌,
  ◌<◌, ◌≡◌, ◌⊎◌, inl, inr, refl, String, Bool, true, false, eq_string, eq_int, none, some,
  Bool-cases, Option-cases, find_row-passes, find_row-update_rows, le→leb, lt→ltb,
}
use ampla.Models.{User, Time}
use ampla.Hub.{Db, Env, second}
use ampla.Hub.Exec.{Result, ok, err, hung, auth_failed, account_locked, audit}
use ampla.Auth.Security.{Primitives, AuthSettings, verify_password}
use ampla.Auth.Repo.{get_by_email, save_user, with_id, with_email}
use ampla.Auth.Login.{is_locked, lock_secs, refused, unlocked, log_in, login}

-- The account of an address, and whether its password is the one given.
abbrev pub Account : Primitives → String → String → Bool → User → Db → Type 0
Account p email password right u db =
    (get_by_email (p.to_lower email) db ≡ some u)
    × (verify_password p password u.password_hash ≡ right)

-- A lockout that is not over, or none.
abbrev pub Locked : Env → Option Time → Type 0
Locked env none = ⊥
Locked env (some until) = env.now < until

-- The same account but for its counters.
abbrev SameAccount : User → User → Type 0
SameAccount u v = record v { failed_logins = u.failed_logins; locked_until = u.locked_until } ≡ u

-- One more failed attempt; from the maximum on, it locks for the base time, doubled with each attempt
-- beyond, and for an hour at most.
abbrev pub Failed : AuthSettings → Env → User → User → Type 0
Failed s env u v =
    SameAccount u v
    × (v.failed_logins ≡ suc u.failed_logins)
    × (((v.failed_logins < s.login_max_attempts) × (v.locked_until ≡ u.locked_until))
        ⊎ ((s.login_max_attempts ≤ v.failed_logins)
            × (v.locked_until
                ≡ some (
                    env.now
                    + min (s.login_lockout_base_secs * 2 ^ (v.failed_logins - s.login_max_attempts))
                        3600
                      * 1_000_000))))

abbrev pub Cleared : User → User → Type 0
Cleared u v = SameAccount u v × (v.failed_logins ≡ 0) × (v.locked_until ≡ none)

-- What a login answers, and what it leaves of the account.
abbrev pub Answered :
    Primitives → AuthSettings → Env → String → String → Db → Result (User × String) × Db → Type 0
Answered p s env email password db (ok (v, token), after) =
    (u : User) × Account p email password true u db
    × ¬ (Locked env u.locked_until)
    × Cleared u v
    × (get_by_email (p.to_lower email) after ≡ some v)
Answered p s env email password db (err auth_failed, after) =
    ((get_by_email (p.to_lower email) db ≡ none) × (after.users ≡ db.users))
    ⊎ ((u : User) × Account p email password false u db
        × ¬ (Locked env u.locked_until)
        × ((v : User) × (get_by_email (p.to_lower email) after ≡ some v) × Failed s env u v))
Answered p s env email password db (err account_locked, after) =
    (u : User) × (get_by_email (p.to_lower email) db ≡ some u)
    × Locked env u.locked_until
    × (after.users ≡ db.users)
Answered p s env email password db (err e, after) = ⊥
Answered p s env email password db (hung, after) = ⊥

is_locked-Locked : (env : Env) (until : Option Time) → is_locked env until ≡ true → Locked env until
is_locked-Locked env none e = let out : ⊥ = ground (arith, e) in elim out [ ]
is_locked-Locked env (some t) e = ltb→lt env.now t e

is_locked-open :
    (env : Env) (until : Option Time) → is_locked env until ≡ false → ¬ (Locked env until)
is_locked-open env none e h = h
is_locked-open env (some t) e h = let l = lt→ltb env.now t h in ground (arith, l, e)

refused-Failed : (s : AuthSettings) (env : Env) (u : User) → Failed s env u (refused s env u)
unfolding lock_secs
refused-Failed s env u = elim (Bool-cases (leb s.login_max_attempts (u.failed_logins + 1))) [
  | inl e ↦
      rw e (refl, omega arith, inr (leb→le s.login_max_attempts (u.failed_logins + 1) e, refl))
  | inr e ↦
      rw e (refl, omega arith, inl (leb-false s.login_max_attempts (u.failed_logins + 1) e, refl))
]

-- A user saved under its own id and address is found by the address.
pub saved :
    (email : String) (u new : User) (db : Db)
    → get_by_email email db ≡ some u
    → new.id ≡ u.id
    → new.email ≡ u.email
    → get_by_email email (save_user new db).1 ≡ some new
unfolding save_user
saved email u new db h i e =
    find_row-update_rows (with_email email) (with_id new.id) u new db.users h
      (rw i (int_eq_refl u.id)) (rw e (find_row-passes (with_email email) u db.users h))

log_in-Answered :
    (p : Primitives) (s : AuthSettings) (env : Env) (email password : String) (u : User) (db : Db)
    → get_by_email (p.to_lower email) db ≡ some u
    → Answered p s env email password db (log_in p s env email password (some u) db)
unfolding audit save_user
log_in-Answered p s env email password u db h = elim (Bool-cases (is_locked env u.locked_until)) [
  | inl l ↦ rw l (u, h, is_locked-Locked env u.locked_until l, refl)
  | inr l ↦ elim (Bool-cases (verify_password p password u.password_hash)) [
    | inl v ↦
        rw (l, v)
          (
            u,
            (h, v),
            is_locked-open env u.locked_until l,
            (refl, refl, refl),
            saved (p.to_lower email) u (unlocked u) db h refl refl,
          )
    | inr v ↦
        rw (l, v)
          (inr (
            u,
            (h, v),
            is_locked-open env u.locked_until l,
            (
              refused s env u,
              saved (p.to_lower email) u (refused s env u) db h refl refl,
              refused-Failed s env u,
            ),
          ))
  ]
]

-- A login succeeds exactly as an account with the address that is not locked and has the password
-- given, and resets its counters; a wrong password counts one failed attempt, which from the maximum
-- on locks the account for the base time, doubled with each further attempt and an hour at most; an
-- unknown address and a locked account change no user.
pub login-Answered :
    (p : Primitives) (s : AuthSettings) (env : Env) (email password : String) (db : Db)
    → Answered p s env email password db (login p s env email password db)
unfolding login audit
login-Answered p s env email password db =
    elim (Option-cases (get_by_email (p.to_lower email) db)) [
      | inl h ↦ rw h (inl (h, refl))
      | inr (u, h) ↦ rw h (log_in-Answered p s env email password u db h)
    ]

-- The attempt after so many failures locks the account: until the lockout of that length is over, a
-- login raises AccountLockedError whatever the password, and changes no user.
login-locks :
    (p : Primitives) (s : AuthSettings) (env later : Env) (email password guess : String) (db : Db)
    (u : User)
    → Account p email password false u db
    → is_locked env u.locked_until ≡ false
    → s.login_max_attempts ≤ u.failed_logins + 1
    → later.now < env.now + lock_secs s (u.failed_logins + 1) * second
    → ((login p s later email guess (login p s env email password db).1).0 ≡ err account_locked)
      × ((login p s later email guess (login p s env email password db).1).1.users
          ≡ (login p s env email password db).1.users)
unfolding login audit save_user
login-locks p s env later email password guess db u (h, v) l many before =
    rw (h, l, v, saved (p.to_lower email) u (refused s env u) db h refl refl)
      (rw
        (
          le→leb s.login_max_attempts (u.failed_logins + 1) many,
          lt→ltb later.now (env.now + lock_secs s (u.failed_logins + 1) * second) before,
        )
        (refl, refl))
