-- ===== src/Auth/Login.antt =====
-- Login with its incremental lockout (hub/app/services/auth_service.py).
use ampla.Shared.{
  ℕ, ◌+◌, ◌-◌, ◌*◌, ◌^◌, min, String, Bool, false, not, Option, none, some, ltb, leb, if◌then◌else◌,
}
use ampla.Models.{User, UserId, Time}
use ampla.Hub.{Db, Env, second}
use ampla.Hub.Exec.{Service, pure, gets, raise, audit, ◌>>=◌, ◌>>◌, auth_failed, account_locked}
use ampla.Auth.Security.{Primitives, AuthSettings, verify_password, decode_jwt}
use ampla.Auth.Repo.{get_by_email, get_by_id, save_user}
use ampla.Auth.Accounts.{issue_token}

-- MAX_LOCKOUT_SECS
abbrev pub max_lockout_secs : ℕ
max_lockout_secs = 3600

-- `user.locked_until is not None and user.locked_until > utcnow()`
abbrev pub is_locked : Env → Option Time → Bool
is_locked env none = false
is_locked env (some t) = ltb env.now t

-- The length of the lockout after so many failed attempts.
unfoldable pub lock_secs : AuthSettings → ℕ → ℕ
lock_secs s failed =
    min (s.login_lockout_base_secs * 2 ^ (failed - s.login_max_attempts)) max_lockout_secs

-- The user after one more failed attempt.
abbrev pub refused : AuthSettings → Env → User → User
refused s env u = record u {
  failed_logins = u.failed_logins + 1;
  locked_until =
      if leb s.login_max_attempts (u.failed_logins + 1)
      then some (env.now + lock_secs s (u.failed_logins + 1) * second)
      else u.locked_until;
}

abbrev pub unlocked : User → User
unlocked u = record u { failed_logins = 0; locked_until = none }

abbrev pub refuse : AuthSettings → Env → User → Service (User × String)
refuse s env u = do save_user (refused s env u); audit "login_fail" u.email; raise auth_failed

abbrev pub accept : Primitives → AuthSettings → Env → User → Service (User × String)
accept p s env u = do
  save_user (unlocked u)
  audit "login_ok" u.email
  pure (unlocked u, issue_token p s env (unlocked u))

abbrev pub locked_out : User → Service (User × String)
locked_out u = do audit "login_locked" u.email; raise account_locked

-- The check against the constant hash has no effect on the state.
abbrev pub log_in :
    Primitives → AuthSettings → Env → String → String → Option User → Service (User × String)
log_in p s env email password none = do audit "login_fail" (p.to_lower email); raise auth_failed
log_in p s env email password (some u) =
    if is_locked env u.locked_until
    then locked_out u
    else if not (verify_password p password u.password_hash)
    then refuse s env u
    else accept p s env u

unfoldable pub login : Primitives → AuthSettings → Env → String → String → Service (User × String)
login p s env email password = do
  found ← gets (get_by_email (p.to_lower email))
  log_in p s env email password found

-- ---- token resolution ----

abbrev user_of : Db → Option UserId → Option User
user_of db none = none
user_of db (some user_id) = get_by_id user_id db

unfoldable pub get_user_by_token : Primitives → AuthSettings → String → Service (Option User)
unfolding decode_jwt
get_user_by_token p s token = gets (λ db. user_of db (decode_jwt p token s.jwt_secret))
