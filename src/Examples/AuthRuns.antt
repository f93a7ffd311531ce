-- ===== src/Examples/AuthRuns.antt =====
-- The theorems on accounts at the small hub.
use ampla.Shared.{◌+◌, ◌*◌, ◌<◌, refl, pos, none, some, List, [], ◌∷◌, ◌==◌, eq_string, arith}
use ampla.Text.{strip}
use ampla.Models.{User, Invite, PasswordReset, admin, member}
use ampla.Hub.{Db, Env, second}
use ampla.Auth.Security.{Primitives, AuthSettings}
use ampla.Auth.Login.{login, lock_secs}
use ampla.Auth.Users.{reset_password}
use ampla.Auth.Accounts.{register}
use ampla.Auth.Lockout.{Answered, login-Answered}
use ampla.Auth.Invites.{Registered, register-Registered}
use ampla.Auth.Resets.{Reset, reset_password-Reset}
use ampla.Auth.Rows.{Governed}
use ampla.Auth.Calls.{Call, registering, assigning, logging_in, perform_all}
use ampla.Auth.Admins.{perform_all-Governed}
use ampla.Examples.{env, env-FreshIds, hub, ana, rui}

-- Libraries that keep a password as it is and tell a token apart by itself.
abbrev pub plain_libraries : Primitives
plain_libraries = record {
  checkpw = λ password hash. some (password == hash);
  hashpw = λ password. password;
  sha256 = λ s. s;
  token_hex = "00";
  token_urlsafe = "token";
  choice = λ i. i;
  jwt_encode = λ payload secret. secret;
  jwt_decode = λ token secret. none;
  to_lower = λ s. s;
  to_upper = λ s. s;
  normalized_avatar = λ url. none;
}

abbrev pub settings : AuthSettings
settings = record {
  jwt_secret = "secret";
  jwt_expires_days = 7;
  invite_expires_hours = 48;
  login_max_attempts = 5;
  login_lockout_base_secs = 30;
}

-- Four wrong passwords so far.
abbrev tried : User
tried = record ana { password_hash = "right"; failed_logins = 4 }

abbrev pub invite : Invite
invite = record {
  id = 3;
  code = "AMP-AAAA";
  created_by = pos 2;
  created_at = 10;
  expires_at = env.now + second;
  used_by = none;
  used_at = none;
}

abbrev reset : PasswordReset
reset = record {
  id = 4;
  user_id = pos 1;
  token_hash = "old";
  expires_at = env.now + second;
  used_at = none;
  created_at = 10;
}

abbrev pub accounts : Db
accounts = record hub {
  users = tried ∷ record rui { role = admin } ∷ [];
  invites = invite ∷ [];
  resets = reset ∷ [];
}

abbrev soon : Env
soon = record env { now = env.now + 29 * second }

login-Answered_example :
    Answered plain_libraries settings env "ana@example.org" "right" accounts
      (login plain_libraries settings env "ana@example.org" "right" accounts)
login-Answered_example =
    login-Answered plain_libraries settings env "ana@example.org" "right" accounts

soon-before : soon.now < env.now + lock_secs settings 5 * second
unfolding lock_secs
soon-before = omega arith

register-Registered_example :
    Registered plain_libraries env "AMP-AAAA" "eva@example.org" accounts
      (register plain_libraries settings env "AMP-AAAA" "eva@example.org" "Eva" "pw" accounts)
unfolding strip
register-Registered_example =
    register-Registered plain_libraries settings env "AMP-AAAA" "eva@example.org" "Eva" "pw"
      accounts

reset_password-Reset_example :
    Reset plain_libraries env "old" "new" accounts
      (reset_password plain_libraries env "old" "new" accounts)
reset_password-Reset_example = reset_password-Reset plain_libraries env "old" "new" accounts

abbrev calls : List Call
calls =
    registering env "AMP-AAAA" "eva@example.org" "Eva" "pw"
    ∷ assigning (record rui { role = admin }) (pos 1) admin
    ∷ assigning (record rui { role = admin }) (pos 2) member
    ∷ logging_in env "ana@example.org" "right"
    ∷ []

perform_all-Governed_example : Governed (perform_all plain_libraries settings calls accounts)
perform_all-Governed_example =
    perform_all-Governed plain_libraries settings calls accounts
      (env-FreshIds, (tt, (tt, (tt, tt)))) (((refl, tt), (tt, tt)), omega arith)
