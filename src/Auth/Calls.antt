-- ===== src/Auth/Calls.antt =====
-- The calls of the account service as the steps of its state (hub/app/services/auth_service.py).
use ampla.Shared.{String, Option, none, some, List, [], ◌∷◌}
use ampla.Models.{User, UserId, Role}
use ampla.Hub.{Db, Env}
use ampla.Inbox.Keys.{FreshIds}
use ampla.Auth.Security.{Primitives, AuthSettings}
use ampla.Auth.Repo.{get_by_id}
use ampla.Auth.Accounts.{setup_admin, register, create_invite}
use ampla.Auth.Login.{login}
use ampla.Auth.Users.{
  set_role, issue_password_reset, reset_password, update_profile, change_password,
}

-- A call of the service, with the clock and the draws it meets. The user of a profile call is the one
-- that the session names.
pub data Call : Type 0 where
  setting_up : (env : Env) (email name password : String) → Call
  registering : (env : Env) (code email name password : String) → Call
  inviting : (env : Env) (actor : User) → Call
  logging_in : (env : Env) (email password : String) → Call
  assigning : (actor : User) (target_id : UserId) (role : Role) → Call
  issuing_reset : (env : Env) (actor : User) (target_id : UserId) → Call
  resetting : (env : Env) (token new : String) → Call
  renaming : (user_id : UserId) (name : String) → Call
  changing_password : (user_id : UserId) (current new : String) → Call

abbrev pub rename : Option User → String → Db → Db
rename none name db = db
rename (some u) name db = (update_profile u name db).1

abbrev pub change : Primitives → Option User → String → String → Db → Db
change p none current new db = db
change p (some u) current new db = (change_password p u current new db).1

-- The state after the call.
abbrev pub perform : Primitives → AuthSettings → Call → Db → Db
perform p s (setting_up env email name password) db = (setup_admin p s env email name password db).1
perform p s (registering env code email name password) db =
    (register p s env code email name password db).1
perform p s (inviting env actor) db = (create_invite p s env actor db).1
perform p s (logging_in env email password) db = (login p s env email password db).1
perform p s (assigning actor target_id role) db = (set_role actor target_id role db).1
perform p s (issuing_reset env actor target_id) db =
    (issue_password_reset p s env actor target_id db).1
perform p s (resetting env token new) db = (reset_password p env token new db).1
perform p s (renaming user_id name) db = rename (get_by_id user_id db) name db
perform p s (changing_password user_id current new) db =
    change p (get_by_id user_id db) current new db

abbrev pub perform_all : Primitives → AuthSettings → List Call → Db → Db
perform_all p s [] db = db
perform_all p s (c ∷ cs) db = perform_all p s cs (perform p s c db)

-- The database gives new users keys that no user has.
abbrev pub Fresh : Call → Type 0
Fresh (setting_up env email name password) = FreshIds env
Fresh (registering env code email name password) = FreshIds env
Fresh _ = Unit
