-- ===== src/Auth/Admins.antt =====
-- There is always an administrator (hub/app/services/auth_service.py).
use ampla.Shared.{List, [], ◌∷◌, All}
use ampla.Text.{strip}
use ampla.Hub.{Db}
use ampla.Auth.Security.{Primitives, AuthSettings, hash_reset_token}
use ampla.Auth.Repo.{get_by_code, get_reset_by_hash}
use ampla.Auth.Accounts.{register, usable_invite}
use ampla.Auth.Users.{reset_password, usable_reset}
use ampla.Auth.Rows.{Governed}
use ampla.Auth.Calls.{
  Call, setting_up, registering, inviting, logging_in, assigning, issuing_reset, resetting,
  renaming, changing_password, perform, perform_all, Fresh,
}
use ampla.Auth.Steps.{
  login-Governed, setup_admin-Governed, join-Governed, create_invite-Governed,
  issue_password_reset-Governed, complete_reset-Governed, rename-Governed, change-Governed,
  set_role-Governed,
}

perform-Governed :
    (p : Primitives) (s : AuthSettings) (c : Call) (db : Db)
    → Fresh c
    → Governed db
    → Governed (perform p s c db)
unfolding register reset_password
perform-Governed p s (setting_up env email name password) db f g =
    setup_admin-Governed p s env email name password db f g
perform-Governed p s (registering env code email name password) db f g =
    join-Governed p s env email name password
      (usable_invite env (get_by_code (p.to_upper (strip code)) db)) db f g
perform-Governed p s (inviting env actor) db f g = create_invite-Governed p s env actor db g
perform-Governed p s (logging_in env email password) db f g =
    login-Governed p s env email password db g
perform-Governed p s (assigning actor target_id role) db f g =
    set_role-Governed actor target_id role db g
perform-Governed p s (issuing_reset env actor target_id) db f g =
    issue_password_reset-Governed p s env actor target_id db g
perform-Governed p s (resetting env token new) db f g =
    complete_reset-Governed p s env new
      (usable_reset env (get_reset_by_hash (hash_reset_token p token) db)) db g
perform-Governed p s (renaming user_id name) db f g = rename-Governed p s user_id name db g
perform-Governed p s (changing_password user_id current new) db f g =
    change-Governed p s user_id current new db g

-- From a database whose users have distinct ids and one of whom is an administrator, every sequence
-- of calls leaves distinct ids and an administrator, where the database gives new users new ids.
pub perform_all-Governed :
    (p : Primitives) (s : AuthSettings) (calls : List Call) (db : Db)
    → All Fresh calls
    → Governed db
    → Governed (perform_all p s calls db)
perform_all-Governed p s [] db f g = g
perform_all-Governed p s (c ∷ cs) db f g =
    perform_all-Governed p s cs (perform p s c db) f.1 (perform-Governed p s c db f.0 g)
