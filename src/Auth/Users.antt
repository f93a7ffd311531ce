-- ===== src/Auth/Users.antt =====
-- Roles, password resets and the profile (hub/app/services/auth_service.py).
use ampla.Shared.{
  ℕ, take, ◌+◌, String, Bool, true, false, not, ◌&&◌, Option, none, some, List, map, ltb, leb,
  if◌then◌else◌,
}
use ampla.Models.{
  User, UserId, Role, admin, member, PasswordReset, UserAvatar, Bytes, Time, AuditLog, is_admin,
}
use mathlib.Core.List.{reverse}
use ampla.Hub.{Db, Env}
use ampla.Hub.Exec.{
  Service, pure, gets, raise, raise_if, or_raise, audit, ◌>>=◌, ◌>>◌, not_found, conflict,
  permission_denied, invalid_input,
}
use ampla.Auth.Security.{
  Primitives, AuthSettings, hash_password, verify_password, generate_reset_token, hash_reset_token,
}
use ampla.Auth.Repo.{
  count_admins, list_users_by_id, get_by_id, save_user, get_avatar_row, set_avatar_row,
  delete_avatar_row, is_unused, add_reset, get_reset_by_hash, save_reset, retired,
  invalidate_resets_for,
}
use ampla.Auth.Accounts.{hours}

-- ---- user management ----

unfoldable pub list_users : User → Service (List User)
list_users actor = do raise_if (not (is_admin actor.role)) permission_denied; gets list_users_by_id

abbrev pub role_eq : Role → Role → Bool
role_eq admin admin = true
role_eq member member = true
role_eq _ _ = false

-- `role == "member" and target.role == "admin" and … count_admins() <= 1`
abbrev pub orphans : Role → User → Db → Bool
orphans role target db = not (is_admin role) && is_admin target.role && leb (count_admins db) 1

abbrev pub assign : User → User → Role → Service User
assign actor target role = do
  last ← gets (orphans role target)
  raise_if last conflict
  save_user (record target { role = role })
  audit "role_changed" actor.email
  pure (record target { role = role })

unfoldable pub set_role : User → UserId → Role → Service User
set_role actor target_id role = do
  raise_if (not (is_admin actor.role)) permission_denied
  found ← gets (get_by_id target_id)
  target ← or_raise found not_found
  if role_eq target.role role then pure target else assign actor target role

-- ---- password reset ----

abbrev pub new_reset : Primitives → AuthSettings → Env → User → Db → PasswordReset
new_reset p s env target db = record {
  id = env.new_id (map (λ (r : PasswordReset). r.id) db.resets);
  user_id = target.id;
  token_hash = hash_reset_token p (generate_reset_token p);
  expires_at = env.now + hours s.invite_expires_hours;
  used_at = none;
  created_at = env.now;
}

unfoldable pub issue_password_reset :
    Primitives → AuthSettings → Env → User → UserId → Service (String × Time)
issue_password_reset p s env actor target_id = do
  raise_if (not (is_admin actor.role)) permission_denied
  found ← gets (get_by_id target_id)
  target ← or_raise found not_found
  invalidate_resets_for env target.id
  row ← gets (new_reset p s env target)
  add_reset row
  audit "password_reset_issued" actor.email
  pure (generate_reset_token p, env.now + hours s.invite_expires_hours)

-- A reset that is there, unused and not expired.
abbrev pub usable_reset : Env → Option PasswordReset → Option PasswordReset
usable_reset env none = none
usable_reset env (some r) =
    if is_unused r.used_at && not (ltb r.expires_at env.now) then some r else none

abbrev pub with_password : Primitives → String → User → User
with_password p new u = record u {
  password_hash = hash_password p new;
  failed_logins = 0;
  locked_until = none;
}

abbrev pub complete_reset : Primitives → Env → String → Option PasswordReset → Service Unit
complete_reset p env new none = do audit "password_reset_fail" ""; raise invalid_input
complete_reset p env new (some r) = do
  found ← gets (get_by_id r.user_id)
  user ← or_raise found invalid_input
  save_user (with_password p new user)
  save_reset (retired env r)
  invalidate_resets_for env user.id
  audit "password_reset" user.email

unfoldable pub reset_password : Primitives → Env → String → String → Service Unit
reset_password p env token new = do
  found ← gets (get_reset_by_hash (hash_reset_token p token))
  complete_reset p env new (usable_reset env found)

-- ---- profile ----

unfoldable pub update_profile : User → String → Service User
update_profile user name = do
  save_user (record user { name = name })
  audit "profile_updated" user.email
  pure (record user { name = name })

abbrev pub wrong_password : User → Service Unit
wrong_password user = do audit "password_change_fail" user.email; raise invalid_input

abbrev pub replace_password : Primitives → User → String → Service Unit
replace_password p user new = do
  save_user (with_password p new user)
  audit "password_changed" user.email

unfoldable pub change_password : Primitives → User → String → String → Service Unit
change_password p user current new =
    if not (verify_password p current user.password_hash)
    then wrong_password user
    else replace_password p user new

-- ---- avatar ----

unfoldable pub set_avatar : Primitives → Env → User → String → Service Unit
set_avatar p env user image_data_url = do
  normalized ← or_raise (p.normalized_avatar image_data_url) invalid_input
  set_avatar_row env user.id normalized
  audit "avatar_updated" user.email

abbrev image_of : Option UserAvatar → Option (String × Bytes)
image_of none = none
image_of (some a) = some (a.mime, a.content)

unfoldable pub get_avatar : UserId → Service (Option (String × Bytes))
get_avatar user_id = gets (λ db. image_of (get_avatar_row user_id db))

unfoldable pub remove_avatar : User → Service Unit
remove_avatar user = do delete_avatar_row user.id; audit "avatar_removed" user.email

-- ---- the audit trail ----

-- AuditRepository.list_recent, on a clock that does not go back: the newest entry was added last.
abbrev list_recent : ℕ → Db → List AuditLog
list_recent limit db = take limit (reverse db.audit)

unfoldable pub list_audit : User → ℕ → Service (List AuditLog)
list_audit actor limit = do
  raise_if (not (is_admin actor.role)) permission_denied
  gets (list_recent limit)
