-- ===== src/Auth/Accounts.antt =====
-- Setup, registration and invites (hub/app/services/auth_service.py).
use ampla.Shared.{
  ℕ, pos, ◌+◌, ◌*◌, String, Bool, true, false, not, ◌&&◌, Option, none, some, List, map, nat_eq,
  ltb, if◌then◌else◌,
}
use ampla.Text.{strip}
use ampla.Models.{User, Role, admin, member, mentions_and_direct, Invite, is_admin}
use ampla.Hub.{Db, Env, second}
use ampla.Hub.Exec.{
  Service, pure, gets, raise, raise_if, audit, ◌>>=◌, ◌>>◌, conflict, permission_denied,
}
use ampla.Auth.Security.{Primitives, AuthSettings, hash_password, generate_invite_code, create_jwt}
use ampla.Auth.Repo.{
  user_keys, count, get_by_email, add_user, get_by_code, is_unused, add_invite, save_invite,
  list_all_invites,
}

abbrev pub needs_setup : Db → Bool
needs_setup db = nat_eq (count db) 0

-- `_issue_token`
abbrev pub issue_token : Primitives → AuthSettings → Env → User → String
issue_token p s env user = create_jwt p user.id s.jwt_secret s.jwt_expires_days env.now

-- The row of a new account.
abbrev pub new_user : Primitives → Env → String → String → String → Role → Db → User
new_user p env email name password role db = record {
  id = pos (env.new_id (user_keys db));
  email = p.to_lower email;
  name = name;
  password_hash = hash_password p password;
  role = role;
  notify_level = mentions_and_direct;
  failed_logins = 0;
  locked_until = none;
}

unfoldable pub setup_admin :
    Primitives → AuthSettings → Env → String → String → String → Service (User × String)
setup_admin p s env email name password = do
  needed ← gets needs_setup
  raise_if (not needed) conflict
  row ← gets (new_user p env email name password admin)
  user ← add_user row
  audit "setup" user.email
  pure (user, issue_token p s env user)

-- Whether an account has the address.
abbrev pub is_taken : Option User → Bool
is_taken none = false
is_taken (some u) = true

abbrev pub usable : Env → Invite → Bool
usable env i = is_unused i.used_at && not (ltb i.expires_at env.now)

-- An invite that is there, unused and not expired.
abbrev pub usable_invite : Env → Option Invite → Option Invite
usable_invite env none = none
usable_invite env (some i) = if usable env i then some i else none

abbrev pub spent : Env → User → Invite → Invite
spent env user i = record i { used_by = some user.id; used_at = some env.now }

abbrev pub join :
    Primitives
    → AuthSettings
    → Env
    → String
    → String
    → String
    → Option Invite
    → Service (User × String)
join p s env email name password none = do
  audit "register_fail" (p.to_lower email)
  raise permission_denied
join p s env email name password (some i) = do
  found ← gets (get_by_email (p.to_lower email))
  raise_if (is_taken found) conflict
  row ← gets (new_user p env email name password member)
  user ← add_user row
  save_invite (spent env user i)
  audit "register" user.email
  pure (user, issue_token p s env user)

unfoldable pub register :
    Primitives → AuthSettings → Env → String → String → String → String → Service (User × String)
register p s env code email name password = do
  found ← gets (get_by_code (p.to_upper (strip code)))
  join p s env email name password (usable_invite env found)

-- ---- invites ----

abbrev pub hours : ℕ → ℕ
hours n = n * (3600 * second)

abbrev new_invite : Primitives → AuthSettings → Env → User → Db → Invite
new_invite p s env actor db = record {
  id = env.new_id (map (λ (i : Invite). i.id) db.invites);
  code = generate_invite_code p;
  created_by = actor.id;
  created_at = env.now;
  expires_at = env.now + hours s.invite_expires_hours;
  used_by = none;
  used_at = none;
}

unfoldable pub create_invite : Primitives → AuthSettings → Env → User → Service Invite
unfolding generate_invite_code
create_invite p s env actor = do
  raise_if (not (is_admin actor.role)) permission_denied
  row ← gets (new_invite p s env actor)
  invite ← add_invite row
  audit "invite_created" actor.email
  pure invite

unfoldable pub list_invites : User → Service (List Invite)
list_invites actor = do
  raise_if (not (is_admin actor.role)) permission_denied
  gets list_all_invites
