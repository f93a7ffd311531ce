-- ===== src/Auth/Repo.antt =====
-- hub/app/repositories/user_repo.py and invite_repo.py
use ampla.Shared.{
  ℕ, ℤ, pos, negsuc, String, Bool, true, false, not, ◌&&◌, ◌==◌, eq_nat, eq_string, eq_int, Option,
  none, some, List, [], ◌∷◌, ◌++◌, map, select, find_row, update_rows, order_by, any, length, leb,
  if◌then◌else◌,
}
use ampla.Models.{User, UserId, Time, Invite, PasswordReset, UserAvatar, Bytes, is_admin}
use ampla.Hub.{Db, Env}
use ampla.Hub.Exec.{Service, ok}

-- The keys of the users.
abbrev pub key_of : ℤ → ℕ
key_of (pos n) = n
key_of (negsuc n) = 0

abbrev pub user_keys : Db → List ℕ
user_keys db = map (λ (u : User). key_of u.id) db.users

abbrev pub count : Db → ℕ
count db = length db.users

abbrev pub admin_row : User → Bool
admin_row u = is_admin u.role

abbrev pub count_admins : Db → ℕ
count_admins db = length (select admin_row db.users)

abbrev int_leb : ℤ → ℤ → Bool
int_leb (pos a) (pos b) = leb a b
int_leb (pos a) (negsuc b) = false
int_leb (negsuc a) (pos b) = true
int_leb (negsuc a) (negsuc b) = leb b a

unfoldable pub list_users_by_id : Db → List User
list_users_by_id db = order_by (λ (a b : User). int_leb a.id b.id) db.users

abbrev pub with_id : UserId → User → Bool
with_id user_id u = u.id == user_id

abbrev pub with_email : String → User → Bool
with_email email u = u.email == email

abbrev pub get_by_id : UserId → Db → Option User
get_by_id user_id db = find_row (with_id user_id) db.users

abbrev pub get_by_email : String → Db → Option User
get_by_email email db = find_row (with_email email) db.users

unfoldable pub add_user : User → Service User
add_user u db = (ok u, record db { users = db.users ++ u ∷ [] })

unfoldable pub save_user : User → Service Unit
save_user u db = (ok tt, record db { users = update_rows (with_id u.id) (λ _. u) db.users })

-- ---- avatars ----

abbrev of_user : UserId → UserAvatar → Bool
of_user user_id a = a.user_id == user_id

abbrev pub get_avatar_row : UserId → Db → Option UserAvatar
get_avatar_row user_id db = find_row (of_user user_id) db.avatars

abbrev avatar : Env → UserId → Bytes → UserAvatar
avatar env user_id content = record {
  user_id = user_id;
  mime = "image/jpeg";
  content = content;
  updated_at = env.now;
}

unfoldable pub set_avatar_row : Env → UserId → Bytes → Service Unit
set_avatar_row env user_id content db = (
  ok tt,
  record db {
    avatars =
        if any (of_user user_id) db.avatars
        then update_rows (of_user user_id) (λ _. avatar env user_id content) db.avatars
        else db.avatars ++ avatar env user_id content ∷ [];
  },
)

unfoldable pub delete_avatar_row : UserId → Service Bool
delete_avatar_row user_id db = (
  ok (any (of_user user_id) db.avatars),
  record db { avatars = select (λ (a : UserAvatar). not (of_user user_id a)) db.avatars },
)

-- ---- password resets ----

abbrev pub is_unused : Option Time → Bool
is_unused none = true
is_unused (some t) = false

abbrev pub reset_id : ℕ → PasswordReset → Bool
reset_id id r = r.id == id

abbrev pub reset_hash : String → PasswordReset → Bool
reset_hash token_hash r = r.token_hash == token_hash

unfoldable pub add_reset : PasswordReset → Service PasswordReset
add_reset r db = (ok r, record db { resets = db.resets ++ r ∷ [] })

abbrev pub get_reset_by_hash : String → Db → Option PasswordReset
get_reset_by_hash token_hash db = find_row (reset_hash token_hash) db.resets

unfoldable pub save_reset : PasswordReset → Service Unit
save_reset r db = (ok tt, record db { resets = update_rows (reset_id r.id) (λ _. r) db.resets })

abbrev pub outstanding : UserId → PasswordReset → Bool
outstanding user_id r = r.user_id == user_id && is_unused r.used_at

abbrev pub retired : Env → PasswordReset → PasswordReset
retired env r = record r { used_at = some env.now }

unfoldable pub invalidate_resets_for : Env → UserId → Service Unit
invalidate_resets_for env user_id db =
    (ok tt, record db { resets = update_rows (outstanding user_id) (retired env) db.resets })

-- ---- invites ----

abbrev pub invite_id : ℕ → Invite → Bool
invite_id id i = i.id == id

abbrev pub invite_code : String → Invite → Bool
invite_code code i = i.code == code

unfoldable pub add_invite : Invite → Service Invite
add_invite i db = (ok i, record db { invites = db.invites ++ i ∷ [] })

abbrev pub get_by_code : String → Db → Option Invite
get_by_code code db = find_row (invite_code code) db.invites

unfoldable pub list_all_invites : Db → List Invite
list_all_invites db = order_by (λ (a b : Invite). leb b.created_at a.created_at) db.invites

unfoldable pub save_invite : Invite → Service Unit
save_invite i db = (ok tt, record db { invites = update_rows (invite_id i.id) (λ _. i) db.invites })
