-- ===== src/Auth/Resets.antt =====
-- A reset link serves once (hub/app/services/auth_service.py, `reset_password`).
use ampla.Shared.{
  int_eq_refl, ◌≡◌, inl, inr, refl, String, true, false, not, ◌&&◌, ◌==◌, eq_string, eq_nat, eq_int,
  some, List, [], ◌∷◌, Bool-cases, Option-cases, select, update_rows, find_row-passes,
  find_row-update_rows, int_eq_iff, ltb,
}
use ampla.Models.{User, UserId, PasswordReset}
use ampla.Hub.{Db, Env}
use ampla.Hub.Exec.{Result, ok, err, hung, audit}
use ampla.Auth.Security.{Primitives, hash_reset_token}
use ampla.Auth.Repo.{
  get_by_id, with_id, save_user, get_reset_by_hash, save_reset, outstanding, is_unused, retired,
  invalidate_resets_for,
}
use ampla.Auth.Users.{reset_password, complete_reset, with_password}

-- The resets of a user that may still be used.
abbrev pub open_resets : UserId → Db → List PasswordReset
open_resets user_id db = select (outstanding user_id) db.resets

-- The reset of a token is there, unused and not expired.
abbrev pub OpenToken : Primitives → Env → String → Db → PasswordReset → Type 0
OpenToken p env token db r =
    (get_reset_by_hash (hash_reset_token p token) db ≡ some r)
    × ((is_unused r.used_at && not (ltb r.expires_at env.now)) ≡ true)

abbrev pub Reset : Primitives → Env → String → String → Db → Result Unit × Db → Type 0
Reset p env token new db (ok tt, after) =
    (r : PasswordReset) × (u : User) × OpenToken p env token db r
    × (get_by_id r.user_id db ≡ some u)
    × (get_by_id r.user_id after ≡ some (with_password p new u))
    × (open_resets r.user_id after ≡ [])
Reset p env token new db (err e, after) = (after.users ≡ db.users) × (after.resets ≡ db.resets)
Reset p env token new db (hung, after) = ⊥

retired-outstanding :
    (env : Env) (user_id : UserId) (r : PasswordReset) → outstanding user_id (retired env r) ≡ false
retired-outstanding env user_id r = elim (Bool-cases (r.user_id == user_id)) [
  | inl e ↦ rw e refl
  | inr e ↦ rw e refl
]

none_left :
    (env : Env) (user_id : UserId) (rows : List PasswordReset)
    → select (outstanding user_id) (update_rows (outstanding user_id) (retired env) rows) ≡ []
none_left env user_id [] = refl
none_left env user_id (r ∷ rs) = elim (Bool-cases (outstanding user_id r)) [
  | inl e ↦ rw (e, retired-outstanding env user_id r) (none_left env user_id rs)
  | inr e ↦ rw (e, e) (none_left env user_id rs)
]

found_id : (user_id : UserId) (u : User) (db : Db) → get_by_id user_id db ≡ some u → u.id ≡ user_id
found_id user_id u db h =
    (int_eq_iff u.id user_id).0 (find_row-passes (with_id user_id) u db.users h)

completed :
    (p : Primitives) (env : Env) (token new : String) (r : PasswordReset) (db : Db)
    → OpenToken p env token db r
    → Reset p env token new db (complete_reset p env new (some r) db)
unfolding save_user save_reset invalidate_resets_for audit
completed p env token new r db o = elim (Option-cases (get_by_id r.user_id db)) [
  | inl h ↦ rw h (refl, refl)
  | inr (u, h) ↦
      let same = found_id r.user_id u db h in
      rw h (
        r,
        u,
        o,
        h,
        find_row-update_rows (with_id r.user_id) (with_id u.id) u (with_password p new u) db.users h
            (int_eq_refl u.id) (rw same (int_eq_refl r.user_id)),
        rw (← same) (none_left env u.id _),
      )
]

-- A reset needs a token that is there, unused and not expired, and a user; it sets the password and
-- lifts the lockout, and leaves no reset of the user that may be used. Otherwise neither users nor
-- resets change.
pub reset_password-Reset :
    (p : Primitives) (env : Env) (token new : String) (db : Db)
    → Reset p env token new db (reset_password p env token new db)
unfolding reset_password audit
reset_password-Reset p env token new db =
    elim (Option-cases (get_reset_by_hash (hash_reset_token p token) db)) [
      | inl h ↦ rw h (refl, refl)
      | inr (r, h) ↦ elim (Bool-cases (is_unused r.used_at && not (ltb r.expires_at env.now))) [
        | inr k ↦ rw (h, k) (refl, refl)
        | inl k ↦ rw (h, k) (completed p env token new r db (h, k))
      ]
    ]
