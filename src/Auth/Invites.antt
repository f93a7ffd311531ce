-- ===== src/Auth/Invites.antt =====
-- An invite serves once (hub/app/services/auth_service.py, `register`).
use ampla.Shared.{
  ◌≡◌, ◌≤◌, arith, both, ltb, not, Option, inl, inr, refl, String, true, false, eq_string, eq_nat,
  none, some, Bool-cases, Option-cases, find_row-passes, find_row-update_rows, nat_eq_iff,
}
use ampla.Text.{strip}
use ampla.Models.{User, Invite, Time, member}
use ampla.Hub.{Db, Env}
use ampla.Hub.Exec.{Result, ok, err, hung, audit}
use ampla.Auth.Security.{Primitives, AuthSettings}
use ampla.Auth.Repo.{
  get_by_code, get_by_email, save_invite, add_user, is_unused, invite_id, invite_code,
}
use ampla.Auth.Accounts.{register, join, usable, spent, new_user}

-- The invite of a code is there, unused and not expired.
abbrev pub Open : Env → String → Db → Type 0
Open env code db =
    (i : Invite) × (get_by_code code db ≡ some i) × (i.used_at ≡ none) × (env.now ≤ i.expires_at)

usable-Open :
    (env : Env) (i : Invite) → usable env i ≡ true → (i.used_at ≡ none) × (env.now ≤ i.expires_at)
usable-Open env i h =
    let k = both (is_unused i.used_at) (not (ltb i.expires_at env.now)) h in
    (unused i.used_at k.0, in_time (k.1))
  where
    unused : (t : Option Time) → is_unused t ≡ true → t ≡ none
    unused none h = refl
    unused (some t) h = let out : ⊥ = ground (arith, h) in elim out [ ]

    in_time : not (ltb i.expires_at env.now) ≡ true → env.now ≤ i.expires_at
    in_time h = ground (arith, h)

-- The invite of a code is there and used.
abbrev pub Spent : String → Db → Type 0
Spent code db = (i : Invite) × (get_by_code code db ≡ some i) × (is_unused i.used_at ≡ false)

-- A registration that succeeds had an open invite and an unused address, and leaves the invite used;
-- one that fails adds no user and changes no invite.
abbrev pub Registered :
    Primitives → Env → String → String → Db → Result (User × String) × Db → Type 0
Registered p env code email db (ok (u, token), after) =
    Open env code db × (get_by_email (p.to_lower email) db ≡ none) × Spent code after
Registered p env code email db (err e, after) =
    (after.users ≡ db.users) × (after.invites ≡ db.invites)
Registered p env code email db (hung, after) = ⊥

saved_invite :
    (env : Env) (u : User) (code : String) (i : Invite) (db : Db)
    → get_by_code code db ≡ some i
    → get_by_code code (save_invite (spent env u i) db).1 ≡ some (spent env u i)
unfolding save_invite
saved_invite env u code i db h =
    find_row-update_rows (invite_code code) (invite_id i.id) i (spent env u i) db.invites h
      ((nat_eq_iff i.id i.id).1 refl) (find_row-passes (invite_code code) i db.invites h)

join-Registered :
    (p : Primitives) (s : AuthSettings) (env : Env) (code email name password : String) (i : Invite)
    (db : Db)
    → get_by_code code db ≡ some i
    → usable env i ≡ true
    → Registered p env code email db (join p s env email name password (some i) db)
unfolding add_user save_invite audit
join-Registered p s env code email name password i db h k =
    elim (Option-cases (get_by_email (p.to_lower email) db)) [
      | inr (u, e) ↦ rw e (refl, refl)
      | inl e ↦ rw e (
        (let o = usable-Open env i k in (i, h, o.0, o.1)),
        e,
        (
          spent env (new_user p env email name password member db) i,
          saved_invite env (new_user p env email name password member db) code i db h,
          refl,
        ),
      )
    ]

-- Every registration is as `Registered` says: it succeeds only with an open invite, which it uses up,
-- and an address without an account; otherwise it changes neither users nor invites.
pub register-Registered :
    (p : Primitives) (s : AuthSettings) (env : Env) (code email name password : String) (db : Db)
    → Registered p env
        (p.to_upper (strip code))
        email
        db
        (register p s env code email name password db)
unfolding register audit
register-Registered p s env code email name password db =
    elim (Option-cases (get_by_code (p.to_upper (strip code)) db)) [
      | inl h ↦ rw h (refl, refl)
      | inr (i, h) ↦ elim (Bool-cases (usable env i)) [
        | inl k ↦
            rw (h, k)
              (join-Registered p s env (p.to_upper (strip code)) email name password i db h k)
        | inr k ↦ rw (h, k) (refl, refl)
      ]
    ]
