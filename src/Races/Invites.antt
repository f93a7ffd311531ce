-- ===== src/Races/Invites.antt =====
-- Two registrations with one invite that overlap (hub/app/services/auth_service.py, `register`).
use ampla.Shared.{
  ◌≡◌, refl, inl, inr, String, true, false, ◌==◌, eq_string, eq_nat, Option, none, some, [], ◌∷◌,
  ◌++◌, Option-cases,
}
use ampla.Text.{strip}
use ampla.Models.{User, Invite, member}
use ampla.Hub.{Db, Env}
use ampla.Hub.Exec.{
  Service, ok, pure, raise, gets, raise_if, audit, ◌>>=◌, ◌>>◌, conflict, permission_denied,
}
use ampla.Auth.Security.{Primitives, AuthSettings}
use ampla.Auth.Repo.{get_by_code, get_by_email, save_invite, add_user}
use ampla.Auth.Accounts.{
  register, join, usable, usable_invite, spent, new_user, is_taken, issue_token,
}
use ampla.Sockets.Delivery.{append-snoc}
use ampla.Races.{Phases, in_turn, race}

module _ (p : Primitives) (s : AuthSettings) where
  abbrev enrolled : Env → String → String → String → Invite → Service (User × String)
  enrolled env email name password i = do
    row ← gets (new_user p env email name password member)
    user ← add_user row
    save_invite (spent env user i)
    audit "register" user.email
    pure (user, issue_token p s env user)

  abbrev invited : Env → String → String → String → Option Invite → Phases (User × String)
  invited env email name password none = do
    audit "register_fail" (p.to_lower email)
    raise permission_denied
  invited env email name password (some i) = do
    found ← gets (get_by_email (p.to_lower email))
    raise_if (is_taken found) conflict
    pure (enrolled env email name password i)

  -- The reads and checks of `register`, and its writes.
  unfoldable pub register_phases : Env → String → String → String → String → Phases (User × String)
  register_phases env code email name password = do
    found ← gets (get_by_code (p.to_upper (strip code)))
    invited env email name password (usable_invite env found)

  register-in_turn :
      (env : Env) (code email name password : String) (db : Db)
      → in_turn (register_phases env code email name password) db
        ≡ register p s env code email name password db
  unfolding register_phases register audit
  register-in_turn env code email name password db =
      checked (usable_invite env (get_by_code (p.to_upper (strip code)) db))
    where
      checked :
          (o : Option Invite)
          → in_turn (invited env email name password o) db ≡ join p s env email name password o db
      checked none = refl
      checked (some i) = elim (Option-cases (get_by_email (p.to_lower email) db)) [
        | inl h ↦ rw h refl
        | inr (u, h) ↦ rw h refl
      ]

  reads :
      (env : Env) (code email name password : String) (i : Invite) (db : Db)
      → get_by_code (p.to_upper (strip code)) db ≡ some i
      → usable env i ≡ true
      → get_by_email (p.to_lower email) db ≡ none
      → register_phases env code email name password db
        ≡ (ok (enrolled env email name password i), db)
  unfolding register_phases
  reads env code email name password i db h u e = rw (h, u) (rw e refl)

  abbrev pub InTurn : Type 0
  InTurn =
      (env : Env) (code email name password : String) (db : Db)
      → in_turn (register_phases env code email name password) db
        ≡ register p s env code email name password db

  abbrev pub BothEnrolled : Env → String → String → String → String → String → Db → Type 0
  BothEnrolled env code first second name password db =
      (u v : User) × (t w : String) × (after : Db) × (race
          (register_phases env code first name password)
          (register_phases env code second name password) db
        ≡ (ok (u, t), ok (v, w), after))
      × (after.users ≡ db.users ++ u ∷ v ∷ [])

  -- Two persons who register with one open invite in calls that overlap, under addresses that are
  -- free and differ, both get an account: the invite, which serves once, is checked by both before either uses it up. (Phases that run one
  -- after the other are the call itself.)
  race-register :
      (env : Env) (code first second name password : String) (i : Invite) (db : Db)
      → get_by_code (p.to_upper (strip code)) db ≡ some i
      → usable env i ≡ true
      → get_by_email (p.to_lower first) db ≡ none
      → get_by_email (p.to_lower second) db ≡ none
      → (p.to_lower first == p.to_lower second) ≡ false
      → InTurn × BothEnrolled env code first second name password db
  unfolding add_user save_invite audit
  race-register env code first second name password i db h u f g apart =
      let once = enrolled env first name password i db in
      let twice = enrolled env second name password i once.1 in
      let a = new_user p env first name password member db in
      let b = new_user p env second name password member once.1 in
      (
        register-in_turn,
        (
          a,
          b,
          issue_token p s env a,
          issue_token p s env b,
          twice.1,
          rw
              (
                reads env code first name password i db h u f,
                reads env code second name password i db h u g,
              )
              refl,
          append-snoc db.users a (b ∷ []),
        ),
      )
