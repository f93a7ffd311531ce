-- ===== src/Agents/Keys.antt =====
-- From the creation of a key to its revocation (hub/app/services/agent_service.py).
use ampla.Shared.{
  ◌≡◌, inl, inr, refl, String, Bool, true, false, ◌==◌, eq_nat, eq_string, none, some, List, [],
  ◌∷◌, ◌++◌, Bool-cases, Option-cases, find_row, find_row-passes, find_row-update_rows, nat_eq_iff,
}
use ampla.Models.{User, Agent, AgentKey}
use ampla.Hub.{Db, Env}
use ampla.Hub.Exec.{Result, ok, err, hung, audit}
use ampla.Kanban.Access.{get_agent}
use ampla.Approvals.{manages}
use ampla.Auth.Security.{Primitives, hash_agent_key, generate_agent_key}
use ampla.Auth.Repo.{is_unused}
use ampla.Agents.Repo.{get_key, get_key_by_hash, hashed, key_id, agent_named, add_key, save_key}
use ampla.Agents.Service.{create_key, new_key, revoke_key, authenticate_key, get_owned}
use ampla.Agents.Names.{eq_refl, eq_same}

-- The row is added behind rows that do not pass, and passes.
find_row-added :
    {A : Type 0} (p : A → Bool) (a : A) (rows : List A)
    → find_row p rows ≡ none
    → p a ≡ true
    → find_row p (rows ++ a ∷ []) ≡ some a
find_row-added p a [] h k = rw k refl
find_row-added p a (x ∷ xs) h k = elim (Bool-cases (p x)) [
  | inl e ↦ let out : ⊥ = found (rw e at h) in elim out [ ]
  | inr e ↦ rw e (find_row-added p a xs (rw e at h) k)
]
  where
    found : some x ≡ none → ⊥
    found e = cc

-- A key that was created opens its agent, and no other.
abbrev pub Opens : Primitives → String → Db → Result (AgentKey × String) × Db → Type 0
Opens p slug db (ok (k, plaintext), after) =
    (agent : Agent) × (get_agent slug db ≡ some agent)
    × (authenticate_key p slug plaintext after ≡ (ok (some agent), after))
    × ((other : String)
        → (slug == other) ≡ false
        → (authenticate_key p other plaintext after).0 ≡ ok none)
Opens p slug db (err e, after) = after ≡ db
Opens p slug db (hung, after) = ⊥

-- Where no key has the hash of the one drawn, the key that `create_key` returns authenticates its
-- agent, and fails for every other slug; a refused call writes nothing.
pub create_key-Opens :
    (p : Primitives) (env : Env) (actor : User) (slug label : String) (db : Db)
    → get_key_by_hash (hash_agent_key p (generate_agent_key p)) db ≡ none
    → Opens p slug db (create_key p env actor slug label db)
unfolding create_key get_owned add_key audit authenticate_key
create_key-Opens p env actor slug label db h = elim (Option-cases (get_agent slug db)) [
  | inl e ↦ rw e refl
  | inr (agent, e) ↦ elim (Bool-cases (manages actor agent)) [
    | inr m ↦ rw (e, m) refl
    | inl m ↦
        let here = find_row-passes (agent_named slug) agent db.agents e in
        let found =
          find_row-added (hashed (hash_agent_key p (generate_agent_key p)))
            (new_key p env agent label db) db.keys h (eq_refl _) in
        rw (e, m)
          (
            agent,
            e,
            rw (found, here) (rw e refl),
            λ other d. rw (found, elsewhere agent other here d) refl,
          )
  ]
]
  where
    elsewhere :
        (agent : Agent) (other : String)
        → (agent.slug == slug) ≡ true
        → (slug == other) ≡ false
        → (agent.slug == other) ≡ false
    elsewhere agent other h d = rw (eq_same agent.slug slug h) d

-- The key opens no agent any more.
abbrev pub Shut : Primitives → String → Db → Result AgentKey × Db → Type 0
Shut p key db (ok r, after) =
    (agent_id : String) → (authenticate_key p agent_id key after).0 ≡ ok none
Shut p key db (err e, after) = after ≡ db
Shut p key db (hung, after) = ⊥

closed :
    (p : Primitives) (key agent_id : String) (k : AgentKey) (db : Db)
    → get_key_by_hash (hash_agent_key p key) db ≡ some k
    → is_unused k.revoked_at ≡ false
    → (authenticate_key p agent_id key db).0 ≡ ok none
unfolding authenticate_key audit
closed p key agent_id k db h u = rw (h, u) refl

-- Where the key with this id is the one that the hash finds, a revocation that succeeds leaves a key
-- that authenticates no agent; a refused one writes nothing.
pub revoke_key-Shut :
    (p : Primitives) (env : Env) (actor : User) (slug key : String) (k : AgentKey) (db : Db)
    → get_key_by_hash (hash_agent_key p key) db ≡ some k
    → get_key k.id db ≡ some k
    → Shut p key db (revoke_key env actor slug k.id db)
unfolding revoke_key get_owned save_key audit
revoke_key-Shut p env actor slug key k db h g = elim (Option-cases (get_agent slug db)) [
  | inl e ↦ rw e refl
  | inr (agent, e) ↦ elim (Bool-cases (manages actor agent)) [
    | inr m ↦ rw (e, m) refl
    | inl m ↦ elim (Bool-cases (k.agent_slug == slug)) [
      | inr s ↦ rw (e, m, g, s) refl
      | inl s ↦ elim (Bool-cases (is_unused k.revoked_at)) [
        | inr u ↦ rw (e, m, g, s, u) (λ agent_id. closed p key agent_id k db h u)
        | inl u ↦ rw (e, m, g, s, u) (λ agent_id. closed p key agent_id _ _ saved refl)
      ]
    ]
  ]
]
  where
    saved :
        get_key_by_hash
          (hash_agent_key p key)
          (save_key (record k { revoked_at = some env.now }) db).1
        ≡ some (record k { revoked_at = some env.now })
    saved =
        find_row-update_rows (hashed (hash_agent_key p key)) (key_id k.id) k
          (record k { revoked_at = some env.now }) db.keys h ((nat_eq_iff k.id k.id).1 refl)
          (find_row-passes (hashed (hash_agent_key p key)) k db.keys h)
