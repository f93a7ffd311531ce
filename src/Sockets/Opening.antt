-- ===== src/Sockets/Opening.antt =====
-- How the connection of a daemon opens, and how it does not (hub/app/api/routes/ws.py,
-- `_run_agent_connection`, and the revocation of hub/app/api/routes/agents.py).
use ampla.Shared.{
  ℕ, ◌≡◌, refl, ap, ◌∙◌, inl, inr, String, false, eq_string, Option, none, some, List, Bool-cases,
  if◌then◌else◌,
}
use ampla.Models.{User, Agent, AgentKey}
use ampla.Hub.{Db}
use ampla.Hub.Exec.{Result, ok, err, hung, resume}
use ampla.Auth.Security.{Primitives, hash_agent_key}
use ampla.Agents.Repo.{get_key, get_key_by_hash}
use ampla.Agents.Service.{authenticate_key, revoke_key}
use ampla.Agents.Names.{eq_refl}
use ampla.Agents.Keys.{Shut, revoke_key-Shut}
use ampla.Sockets.{
  ConnectionManager, dict_get, dict_set, dict_del, connect_agent, kick_agent, broadcast_presence,
}
use ampla.Sockets.Registry.{agents-close_quietly, get-set, get-del}
use ampla.Sockets.Kept.{registry-send_quietly, registry-broadcast_presence}
use ampla.Sockets.Frames.{ServerFrame, presence, online, offline, error_frame}
use ampla.Sockets.Server.{Server, Moment, leaves, manage}
use ampla.Sockets.Panel.{
  Reply, replied, too_many, forbidden, replying, pushing, dropped, handle_revoke_key,
}
use ampla.Sockets.Route.{
  SocketSettings, opening, Snapshot, authenticated, turned_away, welcomed, admitted,
  open_connection,
}

module _ {Payload : Type 0} where
  agents-connect_agent :
      (slug : String) (ws : ℕ) (m : ConnectionManager Payload)
      → (connect_agent slug ws m).agents ≡ dict_set slug ws m.agents
  unfolding connect_agent
  agents-connect_agent slug ws m = agents-close_quietly (dict_get slug m.agents) 4000 _

  agents-kick_agent :
      (slug : String) (m : ConnectionManager Payload)
      → (kick_agent slug m).1.agents ≡ dict_del slug m.agents
  unfolding kick_agent
  agents-kick_agent slug m = agents-close_quietly (dict_get slug m.agents) 4001 _

  connected-held :
      (slug : String) (ws : ℕ) (d : List (String × ℕ)) (m : ConnectionManager Payload)
      → m.agents ≡ dict_set slug ws d
      → dict_get slug m.agents ≡ some ws
  connected-held slug ws d m e =
      ap (dict_get slug) e
      ∙ get-set slug slug ws d
      ∙ ap (λ b. if b then some ws else dict_get slug d) (eq_refl slug)

  dropped-gone :
      (slug : String) (d : List (String × ℕ)) (m : ConnectionManager Payload)
      → m.agents ≡ dict_del slug d
      → dict_get slug m.agents ≡ none
  dropped-gone slug d m e =
      ap (dict_get slug) e
      ∙ get-del slug slug d
      ∙ ap (λ b. if b then none else dict_get slug d) (eq_refl slug)

-- ---- an opening that is abandoned ----

module _ (config : SocketSettings) (ws : ℕ) (slug : String) where
  welcomed-held :
      (t : Moment) (snapshot : Snapshot config ws slug) (s : Server)
      → t.alive ws ≡ false
      → let left = welcomed config ws slug t snapshot s in
        (left.0 ≡ leaves) × (dict_get slug left.2.manager.agents ≡ some ws)
  welcomed-held t snapshot s d = rw d (
    refl,
    connected-held slug ws s.manager.agents
        (broadcast_presence t.alive (presence slug online) (connect_agent slug ws s.manager))
        (ap (λ r. r.0)
            (registry-broadcast_presence t.alive (presence slug online)
              (connect_agent slug ws s.manager))
          ∙ agents-connect_agent slug ws s.manager),
  )

  -- A daemon with a valid key whose socket dies before the answer to its hello leaves without the end
  -- of the loop: the registry still holds the connection.
  pub open_connection-abandoned :
      (p : Primitives) (t : Moment) (key : String) (s : Server) (snapshot : Snapshot config ws slug)
      (after : Db)
      → opening config ws slug p t.env key s.db ≡ (ok (some snapshot), after)
      → t.alive ws ≡ false
      → ((open_connection config ws slug p t key s).0 ≡ leaves)
        × (dict_get slug (open_connection config ws slug p t key s).2.manager.agents ≡ some ws)
  unfolding open_connection
  open_connection-abandoned p t key s snapshot after h d =
      rw h (welcomed-held t snapshot (record s { db = after }) d)

  -- ---- a key that was revoked ----

  agents-turned_away :
      (t : Moment) (s : Server)
      → let left = turned_away config ws slug t s in
        (left.0 ≡ leaves) × (left.2.manager.agents ≡ s.manager.agents)
  agents-turned_away t s =
      let same =
        ap (λ r. r.0) (registry-send_quietly t.alive (error_frame "auth_failed") ws s.manager) in
      elim (Bool-cases (t.alive ws)) [
        | inl e ↦ rw e (refl, rw e at same)
        | inr e ↦ rw e (refl, rw e at same)
      ]

  -- The opening with the key leaves, and the registry is what it was.
  abbrev pub Rejects : Primitives → String → Server → Type 0
  Rejects p key s =
      (t : Moment)
      → let left = open_connection config ws slug p t key s in
        (left.0 ≡ leaves) × (left.2.manager.agents ≡ s.manager.agents)

  admitted-none :
      (t : Moment) (s : Server) (x : Result (Option Agent) × Db)
      → x.0 ≡ ok none
      → let next = resume x (authenticated config ws slug t.env) in
        let left = admitted config ws slug t (next.0, record s { db = next.1 }) in
        (left.0 ≡ leaves) × (left.2.manager.agents ≡ s.manager.agents)
  admitted-none t s (ok none, db) e = agents-turned_away t (record s { db = db })
  admitted-none t s (ok (some a), db) e = let out : ⊥ = cc in elim out [ ]
  admitted-none t s (err x, db) e = let out : ⊥ = cc in elim out [ ]
  admitted-none t s (hung, db) e = let out : ⊥ = cc in elim out [ ]

  shut-Rejects :
      (p : Primitives) (key : String) (s : Server)
      → (authenticate_key p slug key s.db).0 ≡ ok none
      → Rejects p key s
  unfolding open_connection
  shut-Rejects p key s h t = admitted-none t s (authenticate_key p slug key s.db) h

-- The agent has no connection, and no connection opens with the key; a call that is refused changes
-- nothing.
abbrev pub Expelled : Primitives → String → String → Server → Reply AgentKey × Server → Type 0
Expelled p slug key s (replied (ok k), after) =
    (dict_get slug after.manager.agents ≡ none)
    × ((config : SocketSettings) (ws : ℕ) (name : String) → Rejects config ws name p key after)
Expelled p slug key s (replied (err e), after) = after ≡ s
Expelled p slug key s (replied hung, after) = ⊥
Expelled p slug key s (too_many, after) = ⊥
Expelled p slug key s (forbidden, after) = ⊥

agents-dropped :
    (t : Moment) (slug : String) (m : ConnectionManager ServerFrame)
    → (dropped t slug m).agents ≡ dict_del slug m.agents
agents-dropped t slug m = elim (Bool-cases (kick_agent slug m).0) [
  | inl e ↦ rw e (
      ap (λ r. r.0)
        (registry-broadcast_presence t.alive (presence slug offline) (kick_agent slug m).1)
      ∙ agents-kick_agent slug m)
  | inr e ↦ rw e (agents-kick_agent slug m)
]

replying-Expelled :
    (p : Primitives) (t : Moment) (slug key : String) (s : Server) (r : Result AgentKey × Db)
    → Shut p key s.db r
    → Expelled p slug key s
        (replying (pushing (λ k. manage (dropped t slug))) (r.0, record s { db = r.1 }))
replying-Expelled p t slug key s (ok k, db) h = (
  dropped-gone slug s.manager.agents (dropped t slug s.manager) (agents-dropped t slug s.manager),
  λ config ws name.
      shut-Rejects config ws name p key (record s { db = db; manager = dropped t slug s.manager })
        (h name),
)
replying-Expelled p t slug key s (err e, db) h = ap (λ d. record s { db = d }) h
replying-Expelled p t slug key s (hung, db) h = h

-- Where the key with this id is the one that the hash finds, a revocation that succeeds drops the
-- connection of its agent, and no hello with the key opens a connection any more, for any agent; one
-- that is refused changes nothing.
pub handle_revoke_key-Expelled :
    (p : Primitives) (t : Moment) (actor : User) (slug key : String) (k : AgentKey) (s : Server)
    → get_key_by_hash (hash_agent_key p key) s.db ≡ some k
    → get_key k.id s.db ≡ some k
    → Expelled p slug key s (handle_revoke_key t actor slug k.id s)
unfolding handle_revoke_key
handle_revoke_key-Expelled p t actor slug key k s h g =
    replying-Expelled p t slug key s (revoke_key t.env actor slug k.id s.db)
      (revoke_key-Shut p t.env actor slug key k s.db h g)
