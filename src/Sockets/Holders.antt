-- ===== src/Sockets/Holders.antt =====
-- Whom the registry holds while a daemon is served (hub/app/api/routes/ws.py, the loop of
-- `_run_agent_connection`).
use ampla.Shared.{
  ℕ, ◌≡◌, sym, subst, ap, ◌∙◌, inl, inr, String, true, false, ◌==◌, eq_nat, eq_string, none, some,
  List, [], ◌∷◌, any, Bool-cases, if◌then◌else◌,
}
use ampla.Agents.Names.{eq_same}
use ampla.Sockets.{ObserverConn, dict_get, dict_set, dict_del, is_current, disconnect_agent}
use ampla.Sockets.Registry.{get-set, get-del}
use ampla.Sockets.Kept.{registry, Kept}
use ampla.Sockets.Steady.{step-Kept}
use ampla.Sockets.Ends.{departed-Kept}
use ampla.Sockets.Server.{Server, Moment, goes_on, leaves, stuck}
use ampla.Sockets.Route.{
  SocketSettings, Connection, Input, Turn, moment_of, concluded, step, departed, finish, serve,
}

abbrev pub Registered : Type 0
Registered = List (String × ℕ) × List ObserverConn

module _ (ws : ℕ) where
  -- The connection is that of no daemon and of no observer.
  abbrev pub Unheld : Registered → Type 0
  Unheld r =
      ((name : String) → ¬ (dict_get name r.0 ≡ some ws))
      × (any (λ (o : ObserverConn). o.ws == ws) r.1 ≡ false)

  -- It is at most that of this daemon.
  abbrev pub HeldBy : String → Registered → Type 0
  HeldBy slug r =
      ((name : String) → (slug == name) ≡ false → ¬ (dict_get name r.0 ≡ some ws))
      × (any (λ (o : ObserverConn). o.ws == ws) r.1 ≡ false)

  -- ---- daemons ----

  pub HeldBy-set :
      (slug : String) (agents : List (String × ℕ)) (observers : List ObserverConn)
      → Unheld (agents, observers)
      → HeldBy slug (dict_set slug ws agents, observers)
  HeldBy-set slug agents observers h = (
    λ name e k. h.0 name (
        sym (get-set name slug ws agents ∙ ap (λ b. if b then some ws else dict_get name agents) e)
        ∙ k),
    h.1,
  )

  HeldBy-del :
      (slug : String) (agents : List (String × ℕ)) (observers : List ObserverConn)
      → HeldBy slug (agents, observers)
      → HeldBy slug (dict_del slug agents, observers)
  HeldBy-del slug agents observers h = (
    λ name e k.
        h.0 name e (
          sym (get-del name slug agents ∙ ap (λ b. if b then none else dict_get name agents) e)
          ∙ k),
    h.1,
  )

  pub HeldBy-Unheld :
      (slug : String) (r : Registered) → HeldBy slug r → ¬ (dict_get slug r.0 ≡ some ws) → Unheld r
  HeldBy-Unheld slug r h k = (
    λ name held. elim (Bool-cases (slug == name)) [
      | inl e ↦ k (ap (λ n. dict_get n r.0) (eq_same slug name e) ∙ held)
      | inr e ↦ h.0 name e held
    ],
    h.1,
  )

  HeldBy-Kept :
      (slug : String) (s after : Server)
      → Kept s after
      → HeldBy slug (registry s.manager)
      → HeldBy slug (registry after.manager)
  HeldBy-Kept slug s after e h = subst (HeldBy slug) (sym e) h

  pub Unheld-Kept :
      (s after : Server)
      → Kept s after
      → Unheld (registry s.manager)
      → Unheld (registry after.manager)
  Unheld-Kept s after e h = subst Unheld (sym e) h

  finish-HeldBy :
      (config : SocketSettings) (slug : String) (t : Moment) (s : Server)
      → HeldBy slug (registry s.manager)
      → HeldBy slug (registry (finish config ws slug t s).manager)
  unfolding finish disconnect_agent
  finish-HeldBy config slug t s h =
      elim (Bool-cases (is_current (dict_get slug s.manager.agents) ws)) [
        | inr e ↦ rw e h
        | inl e ↦
            let fewer = record s {
              manager = record s.manager { agents = dict_del slug s.manager.agents };
            } in
            rw e (
              HeldBy-Kept slug fewer (departed config ws slug t true fewer)
                (departed-Kept config ws slug t true fewer)
                (HeldBy-del slug s.manager.agents s.manager.observers h))
      ]

  concluded-HeldBy :
      (config : SocketSettings) (slug : String) (t : Moment) (next rest : Turn)
      → HeldBy slug (registry next.2.manager)
      → HeldBy slug (registry rest.2.manager)
      → HeldBy slug (registry (concluded config ws slug t next rest).2.manager)
  concluded-HeldBy config slug t (goes_on, conn, s) rest h k = k
  concluded-HeldBy config slug t (leaves, conn, s) rest h k = finish-HeldBy config slug t s h
  concluded-HeldBy config slug t (stuck, conn, s) rest h k = h

  pub serve-HeldBy :
      (config : SocketSettings) (slug : String) (inputs : List Input) (conn : Connection)
      (s : Server)
      → HeldBy slug (registry s.manager)
      → HeldBy slug (registry (serve config ws slug inputs conn s).2.manager)
  unfolding serve
  serve-HeldBy config slug [] conn s h = h
  serve-HeldBy config slug (i ∷ is) conn s h =
      let next = step config ws slug i conn s in
      let held = HeldBy-Kept slug s next.2 (step-Kept config ws slug i conn s) h in
      concluded-HeldBy config slug (moment_of i) next (serve config ws slug is next.1 next.2) held
        (serve-HeldBy config slug is next.1 next.2 held)
