-- ===== src/Sockets/Leaving.antt =====
-- No connection outlives its end in the registry (hub/app/api/routes/ws.py, `ws_endpoint` with both
-- kinds of connections).
use ampla.Shared.{
  ℕ, ◌≡◌, refl, sym, subst, ◌∙◌, inl, inr, String, true, false, not, ◌==◌, eq_nat, eq_string,
  Option, none, some, List, [], ◌∷◌, any, select, arith, Bool-cases, ltb,
}
use ampla.Models.{User, Agent}
use ampla.Hub.Exec.{Result, ok, err, hung}
use ampla.Auth.Security.{Primitives, AuthSettings}
use ampla.Sockets.{
  ObserverConn, dict_get, dict_set, connect_agent, add_observer, remove_observer,
  broadcast_presence, close_quietly,
}
use ampla.Sockets.Kept.{registry, Kept, registry-send_quietly, registry-broadcast_presence}
use ampla.Sockets.Ends.{serve-closed}
use ampla.Sockets.Frames.{presence, online, error_frame}
use ampla.Sockets.Server.{Server, Moment, goes_on, leaves, stuck, After, in_session}
use ampla.Sockets.Route.{
  SocketSettings, Input, received, beat, gone, Turn, opening, Snapshot, welcomed, turned_away,
  admitted, open_connection,
}
use ampla.Sockets.Endpoint.{
  HelloFrame, Greeting, gave_up, timed_out, said, given, recognized, watching, watch, watch_after,
  run_observer_connection, serve_after, run_agent_connection, or_cookie, without_key, with_parts,
  greeted, ws_endpoint,
}
use ampla.Sockets.Holders.{
  Registered, Unheld, HeldBy, HeldBy-set, HeldBy-Unheld, Unheld-Kept, serve-HeldBy,
}

module _ (ws : ℕ) where
  -- An end that the connection comes to leaves it unheld.
  abbrev Ended : After → Type 0
  Ended (loop, s) = loop ≡ leaves → Unheld ws (registry s.manager)

  serve_after-Ended :
      (config : SocketSettings) (p : Primitives) (auth : AuthSettings) (slug : String)
      (inputs : List Input) (x : Turn)
      → HeldBy ws slug (registry x.2.manager)
      → (x.0 ≡ leaves → Unheld ws (registry x.2.manager))
      → Ended (serve_after config p auth ws slug inputs x)
  serve_after-Ended config p auth slug inputs (goes_on, conn, s) h k = λ e.
      HeldBy-Unheld ws slug _ (serve-HeldBy ws config slug inputs conn s h)
        (serve-closed config ws slug inputs conn s e)
  serve_after-Ended config p auth slug inputs (leaves, conn, s) h k = k
  serve_after-Ended config p auth slug inputs (stuck, conn, s) h k = k

  Unheld-HeldBy : (slug : String) (r : Registered) → Unheld ws r → HeldBy ws slug r
  Unheld-HeldBy slug r h = ((λ name e. h.0 name), h.1)

  turned_away-Kept :
      (config : SocketSettings) (slug : String) (t : Moment) (s : Server)
      → Kept s (turned_away config ws slug t s).2
  turned_away-Kept config slug t s =
      let same = registry-send_quietly t.alive (error_frame "auth_failed") ws s.manager in
      elim (Bool-cases (t.alive ws)) [ inl e ↦ rw e (rw e at same) | inr e ↦ rw e (rw e at same) ]

  welcomed-HeldBy :
      (config : SocketSettings) (slug : String) (t : Moment) (snapshot : Snapshot config ws slug)
      (s : Server)
      → Unheld ws (registry s.manager)
      → HeldBy ws slug (registry (welcomed config ws slug t snapshot s).2.manager)
  unfolding connect_agent
  welcomed-HeldBy config slug t snapshot s h =
      let joined = connect_agent slug ws s.manager in
      let told = broadcast_presence t.alive (presence slug online) joined in
      subst (HeldBy ws slug)
        (sym (
          registry-send_quietly t.alive _ ws told
          ∙ registry-broadcast_presence t.alive (presence slug online) joined))
        (by_previous (dict_get slug s.manager.agents))
    where
      by_previous :
          (found : Option ℕ)
          → HeldBy ws slug (
              registry (
                close_quietly found 4000
                  (record s.manager { agents = dict_set slug ws s.manager.agents })))
      by_previous none = HeldBy-set ws slug s.manager.agents s.manager.observers h
      by_previous (some old) = HeldBy-set ws slug s.manager.agents s.manager.observers h

  admitted-Ended :
      (config : SocketSettings) (p : Primitives) (auth : AuthSettings) (slug : String) (t : Moment)
      (inputs : List Input) (r : Result (Option (Snapshot config ws slug)) × Server)
      → Unheld ws (registry r.1.manager)
      → t.alive ws ≡ true
      → Ended (serve_after config p auth ws slug inputs (admitted config ws slug t r))
  admitted-Ended config p auth slug t inputs (ok none, s) h a =
      let unheld =
        Unheld-Kept ws s (turned_away config ws slug t s).2 (turned_away-Kept config slug t s) h in
      serve_after-Ended config p auth slug inputs (turned_away config ws slug t s)
        (Unheld-HeldBy slug _ unheld) (λ e. unheld)
  admitted-Ended config p auth slug t inputs (ok (some snapshot), s) h a =
      serve_after-Ended config p auth slug inputs (welcomed config ws slug t snapshot s)
        (welcomed-HeldBy config slug t snapshot s h)
        (rw a (λ e. let out : ⊥ = ground (arith, e) in elim out [ ]))
  admitted-Ended config p auth slug t inputs (err x, s) h a = λ e. h
  admitted-Ended config p auth slug t inputs (hung, s) h a = λ e. h

  -- ---- observers ----

  any-removed :
      (os : List ObserverConn)
      → any (λ (o : ObserverConn). o.ws == ws) (select (λ (o : ObserverConn). not (o.ws == ws)) os)
        ≡ false
  any-removed [] = refl
  any-removed (o ∷ os) = elim (Bool-cases (o.ws == ws)) [
    | inl e ↦ rw e (any-removed os)
    | inr e ↦ rw (e, e) (any-removed os)
  ]

  module _ (config : SocketSettings) (p : Primitives) (auth : AuthSettings) where
    watch-Ended :
        (inputs : List Input) (s : Server)
        → ((name : String) → ¬ (dict_get name s.manager.agents ≡ some ws))
        → Ended (watch config p auth ws inputs s)
    unfolding remove_observer
    watch-Ended [] s h = λ e. let out : ⊥ = ground (arith, e) in elim out [ ]
    watch-Ended (received t size frame ∷ is) s h = watch-Ended is s h
    watch-Ended (beat t ∷ is) s h = watch-Ended is s h
    watch-Ended (gone t ∷ is) s h = λ e. (h, any-removed s.manager.observers)

    watching-Ended :
        (t : Moment) (inputs : List Input) (r : Result (Option (User × List Agent)) × Server)
        → Unheld ws (registry r.1.manager)
        → t.alive ws ≡ true
        → Ended (watch_after config p auth ws inputs (watching config p auth ws t r))
    unfolding add_observer
    watching-Ended t inputs (ok none, s) h a = rw a (λ e. h)
    watching-Ended t inputs (ok (some (user, agents)), s) h a = rw a (watch-Ended inputs _ h.0)
    watching-Ended t inputs (err x, s) h a = λ e. h
    watching-Ended t inputs (hung, s) h a = λ e. h

    run_observer_connection-Ended :
        (t : Moment) (token : String) (inputs : List Input) (s : Server)
        → Unheld ws (registry s.manager)
        → t.alive ws ≡ true
        → Ended (run_observer_connection config p auth ws t token inputs s)
    unfolding run_observer_connection
    run_observer_connection-Ended t token inputs s =
        watching-Ended t inputs (in_session (recognized config p auth ws token) s)

    -- ---- the endpoint ----

    run_agent_connection-Ended :
        (t : Moment) (slug key : String) (inputs : List Input) (s : Server)
        → Unheld ws (registry s.manager)
        → t.alive ws ≡ true
        → Ended (run_agent_connection config p auth ws t slug key inputs s)
    unfolding run_agent_connection open_connection
    run_agent_connection-Ended t slug key inputs s =
        admitted-Ended config p auth slug t inputs
          (in_session (opening config ws slug p t.env key) s)

    without_key-Ended :
        (t : Moment) (token : Option String) (inputs : List Input) (s : Server)
        → Unheld ws (registry s.manager)
        → t.alive ws ≡ true
        → Ended (without_key config p auth ws t token inputs s)
    without_key-Ended t (some token) inputs s h a =
        run_observer_connection-Ended t token inputs s h a
    without_key-Ended t none inputs s h a = rw a (λ e. h)

    with_parts-Ended :
        (t : Moment) (slug key token : Option String) (inputs : List Input) (s : Server)
        → Unheld ws (registry s.manager)
        → t.alive ws ≡ true
        → Ended (with_parts config p auth ws t slug key token inputs s)
    with_parts-Ended t (some slug) (some key) token inputs s =
        run_agent_connection-Ended t slug key inputs s
    with_parts-Ended t (some slug) none token inputs s = without_key-Ended t token inputs s
    with_parts-Ended t none key token inputs s = without_key-Ended t token inputs s

    -- A connection that has ended, of a daemon or of an observer, accepted or not, is held by neither
    -- registry: where it was new to them, and its socket was alive when it opened.
    pub ws_endpoint-Unheld :
        (t : Moment) (greeting : Greeting) (cookie : Option String) (inputs : List Input)
        (s : Server)
        → Unheld ws (registry s.manager)
        → t.alive ws ≡ true
        → (ws_endpoint config p auth ws t greeting cookie inputs s).0 ≡ leaves
        → Unheld ws (registry (ws_endpoint config p auth ws t greeting cookie inputs s).1.manager)
    unfolding ws_endpoint
    ws_endpoint-Unheld t gave_up cookie inputs s h a = λ e. h
    ws_endpoint-Unheld t timed_out cookie inputs s h a = λ e. h
    ws_endpoint-Unheld t (said size hello) cookie inputs s h a =
        elim (Bool-cases (ltb config.ws_max_frame_bytes size)) [
          | inl e ↦ rw e (λ k. h)
          | inr e ↦ rw e (by_hello hello)
        ]
      where
        by_hello :
            (hello : Option HelloFrame) → Ended (greeted config p auth ws t hello cookie inputs s)
        by_hello none = λ e. h
        by_hello (some f) =
            with_parts-Ended t (given f.agent_id) (given f.key)
              (or_cookie config p auth ws (given f.jwt) (given cookie)) inputs s h a
