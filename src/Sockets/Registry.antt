-- ===== src/Sockets/Registry.antt =====
-- Which connection is an agent's (hub/app/ws/connection_manager.py).
use ampla.Shared.{
  ℕ, ◌≡◌, ◌↔◌, refl, sym, ap, ◌∙◌, inl, inr, String, Bool, true, false, ◌&&◌, ◌==◌, eq_nat,
  eq_string, Option, none, some, List, [], ◌∷◌, arith, Bool-cases, if◌then◌else◌, nat_eq,
}
use ampla.Agents.Names.{eq_refl, eq_same}
use ampla.Sockets.{
  ConnectionManager, dict_get, dict_set, dict_del, connect_agent, disconnect_agent, kick_agent,
  is_current, close_quietly,
}

-- What happens to the registry.
pub data Happening : Type 0 where
  connected disconnected : (slug : String) (ws : ℕ) → Happening
  kicked : (slug : String) → Happening

module _ {Payload : Type 0} where
  abbrev pub happen : Happening → ConnectionManager Payload → ConnectionManager Payload
  happen (connected slug ws) m = connect_agent slug ws m
  happen (disconnected slug ws) m = (disconnect_agent slug ws m).1
  happen (kicked slug) m = (kick_agent slug m).1

  -- newest first
  abbrev pub after_all : List Happening → ConnectionManager Payload → ConnectionManager Payload
  after_all [] m = m
  after_all (h ∷ older) m = happen h (after_all older m)

-- The connection is the last that was opened for the agent, and since then it was not closed by its
-- own end and the agent was not kicked.
abbrev pub Current : String → ℕ → List Happening → Type 0
Current slug ws [] = ⊥
Current slug ws (connected s w ∷ older) = if s == slug then w ≡ ws else Current slug ws older
Current slug ws (disconnected s w ∷ older) =
    Current slug ws older × ((s == slug && w == ws) ≡ false)
Current slug ws (kicked s ∷ older) = Current slug ws older × ((s == slug) ≡ false)

-- ---- a dict after a write ----

other_slug : (k s slug : String) → k ≡ slug → (k == s) ≡ false → (s == slug) ≡ false
other_slug k s slug f e = elim (Bool-cases (s == slug)) [
  | inr g ↦ g
  | inl g ↦
      let same : k ≡ s = f ∙ sym (eq_same s slug g) in
      let r = rw same at e in
      let t = eq_refl s in let out : ⊥ = ground (arith, r, t) in elim out [ ]
]

pub get-set :
    (slug s : String) (w : ℕ) (d : List (String × ℕ))
    → dict_get slug (dict_set s w d) ≡ (if s == slug then some w else dict_get slug d)
get-set slug s w [] = refl
get-set slug s w ((k, v) ∷ d) = elim (Bool-cases (k == s)) [
  | inl e ↦ elim (Bool-cases (s == slug)) [
    | inl g ↦ rw (e, eq_same k s e, g) refl
    | inr g ↦ rw (e, eq_same k s e, g) refl
  ]
  | inr e ↦ elim (Bool-cases (k == slug)) [
    | inl f ↦ rw (e, f, other_slug k s slug (eq_same k slug f) e) refl
    | inr f ↦ rw (e, f) (get-set slug s w d)
  ]
]

pub get-del :
    (slug s : String) (d : List (String × ℕ))
    → dict_get slug (dict_del s d) ≡ (if s == slug then none else dict_get slug d)
get-del slug s [] = elim (Bool-cases (s == slug)) [ inl e ↦ rw e refl | inr e ↦ rw e refl ]
get-del slug s ((k, v) ∷ d) =
    let rest = get-del slug s d in
    elim (Bool-cases (k == s)) [
      | inl e ↦ elim (Bool-cases (s == slug)) [
        | inl g ↦ rw (e, g) (rw g at rest)
        | inr g ↦ rw (e, eq_same k s e, g) (rw g at rest)
      ]
      | inr e ↦ elim (Bool-cases (k == slug)) [
        | inr f ↦ rw (e, f) rest
        | inl f ↦ rw (e, f, other_slug k s slug (eq_same k slug f) e) refl
      ]
    ]

-- ---- the registry ----

module _ {Payload : Type 0} where
  pub agents-close_quietly :
      (o : Option ℕ) (code : ℕ) (m : ConnectionManager Payload)
      → (close_quietly o code m).agents ≡ m.agents
  agents-close_quietly none code m = refl
  agents-close_quietly (some ws) code m = refl

  -- A registry that holds exactly the current connections.
  abbrev pub Holds : List Happening → ConnectionManager Payload → Type 0
  Holds hs m = (slug : String) (ws : ℕ) → (dict_get slug m.agents ≡ some ws) ↔ Current slug ws hs

  connect_agent-Holds :
      (s : String) (w : ℕ) (hs : List Happening) (m : ConnectionManager Payload)
      → Holds hs m
      → Holds (connected s w ∷ hs) (connect_agent s w m)
  unfolding connect_agent
  connect_agent-Holds s w hs m h slug ws =
      rw
        (
          agents-close_quietly (dict_get s m.agents) 4000
              (record m { agents = dict_set s w m.agents }),
          get-set slug s w m.agents,
        )
        (elim (Bool-cases (s == slug)) [
          | inl e ↦ rw e ((λ k. same k), λ k. ap some k)
          | inr e ↦ rw e (h slug ws)
        ])
    where
      same : some w ≡ some ws → w ≡ ws
      same k = cc

  kick_agent-Holds :
      (s : String) (hs : List Happening) (m : ConnectionManager Payload)
      → Holds hs m
      → Holds (kicked s ∷ hs) (kick_agent s m).1
  unfolding kick_agent
  kick_agent-Holds s hs m h slug ws =
      rw
        (
          agents-close_quietly (dict_get s m.agents) 4001
              (record m { agents = dict_del s m.agents }),
          get-del slug s m.agents,
        )
        (elim (Bool-cases (s == slug)) [
          | inl e ↦ rw e ((λ k. lost k), λ k. shown k.1)
          | inr e ↦ rw e ((λ k. ((h slug ws).0 k, refl)), λ k. (h slug ws).1 k.0)
        ])
    where
      lost : none ≡ some ws → Current slug ws hs × (true ≡ false)
      lost k = let out : ⊥ = ground (arith, k) in elim out [ ]

      shown : true ≡ false → none ≡ some ws
      shown k = let out : ⊥ = ground (arith, k) in elim out [ ]

  disconnect_agent-Holds :
      (s : String) (w : ℕ) (hs : List Happening) (m : ConnectionManager Payload)
      → Holds hs m
      → Holds (disconnected s w ∷ hs) (disconnect_agent s w m).1
  unfolding disconnect_agent
  disconnect_agent-Holds s w hs m h slug ws =
      elim (Bool-cases (is_current (dict_get s m.agents) w)) [
        | inl c ↦
            rw (c, get-del slug s m.agents)
              (elim (Bool-cases (s == slug)) [
                | inl e ↦ rw e (
                  (λ k. let out : ⊥ = ground (arith, k) in elim out [ ]),
                  λ k. let out : ⊥ = held e c ((h slug ws).1 k.0) k.1 in elim out [ ],
                )
                | inr e ↦ rw e ((λ k. ((h slug ws).0 k, refl)), λ k. (h slug ws).1 k.0)
              ])
        | inr c ↦ rw c ((λ k. ((h slug ws).0 k, apart c k)), λ k. (h slug ws).1 k.0)
      ]
    where
      at_slug :
          (b : Bool)
          → (s == slug) ≡ true
          → is_current (dict_get s m.agents) w ≡ b
          → dict_get slug m.agents ≡ some ws
          → nat_eq ws w ≡ b
      at_slug b e c k = rw (eq_same s slug e, k) at c

      held :
          (s == slug) ≡ true
          → is_current (dict_get s m.agents) w ≡ true
          → dict_get slug m.agents ≡ some ws
          → (true && nat_eq w ws) ≡ false
          → ⊥
      held e c k n = let same = at_slug true e c k in ground (arith, same, n)

      apart :
          is_current (dict_get s m.agents) w ≡ false
          → dict_get slug m.agents ≡ some ws
          → (s == slug && nat_eq w ws) ≡ false
      apart c k = elim (Bool-cases (s == slug)) [
        | inr e ↦ rw e refl
        | inl e ↦ let differ = at_slug false e c k in rw e (ground (arith, differ))
      ]

  happen-Holds :
      (x : Happening) (hs : List Happening) (m : ConnectionManager Payload)
      → Holds hs m
      → Holds (x ∷ hs) (happen x m)
  happen-Holds (connected s w) hs m h = connect_agent-Holds s w hs m h
  happen-Holds (disconnected s w) hs m h = disconnect_agent-Holds s w hs m h
  happen-Holds (kicked s) hs m h = kick_agent-Holds s hs m h

  -- From a registry without agents, whatever connects, disconnects and is kicked in whatever order,
  -- the registry holds for each agent the connection that was opened last, unless that one closed or
  -- the agent was kicked since: the end of a replaced connection never removes its successor.
  pub after_all-Holds :
      (hs : List Happening) (m : ConnectionManager Payload)
      → m.agents ≡ []
      → Holds hs (after_all hs m)
  after_all-Holds [] m e = λ slug ws. rw e ((λ k. ground (arith, k)), λ k. elim k [ ])
  after_all-Holds (x ∷ hs) m e = happen-Holds x hs (after_all hs m) (after_all-Holds hs m e)
