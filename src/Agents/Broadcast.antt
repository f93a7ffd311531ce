-- ===== src/Agents/Broadcast.antt =====
-- Whom a broadcast reaches (hub/app/services/group_service.py, `resolve_recipients`).
use ampla.Shared.{
  ◌≡◌, ◌≢◌, ◌↔◌, ◌⊎◌, inl, inr, refl, ap, subst, arith, String, Bool, true, false, not, ◌==◌,
  eq_string, none, some, List, [], ◌∷◌, map, Bool-cases, Option-cases, All, select, find_row, In,
  In-select, In-order_by,
}
use ampla.Models.{Agent, GroupMember}
use ampla.Hub.{Db}
use ampla.Hub.Exec.{Result, ok, err, hung}
use ampla.Agents.Slugs.{string_leb}
use ampla.Agents.Repo.{get_group, agent_named, in_group, members_of, list_all_agents, by_agent_slug}
use ampla.Agents.Service.{is_there}
use ampla.Agents.Groups.{group_name, resolve_recipients}
use ampla.Agents.Names.{eq_refl, eq_same}
use ampla.Agents.Namespace.{has_agent, WellNamed, Known}

-- The slug is addressed by a name: `all` is every agent, and another name is the group's members.
abbrev pub Addressed : String → String → Db → Type 0
Addressed name slug db =
    ((name ≡ "all") × (a : Agent) × In a db.agents × (a.slug ≡ slug))
    ⊎ ((name ≢ "all")
        × (m : GroupMember) × In m db.group_members
        × (m.group_slug ≡ name)
        × (m.agent_slug ≡ slug))

-- The recipients are those addressed, less the sender, and each is an agent that is there. An error
-- is of a reference without `@` or to a group that is not there. Nothing is written.
abbrev pub Resolved : String → String → Db → Result (List String) × Db → Type 0
Resolved group_ref sender db (ok slugs, after) =
    (after ≡ db)
    × (name : String) × (group_name group_ref ≡ some name)
    × ((slug : String) → In slug slugs ↔ (Addressed name slug db × (slug ≢ sender)))
    × ((slug : String) → In slug slugs → has_agent slug db ≡ true)
Resolved group_ref sender db (err e, after) =
    (after ≡ db)
    × ((group_name group_ref ≡ none)
        ⊎ ((name : String) × (group_name group_ref ≡ some name)
            × (name ≢ "all")
            × (get_group name db ≡ none)))
Resolved group_ref sender db (hung, after) = ⊥

module _ {A : Type 0} where
  map→In :
      {B : Type 0} (f : A → B) (y : B) (xs : List A)
      → In y (map f xs)
      → (x : A) × In x xs × (f x ≡ y)
  map→In f y [] i = elim i [ ]
  map→In f y (x ∷ xs) (inl e) = (x, inl refl, e)
  map→In f y (x ∷ xs) (inr i) = let r = map→In f y xs i in (r.0, inr r.1, r.2)

  In→map : {B : Type 0} (f : A → B) (x : A) (xs : List A) → In x xs → In (f x) (map f xs)
  In→map f x [] i = elim i [ ]
  In→map f x (z ∷ xs) (inl e) = inl (ap f e)
  In→map f x (z ∷ xs) (inr i) = inr (In→map f x xs i)

  All-In : (P : A → Type 0) (x : A) (xs : List A) → All P xs → In x xs → P x
  All-In P x [] a i = elim i [ ]
  All-In P x (z ∷ xs) a (inl e) = subst P e a.0
  All-In P x (z ∷ xs) a (inr i) = All-In P x xs a.1 i

  there-In :
      (p : A → Bool) (x : A) (xs : List A) → In x xs → p x ≡ true → is_there (find_row p xs) ≡ true
  there-In p x [] i h = elim i [ ]
  there-In p x (z ∷ xs) (inl e) h = rw (e, h) refl
  there-In p x (z ∷ xs) (inr i) h = elim (Bool-cases (p z)) [
    | inl e ↦ rw e refl
    | inr e ↦ rw e (there-In p x xs i h)
  ]

-- ---- who is addressed ----

module _ (db : Db) where
  agents-In :
      (slug : String)
      → In slug (map (λ (a : Agent). a.slug) (list_all_agents db))
        ↔ ((a : Agent) × In a db.agents × (a.slug ≡ slug))
  unfolding list_all_agents
  agents-In slug = (
    λ i.
        let r = map→In (λ (a : Agent). a.slug) slug (list_all_agents db) i in
        (r.0, (In-order_by by_agent_slug r.0 db.agents).0 r.1, r.2),
    λ r.
        subst (λ s. In s (map (λ (a : Agent). a.slug) (list_all_agents db))) r.2
          (In→map (λ (a : Agent). a.slug) r.0 (list_all_agents db)
            ((In-order_by by_agent_slug r.0 db.agents).1 r.1)),
  )

  members-In :
      (name slug : String)
      → In slug (members_of name db) ↔ (
          (m : GroupMember) × In m db.group_members × (m.group_slug ≡ name) × (m.agent_slug ≡ slug))
  unfolding members_of
  members-In name slug = (
    λ i.
        let r =
          map→In (λ (m : GroupMember). m.agent_slug) slug (select (in_group name) db.group_members)
            ((In-order_by string_leb slug _).0 i) in
        let s = (In-select (in_group name) r.0 db.group_members).0 r.1 in
        (r.0, s.0, eq_same r.0.group_slug name s.1, r.2),
    λ r. (In-order_by string_leb slug _).1 (
        subst
          (λ s.
            In s
              (map (λ (m : GroupMember). m.agent_slug) (select (in_group name) db.group_members)))
          r.3
          (In→map (λ (m : GroupMember). m.agent_slug) r.0 (select (in_group name) db.group_members)
            ((In-select (in_group name) r.0 db.group_members).1 (r.1, rw r.2 (eq_refl name))))),
  )

  -- Without the sender.
  others-In :
      (sender slug : String) (slugs : List String)
      → In slug (select (λ s. not (s == sender)) slugs) ↔ (In slug slugs × (slug ≢ sender))
  others-In sender slug slugs = (
    λ i.
        let r = (In-select (λ s. not (s == sender)) slug slugs).0 i in
        (r.0, λ e. out (rw (e, eq_refl sender) at r.1)),
    λ r. (In-select (λ s. not (s == sender)) slug slugs).1 (r.0, differ r.1),
  )
    where
      out : not true ≡ true → ⊥
      out h = ground (arith, h)

      differ : slug ≢ sender → not (slug == sender) ≡ true
      differ n = elim (Bool-cases (slug == sender)) [
        | inl e ↦ let x : ⊥ = n (eq_same slug sender e) in elim x [ ]
        | inr e ↦ rw e refl
      ]

  Addressed-known :
      (name slug : String) → WellNamed db → Addressed name slug db → has_agent slug db ≡ true
  Addressed-known name slug w (inl (e, a, i, s)) =
      there-In (agent_named slug) a db.agents i (rw s (eq_refl slug))
  Addressed-known name slug w (inr (e, m, i, g, s)) =
      rw (← s) (All-In (Known db) m db.group_members w.1 i).1

  resolved :
      (group_ref sender name : String) (slugs : List String)
      → WellNamed db
      → group_name group_ref ≡ some name
      → ((slug : String) → In slug slugs ↔ Addressed name slug db)
      → Resolved group_ref sender db (ok (select (λ s. not (s == sender)) slugs), db)
  resolved group_ref sender name slugs w h a = (
    refl,
    name,
    h,
    λ slug. (
      λ i. let r = (others-In sender slug slugs).0 i in ((a slug).0 r.0, r.1),
      λ r. (others-In sender slug slugs).1 ((a slug).1 r.0, r.1),
    ),
    λ slug i. Addressed-known name slug w ((a slug).0 ((others-In sender slug slugs).0 i).0),
  )

  every_agent :
      (name slug : String)
      → name ≡ "all"
      → In slug (map (λ (a : Agent). a.slug) (list_all_agents db)) ↔ Addressed name slug db
  every_agent name slug e = (λ i. let r = (agents-In slug).0 i in inl (e, r.0, r.1, r.2), back)
    where
      back : Addressed name slug db → In slug (map (λ (a : Agent). a.slug) (list_all_agents db))
      back (inl (f, a, i, s)) = (agents-In slug).1 (a, i, s)
      back (inr (n, m, i, g, s)) = let out : ⊥ = n e in elim out [ ]

  members_only :
      (name slug : String) → name ≢ "all" → In slug (members_of name db) ↔ Addressed name slug db
  members_only name slug n =
      (λ i. let r = (members-In name slug).0 i in inr (n, r.0, r.1, r.2, r.3), back)
    where
      back : Addressed name slug db → In slug (members_of name db)
      back (inl (e, a, i, s)) = let out : ⊥ = n e in elim out [ ]
      back (inr (f, m, i, g, s)) = (members-In name slug).1 (m, i, g, s)

unequal : (a b : String) → (a == b) ≡ false → a ≢ b
unequal a b h e = let same = rw e at h in let k = eq_refl b in ground (arith, same, k)

-- Where memberships are of agents that are there, `@all` resolves to every agent and `@name` to the
-- members of the group, in both cases without the sender and without slugs that name no agent; a
-- reference without `@` and a group that is not there are errors. Nothing is written.
pub resolve_recipients-Resolved :
    (group_ref sender : String) (db : Db)
    → WellNamed db
    → Resolved group_ref sender db (resolve_recipients group_ref sender db)
unfolding resolve_recipients
resolve_recipients-Resolved group_ref sender db w = elim (Option-cases (group_name group_ref)) [
  | inl h ↦ rw h (refl, inl h)
  | inr (name, h) ↦ elim (Bool-cases (name == "all")) [
    | inl e ↦
        rw (h, e)
          (resolved db group_ref sender name _ w h
            (λ slug. every_agent db name slug (eq_same name "all" e)))
    | inr e ↦ elim (Option-cases (get_group name db)) [
      | inl g ↦ rw (h, e, g) (refl, inr (name, h, unequal name "all" e, g))
      | inr (g, k) ↦
          rw (h, e, k)
            (resolved db group_ref sender name _ w h
              (λ slug. members_only db name slug (unequal name "all" e)))
    ]
  ]
]
