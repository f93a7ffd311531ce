-- ===== src/Agents/Namespace.antt =====
-- Agents and groups share one namespace (hub/app/services/agent_service.py and group_service.py).
use ampla.Shared.{
  ◌≡◌, inl, inr, refl, String, Bool, true, false, not, ◌&&◌, ◌==◌, eq_string, eq_int, arith,
  Bool-cases, All, All-snoc, All-select, All-passes, All-map,
}
use ampla.Models.{Agent, Group, GroupMember}
use ampla.Hub.{Db}
use ampla.Kanban.Access.{get_agent}
use ampla.Agents.Slugs.{is_reserved}
use ampla.Agents.Repo.{
  get_group, agent_named, group_named, in_group, add_agent, save_agent, add_group, remove_group,
  add_group_member, remove_group_member,
}
use ampla.Agents.Service.{is_there}
use ampla.Agents.Names.{
  eq_same, is_there-none, find_row-snoc, there-snoc, find_row-select, there-select,
  there-update_rows,
}

abbrev pub has_agent : String → Db → Bool
has_agent slug db = is_there (get_agent slug db)

abbrev pub has_group : String → Db → Bool
has_group slug db = is_there (get_group slug db)

-- A slug is free of groups where it names an agent, and of both where it is reserved.
abbrev pub Apart : Db → Type 0
Apart db =
    (slug : String)
    → ((has_agent slug db && has_group slug db) ≡ false)
      × (is_reserved slug ≡ true → (has_agent slug db ≡ false) × (has_group slug db ≡ false))

-- A membership is of a group and of an agent that are there.
abbrev pub Known : Db → GroupMember → Type 0
Known db m = (has_group m.group_slug db ≡ true) × (has_agent m.agent_slug db ≡ true)

abbrev pub WellNamed : Db → Type 0
WellNamed db = Apart db × All (Known db) db.group_members

and_false : (b : Bool) → (b && false) ≡ false
and_false b = ground arith

-- ---- the writes ----

new_name :
    (slug other : String) (a g : Bool)
    → (slug == other) ≡ true
    → is_reserved slug ≡ false
    → is_reserved other ≡ true
    → ⊥
new_name slug other a g e r s = let same = rw (eq_same slug other e) at r in ground (arith, same, s)

module _ (db : Db) (w : WellNamed db) where
  pub add_agent-WellNamed :
      (a : Agent)
      → is_reserved a.slug ≡ false
      → has_group a.slug db ≡ false
      → WellNamed (add_agent a db).1
  unfolding add_agent
  add_agent-WellNamed a r g = (
    λ slug. elim (Bool-cases (agent_named slug a)) [
      | inl e ↦
          let same = eq_same a.slug slug e in
          let free = rw same at g in
          (
            rw free (and_false _),
            λ s. let out : ⊥ = new_name a.slug slug true true e r s in elim out [ ],
          )
      | inr e ↦ rw (find_row-snoc (agent_named slug) a db.agents e) (w.0 slug)
    ],
    All-map (Known db) _ db.group_members
        (λ m k. (k.0, there-snoc (agent_named m.agent_slug) a db.agents (inl k.1))) w.1,
  )

  pub add_group-WellNamed :
      (g : Group)
      → is_reserved g.slug ≡ false
      → has_agent g.slug db ≡ false
      → WellNamed (add_group g db).1
  unfolding add_group
  add_group-WellNamed g r a = (
    λ slug. elim (Bool-cases (group_named slug g)) [
      | inl e ↦
          let same = eq_same g.slug slug e in
          let free = rw same at a in
          (rw free refl, λ s. let out : ⊥ = new_name g.slug slug true true e r s in elim out [ ])
      | inr e ↦ rw (find_row-snoc (group_named slug) g db.groups e) (w.0 slug)
    ],
    All-map (Known db) _ db.group_members
        (λ m k. (there-snoc (group_named m.group_slug) g db.groups (inl k.0), k.1)) w.1,
  )

  pub save_agent-WellNamed : (a : Agent) → WellNamed (save_agent a db).1
  unfolding save_agent
  save_agent-WellNamed a = (
    λ slug. rw (kept slug) (w.0 slug),
    All-map (Known db) _ db.group_members (λ m k. (k.0, rw (kept m.agent_slug) k.1)) w.1,
  )
    where
      kept : (slug : String) → has_agent slug (save_agent a db).1 ≡ has_agent slug db
      kept slug =
          there-update_rows (agent_named slug) (agent_named a.slug) a db.agents
            (λ x h. rw (eq_same x.slug a.slug h) refl)

  pub add_group_member-WellNamed :
      (group_slug agent_slug : String)
      → has_group group_slug db ≡ true
      → has_agent agent_slug db ≡ true
      → WellNamed (add_group_member group_slug agent_slug db).1
  unfolding add_group_member
  add_group_member-WellNamed group_slug agent_slug g a =
      (w.0, All-snoc (Known db) db.group_members _ w.1 (g, a))

  pub remove_group_member-WellNamed :
      (group_slug agent_slug : String) → WellNamed (remove_group_member group_slug agent_slug db).1
  unfolding remove_group_member
  remove_group_member-WellNamed group_slug agent_slug =
      (w.0, All-select (Known db) _ db.group_members w.1)

  -- A membership that is left is of another group, which is still there.
  pub remove_group-WellNamed : (g : Group) → WellNamed (remove_group g db).1
  unfolding remove_group
  remove_group-WellNamed g = (
    λ slug. elim (Bool-cases (has_group slug db)) [
      | inl e ↦
          let free = left_false (has_agent slug db) (has_group slug db) (w.0 slug).0 e in
          (
            rw free refl,
            λ r. let out : ⊥ = taken (has_group slug db) e ((w.0 slug).1 r).1 in elim out [ ],
          )
      | inr e ↦
          let gone =
            find_row-select (group_named slug) (λ h. not (group_named g.slug h)) db.groups
              (is_there-none (get_group slug db) e) in
          (rw gone (and_false (has_agent slug db)), λ r. rw gone (((w.0 slug).1 r).0, refl))
    ],
    All-map (λ m. Known db m × (not (in_group g.slug m) ≡ true)) _ _
        (λ m k. (
          there-select (group_named m.group_slug) (λ h. not (group_named g.slug h)) db.groups
              (λ x e. rw (eq_same x.slug m.group_slug e) k.1) k.0.0,
          k.0.1,
        ))
        (All-passes (Known db) (λ m. not (in_group g.slug m)) db.group_members w.1),
  )
    where
      left_false : (a b : Bool) → (a && b) ≡ false → b ≡ true → a ≡ false
      left_false a b h k = ground (arith, h, k)

      taken : (b : Bool) → b ≡ true → b ≡ false → ⊥
      taken b h k = ground (arith, h, k)
