-- ===== src/Agents/Calls.antt =====
-- The calls of the agent and group services as the steps of the namespace.
use ampla.Shared.{
  inl, inr, refl, String, false, not, eq_int, List, [], ◌∷◌, Bool-cases, Option-cases,
  if◌then◌else◌, ◌==◌,
}
use ampla.Models.{User, is_admin}
use ampla.Hub.{Db, Env}
use ampla.Hub.Exec.{audit}
use ampla.Kanban.Access.{get_agent}
use ampla.Approvals.{manages}
use ampla.Agents.Slugs.{is_slug, is_reserved}
use ampla.Agents.Repo.{
  get_group, in_members, add_agent, save_agent, add_group, remove_group, add_group_member,
  remove_group_member,
}
use ampla.Agents.Settings.{AgentSettingsUpdate, patched, valid_senders, present_slugs}
use ampla.Agents.Service.{new_agent, create_agent, update_settings, get_owned}
use ampla.Agents.Groups.{
  create_group, delete_group, add_member, remove_member, group_or_raise, authorize_member_change,
}
use ampla.Agents.Namespace.{
  WellNamed, has_agent, has_group, add_agent-WellNamed, add_group-WellNamed, save_agent-WellNamed,
  add_group_member-WellNamed, remove_group_member-WellNamed, remove_group-WellNamed,
}

pub data NameCall : Type 0 where
  creating_agent : (env : Env) (owner : User) (slug display_name : String) → NameCall
  patching : (actor : User) (slug : String) (patch : AgentSettingsUpdate) → NameCall
  creating_group : (env : Env) (actor : User) (slug display_name : String) → NameCall
  deleting_group : (actor : User) (slug : String) → NameCall
  joining leaving : (actor : User) (group_slug agent_slug : String) → NameCall

-- The state after the call.
abbrev pub serve : NameCall → Db → Db
serve (creating_agent env owner slug display_name) db =
    (create_agent env owner slug display_name db).1
serve (patching actor slug patch) db = (update_settings actor slug patch db).1
serve (creating_group env actor slug display_name) db =
    (create_group env actor slug display_name db).1
serve (deleting_group actor slug) db = (delete_group actor slug db).1
serve (joining actor group_slug agent_slug) db = (add_member actor group_slug agent_slug db).1
serve (leaving actor group_slug agent_slug) db = (remove_member actor group_slug agent_slug db).1

abbrev pub serve_all : List NameCall → Db → Db
serve_all [] db = db
serve_all (c ∷ cs) db = serve_all cs (serve c db)

module _ (db : Db) (w : WellNamed db) where
  create_agent-WellNamed :
      (env : Env) (owner : User) (slug display_name : String)
      → WellNamed (create_agent env owner slug display_name db).1
  unfolding create_agent audit add_agent
  create_agent-WellNamed env owner slug display_name = elim (Bool-cases (is_slug slug)) [
    | inr s ↦ rw s w
    | inl s ↦ elim (Bool-cases (is_reserved slug)) [
      | inl r ↦ rw (s, r) w
      | inr r ↦ elim (Bool-cases (has_agent slug db)) [
        | inl a ↦ rw (s, r, a) w
        | inr a ↦ elim (Bool-cases (has_group slug db)) [
          | inl g ↦ rw (s, r, a, g) w
          | inr g ↦
              rw (s, r, a, g) (add_agent-WellNamed db w (new_agent env owner slug display_name) r g)
        ]
      ]
    ]
  ]

  create_group-WellNamed :
      (env : Env) (actor : User) (slug display_name : String)
      → WellNamed (create_group env actor slug display_name db).1
  unfolding create_group audit add_group
  create_group-WellNamed env actor slug display_name = elim (Bool-cases (is_reserved slug)) [
    | inl r ↦ rw r w
    | inr r ↦ elim (Bool-cases (has_group slug db)) [
      | inl g ↦ rw (r, g) w
      | inr g ↦ elim (Bool-cases (has_agent slug db)) [
        | inl a ↦ rw (r, g, a) w
        | inr a ↦
            rw (r, g, a)
              (add_group-WellNamed db w
                (record {
                  slug = slug;
                  display_name = display_name;
                  created_by = actor.id;
                  created_at = env.now;
                })
                r a)
      ]
    ]
  ]

  update_settings-WellNamed :
      (actor : User) (slug : String) (patch : AgentSettingsUpdate)
      → WellNamed (update_settings actor slug patch db).1
  unfolding update_settings get_owned audit save_agent
  update_settings-WellNamed actor slug patch = elim (Option-cases (get_agent slug db)) [
    | inl h ↦ rw h w
    | inr (a, h) ↦ elim (Bool-cases (manages actor a)) [
      | inr m ↦ rw (h, m) w
      | inl m ↦ elim (Bool-cases (valid_senders patch)) [
        | inr v ↦ rw (h, m, v) w
        | inl v ↦ elim (Bool-cases (present_slugs patch.trusted_senders)) [
          | inr t ↦ rw (h, m, v, t) w
          | inl t ↦ rw (h, m, v, t) (save_agent-WellNamed db w (patched patch a))
        ]
      ]
    ]
  ]

  delete_group-WellNamed : (actor : User) (slug : String) → WellNamed (delete_group actor slug db).1
  unfolding delete_group group_or_raise audit remove_group
  delete_group-WellNamed actor slug = elim (Option-cases (get_group slug db)) [
    | inl h ↦ rw h w
    | inr (g, h) ↦
        elim (Bool-cases (if g.created_by == actor.id then false else not (is_admin actor.role))) [
          | inl d ↦ rw (h, d) w
          | inr d ↦ rw (h, d) (remove_group-WellNamed db w g)
        ]
  ]

  -- What a change of members meets: it is refused, or the group and the agent are there.
  add_member-WellNamed :
      (actor : User) (group_slug agent_slug : String)
      → WellNamed (add_member actor group_slug agent_slug db).1
  unfolding add_member group_or_raise authorize_member_change audit add_group_member
  add_member-WellNamed actor group_slug agent_slug = elim (Option-cases (get_group group_slug db)) [
    | inl h ↦ rw h w
    | inr (g, h) ↦ elim (Option-cases (get_agent agent_slug db)) [
      | inl k ↦ rw (h, k) w
      | inr (a, k) ↦ elim (Bool-cases (manages actor a)) [
        | inr m ↦ rw (h, k, m) w
        | inl m ↦ elim (Bool-cases (in_members group_slug agent_slug db)) [
          | inl i ↦ rw (h, k, m, i) w
          | inr i ↦
              rw (h, k, m, i)
                (add_group_member-WellNamed db w group_slug agent_slug (rw h refl) (rw k refl))
        ]
      ]
    ]
  ]

  remove_member-WellNamed :
      (actor : User) (group_slug agent_slug : String)
      → WellNamed (remove_member actor group_slug agent_slug db).1
  unfolding remove_member group_or_raise authorize_member_change audit remove_group_member
  remove_member-WellNamed actor group_slug agent_slug =
      elim (Option-cases (get_group group_slug db)) [
        | inl h ↦ rw h w
        | inr (g, h) ↦ elim (Option-cases (get_agent agent_slug db)) [
          | inl k ↦ rw (h, k) w
          | inr (a, k) ↦ elim (Bool-cases (manages actor a)) [
            | inr m ↦ rw (h, k, m) w
            | inl m ↦ rw (h, k, m) (remove_group_member-WellNamed db w group_slug agent_slug)
          ]
        ]
      ]

serve-WellNamed : (c : NameCall) (db : Db) → WellNamed db → WellNamed (serve c db)
serve-WellNamed (creating_agent env owner slug display_name) db w =
    create_agent-WellNamed db w env owner slug display_name
serve-WellNamed (patching actor slug patch) db w = update_settings-WellNamed db w actor slug patch
serve-WellNamed (creating_group env actor slug display_name) db w =
    create_group-WellNamed db w env actor slug display_name
serve-WellNamed (deleting_group actor slug) db w = delete_group-WellNamed db w actor slug
serve-WellNamed (joining actor group_slug agent_slug) db w =
    add_member-WellNamed db w actor group_slug agent_slug
serve-WellNamed (leaving actor group_slug agent_slug) db w =
    remove_member-WellNamed db w actor group_slug agent_slug

-- From a database in which no slug names both an agent and a group, no reserved slug names either,
-- and every membership is of a group and an agent that are there, every sequence of calls of the
-- agent and group services leaves such a database.
pub serve_all-WellNamed :
    (calls : List NameCall) (db : Db) → WellNamed db → WellNamed (serve_all calls db)
serve_all-WellNamed [] db w = w
serve_all-WellNamed (c ∷ cs) db w = serve_all-WellNamed cs (serve c db) (serve-WellNamed c db w)
