-- ===== src/Agents/Repo.antt =====
-- hub/app/repositories/agent_repo.py and group_repo.py. `AgentRepository.get` stands in Kanban/Access.
use ampla.Shared.{
  ℕ, String, Bool, not, ◌&&◌, ◌==◌, eq_nat, eq_string, eq_int, Option, List, [], ◌∷◌, ◌++◌, map,
  select, find_row, update_rows, order_by, any, leb,
}
use ampla.Models.{Agent, AgentKey, Group, GroupMember, UserId}
use ampla.Hub.{Db}
use ampla.Hub.Exec.{Service, ok}
use ampla.Agents.Slugs.{string_leb}

-- ---- agents ----

abbrev pub agent_named : String → Agent → Bool
agent_named slug a = a.slug == slug

abbrev pub by_agent_slug : Agent → Agent → Bool
by_agent_slug a b = string_leb a.slug b.slug

unfoldable pub list_by_user : UserId → Db → List Agent
list_by_user user_id db =
    order_by by_agent_slug (select (λ (a : Agent). a.user_id == user_id) db.agents)

unfoldable pub list_all_agents : Db → List Agent
list_all_agents db = order_by by_agent_slug db.agents

unfoldable pub add_agent : Agent → Service Agent
add_agent a db = (ok a, record db { agents = db.agents ++ a ∷ [] })

unfoldable pub save_agent : Agent → Service Unit
save_agent a db =
    (ok tt, record db { agents = update_rows (agent_named a.slug) (λ _. a) db.agents })

-- ---- keys ----

abbrev pub key_id : ℕ → AgentKey → Bool
key_id id k = k.id == id

abbrev pub hashed : String → AgentKey → Bool
hashed key_hash k = k.key_hash == key_hash

unfoldable pub add_key : AgentKey → Service AgentKey
add_key k db = (ok k, record db { keys = db.keys ++ k ∷ [] })

abbrev pub get_key_by_hash : String → Db → Option AgentKey
get_key_by_hash key_hash db = find_row (hashed key_hash) db.keys

abbrev pub get_key : ℕ → Db → Option AgentKey
get_key id db = find_row (key_id id) db.keys

unfoldable pub list_agent_keys : String → Db → List AgentKey
list_agent_keys agent_slug db =
    order_by (λ (a b : AgentKey). leb b.created_at a.created_at)
      (select (λ (k : AgentKey). k.agent_slug == agent_slug) db.keys)

unfoldable pub save_key : AgentKey → Service Unit
save_key k db = (ok tt, record db { keys = update_rows (key_id k.id) (λ _. k) db.keys })

-- ---- groups ----

abbrev pub group_named : String → Group → Bool
group_named slug g = g.slug == slug

abbrev pub get_group : String → Db → Option Group
get_group slug db = find_row (group_named slug) db.groups

unfoldable pub list_all_groups : Db → List Group
list_all_groups db = order_by (λ (a b : Group). string_leb a.slug b.slug) db.groups

unfoldable pub add_group : Group → Service Group
add_group g db = (ok g, record db { groups = db.groups ++ g ∷ [] })

abbrev pub in_group : String → GroupMember → Bool
in_group slug m = m.group_slug == slug

-- The members go with the group.
unfoldable pub remove_group : Group → Service Unit
remove_group g db = (
  ok tt,
  record db {
    group_members = select (λ m. not (in_group g.slug m)) db.group_members;
    groups = select (λ h. not (group_named g.slug h)) db.groups;
  },
)

unfoldable pub members_of : String → Db → List String
members_of group_slug db =
    order_by string_leb
      (map (λ (m : GroupMember). m.agent_slug) (select (in_group group_slug) db.group_members))

abbrev pub membership : String → String → GroupMember → Bool
membership group_slug agent_slug m = in_group group_slug m && m.agent_slug == agent_slug

abbrev pub in_members : String → String → Db → Bool
in_members group_slug agent_slug db = any (membership group_slug agent_slug) db.group_members

unfoldable pub add_group_member : String → String → Service Unit
add_group_member group_slug agent_slug db = (
  ok tt,
  record db {
    group_members =
        db.group_members ++ record { group_slug = group_slug; agent_slug = agent_slug } ∷ [];
  },
)

unfoldable pub remove_group_member : String → String → Service Unit
remove_group_member group_slug agent_slug db = (
  ok tt,
  record db {
    group_members = select (λ m. not (membership group_slug agent_slug m)) db.group_members;
  },
)
