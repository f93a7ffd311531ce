-- ===== src/Agents/Groups.antt =====
-- hub/app/services/group_service.py
use Prim.Native.Char.{code}
use ampla.Shared.{
  String, false, not, ◌==◌, eq_string, eq_int, Option, none, some, List, map, select, nat_eq,
  if◌then◌else◌,
}
use ampla.Models.{User, Agent, Group, is_admin}
use ampla.Hub.{Db, Env}
use ampla.Hub.Exec.{
  Service, pure, gets, raise_if, or_raise, when, audit, ◌>>=◌, ◌>>◌, not_found, conflict,
  permission_denied, invalid_input,
}
use ampla.Kanban.Access.{get_agent}
use ampla.Approvals.{manages}
use ampla.Agents.Slugs.{is_reserved}
use ampla.Agents.Repo.{
  get_group, list_all_groups, add_group, remove_group, members_of, in_members, add_group_member,
  remove_group_member, list_all_agents,
}
use ampla.Agents.Service.{is_there}

unfoldable pub create_group : Env → User → String → String → Service Group
create_group env actor slug display_name = do
  raise_if (is_reserved slug) invalid_input
  group ← gets (get_group slug)
  raise_if (is_there group) conflict
  agent ← gets (get_agent slug)
  raise_if (is_there agent) conflict
  group ← add_group (record {
    slug = slug;
    display_name = display_name;
    created_by = actor.id;
    created_at = env.now;
  })
  audit "group_created" actor.email
  pure group

-- `_get`
unfoldable pub group_or_raise : String → Service Group
group_or_raise slug = do group ← gets (get_group slug); or_raise group not_found

unfoldable pub delete_group : User → String → Service Unit
unfolding group_or_raise
delete_group actor slug = do
  group ← group_or_raise slug
  raise_if (if group.created_by == actor.id then false else not (is_admin actor.role))
      permission_denied
  remove_group group
  audit "group_deleted" actor.email

abbrev with_members : Db → List (Group × List String)
with_members db = map (λ (g : Group). (g, members_of g.slug db)) (list_all_groups db)

unfoldable pub list_with_members : Service (List (Group × List String))
list_with_members = gets with_members

-- `_authorize_member_change`
unfoldable pub authorize_member_change : User → String → Service Unit
authorize_member_change actor agent_slug = do
  found ← gets (get_agent agent_slug)
  agent ← or_raise found not_found
  raise_if (not (manages actor agent)) permission_denied

unfoldable pub add_member : User → String → String → Service Unit
unfolding group_or_raise authorize_member_change
add_member actor group_slug agent_slug = do
  group_or_raise group_slug
  authorize_member_change actor agent_slug
  there ← gets (in_members group_slug agent_slug)
  when (not there)
      (add_group_member group_slug agent_slug >> audit "group_member_added" actor.email)

unfoldable pub remove_member : User → String → String → Service Unit
unfolding group_or_raise authorize_member_change
remove_member actor group_slug agent_slug = do
  group_or_raise group_slug
  authorize_member_change actor agent_slug
  remove_group_member group_slug agent_slug
  audit "group_member_removed" actor.email

-- ---- resolution for broadcast ----

-- `group_ref[1:]`, where it starts with `@`
abbrev pub group_name : String → Option String
group_name String.[] = none
group_name (String.◌∷◌ c s) = if nat_eq (code c) b'@' then some s else none

abbrev all_agents : Db → List String
all_agents db = map (λ (a : Agent). a.slug) (list_all_agents db)

abbrev pub slugs_named : String → Service (List String)
slugs_named name =
    if name == "all"
    then gets all_agents
    else gets (get_group name) >>= λ group. or_raise group not_found >> gets (members_of name)

unfoldable pub resolve_recipients : String → String → Service (List String)
resolve_recipients group_ref sender_slug = do
  name ← or_raise (group_name group_ref) invalid_input
  slugs ← slugs_named name
  pure (select (λ s. not (s == sender_slug)) slugs)
