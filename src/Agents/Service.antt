-- ===== src/Agents/Service.antt =====
-- hub/app/services/agent_service.py, with its GroupRepository, as hub/app/api/deps.py builds it.
use ampla.Shared.{
  String, Bool, true, false, not, ◌&&◌, ◌==◌, eq_string, Option, none, some, List, [], ◌∷◌, map, ℕ,
  if◌then◌else◌,
}
use ampla.Text.{is_empty}
use ampla.Models.{User, Agent, AgentKey, inbox_only}
use ampla.Hub.{Db, Env}
use ampla.Hub.Exec.{
  Service, pure, gets, raise_if, or_raise, when, audit, ◌>>=◌, ◌>>◌, not_found, conflict,
  permission_denied, invalid_input,
}
use ampla.Kanban.Access.{get_agent}
use ampla.Approvals.{manages}
use ampla.Auth.Security.{Primitives, generate_agent_key, hash_agent_key}
use ampla.Auth.Repo.{is_unused}
use ampla.Agents.Slugs.{is_slug, is_reserved}
use ampla.Agents.Repo.{
  list_by_user, list_all_agents, add_agent, save_agent, add_key, get_key_by_hash, get_key,
  list_agent_keys, save_key, get_group,
}
use ampla.Agents.Settings.{AgentSettingsUpdate, valid_senders, present_slugs, patched}

-- The row with its defaults (hub/app/models/agent.py).
abbrev pub new_agent : Env → User → String → String → Agent
new_agent env owner slug display_name = record {
  slug = slug;
  user_id = owner.id;
  display_name = display_name;
  created_at = env.now;
  mode = inbox_only;
  allowed_senders = none;
  max_auto_per_hour = 10;
  auto_timeout_secs = 120;
  instructions = "";
  allow_write = false;
  block_hidden_files = true;
  block_sensitive_paths = true;
  confine_to_dir = true;
  denied_paths = [];
  trusted_senders = [];
  auto_paused = false;
  max_auto_tokens_per_day = none;
  max_auto_cost_usd_per_day = none;
  require_approval = false;
  auto_schedule = none;
  escalate_on = "failed" ∷ "blocked" ∷ [];
}

-- `is not None`
abbrev pub is_there {ℓ} : {A : Type ℓ} → Option A → Bool
is_there none = false
is_there (some a) = true

unfoldable pub create_agent : Env → User → String → String → Service Agent
create_agent env owner slug display_name = do
  raise_if (not (is_slug slug)) invalid_input
  raise_if (is_reserved slug) invalid_input
  agent ← gets (get_agent slug)
  raise_if (is_there agent) conflict
  group ← gets (get_group slug)
  raise_if (is_there group) conflict
  agent ← add_agent (new_agent env owner slug display_name)
  audit "agent_created" owner.email
  pure agent

unfoldable pub list_for_user : User → Service (List Agent)
list_for_user user = gets (list_by_user user.id)

unfoldable pub list_all : Service (List Agent)
list_all = gets list_all_agents

unfoldable pub get_owned : User → String → Service Agent
get_owned actor slug = do
  found ← gets (get_agent slug)
  agent ← or_raise found not_found
  raise_if (not (manages actor agent)) permission_denied
  pure agent

-- The row is written once, after all the checks.
unfoldable pub update_settings : User → String → AgentSettingsUpdate → Service Agent
unfolding get_owned
update_settings actor slug patch = do
  agent ← get_owned actor slug
  raise_if (not (valid_senders patch)) invalid_input
  raise_if (not (present_slugs patch.trusted_senders)) invalid_input
  save_agent (patched patch agent)
  audit "settings_changed" actor.email
  pure (patched patch agent)

-- ---- keys ----

abbrev pub new_key : Primitives → Env → Agent → String → Db → AgentKey
new_key p env agent label db = record {
  id = env.new_id (map (λ (k : AgentKey). k.id) db.keys);
  agent_slug = agent.slug;
  key_hash = hash_agent_key p (generate_agent_key p);
  label = label;
  created_at = env.now;
  revoked_at = none;
}

unfoldable pub create_key : Primitives → Env → User → String → String → Service (AgentKey × String)
unfolding get_owned
create_key p env actor slug label = do
  agent ← get_owned actor slug
  row ← gets (new_key p env agent label)
  key ← add_key row
  audit "key_created" actor.email
  pure (key, generate_agent_key p)

unfoldable pub list_keys : User → String → Service (List AgentKey)
unfolding get_owned
list_keys actor slug = do get_owned actor slug; gets (list_agent_keys slug)

abbrev pub revoked : Env → AgentKey → AgentKey
revoked env k = if is_unused k.revoked_at then record k { revoked_at = some env.now } else k

unfoldable pub revoke_key : Env → User → String → ℕ → Service AgentKey
unfolding get_owned
revoke_key env actor slug id = do
  get_owned actor slug
  found ← gets (get_key id)
  key ← or_raise found not_found
  raise_if (not (key.agent_slug == slug)) not_found
  when (is_unused key.revoked_at) (save_key (revoked env key) >> audit "key_revoked" actor.email)
  pure (revoked env key)

-- The slug of the agent that a key opens, if it opens the agent that is claimed.
abbrev pub opens : String → Option AgentKey → Bool
opens agent_id none = false
opens agent_id (some k) = is_unused k.revoked_at && k.agent_slug == agent_id

-- `agent_id or "?"`
abbrev claimed_name : String → String
claimed_name agent_id = if is_empty agent_id then "?" else agent_id

unfoldable pub authenticate_key : Primitives → String → String → Service (Option Agent)
authenticate_key p agent_id key = do
  found ← gets (get_key_by_hash (hash_agent_key p key))
  if opens agent_id found
      then gets (get_agent agent_id)
      else audit "ws_auth_fail" (claimed_name agent_id) >> pure none
