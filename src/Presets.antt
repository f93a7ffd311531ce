-- ===== src/Presets.antt =====
-- Reusable guardrail settings (hub/app/services/preset_service.py, repositories/
-- guardrail_preset_repo.py).
pub mod Seeds
use ampla.Shared.{
  ℕ, String, Bool, true, false, not, ◌&&◌, ◌||◌, ◌==◌, eq_nat, eq_string, eq_int, Option, none,
  some, List, [], ◌∷◌, ◌++◌, ◌+◌, map, select, find_row, update_rows, order_by, option_beq,
  if◌then◌else◌,
}
use ampla.Models.{User, UserId, Agent, GuardrailPreset, PresetSettings, inbox_only, is_admin}
use ampla.Hub.{Db, Env}
use ampla.Hub.Exec.{
  Service, ok, pure, gets, raise_if, or_raise, audit, ◌>>=◌, ◌>>◌, not_found, conflict,
  permission_denied,
}
use ampla.Kanban.Access.{get_agent}
use ampla.Approvals.{manages}
use ampla.Agents.Slugs.{string_leb}
use ampla.Agents.Repo.{save_agent}
use ampla.Agents.Service.{is_there}

-- ---- BUILTIN_PRESETS (hub/app/schemas/preset.py) ----

abbrev strict : PresetSettings
strict = record {
  mode = inbox_only;
  max_auto_per_hour = 10;
  auto_timeout_secs = 120;
  allow_write = false;
  block_hidden_files = true;
  block_sensitive_paths = true;
  confine_to_dir = true;
  denied_paths = [];
  trusted_senders = [];
  require_approval = false;
  auto_paused = false;
  max_auto_tokens_per_day = none;
  max_auto_cost_usd_per_day = none;
}

abbrev pub builtin_presets : List (String × PresetSettings)
builtin_presets =
    ("Estrito (padrão)", strict)
    ∷ ("Leitura ampla", record strict { confine_to_dir = false })
    ∷ ("Escrita confinada", record strict { allow_write = true })
    ∷ (
      "Confiável (perigo)",
      record strict {
        allow_write = true;
        block_hidden_files = false;
        block_sensitive_paths = false;
        confine_to_dir = false;
      },
    )
    ∷ []

-- ---- the repository ----

abbrev preset_id : ℕ → GuardrailPreset → Bool
preset_id id p = p.id == id

unfoldable pub add_preset : GuardrailPreset → Service GuardrailPreset
add_preset p db = (ok p, record db { presets = db.presets ++ p ∷ [] })

unfoldable pub save_preset : GuardrailPreset → Service Unit
save_preset p db = (ok tt, record db { presets = update_rows (preset_id p.id) (λ _. p) db.presets })

unfoldable pub delete_preset_row : GuardrailPreset → Service Unit
delete_preset_row p db =
    (ok tt, record db { presets = select (λ q. not (preset_id p.id q)) db.presets })

abbrev get_preset : ℕ → Db → Option GuardrailPreset
get_preset id db = find_row (preset_id id) db.presets

-- The name among the presets of an owner; without an owner, among the built-in ones.
abbrev pub preset_named : Option UserId → String → Db → Option GuardrailPreset
preset_named owner_id name db =
    find_row (λ (p : GuardrailPreset). option_beq p.owner_id owner_id && p.name == name) db.presets

abbrev pub is_builtin : GuardrailPreset → Bool
is_builtin p = option_beq p.owner_id none

-- Built-in presets first, then by name.
abbrev builtin_first : GuardrailPreset → GuardrailPreset → Bool
builtin_first a b =
    if is_builtin a
    then (if is_builtin b then string_leb a.name b.name else true)
    else if is_builtin b
    then false
    else string_leb a.name b.name

unfoldable pub visible_presets : UserId → Db → List GuardrailPreset
visible_presets owner_id db = order_by builtin_first (
    select (λ (p : GuardrailPreset). is_builtin p || option_beq p.owner_id (some owner_id))
      db.presets)

-- ---- the service ----

abbrev pub new_preset : Env → Option UserId → String → PresetSettings → Db → GuardrailPreset
new_preset env owner_id name settings db = record {
  id = env.new_id (map (λ (p : GuardrailPreset). p.id) db.presets);
  owner_id = owner_id;
  name = name;
  settings = settings;
  created_at = env.now;
}

-- One turn of the loop of `ensure_builtins`: the presets it creates.
abbrev pub ensure_builtin : Env → String → PresetSettings → Service ℕ
ensure_builtin env name settings = do
  found ← gets (preset_named none name)
  if is_there found
      then pure 0
      else (do row ← gets (new_preset env none name settings); add_preset row; pure 1)

unfoldable pub ensure_all : Env → List (String × PresetSettings) → Service ℕ
ensure_all env [] = pure 0
ensure_all env ((name, settings) ∷ rest) = do
  one ← ensure_builtin env name settings
  more ← ensure_all env rest
  pure (one + more)

unfoldable pub ensure_builtins : Env → Service ℕ
ensure_builtins env = ensure_all env builtin_presets

unfoldable pub list_presets : User → Service (List GuardrailPreset)
list_presets user = gets (visible_presets user.id)

unfoldable pub create_preset : Env → User → String → PresetSettings → Service GuardrailPreset
create_preset env user name settings = do
  found ← gets (preset_named (some user.id) name)
  raise_if (is_there found) conflict
  row ← gets (new_preset env (some user.id) name settings)
  preset ← add_preset row
  audit "preset_created" user.email
  pure preset

-- `_mutable`
unfoldable pub mutable : User → ℕ → Service GuardrailPreset
mutable user id = do
  found ← gets (get_preset id)
  preset ← or_raise found not_found
  raise_if (not (is_admin user.role || option_beq preset.owner_id (some user.id))) permission_denied
  pure preset

abbrev or_old {ℓ} : {A : Type ℓ} → Option A → A → A
or_old none old = old
or_old (some new) old = new

abbrev renames : Option String → GuardrailPreset → Bool
renames none p = false
renames (some name) p = not (name == p.name)

abbrev clashes : Option String → GuardrailPreset → Db → Bool
clashes name p db = renames name p && is_there (preset_named p.owner_id (or_old name p.name) db)

abbrev revised : Option String → Option PresetSettings → GuardrailPreset → GuardrailPreset
revised name settings p = record p {
  name = or_old name p.name;
  settings = or_old settings p.settings;
}

unfoldable pub update_preset :
    User → ℕ → Option String → Option PresetSettings → Service GuardrailPreset
update_preset user id name settings = do
  preset ← mutable user id
  clash ← gets (clashes name preset)
  raise_if clash conflict
  save_preset (revised name settings preset)
  audit "preset_updated" user.email
  pure (revised name settings preset)

unfoldable pub delete_preset : User → ℕ → Service Unit
delete_preset user id = do
  preset ← mutable user id
  delete_preset_row preset
  audit "preset_deleted" user.email

-- Built-in, one's own, or any for an administrator.
abbrev readable : User → GuardrailPreset → Bool
readable user p = is_builtin p || (option_beq p.owner_id (some user.id) || is_admin user.role)

-- `setattr` of every field of the settings
abbrev pub with_settings : PresetSettings → Agent → Agent
with_settings s a = record a {
  mode = s.mode;
  max_auto_per_hour = s.max_auto_per_hour;
  auto_timeout_secs = s.auto_timeout_secs;
  allow_write = s.allow_write;
  block_hidden_files = s.block_hidden_files;
  block_sensitive_paths = s.block_sensitive_paths;
  confine_to_dir = s.confine_to_dir;
  denied_paths = s.denied_paths;
  trusted_senders = s.trusted_senders;
  require_approval = s.require_approval;
  auto_paused = s.auto_paused;
  max_auto_tokens_per_day = s.max_auto_tokens_per_day;
  max_auto_cost_usd_per_day = s.max_auto_cost_usd_per_day;
}

unfoldable pub apply : User → String → ℕ → Service Agent
apply user slug id = do
  found ← gets (get_preset id)
  preset ← or_raise found not_found
  raise_if (not (readable user preset)) not_found
  known ← gets (get_agent slug)
  agent ← or_raise known not_found
  raise_if (not (manages user agent)) permission_denied
  save_agent (with_settings preset.settings agent)
  audit "preset_applied" user.email
  pure (with_settings preset.settings agent)
