-- ===== src/Examples/AgentRuns.antt =====
-- The theorems on agents, their keys and groups at the small hub.
use ampla.Shared.{length, some, false, ◌≡◌, refl, none, List, [], ◌∷◌}
use ampla.Models.{AgentKey, skipped}
use ampla.Hub.{Db}
use ampla.Text.{show, show_int}
use ampla.Inbox.Gate.{should_deliver}
use ampla.Inbox.Repo.{add, get_by_subject, count_created_since}
use ampla.Kanban.Tables.{first_board_with_flag}
use ampla.Inbox.Notify.{notify, pass_subscription, open_thread, publish, rate_capped}
use ampla.Kanban.Events.{create_card_for_event}
use ampla.Autorespond.{
  AutorespondRecord, record_run, add_run, maybe_escalate, escalate, escalation_title,
}
use ampla.Autorespond.Recorded.{Recorded}
use ampla.Hub.Exec.{ok, audit}
use ampla.Agents.Slugs.{is_slug, string_leb}
use ampla.Agents.Repo.{add_agent, add_group, add_group_member, members_of, save_key}
use ampla.Agents.Service.{create_agent, create_key, revoke_key, authenticate_key, get_owned}
use ampla.Agents.Groups.{
  create_group, add_member, group_or_raise, authorize_member_change, resolve_recipients,
}
use ampla.Agents.Namespace.{WellNamed}
use ampla.Agents.Calls.{
  NameCall, creating_agent, creating_group, joining, serve_all, serve_all-WellNamed,
}
use ampla.Agents.Broadcast.{Resolved, resolve_recipients-Resolved}
use ampla.Agents.Keys.{Opens, create_key-Opens}
use ampla.Examples.{env, hub, ana, rui}
use ampla.Examples.AuthRuns.{plain_libraries}

abbrev nameless : Db
nameless = record hub { agents = []; groups = []; group_members = [] }

nameless-WellNamed : WellNamed nameless
nameless-WellNamed = (λ slug. (refl, λ r. (refl, refl)), tt)

-- The last call is refused: its slug names a group.
abbrev calls : List NameCall
calls =
    creating_agent env ana "api-ana" "Api"
    ∷ creating_agent env rui "web-rui" "Web"
    ∷ creating_group env ana "time-web" "Time"
    ∷ joining rui "time-web" "web-rui"
    ∷ joining ana "time-web" "api-ana"
    ∷ creating_agent env rui "time-web" "Time"
    ∷ []

serve_all-WellNamed_example : WellNamed (serve_all calls nameless)
serve_all-WellNamed_example = serve_all-WellNamed calls nameless nameless-WellNamed

resolve_recipients-Resolved_example :
    Resolved "@time-web" "api-ana"
      (serve_all calls nameless)
      (resolve_recipients "@time-web" "api-ana" (serve_all calls nameless))
resolve_recipients-Resolved_example =
    resolve_recipients-Resolved "@time-web" "api-ana" (serve_all calls nameless)
      (serve_all-WellNamed calls nameless nameless-WellNamed)

resolved_names :
    (resolve_recipients "@time-web" "api-ana" (serve_all calls nameless)).0 ≡ ok ("web-rui" ∷ [])
unfolding resolve_recipients create_agent create_group add_member group_or_raise
    authorize_member_change add_agent add_group add_group_member members_of is_slug string_leb audit
resolved_names = refl

abbrev pub key : AgentKey
key = record {
  id = 4;
  agent_slug = "bot";
  key_hash = "amp_11";
  label = "";
  created_at = 10;
  revoked_at = none;
}

abbrev pub keyed : Db
keyed = record hub { keys = key ∷ [] }

create_key-Opens_example :
    Opens plain_libraries "bot" keyed (create_key plain_libraries env rui "bot" "laptop" keyed)
create_key-Opens_example = create_key-Opens plain_libraries env rui "bot" "laptop" keyed refl

revocation :
    (authenticate_key plain_libraries "bot" "amp_11" (revoke_key env rui "bot" 4 keyed).1).0
    ≡ ok none
unfolding authenticate_key revoke_key get_owned save_key audit
revocation = refl

-- ---- a reported run ----

abbrev report : AutorespondRecord
report = record {
  trigger_message_id = some 3;
  from_sender = "web-rui";
  result = skipped;
  reason = some "escalate";
  reply_preview = "";
  tools_allowed = "";
  tools_disallowed = "";
  duration_ms = 900;
  timed_out = false;
  input_tokens = none;
  output_tokens = none;
  cost_usd = none;
}

-- The sentinel escalates although the owner opted into nothing.
escalated : length (record_run env "bot" report hub).1.notifications ≡ 2
unfolding record_run add_run maybe_escalate escalate create_card_for_event notify pass_subscription
    open_thread publish add get_by_subject rate_capped should_deliver escalation_title show show_int
    count_created_since first_board_with_flag
escalated = refl
