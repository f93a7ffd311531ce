-- ===== src/Examples/ApprovalRuns.antt =====
-- The theorems on approvals at the small hub.
use ampla.Shared.{refl, none, some, [], ◌∷◌}
use ampla.Models.{Approval, pending, response}
use ampla.Hub.{Db}
use ampla.Hub.Exec.{pure}
use ampla.Approvals.{Sender, approve, decide}
use ampla.Approvals.Decide.{Decided, decide-Decided}
use ampla.Examples.{env, hub, rui}

abbrev pub draft : Approval
draft = record {
  id = 9;
  agent_slug = "bot";
  to_agent = "ana-agent";
  draft_body = "feito";
  trigger_message_id = none;
  status = pending;
  decided_by = none;
  decided_at = none;
  created_at = 40;
}

abbrev pub waiting_hub : Db
waiting_hub = record hub { approvals = draft ∷ [] }

-- A sender that returns the message without a store.
abbrev echo : Sender
echo from_slug to_slug body in_reply_to = pure (record {
  id = 1;
  from_agent = from_slug;
  to_agent = to_slug;
  body = body;
  type = response;
  priority = "normal";
  group_slug = none;
  thread_id = some 1;
  in_reply_to = in_reply_to;
  created_at = 50;
  delivered_at = none;
  expires_at = none;
})

decide-Decided_example :
    Decided rui 9 waiting_hub (decide echo env rui 9 approve (some "ok") waiting_hub)
decide-Decided_example =
    decide-Decided echo env rui 9 approve (some "ok") waiting_hub (λ f t b r db. refl)
