-- ===== src/Examples/DelegationRuns.antt =====
-- The theorems on delegations at the small hub.
use ampla.Shared.{ℕ, zero, suc, ◌≤◌, none, some, List, [], ◌∷◌, arith}
use ampla.Models.{Delegation, open_, task}
use ampla.Hub.{Db}
use ampla.Hub.Exec.{pure}
use ampla.Delegations.{TaskSender, count_open_from, max_open, delegate}
use ampla.Delegations.Cap.{delegate-capped}
use ampla.Examples.{env, hub}

-- That many delegations of the bot, with the keys below.
abbrev handed : ℕ → List Delegation
handed zero = []
handed (suc n) =
    record {
      id = n;
      from_agent = "bot";
      to_agent = "ana-agent";
      task = "revisar";
      root_message_id = none;
      result_message_id = none;
      status = open_;
      created_at = n;
      updated_at = n;
    }
    ∷ handed n

abbrev hub_with : ℕ → Db
hub_with n = record hub { delegations = handed n }

-- A sender that returns the task without a store.
abbrev echo_task : TaskSender
echo_task from_slug to body = pure (record {
  id = 1;
  from_agent = from_slug;
  to_agent = to;
  body = body;
  type = task;
  priority = "normal";
  group_slug = none;
  thread_id = some 1;
  in_reply_to = none;
  created_at = 50;
  delivered_at = none;
  expires_at = none;
})

le_refl : (n : ℕ) → n ≤ n
le_refl n = omega arith

open_19 : count_open_from "bot" (hub_with 19) ≤ max_open
unfolding count_open_from
open_19 = omega arith

open_20 : max_open ≤ count_open_from "bot" (hub_with 20)
unfolding count_open_from
open_20 = omega arith

delegate-capped_example :
    count_open_from "bot" (delegate echo_task env "bot" "ana-agent" "revisar" "" (hub_with 19)).1
    ≤ max_open
delegate-capped_example =
    delegate-capped echo_task env "bot" "ana-agent" "revisar" "" (hub_with 19)
      (λ to body db. le_refl (count_open_from "bot" db)) open_19
