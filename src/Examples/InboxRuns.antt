-- ===== src/Examples/InboxRuns.antt =====
-- The theorems on notifications at the small hub.
use ampla.Shared.{refl, none, pos, arith}
use ampla.Models.{mention, Reason}
use ampla.Inbox.Notify.{Event, notify}
use ampla.Inbox.Delivery.{Delivered, notify-Delivered}
use ampla.Inbox.Keys.{IsThreaded}
use ampla.Inbox.Threads.{notify-IsThreaded}
use ampla.Examples.{env, env-FreshIds, hub}

abbrev event : Reason → Event
event reason = record {
  subject_type = "kanban_card";
  subject_key = "kanban:card:100";
  reason = reason;
  title = "Card";
  link = "/";
  actor = "user:2";
  agent_slug = none;
}

notify-Delivered_example :
    Delivered env (pos 1) (event mention) hub (notify env (pos 1) (event mention) hub)
notify-Delivered_example = notify-Delivered env (pos 1) (event mention) hub refl (omega arith)

notify-IsThreaded_example : IsThreaded (notify env (pos 1) (event mention) hub).1
notify-IsThreaded_example = notify-IsThreaded env (pos 1) (event mention) hub env-FreshIds (tt, tt)
