-- ===== src/Examples/MessageRuns.antt =====
-- The theorems on messages at the small hub.
use ampla.Shared.{none, some, [], ◌∷◌, eq_nat}
use ampla.Models.{Message, request}
use ampla.Hub.{Db}
use ampla.Messages.Send.{Draft}
use ampla.Examples.{hub}

abbrev hello : Message
hello = record {
  id = 8;
  from_agent = "ana-agent";
  to_agent = "bot";
  body = "oi";
  type = request;
  priority = "normal";
  group_slug = none;
  thread_id = some 8;
  in_reply_to = none;
  created_at = 30;
  delivered_at = none;
  expires_at = none;
}

abbrev mail_hub : Db
mail_hub = record hub { messages = hello ∷ [] }

abbrev answer : Draft
answer = record {
  from_slug = "ana-agent";
  to_slug = "bot";
  body = "tudo bem?";
  type = request;
  priority = "normal";
  in_reply_to = some 8;
  group = none;
}
