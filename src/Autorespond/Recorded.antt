-- ===== src/Autorespond/Recorded.antt =====
-- A reported run is always stored (hub/app/services/autorespond_service.py, `record_run`).
use ampla.Shared.{◌≡◌, String, Bool, false, some, [], ◌∷◌, ◌++◌}
use ampla.Models.{Agent, AutorespondRun}
use ampla.Hub.{Db, Env}
use ampla.Hub.Exec.{Result, ok, err, hung, ◌>>=◌}
use ampla.Kanban.Access.{get_agent}
use ampla.Kanban.Ranked.{Ranked}
use ampla.Kanban.EventCards.{Returned}
use ampla.Autorespond.{AutorespondRecord, opted_in, escalation_outcome}

-- The notification leaves cards and runs alone, and returns.
abbrev Beside : {A : Type 0} → Db → Result A × Db → Type 0
Beside db r = (r.1.cards ≡ db.cards) × (r.1.runs ≡ db.runs) × Returned r

-- ---- the escalation ----

-- The call returns without an exception, and keeps the runs.
abbrev Finished : Db → Result Unit × Db → Type 0
Finished db (ok u, now) = now.runs ≡ db.runs
Finished db (err e, now) = ⊥
Finished db (hung, now) = ⊥

-- ---- the run ----

-- No outcome of the record is escalated: there is none, or the agent is not there, or its owner did
-- not opt into it and it is not forced.
abbrev pub Unescalated : String → AutorespondRecord → Db → Type 0
Unescalated agent_slug r db =
    (token : String) (forced : Bool) (a : Agent)
    → escalation_outcome r ≡ some (token, forced)
    → get_agent agent_slug db ≡ some a
    → opted_in token forced a ≡ false

-- The run is that of the socket's agent, at the time of the call, with everything reported.
abbrev pub Reports : Env → String → AutorespondRecord → AutorespondRun → Type 0
Reports env agent_slug r run =
    (run.agent_slug ≡ agent_slug)
    × (run.created_at ≡ env.now)
    × (run.trigger_message_id ≡ r.trigger_message_id)
    × (run.from_sender ≡ r.from_sender)
    × (run.result ≡ r.result)
    × (run.reason ≡ r.reason)
    × (run.reply_preview ≡ r.reply_preview)
    × (run.tools_allowed ≡ r.tools_allowed)
    × (run.tools_disallowed ≡ r.tools_disallowed)
    × (run.duration_ms ≡ r.duration_ms)
    × (run.timed_out ≡ r.timed_out)
    × (run.input_tokens ≡ r.input_tokens)
    × (run.output_tokens ≡ r.output_tokens)
    × (run.cost_usd ≡ r.cost_usd)

-- The run is stored last, with the slug of the socket; nothing else is written where nothing is
-- escalated.
abbrev pub Recorded : Env → String → AutorespondRecord → Db → Result AutorespondRun × Db → Type 0
Recorded env agent_slug r db (ok run, after) =
    Reports env agent_slug r run
    × (after.runs ≡ db.runs ++ run ∷ [])
    × (Unescalated agent_slug r db → after ≡ record db { runs = db.runs ++ run ∷ [] })
Recorded env agent_slug r db (err e, after) = ⊥
Recorded env agent_slug r db (hung, after) = ⊥
