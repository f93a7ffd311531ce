-- ===== src/Messages/Guards.antt =====
-- Which messages are stored (hub/app/services/message_service.py, `send`).
use ampla.Shared.{◌≡◌, eq_string, eq_nat, [], ◌∷◌, ◌++◌}
use ampla.Models.{Agent, Message}
use ampla.Hub.{Db, Env}
use ampla.Hub.Exec.{Result, ok, err, hung, ◌>>=◌}
use ampla.Messages.Send.{Draft}
use ampla.Messages.Drafts.{Sendable, Answers, Proper, InThread}

abbrev pub Stored : Env → Draft → Db → Result Message × Db → Type 0
Stored env d db (ok m, db') =
    (db'.messages ≡ db.messages ++ m ∷ [])
    × (m.from_agent ≡ d.from_slug)
    × (m.to_agent ≡ d.to_slug)
    × (m.body ≡ d.body)
    × InThread d m d.in_reply_to db
Stored env d db (err e, db') = (db' ≡ db) × ¬ (Answers d d.in_reply_to db)
Stored env d db (hung, db') = ⊥

-- The outcome of `send` up to the stored message: the message is the newest of the table, as drafted,
-- from a sendable draft and in its thread; or no message was stored.
abbrev pub Committed : Env → Draft → Db → Result (Agent × Message) × Db → Type 0
Committed env d db (ok (recipient, m), db') =
    Sendable env d db recipient × Stored env d db (ok m, db')
Committed env d db (err e, db') = (db'.messages ≡ db.messages) × ¬ (Proper env d db)
Committed env d db (hung, db') = ⊥
