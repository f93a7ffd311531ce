-- ===== src/Lib.antt =====
-- Ampla hub: the verification library of the message hub's core (hub/app).
--
-- The hub serves a web panel and agent daemons. Its services keep their state in one database; this
-- library models the services as functions on the record of the tables and proves what they promise.
--
-- Parts and files:
--   Rank      hub/app/services/kanban_rank.py: `rank_between`, `rebalance_ranks`, `max_rank_len`.
--             Rank/Order has the order of rank strings, Rank/Between and Rank/Rebalance the proofs.
--   Text      what the code takes from Python's strings: strip, str(int), int(str).
--   Mentions  hub/app/core/mentions.py: `parse_mentions`.
--   Models    the rows of hub/app/models and the vocabularies of hub/app/schemas.
--   Hub       the database record and the environment; Hub/Exec has the monad of a service call, with
--             the domain errors of hub/app/services/errors.py and the audit log.
--   Inbox     hub/app/services/notification_service.py and repositories/notification_repo.py: Gate
--             (what is delivered at which level), Repo (queries and writes), Notify (`notify`), Triage
--             (the other operations). Proofs: Subjects, Delivery, Keys, Threads.
--   Kanban    hub/app/services/kanban_service.py and repositories/kanban_repo.py: Tables and Cards
--             (the repository), Inputs (the request bodies of schemas/kanban.py), Access (visibility
--             and roles), Boards (boards and columns), Notices (who is notified), CardOps (cards and
--             comments), Move (the race-safe move), Deps, Sharing (members and grants), Agents,
--             Events (cards for delegations and escalations). Proofs: Reads, Visibility,
--             Graph, Cycles, Acyclic, Placement, Ranked, Moves, Present, Attempts, Moved, Appends,
--             Limits, Deletion, EventCards.
--   Messages  hub/app/services/message_service.py and its repositories: Repo, Effects (audit,
--             notifications and delegations of a sent message), Send, History (delivery and reading).
--             Origins (where a card came from). Proofs: Drafts, Guards.
--   Approvals hub/app/services/approval_service.py and its repository; the sender injected into the
--             service is an argument of `decide`. Proof: Decide.
--   Delegations hub/app/services/delegation_service.py and repositories/delegation_repo.py; the sender
--             injected into the service is an argument of `delegate`. Proofs: Kept, Cap.
--   Auth      hub/app/services/auth_service.py, core/security.py, repositories/user_repo.py and
--             invite_repo.py: Security, Repo, Accounts (setup, registration, invites), Login, Users
--             (roles, resets, profile). bcrypt, jwt, Pillow, the hashes, the random draws and the case
--             tables of Unicode are the record `Primitives`. Proofs: Lockout, Invites, Resets, Rows,
--             Governed, Calls, Steps, Admins.
--   Query     hub/app/core/notification_query.py. Proofs: Render, Tokens, Names, RoundTrip.
--   RateLimit hub/app/core/ratelimit.py. Proofs: Spec, Window, Refines, Bound, Bucket.
--   Schedules hub/app/services/scheduler.py (Outcomes, Cron, on the calendar of Calendar),
--             repositories/schedule_repo.py (Repo), services/schedule_service.py (Service),
--             scheduler_engine.py (Engine), admin_service.py (KillSwitch). `fromisoformat` and the
--             connections are arguments. Proofs: Times, Later, Loop, Renewed,
--             Tasks, Ticks.
--   Agents    hub/app/services/agent_service.py, group_service.py, repositories/agent_repo.py and
--             group_repo.py: Slugs (schemas/agent.py), Repo, Settings, Service, Groups. Proofs:
--             Names, Namespace, Calls, Broadcast, Keys.
--   Presets   hub/app/services/preset_service.py and repositories/guardrail_preset_repo.py. Proof:
--             Seeds.
--   Autorespond hub/app/services/autorespond_service.py and repositories/autorespond_repo.py: the
--             transcript of runs and their escalation. Proof: Recorded.
--   Sockets   hub/app/ws/connection_manager.py: the connections of agents and observers. Frames is
--             hub/app/schemas/ws.py; Server, Handlers and Route are the connection of a daemon in
--             hub/app/api/routes/ws.py (the shared state, the handlers of frames, the opening, the
--             loop and its end), Endpoint is `ws_endpoint` with the observers, and Panel the requests
--             of routes/agents.py, messages.py and admin.py that reach connections. Proofs:
--             Delivery, Registry, Kept, Steady, Holders, Leaving, Ends, Meter, Opening, Acks, Requests.
--   Races     calls that overlap: the calls `set_role`, `register`, `_move`, `commit_move` and `decide`
--             split into a first phase, which reads and checks, and a second, which writes; `race`
--             runs the other call's phases between. Admins, Invites, Moves, Slots, Decisions. Steps has
--             any number of calls as a step relation, and Places the moves under it.
--   Examples  a small hub, and each theorem at concrete arguments.
--
-- How the code is modelled: a service method is a function of the database that returns a result, an
-- exception or no return at all (`hung`), with the database it leaves. What was written before an
-- exception stays, since every repository write commits. KanbanService and NotificationService are
-- called as the composition of hub/app/api/deps.py builds them. The clock is read once for a call, and
-- a table is a list of its rows in the order of insertion. The database's choice of a new primary key
-- and the settings are arguments (`Env`), and so is whether a row that a rollback has expired can
-- still be read, which an AsyncSession refuses: `_move` reads its column again after a collision. A
-- unique index and a foreign key appear as the error that they raise.
--
-- Loops: `rank_between` runs on fuel, the lengths of both bounds and two; the search for cycles on the
-- number of dependencies and two; the search for the next cron time on the minutes of its horizon.
-- These are proved enough. All other loops are structural.
--
-- A connection is served as the list of what comes in on it, a text, a turn of the heartbeat or the
-- end of the client, each at its own moment; the handler of one runs to its end before the next.
--
-- Left out: the other routes and the schemas of answers, the frames that push a notification, the rest
-- of hub/app, the web panel and the bridge, which are other programs; the details of audit entries and
-- the texts of errors.
-- Outside Races a call runs alone; there, one call gives way to another between its two phases, as the
-- driver of SQLite opens a transaction at the first write only. Other points to give way are not
-- modelled.
pub mod Shared
pub mod Rank
pub mod Text
pub mod Mentions
pub mod Models
pub mod Hub
pub mod Inbox
pub mod Kanban
pub mod Messages
pub mod Approvals
pub mod Auth
pub mod Schedules
pub mod Agents
pub mod Races
pub mod Presets
pub mod Autorespond
pub mod Sockets
pub mod Query
pub mod RateLimit
pub mod Delegations
pub mod Examples
