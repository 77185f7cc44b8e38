-- ===== src/Lib.antt =====
-- The plan supervisor of end_of_line: the state of a plan, the store of plans, the tick that drives
-- it, the commands of workers and operators, the quota pause, the queue, the inbox, the registry, the
-- heartbeat daemon and the rules across plans.
--
-- Parts and their files:
-- State (end_of_line/state.py, state_blocker.py): the plan document and its parts as records. State/Claims
--   has claim_phase, the leases and heartbeats; State/Attempts the projections of the event log, with
--   attempts_for_phase; State/Idle the evidence of the idle watchdog; State/Blockers the questions and
--   their answers; State/Slug the name pattern.
-- Store (end_of_line/plan_store.py): the rows of the plans, their event counter, and the transactions
--   on them. Store/Transaction is `_plan_txn` with the compare-and-set on the claim; Store/ClaimOps and
--   Store/PlanOps are the operations `op_*`; Store/Conditions is `TickPreconditions` with
--   `_assert_preconditions`; Store/Apply is `apply_tick_delta`; Store/Log is about the event ids;
--   Store/Head is `op_set_fields` and `events_after`. Store/History is about runs: any sequence of the
--   operations and the ticks, by any number of processes.
-- Supervisor (end_of_line/supervisor.py): Supervisor/Delta is `TickDelta`; Supervisor/Tree the process
--   tree; Supervisor/Work the state of one tick, with `World` for what it reads outside the database;
--   Supervisor/Watchdogs the four emitters; Supervisor/Deaths and Supervisor/Lane the chain of `tick`;
--   Supervisor/Tick the chain in order and `_commit`.
-- Command (end_of_line/cli.py): Command/Status is pause, resume, retry, extend-lease and release-claim;
--   Command/Completion is complete, with force-complete in Completion/Force; Command/Callbacks the
--   reports of a worker; Command/Deaths is notify-worker-dead; Command/Chaining the worker's queue add.
-- Dispatch (end_of_line/dispatch.py): the start of a worker for the claim that a tick made.
-- Heartbeat (end_of_line/heartbeat_daemon.py): one tick of the daemon and its loop. Inbox
--   (end_of_line/inbox.py): the events shown to a session. Registry (end_of_line/registry.py): the plans
--   of the host. Rules (end_of_line/cross_plan_rules.py): the chain of rules over a project's plans.
-- Notify (end_of_line/notify.py): the quiet hours and the delivery of a notification.
-- Replies (end_of_line/notify_base.py, end_of_line/state_locator.py): the blocker that a reply answers.
-- Quota (end_of_line/quota.py): the pause row and its gate. Queue (end_of_line/queue.py): the waiting
--   plans and the history.
-- Shared: tests, lists, results and integers that the parts share. Examples: concrete inputs.
-- The supervisor reads a snapshot from the store, decides on it, and hands the store a delta with the
-- facts that the decision rested on; the store writes all of it under these facts, or none of it.
-- A command reads a snapshot, decides on it and writes later. It takes the store of its snapshot and
-- that of its write as two arguments, and where it writes twice a function `others` stands for what
-- other processes do in between. What it is told from outside, the clock, git, the log classifier and
-- the plan file, is in the records Surroundings, Scene, Chain and Site. The heartbeat daemon meets the
-- store anew at each tick, as a list of moments. The registry and the inbox resolve paths by a function.
--
-- Conventions: an instant and a duration are counts of microseconds; a timestamp column has whole
-- seconds or a text that is no timestamp. Ages are compared with the subtrahend on the other side. One
-- tick reads its clock once in the model, and several times in the program. Ids of the form q-n and
-- task-n are their numbers. A transaction that raises has no new database. A
-- store that is busy or broken is an input where the code answers to it or lets it through, in the tick,
-- the start of a worker, the report of a death and the gate; elsewhere its errors are left out. The text of a notification,
-- an inbox row or a result is represented by what it is rendered from. The walk over the process tree
-- runs on fuel, one round more than there are processes, which is enough.
--
-- Not modelled: processes, signals and git; the rendering of messages and their transport; the plan-file
-- parser, whose list of phases is an input; the classifier of worker logs and the parser of reset
-- times, which are functions of `World`; the dashboards; the commands that set up, ship and archive
-- plans; the rules on worktree conflicts and dry merges; the sweep of zombie plans; the JSON form of
-- the columns.
pub mod Shared
pub mod State
pub mod Store
pub mod Quota
pub mod Queue
pub mod Supervisor
pub mod Command
pub mod Dispatch
pub mod Inbox
pub mod Heartbeat
pub mod Registry
pub mod Rules
pub mod Notify
pub mod Replies
pub mod Examples
