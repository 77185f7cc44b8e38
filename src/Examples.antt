-- ===== src/Examples.antt =====
-- Concrete plans, claims and worlds, on which the theorems of the other modules are run.
pub mod Ticks
pub mod Lanes
pub mod Stores
pub mod States
pub mod Queues
pub mod Quotas
pub mod Watches
pub mod Resumes
pub mod Histories
pub mod Commands
pub mod Services
pub mod Notices
use end_of_line.Shared.{
  ℕ, String, Option, none, some, List, [], ◌∷◌, Bool, true, false, Result, ok, err,
}
use end_of_line.State.{
  Plan, Claim, Event, Blocker, PlanConfig, Stamp, at, running, event, phase_started,
}
use end_of_line.State.Claims.{fresh_claim, started_event}
use end_of_line.Store.{Row, Db}
use end_of_line.Store.Conditions.{unchecked}
use end_of_line.Quota.{Pause, readable}
use end_of_line.Supervisor.Work.{Config, World, Work}
use end_of_line.Supervisor.Delta.{empty_delta}
use end_of_line.Supervisor.Tree.{Proc}

-- 2000-01-01, in microseconds.
abbrev pub noon : ℕ
noon = 946684800000000

abbrev pub no_config : PlanConfig
no_config = record {
  lease_ttl_minutes = none;
  blocked_question_sla_hours = none;
  max_attempts_per_phase = none;
  max_spawns_per_phase = none;
  max_queue_adds_per_phase = none;
  stalled_heartbeat_minutes = none;
}

abbrev pub idle_plan : Plan
idle_plan = record {
  plan_slug = "demo";
  plan_dir = "docs";
  status = running;
  current_claim = none;
  blockers = [];
  spawned_tasks = [];
  config = no_config;
  phases = [];
  events = [];
  created_at = at 946684800;
  batch_id = none;
  worktree = none;
  extra = [];
}

-- A worker that claimed the phase an hour ago, with a pid.
abbrev pub old_claim : Claim
old_claim = record (fresh_claim 946681200000000 "tok" "a" 30 1) { pid = some 7 }

abbrev pub claimed_plan : Plan
claimed_plan = record idle_plan { current_claim = some old_claim }

abbrev pub open_blocker : Blocker
open_blocker = record {
  id = 1;
  phase_id = "a";
  kind = "question";
  question = "left or right?";
  options = "left" ∷ "right" ∷ [];
  context = "";
  asked_at = at 946000000;
  answer = none;
  answered_at = none;
  consumed = false;
  last_repinged_at = none;
  notify_metadata = [];
}

abbrev pub blocked_plan : Plan
blocked_plan = record idle_plan { blockers = open_blocker ∷ [] }

abbrev pub row_of : Plan → Row
row_of plan = record { plan = plan; version = 4; archived = [] }

abbrev pub db_of : Plan → Db
db_of plan = record { plans = ("demo", row_of plan) ∷ []; event_seq = 10 }

abbrev pub settings : Config
settings = record {
  stuck_tool_threshold = 600000000;
  stuck_tool_cpu_threshold = 5000000;
  worker_idle_window = 600000000;
  worker_idle_max_sample_gap = 120000000;
  worker_idle_min_samples = 5;
  worker_idle_cpu_delta_threshold = 1000000;
  coolant_enabled = true;
}

abbrev pub world : World
world = record {
  now = noon;
  tool_procs = [];
  idle_procs = [];
  worker_alive = λ claim slug. false;
  classify_log_tail = λ path. none;
  parse_reset = λ found. none;
  in_quiet_window = false;
  phases = "a" ∷ "b" ∷ [];
  gate_access = readable;
  minted = "tok2";
  store_error = none;
}

abbrev pub work_of : Plan → Work
work_of plan = record {
  plan = plan;
  delta = empty_delta unchecked plan.current_claim;
  side_notifies = [];
}
